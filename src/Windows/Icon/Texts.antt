-- ===== src/Windows/Icon/Texts.antt =====
-- The texts of a balloon in the arrays of `NotifyIconData`.
use go_notify.Base.{
  ℕ, zero, suc, ◌<◌, ◌≤◌, ◌≡◌, ◌⊎◌, inl, inr, refl, ap, ◌∙◌, subst, List, [], ◌∷◌, ◌++◌, some,
  arith, length, take, drop, sym,
}
use go_notify.Windows.Data.{Data, copy, System}
use go_notify.Windows.Icon.{fine, Notification, notify_data}
use go_notify.Windows.Icon.Balloon.{notify_data-Balloon}

-- A text `t` stands in an array with the NUL behind it, or it does not fit and is cut off at the end
-- of the array, without a NUL.
abbrev pub Placed : List ℕ → List ℕ → List ℕ → Type 0
Placed s t r =
    ((length t < length s) × (r ≡ t ++ 0 ∷ drop (suc (length t)) s))
    ⊎ ((length s ≤ length t) × (r ≡ take (length s) t))

drop-nil : (n : ℕ) → drop {A = ℕ} n [] ≡ []
drop-nil zero = refl
drop-nil (suc n) = refl

take-nil : (n : ℕ) → take {A = ℕ} n [] ≡ []
take-nil zero = refl
take-nil (suc n) = refl

copy-Placed : (s t : List ℕ) → Placed s t (copy s (t ++ 0 ∷ []))
unfolding copy
copy-Placed [] t = inr (omega arith, drop-nil (length (t ++ 0 ∷ [])))
copy-Placed (a ∷ s) [] = inl (omega arith, ap (λ (r : List ℕ). 0 ∷ (r ++ s)) (take-nil (length s)))
copy-Placed (a ∷ s) (b ∷ t) = elim (copy-Placed s t) [
  | inl (short, placed) ↦ inl (omega arith, ap (◌∷◌ b) placed)
  | inr (long, cut) ↦ inr (omega arith, ap (◌∷◌ b) cut)
]

-- Where `UTF16FromString` gives a title and a body of units with a NUL behind them, what `Notify`
-- hands over has each of them whole and with its NUL if it is shorter than its array, and else
-- as much of it as the array holds and no NUL.
pub notify_data-Placed :
    (c : System) (n : Notification) (d e : Data) (t b : List ℕ)
    → c.utf16 n.title ≡ some (t ++ 0 ∷ [])
    → c.utf16 n.body ≡ some (b ++ 0 ∷ [])
    → notify_data c n d ≡ fine e
    → Placed d.info_title t e.info_title × Placed d.info b e.info
notify_data-Placed c n d e t b is_t is_b made =
    let w = notify_data-Balloon c n d e made in
    let same_title : w.title ≡ t ++ 0 ∷ [] = some-injective (sym w.title_is ∙ is_t) in
    let same_body : w.body ≡ b ++ 0 ∷ [] = some-injective (sym w.body_is ∙ is_b) in
    (
      subst (Placed d.info_title t) (ap (copy d.info_title) (sym same_title) ∙ sym w.info_title_is)
          (copy-Placed d.info_title t),
      subst (Placed d.info b) (ap (copy d.info) (sym same_body) ∙ sym w.info_is)
          (copy-Placed d.info b),
    )
  where
    some-injective : {x y : List ℕ} → some x ≡ some y → x ≡ y
    some-injective e = cc

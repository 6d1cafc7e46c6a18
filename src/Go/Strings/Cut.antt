-- ===== src/Go/Strings/Cut.antt =====
-- Where text is cut and trimmed.
use go_notify.Base.{
  ℕ, zero, suc, ◌<◌, ◌≡◌, ◌≢◌, inl, inr, refl, ap, false, [], ◌∷◌, ◌++◌, none, some, arith, ◌==◌,
  Bool-cases, Option-cases, length, drop, Bytes,
}
use go_notify.Go.Strings.{
  upper_byte, to_upper, is_space, trim_left, trim_right, trim_space, index_byte, keep_unless_space,
}

-- `b` does not occur in the text.
abbrev pub Lacks : ℕ → Bytes → Type 0
Lacks b [] = Unit
Lacks b (c ∷ s) = (c ≢ b) × Lacks b s

pub index_byte-append :
    (b : ℕ) (s t : Bytes) → Lacks b s → index_byte b (s ++ b ∷ t) ≡ some (length s)
unfolding index_byte
index_byte-append b [] t h = ground arith
index_byte-append b (c ∷ s) t h = ground (arith, index_byte-append b s t)

pub index_byte-none : (b : ℕ) (s : Bytes) → Lacks b s → index_byte b s ≡ none
unfolding index_byte
index_byte-none b [] h = refl
index_byte-none b (c ∷ s) h = ground (arith, index_byte-none b s)

-- An index that is found lies in the text.
pub index_byte-lt : (b : ℕ) (s : Bytes) {i : ℕ} → index_byte b s ≡ some i → i < length s
unfolding index_byte
index_byte-lt b [] h = cc
index_byte-lt b (c ∷ s) {i} h = elim (Bool-cases (c == b)) [
  | inl here ↦ ground arith
  | inr there ↦ elim (Option-cases (index_byte b s)) [
    | inl missing ↦ ground arith
    | inr (j, found) ↦ let lt = index_byte-lt b s found in ground arith
  ]
]

-- The last byte of a text that has one is no space.
abbrev pub EndsInk : Bytes → Type 0
EndsInk [] = Unit
EndsInk (c ∷ []) = is_space c ≡ false
EndsInk (c ∷ d ∷ s) = EndsInk (d ∷ s)

abbrev pub StartsInk : Bytes → Type 0
StartsInk [] = Unit
StartsInk (c ∷ s) = is_space c ≡ false

keep_unless_space-EndsInk : (c : ℕ) (s : Bytes) → EndsInk s → EndsInk (keep_unless_space c s)
unfolding keep_unless_space
keep_unless_space-EndsInk c [] h = elim (Bool-cases (is_space c)) [
  | inl e ↦ rw e tt
  | inr e ↦ simp e
]
keep_unless_space-EndsInk c (d ∷ s) h = h

pub trim_right-EndsInk : (s : Bytes) → EndsInk (trim_right s)
unfolding trim_right
trim_right-EndsInk [] = tt
trim_right-EndsInk (c ∷ s) = keep_unless_space-EndsInk c (trim_right s) (trim_right-EndsInk s)

pub trim_right_id : (s : Bytes) → EndsInk s → trim_right s ≡ s
unfolding trim_right keep_unless_space
trim_right_id [] h = refl
trim_right_id (c ∷ []) h = rw h
trim_right_id (c ∷ d ∷ s) h = rw (trim_right_id (d ∷ s) h, keep_unless_space)

pub trim_space_id : (s : Bytes) → StartsInk s → EndsInk s → trim_space s ≡ s
unfolding trim_space trim_left
trim_space_id [] b e = unfold trim_right in refl
trim_space_id (c ∷ s) b e = rw b (trim_right_id (c ∷ s) e)

-- One blank in front is taken off.
pub trim_space_blank : (s : Bytes) → StartsInk s → EndsInk s → trim_space (b' ' ∷ s) ≡ s
unfolding trim_space trim_left is_space
trim_space_blank [] b e = unfold trim_right in refl
trim_space_blank (c ∷ s) b e = rw b (trim_right_id (c ∷ s) e)

pub EndsInk-drop : (n : ℕ) (s : Bytes) → EndsInk s → EndsInk (drop n s)
EndsInk-drop zero s h = h
EndsInk-drop (suc n) [] h = h
EndsInk-drop (suc zero) (c ∷ []) h = tt
EndsInk-drop (suc (suc n)) (c ∷ []) h = tt
EndsInk-drop (suc n) (c ∷ d ∷ s) h = EndsInk-drop n (d ∷ s) h

pub trim_left-ink : (s : Bytes) → EndsInk s → s ≢ [] → (trim_left s ≢ []) × EndsInk (trim_left s)
unfolding trim_left
trim_left-ink [] h ne = absurd (ne refl)
trim_left-ink (c ∷ []) h ne = rw h ((λ e. cc), rw h)
trim_left-ink (c ∷ d ∷ s) h ne = elim (Bool-cases (is_space c)) [
  | inl e ↦ rw e (trim_left-ink (d ∷ s) h (λ x. cc))
  | inr e ↦ rw e ((λ x. cc), h)
]

pub drop-ne-nil : (n : ℕ) (s : Bytes) → n < length s → drop n s ≢ []
drop-ne-nil zero [] h = absurd (omega arith)
drop-ne-nil zero (c ∷ s) h = λ e. cc
drop-ne-nil (suc n) [] h = absurd (omega arith)
drop-ne-nil (suc n) (c ∷ s) h = drop-ne-nil n s (omega arith)

-- Where a trimmed text is cut at a byte, something is left behind the cut.
pub trim_space-drop-ne-nil :
    (b : ℕ) (s : Bytes) {x : ℕ}
    → index_byte b (trim_space s) ≡ some x
    → trim_space (drop x (trim_space s)) ≢ []
unfolding trim_space
trim_space-drop-ne-nil b s {x} e =
    let t = trim_right (trim_left s) in
    let ink = EndsInk-drop x t (trim_right-EndsInk (trim_left s)) in
    let cut = trim_left-ink (drop x t) ink (drop-ne-nil x t (index_byte-lt b t e)) in
    rw (trim_right_id (trim_left (drop x t)) cut.1) (cut.0)

pub to_upper-append : (s t : Bytes) → to_upper (s ++ t) ≡ to_upper s ++ to_upper t
unfolding to_upper
to_upper-append [] t = refl
to_upper-append (c ∷ s) t = ap (◌∷◌ (upper_byte c)) (to_upper-append s t)

pub Lacks-append : (b : ℕ) (s t : Bytes) → Lacks b s → Lacks b t → Lacks b (s ++ t)
Lacks-append b [] t h k = k
Lacks-append b (c ∷ s) t h k = (h.0, Lacks-append b s t h.1 k)

-- A text ends in ink if its last part does and is not empty.
pub EndsInk-append : (s t : Bytes) → t ≢ [] → EndsInk t → EndsInk (s ++ t)
EndsInk-append [] t ne h = h
EndsInk-append (c ∷ []) [] ne h = absurd (ne refl)
EndsInk-append (c ∷ []) (d ∷ t) ne h = h
EndsInk-append (c ∷ d ∷ s) t ne h = EndsInk-append (d ∷ s) t ne h

-- ===== src/Freedesktop/Client/Names.antt =====
-- The hints under the names that the server knows them by.
use go_notify.Base.{
  ◌≡◌, ◌⊎◌, inl, inr, true, false, refl, ◌∙◌, Bool-cases, List, [], ◌∷◌, Option, none, some, arith,
  if◌then◌else◌, Bytes, bytes_eq, bytes_eq_iff,
}
use go_notify.Base.Int.{ℤ}
use go_notify.Dict.{insert, lookup, lookup-insert}
use go_notify.Freedesktop.Types.{Any}
use go_notify.Freedesktop.Notification.{hint_name, sent_key}
use go_notify.Freedesktop.Notification.Names.{OwnNames, hint_name-sent_key}
use go_notify.Freedesktop.Client.{renamed}
use go_notify.Freedesktop.Bus.{Bus}

abbrev or_else : Option Any → Option Any → Option Any
or_else none o = o
or_else (some v) o = some v

or_else-none : (o : Option Any) → or_else o none ≡ o
or_else-none none = refl
or_else-none (some v) = refl

-- Each hint has a type of D-Bus, or one has none.
abbrev pub AllTyped : Bus → List (Bytes × Any) → Type 0
AllTyped b [] = Unit
AllTyped b ((k, v) ∷ hs) = (b.has_type v ≡ true) × AllTyped b hs

abbrev pub OneUntyped : Bus → List (Bytes × Any) → Type 0
OneUntyped b [] = ⊥
OneUntyped b ((k, v) ∷ hs) = (b.has_type v ≡ false) ⊎ OneUntyped b hs

-- The map that the loop makes where nothing panics.
under_names : ℤ → ℤ → List (Bytes × Any) → List (Bytes × Any) → List (Bytes × Any)
under_names major minor [] sent = sent
under_names major minor ((k, v) ∷ hs) sent =
    under_names major minor hs (insert (sent_key major minor k) v sent)

-- What the loop over the hints adds to the map: under each key the hint that is sent there.
under_names-lookup :
    (major minor : ℤ) (i : Bytes) (hs sent : List (Bytes × Any))
    → OwnNames hs
    → lookup i (under_names major minor hs sent) ≡ (
        if bytes_eq (sent_key major minor (hint_name i)) i
        then or_else (lookup (hint_name i) hs) (lookup i sent)
        else lookup i sent)
unfolding under_names lookup
under_names-lookup major minor i [] sent h = ground arith
under_names-lookup major minor i ((k, v) ∷ hs) sent (own, once, rest) = ground (
  arith,
  under_names-lookup major minor i hs (insert (sent_key major minor k) v sent) rest,
  lookup-insert (sent_key major minor k) i v sent,
  bytes_eq_iff (sent_key major minor k) i,
  bytes_eq_iff (sent_key major minor (hint_name i)) i,
  bytes_eq_iff k (hint_name i),
  hint_name-sent_key major minor k,
  own,
  once,
)

-- Under each key the server is sent the hint whose name at the server it is, and no other.
abbrev pub AreSent : ℤ → ℤ → List (Bytes × Any) → List (Bytes × Any) → Type 0
AreSent major minor hs sent =
    (i : Bytes)
    → lookup i sent
      ≡ (if bytes_eq (sent_key major minor (hint_name i)) i then lookup (hint_name i) hs else none)

under_names-AreSent :
    (major minor : ℤ) (hs : List (Bytes × Any))
    → OwnNames hs
    → AreSent major minor hs (under_names major minor hs [])
under_names-AreSent major minor hs h i =
    under_names-lookup major minor i hs [] h
    ∙ unfold lookup in rw (or_else-none (lookup (hint_name i) hs)) refl

renamed-under_names :
    (b : Bus) (major minor : ℤ) (hs sent : List (Bytes × Any))
    → (AllTyped b hs × (renamed b major minor hs sent ≡ some (under_names major minor hs sent)))
      ⊎ (OneUntyped b hs × (renamed b major minor hs sent ≡ none))
unfolding renamed under_names
renamed-under_names b major minor [] sent = inl (tt, refl)
renamed-under_names b major minor ((k, v) ∷ hs) sent =
    let rest = renamed-under_names b major minor hs (insert (sent_key major minor k) v sent) in
    elim (Bool-cases (b.has_type v)) [
      | inr off ↦ inr (inl off, rw off refl)
      | inl on ↦ elim rest [
        | inl (typed, made) ↦ inl ((on, typed), rw on made)
        | inr (untyped, fails) ↦ inr (inr untyped, rw on fails)
      ]
    ]

-- The hints are sent if each has a type of D-Bus, and else the loop panics.
pub renamed-AreSent :
    (b : Bus) (major minor : ℤ) (hs : List (Bytes × Any))
    → OwnNames hs
    → (AllTyped b hs
        × (sent : List (Bytes × Any)) × (renamed b major minor hs [] ≡ some sent)
        × AreSent major minor hs sent)
      ⊎ (OneUntyped b hs × (renamed b major minor hs [] ≡ none))
renamed-AreSent b major minor hs h = elim (renamed-under_names b major minor hs []) [
  | inl (typed, made) ↦ inl (typed, _, made, under_names-AreSent major minor hs h)
  | inr fails ↦ inr fails
]

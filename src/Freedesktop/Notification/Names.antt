-- ===== src/Freedesktop/Notification/Names.antt =====
-- The names of the hints: those of `Hint`, and the ones that a server is sent.
use go_notify.Base.{
  ◌≡◌, refl, ◌∙◌, subst, inl, inr, Bool, true, false, List, [], ◌∷◌, none, arith, if◌then◌else◌,
  Bool-cases, Bytes, codes, bytes_eq, bytes_eq_iff,
}
use go_notify.Base.Int.{ℤ}
use go_notify.Dict.{insert, lookup, lookup-insert}
use go_notify.Freedesktop.Types.{Any}
use go_notify.Freedesktop.Notification.{ok, hint_name, sent_key}
use go_notify.Freedesktop.Notification.Hints.{Inserts, is_data_name, is_path_name}

-- Each key stands once, under the name that `Hint` keeps.
abbrev pub OwnNames : List (Bytes × Any) → Type 0
OwnNames [] = Unit
OwnNames ((k, v) ∷ hs) = (hint_name k ≡ k) × (lookup k hs ≡ none) × OwnNames hs

pub hint_name_idem : (n : Bytes) → hint_name (hint_name n) ≡ hint_name n
unfolding hint_name bytes_eq
hint_name_idem n = elim (Bool-cases (is_data_name n)) [
  | inl d ↦ rw d refl
  | inr d ↦ elim (Bool-cases (is_path_name n)) [
    | inl p ↦ rw (d, p) refl
    | inr p ↦ rw (d, p) (rw (d, p) refl)
  ]
]

data_names :
    (a b : Bool)
    → hint_name
        (if a then codes "image-data" else if b then codes "image_data" else codes "icon_data")
      ≡ codes "image-data"
unfolding hint_name bytes_eq
data_names true b = refl
data_names false true = refl
data_names false false = refl

path_names :
    (a : Bool)
    → hint_name (if a then codes "image-path" else codes "image_path") ≡ codes "image-path"
unfolding hint_name bytes_eq
path_names true = refl
path_names false = refl

-- A server's name for a hint is one of the hint's names.
pub hint_name-sent_key :
    (major minor : ℤ) (k : Bytes) → hint_name (sent_key major minor k) ≡ hint_name k
unfolding sent_key bytes_eq
hint_name-sent_key major minor k = elim (Bool-cases (bytes_eq k (codes "image-data"))) [
  | inl d ↦
      rw ((bytes_eq_iff k (codes "image-data")).0 d) (data_names _ _ ∙ (unfold hint_name in refl))
  | inr d ↦ elim (Bool-cases (bytes_eq k (codes "image-path"))) [
    | inl p ↦
        rw ((bytes_eq_iff k (codes "image-path")).0 p) (path_names _ ∙ (unfold hint_name in refl))
    | inr p ↦ rw (d, p) refl
  ]
]

OwnNames-insert :
    (k : Bytes) (v : Any) (hs : List (Bytes × Any))
    → hint_name k ≡ k
    → OwnNames hs
    → OwnNames (insert k v hs)
unfolding insert lookup
OwnNames-insert k v [] e h = (e, refl, tt)
OwnNames-insert k v ((j, w) ∷ hs) e (own, once, rest) = elim (Bool-cases (bytes_eq j k)) [
  | inl same ↦ rw same (e, subst (λ i. lookup i hs ≡ none) ((bytes_eq_iff j k).0 same) once, rest)
  | inr other ↦ rw other (
    own,
    ground (arith, lookup-insert k j v hs, bytes_eq_iff j k, bytes_eq_iff k j, other, once),
    OwnNames-insert k v hs e rest,
  )
]

-- What `Hint` keeps has its own names.
pub OwnNames-Inserts :
    (n : Bytes) (hs : List (Bytes × Any)) (hs' : List (Bytes × Any))
    → OwnNames hs
    → Inserts (hint_name n) hs (ok hs')
    → OwnNames hs'
OwnNames-Inserts n hs hs' h (w, e) = rw e (OwnNames-insert (hint_name n) w hs (hint_name_idem n) h)

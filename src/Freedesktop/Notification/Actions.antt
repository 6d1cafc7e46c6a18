-- ===== src/Freedesktop/Notification/Actions.antt =====
-- The actions as a map from keys to labels.
use go_notify.Base.{◌≡◌, refl, List, [], ◌∷◌, some, arith, Bytes, bytes_eq_iff}
use go_notify.Dict.{insert}
use go_notify.Freedesktop.Notification.{action}

-- The slice that lists the pairs of a map.
abbrev pub flat : List (Bytes × Bytes) → List Bytes
flat [] = []
flat ((k, l) ∷ m) = k ∷ l ∷ flat m

-- On a slice of pairs `Action` does not panic, and is the insertion into the map of the pairs: the
-- label of the key is replaced where it stands, or the pair is added at the end.
pub action-flat :
    (key label : Bytes) (m : List (Bytes × Bytes))
    → action key label (flat m) ≡ some (flat (insert key label m))
unfolding action insert
action-flat key label [] = refl
action-flat key label ((k, l) ∷ m) = ground (arith, bytes_eq_iff k key, action-flat key label m)

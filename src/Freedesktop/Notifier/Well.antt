-- ===== src/Freedesktop/Notifier/Well.antt =====
-- Registrations do not panic, and the notification of an event is well formed.
use go_notify.Base.{◌≡◌, refl, List, [], ◌∷◌, Option, some, none, Bytes, codes}
use go_notify.Dict.{insert}
use go_notify.Go.Value.{nil, string, image, string_map, value_map, Entries, end, entry}
use go_notify.Util.Convert.{Draw}
use go_notify.Freedesktop.Types.{Any, Extra}
use go_notify.Freedesktop.Numbers.{Conversion, converted, overflows, wrong_type, v2i}
use go_notify.Freedesktop.Notification.{Hinted, ok, err, action, hint, hint_name}
use go_notify.Freedesktop.Notification.Hints.{Inserts, hint-Inserts}
use go_notify.Freedesktop.Notification.Names.{OwnNames, OwnNames-Inserts}
use go_notify.Freedesktop.Notification.Actions.{flat, action-flat}
use go_notify.Freedesktop.Notifier.{
  Notification, Checked, accepted, refused, panicked, ◌>>=◌, Options, blank, hinted, with_icon,
  acted, add_actions, with_actions, add_hints, with_hints, timed, with_timeout, actions_option,
  hints_option, timeout_option, event_of,
}

-- The slice of actions lists pairs, and the hints have their own names.
abbrev pub IsWell : Notification → Type 0
IsWell n = ((m : List (Bytes × Bytes)) × (n.actions ≡ flat m)) × OwnNames n.hints

abbrev pub IsSafe : Checked → Type 0
IsSafe (accepted n) = IsWell n
IsSafe (refused r) = Unit
IsSafe panicked = ⊥

bind-IsSafe :
    (c : Checked) (f : Notification → Checked)
    → IsSafe c
    → ((n : Notification) → IsWell n → IsSafe (f n))
    → IsSafe (c >>= f)
bind-IsSafe (accepted n) f h k = k n h
bind-IsSafe (refused r) f h k = tt
bind-IsSafe panicked f h k = h

hinted-IsSafe :
    (n : Notification) (k : Bytes) (r : Hinted)
    → IsWell n
    → Inserts (hint_name k) n.hints r
    → IsSafe (hinted n r)
unfolding hinted
hinted-IsSafe n k (ok hs) (pairs, own) i = (pairs, OwnNames-Inserts k n.hints hs own i)
hinted-IsSafe n k (err e) h i = tt

with_icon-IsSafe :
    (draw : Draw) (icon : Any) (n : Notification) → IsWell n → IsSafe (with_icon draw icon n)
unfolding with_icon
with_icon-IsSafe draw nil n h = h
with_icon-IsSafe draw (string s) n h = h
with_icon-IsSafe draw (image img) n h =
    hinted-IsSafe n (codes "image-data") (hint draw (codes "image-data") (image img) n.hints) h
      (hint-Inserts draw (codes "image-data") (image img) n.hints)
with_icon-IsSafe draw _ n h = tt

acted-IsSafe : (n : Notification) (k l : Bytes) → IsWell n → IsSafe (acted n (action k l n.actions))
unfolding acted
acted-IsSafe n k l ((m, e), own) = rw (e, action-flat k l m) ((insert k l m, refl), own)

add_actions-IsSafe :
    (m : List (Bytes × Bytes)) (n : Notification) → IsWell n → IsSafe (add_actions m n)
unfolding add_actions
add_actions-IsSafe [] n h = h
add_actions-IsSafe ((k, l) ∷ m) n h =
    bind-IsSafe (acted n (action k l n.actions)) (λ n'. add_actions m n') (acted-IsSafe n k l h)
      (add_actions-IsSafe m)

actions_option-IsSafe : (o : Option Any) (n : Notification) → IsWell n → IsSafe (actions_option o n)
unfolding actions_option
actions_option-IsSafe none n h = h
actions_option-IsSafe (some (string_map m)) n h = add_actions-IsSafe m n h
actions_option-IsSafe (some _) n h = tt

add_hints-IsSafe :
    (draw : Draw) (m : Entries Extra) (n : Notification) → IsWell n → IsSafe (add_hints draw m n)
unfolding add_hints
add_hints-IsSafe draw end n h = h
add_hints-IsSafe draw (entry k v m) n h =
    bind-IsSafe (hinted n (hint draw k v n.hints)) (λ n'. add_hints draw m n')
      (hinted-IsSafe n k _ h (hint-Inserts draw k v n.hints)) (add_hints-IsSafe draw m)

hints_option-IsSafe :
    (draw : Draw) (o : Option Any) (n : Notification) → IsWell n → IsSafe (hints_option draw o n)
unfolding hints_option
hints_option-IsSafe draw none n h = h
hints_option-IsSafe draw (some (value_map m)) n h = add_hints-IsSafe draw m n h
hints_option-IsSafe draw (some _) n h = tt

timed-IsSafe : (n : Notification) (c : Conversion) → IsWell n → IsSafe (timed n c)
unfolding timed
timed-IsSafe n (converted z) h = h
timed-IsSafe n overflows h = tt
timed-IsSafe n wrong_type h = tt

timeout_option-IsSafe : (o : Option Any) (n : Notification) → IsWell n → IsSafe (timeout_option o n)
unfolding timeout_option
timeout_option-IsSafe none n h = h
timeout_option-IsSafe (some v) n h = timed-IsSafe n (v2i v) h

pub event_of-IsSafe : (draw : Draw) (icon : Any) (opts : Options) → IsSafe (event_of draw icon opts)
unfolding event_of with_actions with_hints with_timeout blank
event_of-IsSafe draw icon opts =
    bind-IsSafe (with_icon draw icon blank) _ (with_icon-IsSafe draw icon blank (([], refl), tt))
      (λ a ha. bind-IsSafe (with_actions opts a) _ (actions_option-IsSafe _ a ha) (λ b hb.
        bind-IsSafe (with_hints draw opts b) _ (hints_option-IsSafe draw _ b hb)
          (λ c hc. timeout_option-IsSafe _ c hc)))

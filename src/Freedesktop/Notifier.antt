-- ===== src/Freedesktop/Notifier.antt =====
-- The notifier of freedesktop/impl.go over its client: the table of events, and the notifications
-- that it hands to `Client.Notify`.
pub mod Well
pub mod Delivered
pub mod Events
use go_notify.Base.{ℕ, List, [], ◌∷◌, Option, none, some, Bytes, codes}
use go_notify.Base.Int.{ℤ, negsuc}
use go_notify.Dict.{insert, lookup}
use go_notify.Go.Value.{nil, string, image, string_map, value_map, Entries, end, entry}
use go_notify.Util.Convert.{Draw}
use go_notify.Freedesktop.Types.{Any, Extra}
use go_notify.Freedesktop.Numbers.{Conversion, converted, v2i}
use go_notify.Freedesktop.Notification.{HintError, Hinted, ok, err, action, hint}

-- `Notification` of freedesktop/notify.go; `hints` in the order of one iteration.
pub record Notification : Type 0 where
  pub name : Bytes
  pub id : ℕ
  pub icon : Bytes
  pub summary : Bytes
  pub body : Bytes
  pub actions : List Bytes
  pub hints : List (Bytes × Any)
  pub timeout : ℤ

-- The errors of a registration; `bad_hint` is one that `Hint` returns.
pub data Refusal : Type 0 where
  unsupported_icon expects_string_map expects_value_map expects_int32 : Refusal
  bad_hint : HintError → Refusal

-- `panicked` is a panic of `Action`.
pub data Checked : Type 0 where
  accepted : Notification → Checked
  refused : Refusal → Checked
  panicked : Checked

infixl 5 ◌>>=◌
abbrev pub ◌>>=◌ : Checked → (Notification → Checked) → Checked
panicked >>= f = panicked
refused r >>= f = refused r
accepted n >>= f = f n

abbrev pub Options : Type 0
Options = List (Bytes × Any)

-- `&Notification{Timeout: -1}`.
unfoldable pub blank : Notification
blank = record {
  name = [];
  id = 0;
  icon = [];
  summary = [];
  body = [];
  actions = [];
  hints = [];
  timeout = negsuc 0;
}

hinted : Notification → Hinted → Checked
hinted n (ok hs) = accepted (record n { hints = hs })
hinted n (err e) = refused (bad_hint e)

unfoldable pub with_icon : Draw → Any → Notification → Checked
unfolding hinted
with_icon draw nil n = accepted n
with_icon draw (string s) n = accepted (record n { icon = s })
with_icon draw (image img) n = hinted n (hint draw (codes "image-data") (image img) n.hints)
with_icon draw v n = refused unsupported_icon

acted : Notification → Option (List Bytes) → Checked
acted n none = panicked
acted n (some list) = accepted (record n { actions = list })

unfoldable pub add_actions : List (Bytes × Bytes) → Notification → Checked
unfolding acted
add_actions [] n = accepted n
add_actions ((k, l) ∷ m) n = acted n (action k l n.actions) >>= λ n'. add_actions m n'

actions_option : Option Any → Notification → Checked
unfolding add_actions
actions_option none n = accepted n
actions_option (some (string_map m)) n = add_actions m n
actions_option (some v) n = refused expects_string_map

unfoldable pub with_actions : Options → Notification → Checked
unfolding actions_option
with_actions opts n = actions_option (lookup (codes "freedesktop:actions") opts) n

unfoldable pub add_hints : Draw → Entries Extra → Notification → Checked
unfolding hinted
add_hints draw end n = accepted n
add_hints draw (entry k v m) n = hinted n (hint draw k v n.hints) >>= λ n'. add_hints draw m n'

hints_option : Draw → Option Any → Notification → Checked
unfolding add_hints
hints_option draw none n = accepted n
hints_option draw (some (value_map m)) n = add_hints draw m n
hints_option draw (some v) n = refused expects_value_map

unfoldable pub with_hints : Draw → Options → Notification → Checked
unfolding hints_option
with_hints draw opts n = hints_option draw (lookup (codes "freedesktop:hints") opts) n

timed : Notification → Conversion → Checked
timed n (converted z) = accepted (record n { timeout = z })
timed n _ = refused expects_int32

timeout_option : Option Any → Notification → Checked
unfolding timed
timeout_option none n = accepted n
timeout_option (some v) n = timed n (v2i v)

unfoldable pub with_timeout : Options → Notification → Checked
unfolding timeout_option
with_timeout opts n = timeout_option (lookup (codes "freedesktop:timeout") opts) n

-- What an event is registered as.
unfoldable pub event_of : Draw → Any → Options → Checked
unfolding blank with_icon with_actions with_hints with_timeout
event_of draw icon opts = with_icon draw icon blank >>= λ a.
    with_actions opts a >>= λ b. with_hints draw opts b >>= λ c. with_timeout opts c

-- The map `ev`, in the order of one iteration over it.
abbrev pub Events : Type 0
Events = List (Bytes × Notification)

-- `notifies`: `Client.Notify` is called with this argument, and its error is what is returned.
pub data Reply : Type 0 where
  registered crashed unknown_event : Reply
  rejects : Refusal → Reply
  notifies : Notification → Reply

enter : Bytes → Checked → Events → Events × Reply
enter event (accepted n) evs = (insert event n evs, registered)
enter event (refused r) evs = (evs, rejects r)
enter event panicked evs = (evs, crashed)

unfoldable pub register : Draw → Bytes → Any → Options → Events → Events × Reply
unfolding event_of enter
register draw event icon opts evs = enter event (event_of draw icon opts) evs

-- `app` is the notifier's name.
unfoldable pub notify : Bytes → Bytes → Bytes → Bytes → Events → Reply
notify app event title body evs = elim (lookup event evs) [
  | none ↦ unknown_event
  | some n ↦ notifies (record n { name = app; summary = title; body = body })
]

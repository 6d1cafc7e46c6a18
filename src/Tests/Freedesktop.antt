-- ===== src/Tests/Freedesktop.antt =====
-- freedesktop/.
use mathlib.Core.Bool.{false≢true}
use go_notify.Base.{
  ℕ, ◌≡◌, ◌≢◌, refl, sym, ◌∙◌, true, false, List, [], ◌∷◌, none, some, Bytes, codes, bytes_eq,
  bytes_eq_iff,
}
use go_notify.Base.Int.{pos}
use go_notify.Dict.{insert}
use go_notify.Go.Image.{Image, rgba}
use go_notify.Go.Value.{number_of, uint32, string, int64, int8}
use go_notify.Outbox.{initial, put, offer, sent}
use go_notify.Outbox.Fifo.{pending}
use go_notify.Freedesktop.Types.{
  Signal, NotificationClosed, ActionInvoked, path, notification_closed, action_invoked,
}
use go_notify.Freedesktop.Signal.{
  Loop, Choice, take_signal, send_closed, send_invoked, running, panicked, start, step, run,
  closed_of_body, invoked_of_body,
}
use go_notify.Freedesktop.Signal.Order.{Ordered, all_in, closed_in, invoked_in, run-Ordered}
use go_notify.Freedesktop.Signal.Taken.{Takes, step-Takes}
use go_notify.Freedesktop.Signal.Progress.{IsTyped, run-ne-panicked, send_closed-delivers}
use go_notify.Dict.{lookup}
use go_notify.Go.Value.{uint8, string_map, value_map, entry, end}
use go_notify.Freedesktop.Notifier.{Notification, Options, accepted, event_of, register}
use go_notify.Freedesktop.Notifier.Events.{Enters, register-Enters}
use go_notify.Freedesktop.Numbers.{v2i, v2y, converted, overflows, min_int32, max_int32}
use go_notify.Freedesktop.Numbers.Exact.{Converts, v2i-Converts-v2y}
use go_notify.Freedesktop.Notification.{action, hint}
use go_notify.Freedesktop.Notification.Actions.{flat, action-flat}

abbrev signal_closed : ℕ → Choice
signal_closed n =
    take_signal
      (some (record { path = path; name = notification_closed; body = uint32 n ∷ uint32 2 ∷ [] }))

abbrev signal_invoked : ℕ → Choice
signal_invoked n = take_signal (
    some (record {
      path = path;
      name = action_invoked;
      body = uint32 n ∷ string (codes "default") ∷ [];
    }))

-- Two signals of a kind before the first is received, and one of the other kind between them.
abbrev rounds : List Choice
rounds = signal_closed 7 ∷ signal_invoked 7 ∷ signal_closed 8 ∷ send_closed ∷ send_invoked ∷ []

abbrev closed : ℕ → NotificationClosed
closed n = record { id = n; reason = 2 }

abbrev invoked : ActionInvoked
invoked = record { id = 7; key = codes "default" }

abbrev zero_closed : NotificationClosed
zero_closed = record { id = 0; reason = 0 }

abbrev zero_invoked : ActionInvoked
zero_invoked = record { id = 0; key = [] }

abbrev after_rounds : Loop
after_rounds = record {
  closed = record { ready = true; idx = 2; buf = zero_closed ∷ closed 7 ∷ closed 8 ∷ [] };
  invoked = record { ready = false; idx = 0; buf = zero_invoked ∷ [] };
  closed_got = closed 7 ∷ [];
  invoked_got = invoked ∷ [];
  removed = [];
}

run-rounds : run (running start) rounds ≡ running after_rounds
unfolding run start step initial put offer sent bytes_eq closed_of_body invoked_of_body
run-rounds = refl

run-Ordered_example : Ordered (all_in closed_in rounds) (all_in invoked_in rounds) after_rounds
run-Ordered_example = run-Ordered rounds after_rounds run-rounds

closed_body : (n : ℕ) → closed_of_body (uint32 n ∷ uint32 2 ∷ []) ≢ none
unfolding closed_of_body
closed_body n = λ e. cc

invoked_body : (n : ℕ) → invoked_of_body (uint32 n ∷ string (codes "default") ∷ []) ≢ none
unfolding invoked_of_body
invoked_body n = λ e. cc

other_name : bytes_eq notification_closed action_invoked ≡ false
unfolding bytes_eq
other_name = refl

run-ne-panicked_example : run (running start) rounds ≢ panicked
run-ne-panicked_example =
    run-ne-panicked rounds (closed_typed 7, (invoked_typed, (closed_typed 8, (tt, (tt, tt)))))
  where
    names_differ : notification_closed ≢ action_invoked
    names_differ e =
        absurd (false≢true (sym other_name ∙ (bytes_eq_iff notification_closed action_invoked).1 e))

    closed_typed : (n : ℕ) → IsTyped (signal_closed n)
    closed_typed n = ((λ e f. closed_body n), λ e f. absurd (names_differ f))

    invoked_typed : IsTyped (signal_invoked 7)
    invoked_typed = ((λ e f. absurd (names_differ (sym f))), λ e f. invoked_body 7)

send_closed-delivers_example :
    (l' : Loop) × (step after_rounds send_closed ≡ running l')
    × (l'.closed_got ≡ closed 7 ∷ closed 8 ∷ [])
    × (pending l'.closed ≡ [])
    × (l'.invoked ≡ after_rounds.invoked)
send_closed-delivers_example =
    send_closed-delivers after_rounds (closed 8) [] run-Ordered_example (unfold pending in refl)

-- A signal with no body.
abbrev no_body : Signal
no_body = record { path = path; name = notification_closed; body = [] }

step-Takes_example : Takes after_rounds no_body (step after_rounds (take_signal (some no_body)))
step-Takes_example = step-Takes after_rounds no_body run-Ordered_example

v2i-Converts-v2y_example :
    Converts min_int32 max_int32 (some (pos 0x80000000)) (v2i (int64 (pos 0x80000000)))
    × Converts (pos 0) (pos 255) (some (pos 0x80000000)) (v2y (int64 (pos 0x80000000)))
unfolding number_of
v2i-Converts-v2y_example = v2i-Converts-v2y (int64 (pos 0x80000000)) tt

v2i_overflows : v2i (int64 (pos 0x80000000)) ≡ overflows
unfolding v2i
v2i_overflows = refl

v2y_converted : v2y (int8 (pos 2)) ≡ converted (pos 2)
unfolding v2y
v2y_converted = refl

abbrev actions : List (Bytes × Bytes)
actions = (codes "default", codes "Open") ∷ (codes "later", codes "Later") ∷ []

action_later :
    action (codes "later") (codes "Snooze") (flat actions)
    ≡ some (flat (insert (codes "later") (codes "Snooze") actions))
action_later = action-flat (codes "later") (codes "Snooze") actions

-- A slice with a key and no label panics.
action_odd : action (codes "default") (codes "Open") (codes "default" ∷ []) ≡ none
unfolding action bytes_eq
action_odd = refl

abbrev picture : Image
picture = record { kind = rgba; width = 1; height = 1; stride = 4; pix = 1 ∷ 2 ∷ 3 ∷ 4 ∷ [] }

abbrev event_options : Options
event_options =
    (codes "freedesktop:actions", string_map actions)
    ∷ (codes "freedesktop:hints", value_map (entry (codes "urgency") (int8 (pos 2)) end))
    ∷ (codes "freedesktop:timeout", int64 (pos 5000))
    ∷ []

abbrev full_event : Notification
full_event = record {
  name = [];
  id = 0;
  icon = codes "icon";
  summary = [];
  body = [];
  actions = flat actions;
  hints = (codes "urgency", uint8 2) ∷ [];
  timeout = pos 5000;
}

event_of-full :
    event_of (λ k img. img.pix) (string (codes "icon")) event_options ≡ accepted full_event
unfolding event_of lookup insert bytes_eq action hint v2i v2y
event_of-full = refl

register-Enters_example :
    Enters
      (event_of (λ k img. img.pix) (string (codes "icon")) event_options)
      (codes "app")
      (codes "ev")
      (codes "ev")
      (codes "t")
      (codes "b")
      []
      (register (λ k img. img.pix) (codes "ev") (string (codes "icon")) event_options [])
register-Enters_example =
    register-Enters (λ k img. img.pix) (codes "app") (codes "ev") (codes "ev") (codes "t")
      (codes "b") (string (codes "icon")) event_options []

-- ===== src/Tests/Bus.antt =====
-- freedesktop/ over a bus.
use go_notify.Base.{
  ◌≡◌, refl, true, false, Bool, List, [], ◌∷◌, ◌++◌, Option, none, some, Bytes, codes, bytes_eq,
}
use go_notify.Base.Int.{pos, negsuc}
use go_notify.Dict.{lookup, insert}
use go_notify.Go.Scan.{scan_version}
use go_notify.Go.Value.{nil, bool, value_map, entry, end}
use go_notify.Outbox.{offer, initial}
use go_notify.Util.Convert.{Draw}
use go_notify.Freedesktop.Types.{Any}
use go_notify.Freedesktop.Bus.{Bus, Error, History}
use go_notify.Freedesktop.Notification.{hint_name, sent_key, hint}
use go_notify.Freedesktop.Notification.Names.{OwnNames}
use go_notify.Freedesktop.Client
use go_notify.Freedesktop.Client.{notify, scan, returned, panicked}
use go_notify.Freedesktop.Client.Delivery.{notifies, Delivers, asks_version, notify-Delivers}
use go_notify.Freedesktop.Signal.{step, start, take_done, send_closed}
use go_notify.Freedesktop.Lifecycle.{
  match_rule, refused, created, new, World, Event, goes_on, round, run, opened, back, closed, ended,
  idle,
}
use go_notify.Freedesktop.Lifecycle.Opening.{new-NewCases, opening, removals}
use go_notify.Freedesktop.Lifecycle.Lawful.{Lawful, closes, run-Lawful}
use go_notify.Freedesktop.Lifecycle.Ends.{Returns, run-Returns}
use go_notify.Freedesktop.Notifier
use go_notify.Freedesktop.Notifier.{Notification, blank}
use go_notify.Freedesktop.Notifier.Delivered.{
  posted, Notifier, Registration, new_notifier, register_all, Posts, post, post-Posts,
}

scan_version_current : scan_version (codes "1.2") ≡ some (pos 1, pos 2)
unfolding scan_version
scan_version_current = refl

-- A number that starts with 0 is read as an octal one, up to the first byte that is no digit of it.
scan_version_octal : scan_version (codes " -0x1F.08") ≡ some (negsuc 30, pos 0)
unfolding scan_version
scan_version_octal = refl

scan_version_underscores : scan_version (codes "1_0.10_-rc1") ≡ none
unfolding scan_version
scan_version_underscores = refl

scan_version_no_minor : scan_version (codes "1") ≡ none
unfolding scan_version
scan_version_no_minor = refl

-- Of the values, nil has no type.
abbrev is_typed : Any → Bool
is_typed nil = false
is_typed _ = true

-- A bus on which every call is answered, by a server of the given version.
abbrev bus_of : Bytes → Bus
bus_of v = record {
  session_bus = none;
  answer = λ h c. record { err = none; body = [] };
  close = λ h. none;
  has_type = λ v. is_typed v;
  store_id = λ b. (7, none);
  store_caps = λ b. ([], none);
  store_info = λ b. (record { name = []; vendor = []; version = []; spec_version = v }, none);
}

-- One whose second call fails.
abbrev second_fails : History → Option Error
second_fails (a ∷ b ∷ []) = some (codes "limit")
second_fails _ = none

abbrev narrow_bus : Bus
narrow_bus = record (bus_of []) { answer = λ h c. record { err = second_fails h; body = [] } }

new-NewCases_example : new narrow_bus ≡ refused (codes "limit") opening
new-NewCases_example = new-NewCases narrow_bus

new_open : new (bus_of (codes "1.2")) ≡ created opening
unfolding new match_rule
new_open = refl

-- Two callers of Close; the second comes in while the first waits.
abbrev closing : List Event
closing =
    round send_closed
    ∷ round take_done
    ∷ goes_on 0
    ∷ goes_on 1
    ∷ goes_on 0
    ∷ round take_done
    ∷ goes_on 0
    ∷ []

abbrev all_closed : World
all_closed = record {
  goroutine = ended;
  done = true;
  history = opening ++ removals ++ closes 1;
  callers = closed none ∷ back ∷ idle ∷ [];
}

run-closing : run (bus_of (codes "1.2")) closing (opened opening 3) ≡ some all_closed
unfolding run opened step offer start initial match_rule
run-closing = refl

run-Lawful_example : Lawful all_closed
run-Lawful_example =
    run-Lawful (bus_of (codes "1.2")) opening 3 closing all_closed new_open run-closing

run-Returns_example : Returns (bus_of (codes "1.2")) 2 all_closed
run-Returns_example =
    run-Returns (bus_of (codes "1.2")) opening 3 closing all_closed 2 idle new_open run-closing refl

abbrev hinted : Notification
hinted = record {
  name = [];
  id = 0;
  icon = [];
  summary = [];
  body = [];
  actions = [];
  hints = (codes "image-path", bool true) ∷ (codes "transient", bool true) ∷ [];
  timeout = negsuc 0;
}

hinted-notify :
    notify (bus_of (codes "1.x")) hinted [] ≡ (returned 0 (some scan), asks_version ∷ [])
unfolding notify scan_version
hinted-notify = refl

-- A hint that is nil cannot be sent.
hinted-nil :
    notify (bus_of (codes "1.2")) (record hinted { hints = (codes "foo", nil) ∷ [] }) []
    ≡ (panicked, asks_version ∷ [])
unfolding notify scan_version
hinted-nil = refl

OwnNames-hinted : OwnNames hinted.hints
unfolding hint_name bytes_eq lookup
OwnNames-hinted = (refl, refl, (refl, refl, tt))

Delivers-hinted :
    Delivers (bus_of (codes "1.x")) hinted [] (notify (bus_of (codes "1.x")) hinted [])
Delivers-hinted = notify-Delivers (bus_of (codes "1.x")) hinted [] OwnNames-hinted

abbrev app_notifier : Notifier
app_notifier = record { name = codes "app"; events = [] }

post_bus : new_notifier (bus_of (codes "1.1")) (codes "app") ≡ some app_notifier
unfolding new_notifier new match_rule
post_bus = refl

abbrev mail : Registration
mail = record {
  event = codes "mail";
  icon = nil;
  opts = (codes "freedesktop:hints", value_map (entry (codes "image_path") (bool true) end)) ∷ [];
}

-- The hint goes by its old name to a server of version 1.1.
post-mail :
    (draw : Draw)
    → post
        (bus_of (codes "1.1"))
        (register_all draw (mail ∷ []) (record { name = codes "app"; events = [] }))
        (codes "mail")
        (codes "hi")
        []
        []
      ≡ (
        posted none,
        asks_version
            ∷ notifies
                (record blank { name = codes "app"; summary = codes "hi" })
                ((codes "image_path", bool true) ∷ [])
            ∷ [],
      )
unfolding post register_all lookup insert hint bytes_eq Client.notify scan_version sent_key blank
    Notifier.notify Notifier.register
post-mail draw = refl

abbrev no_pixels : Draw
no_pixels k img = []

post-Posts_example :
    Posts
      (bus_of (codes "1.1"))
      (codes "app")
      (codes "hi")
      []
      (lookup (codes "mail") (register_all no_pixels (mail ∷ []) app_notifier).events)
      []
      (post
        (bus_of (codes "1.1"))
        (register_all no_pixels (mail ∷ []) app_notifier)
        (codes "mail")
        (codes "hi")
        []
        [])
post-Posts_example =
    post-Posts (bus_of (codes "1.1")) no_pixels app_notifier (mail ∷ []) (codes "app")
      (codes "mail") (codes "hi") [] [] post_bus

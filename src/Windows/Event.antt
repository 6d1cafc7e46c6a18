-- ===== src/Windows/Event.antt =====
-- `NotifyIcon.event` of windows/notify_windows.go: the goroutine between the window procedure and
-- the two channels of the icon. Each round of its loop is one case of the `select`.
pub mod Order
use go_notify.Base.{ℕ, List, [], ◌∷◌, ◌++◌, none, some, if◌then◌else◌}
use go_notify.Outbox.{Outbox, initial, put, offer, sent}

-- `BalloonEvent` is a `uint`.
abbrev pub BalloonEvent : Type 0
BalloonEvent = ℕ

pub record MenuEvent : Type 0 where
  pub id : ℕ

-- What the channel `ev` carries, by its dynamic type.
pub data Event : Type 0 where
  balloon_event : BalloonEvent → Event
  menu_event : MenuEvent → Event
  other_event : Event

-- The local variables, with what the receivers of the two channels have been handed so far.
pub record Loop : Type 0 where
  pub balloon : Outbox BalloonEvent
  pub menu : Outbox MenuEvent
  pub balloon_got : List BalloonEvent
  pub menu_got : List MenuEvent

-- The case of `select` that goes ahead in a round.
pub data Choice : Type 0 where
  take_event : Event → Choice
  send_balloon send_menu take_done : Choice

-- `blocked`: this case cannot go ahead, its channel is nil.
pub data Outcome : Type 0 where
  running returned : Loop → Outcome
  blocked panicked : Outcome

unfoldable pub start : Loop
start = record {
  balloon = initial 0;
  menu = initial (record { id = 0 });
  balloon_got = [];
  menu_got = [];
}

receive : Event → Loop → Loop
receive (balloon_event e) l = record l { balloon = put e l.balloon }
receive (menu_event e) l = record l { menu = put e l.menu }
receive other_event l = l

unfoldable pub take_case : Choice → BalloonEvent → MenuEvent → Loop → Outcome
unfolding receive
take_case (take_event e) v w l = running (receive e l)
take_case send_balloon v w l =
    if l.balloon.ready
    then running (record l { balloon = sent l.balloon; balloon_got = l.balloon_got ++ v ∷ [] })
    else blocked
take_case send_menu v w l =
    if l.menu.ready
    then running (record l { menu = sent l.menu; menu_got = l.menu_got ++ w ∷ [] })
    else blocked
take_case take_done v w l = returned l

-- `select` first evaluates the operands of both sends.
unfoldable pub step : Choice → Outcome → Outcome
unfolding take_case
step c (running l) = elim (offer l.balloon) [
  | none ↦ panicked
  | some v ↦ elim (offer l.menu) [ none ↦ panicked | some w ↦ take_case c v w l ]
]
step c o = o

-- The rounds of the loop; those after a `return` do not happen.
unfoldable pub run : List Choice → Outcome → Outcome
unfolding step
run [] o = o
run (c ∷ cs) o = run cs (step c o)

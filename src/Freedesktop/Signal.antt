-- ===== src/Freedesktop/Signal.antt =====
-- `Client.signal` of freedesktop/notify.go: the goroutine between the D-Bus connection and the two
-- channels of the client. Each round of its loop is one case of the `select`.
pub mod Order
pub mod Progress
pub mod Taken
use go_notify.Base.{
  ℕ, List, [], ◌∷◌, ◌++◌, Option, none, some, if◌then◌else◌, get_elem?, Bytes, bytes_eq,
}
use go_notify.Go.Value.{uint32, string}
use go_notify.Outbox.{Outbox, initial, put, offer, sent}
use go_notify.Freedesktop.Types.{
  NotificationClosed, ActionInvoked, Any, Signal, path, notification_closed, action_invoked,
}

-- The local variables, with what the receivers of the two channels have been handed so far and the
-- signals whose matches were removed.
pub record Loop : Type 0 where
  pub closed : Outbox NotificationClosed
  pub invoked : Outbox ActionInvoked
  pub closed_got : List NotificationClosed
  pub invoked_got : List ActionInvoked
  pub removed : List Bytes

-- The case of `select` that goes ahead in a round.
pub data Choice : Type 0 where
  take_signal : Option Signal → Choice
  send_closed send_invoked take_done : Choice

-- `blocked`: this case cannot go ahead, its channel is nil.
pub data Outcome : Type 0 where
  running returned : Loop → Outcome
  blocked panicked : Outcome

unfoldable pub start : Loop
start = record {
  closed = initial (record { id = 0; reason = 0 });
  invoked = initial (record { id = 0; key = [] });
  closed_got = [];
  invoked_got = [];
  removed = [];
}

-- `v.(uint32)` and `v.(string)`; a failed assertion panics, and so does an index out of range.
unfoldable pub assert_uint32 : Option Any → Option ℕ
assert_uint32 (some (uint32 n)) = some n
assert_uint32 _ = none

unfoldable pub assert_string : Option Any → Option Bytes
assert_string (some (string s)) = some s
assert_string _ = none

unfoldable pub closed_of_body : List Any → Option NotificationClosed
unfolding assert_uint32
closed_of_body body = elim (assert_uint32 (get_elem? body 0)) [
  | none ↦ none
  | some n ↦ elim (assert_uint32 (get_elem? body 1)) [
    | none ↦ none
    | some r ↦ some (record { id = n; reason = r })
  ]
]

unfoldable pub invoked_of_body : List Any → Option ActionInvoked
unfolding assert_uint32 assert_string
invoked_of_body body = elim (assert_uint32 (get_elem? body 0)) [
  | none ↦ none
  | some n ↦ elim (assert_string (get_elem? body 1)) [
    | none ↦ none
    | some k ↦ some (record { id = n; key = k })
  ]
]

unfoldable pub append_closed : Option NotificationClosed → Loop → Outcome
append_closed none l = panicked
append_closed (some v) l = running (record l { closed = put v l.closed })

unfoldable pub append_invoked : Option ActionInvoked → Loop → Outcome
append_invoked none l = panicked
append_invoked (some v) l = running (record l { invoked = put v l.invoked })

-- `case sig := <-c.c`; a receive from a closed channel gives nil.
unfoldable pub receive : Option Signal → Loop → Outcome
unfolding append_closed append_invoked
receive none l = running l
receive (some s) l =
    if bytes_eq s.path path
    then if bytes_eq s.name notification_closed
      then append_closed (closed_of_body s.body) l
      else if bytes_eq s.name action_invoked
      then append_invoked (invoked_of_body s.body) l
      else running l
    else running l

unfoldable pub take_case : Choice → NotificationClosed → ActionInvoked → Loop → Outcome
unfolding receive
take_case (take_signal s) v w l = receive s l
take_case send_closed v w l =
    if l.closed.ready
    then running (record l { closed = sent l.closed; closed_got = l.closed_got ++ v ∷ [] })
    else blocked
take_case send_invoked v w l =
    if l.invoked.ready
    then running (record l { invoked = sent l.invoked; invoked_got = l.invoked_got ++ w ∷ [] })
    else blocked
take_case take_done v w l =
    returned (record l { removed = l.removed ++ notification_closed ∷ action_invoked ∷ [] })

-- `select` first evaluates the operands of both sends.
unfoldable pub step : Loop → Choice → Outcome
unfolding take_case
step l c = elim (offer l.closed) [
  | none ↦ panicked
  | some v ↦ elim (offer l.invoked) [ none ↦ panicked | some w ↦ take_case c v w l ]
]

unfoldable pub continue : Outcome → Choice → Outcome
continue (running l) c = step l c
continue o c = o

-- The rounds of the loop; those after a `return` do not happen.
unfoldable pub run : Outcome → List Choice → Outcome
unfolding continue
run o [] = o
run o (c ∷ cs) = run (continue o c) cs

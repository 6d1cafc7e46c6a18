-- ===== src/Freedesktop/Signal/Progress.antt =====
-- When a round of `Client.signal` panics, and what its sends deliver.
use go_notify.Base.{
  ◌≡◌, ◌≢◌, refl, sym, ◌∙◌, List, [], ◌∷◌, ◌++◌, Option, none, some, arith, bytes_eq_iff,
}
use go_notify.Outbox.{sent}
use go_notify.Outbox.Fifo.{pending, pending-ready, sent-pending}
use go_notify.Freedesktop.Types.{
  NotificationClosed, ActionInvoked, Signal, path, notification_closed, action_invoked,
}
use go_notify.Freedesktop.Signal.Order.{
  Ordered, start-Ordered, step-take_case, Holds, closed_in, invoked_in, continue-Holds,
}
use go_notify.Freedesktop.Signal.{
  Loop, Choice, take_signal, send_closed, send_invoked, take_done, append_closed, append_invoked,
  Outcome, running, returned, blocked, panicked, start, closed_of_body, invoked_of_body, receive,
  take_case, step, run, continue,
}

-- The server keeps to the specification: the body of a signal of ours has the right types.
abbrev pub IsTyped : Choice → Type 0
IsTyped (take_signal (some s)) =
    (s.path ≡ path → s.name ≡ notification_closed → closed_of_body s.body ≢ none)
    × (s.path ≡ path → s.name ≡ action_invoked → invoked_of_body s.body ≢ none)
IsTyped _ = Unit

abbrev pub AllTyped : List Choice → Type 0
AllTyped [] = Unit
AllTyped (c ∷ cs) = IsTyped c × AllTyped cs

append_closed-ne-panicked :
    (o : Option NotificationClosed) (l : Loop) → o ≢ none → append_closed o l ≢ panicked
unfolding append_closed
append_closed-ne-panicked none l h = absurd (h refl)
append_closed-ne-panicked (some v) l h = λ e. cc

append_invoked-ne-panicked :
    (o : Option ActionInvoked) (l : Loop) → o ≢ none → append_invoked o l ≢ panicked
unfolding append_invoked
append_invoked-ne-panicked none l h = absurd (h refl)
append_invoked-ne-panicked (some v) l h = λ e. cc

receive-ne-panicked :
    (s : Signal) (l : Loop) → IsTyped (take_signal (some s)) → receive (some s) l ≢ panicked
unfolding receive
receive-ne-panicked s l t = ground (
  arith,
  bytes_eq_iff s.path path,
  bytes_eq_iff s.name notification_closed,
  bytes_eq_iff s.name action_invoked,
  append_closed-ne-panicked (closed_of_body s.body) l,
  append_invoked-ne-panicked (invoked_of_body s.body) l,
)

take_case-ne-panicked :
    (c : Choice) (v : NotificationClosed) (w : ActionInvoked) (l : Loop)
    → IsTyped c
    → take_case c v w l ≢ panicked
unfolding take_case
take_case-ne-panicked (take_signal none) v w l t = unfold receive in λ e. cc
take_case-ne-panicked (take_signal (some s)) v w l t = receive-ne-panicked s l t
take_case-ne-panicked send_closed v w l t = ground arith
take_case-ne-panicked send_invoked v w l t = ground arith
take_case-ne-panicked take_done v w l t = λ e. cc

continue-ne-panicked :
    (cl : List NotificationClosed) (iv : List ActionInvoked) (o : Outcome) (c : Choice)
    → Holds cl iv o
    → IsTyped c
    → o ≢ panicked
    → continue o c ≢ panicked
unfolding continue
continue-ne-panicked cl iv (running l) c h t ne =
    let (v, w, ev, ew, e) = step-take_case c l h in rw e (take_case-ne-panicked c v w l t)
continue-ne-panicked cl iv (returned l) c h t ne = λ e. cc
continue-ne-panicked cl iv blocked c h t ne = λ e. cc
continue-ne-panicked cl iv panicked c h t ne = ne

run-ne-panicked_from :
    (cs : List Choice) (cl : List NotificationClosed) (iv : List ActionInvoked) (o : Outcome)
    → Holds cl iv o
    → AllTyped cs
    → o ≢ panicked
    → run o cs ≢ panicked
unfolding run
run-ne-panicked_from [] cl iv o h t ne = ne
run-ne-panicked_from (c ∷ cs) cl iv o h t ne =
    run-ne-panicked_from cs (cl ++ closed_in c) (iv ++ invoked_in c) (continue o c)
      (continue-Holds cl iv o c h) t.1 (continue-ne-panicked cl iv o c h t.0 ne)

-- The loop never panics, whatever the order of its rounds, as long as every signal of the two
-- kinds has a body of the types that the specification gives: no index is out of range.
pub run-ne-panicked : (cs : List Choice) → AllTyped cs → run (running start) cs ≢ panicked
run-ne-panicked cs t = run-ne-panicked_from cs [] [] (running start) start-Ordered t (λ e. cc)

-- In every state that the loop is in between two rounds: with a value held back for the channel
-- NotificationClosed, a receiver is handed the oldest one, and the rest is held back still.
pub send_closed-delivers :
    {cl : List NotificationClosed} {iv : List ActionInvoked} (l : Loop) (v : NotificationClosed)
    (vs : List NotificationClosed)
    → Ordered cl iv l
    → pending l.closed ≡ v ∷ vs
    → (l' : Loop) × (step l send_closed ≡ running l')
      × (l'.closed_got ≡ l.closed_got ++ v ∷ [])
      × (pending l'.closed ≡ vs)
      × (l'.invoked ≡ l.invoked)
unfolding take_case
send_closed-delivers l v vs h p =
    let on = pending-ready l.closed h.closed_well (λ e. cc) in
    let (u, w, eu, ew, e) = step-take_case send_closed l h in
    let q : u ∷ pending (sent l.closed) ≡ v ∷ vs =
      sym (sent-pending l.closed u h.closed_well on eu) ∙ p in
    (
      record l { closed = sent l.closed; closed_got = l.closed_got ++ u ∷ [] },
      e ∙ simp on,
      ground arith,
      ground arith,
      refl,
    )

-- ===== src/Freedesktop/Lifecycle/Rounds.antt =====
-- The matches that a round of the signal loop removes.
use go_notify.Base.{
  ◌≡◌, refl, Bool, true, false, List, [], ◌∷◌, ◌++◌, Option, none, some, if◌then◌else◌, bytes_eq,
}
use go_notify.Freedesktop.Types.{
  path, notification_closed, action_invoked, NotificationClosed, ActionInvoked, Signal,
}
use go_notify.Freedesktop.Signal.{
  Loop, Choice, take_signal, send_closed, send_invoked, take_done, Outcome, running, returned, step,
  take_case, receive, append_closed, append_invoked,
}
use go_notify.Freedesktop.Signal.Order.{Ordered, step-take_case}

-- What a round of the loop does to the list of removed matches.
unfoldable pub Removes : Choice → Loop → Outcome → Type 0
Removes c l (running l') = l'.removed ≡ l.removed
Removes c l (returned l') =
    (c ≡ take_done) × (l'.removed ≡ l.removed ++ notification_closed ∷ action_invoked ∷ [])
Removes c l _ = Unit

running-Removes : (c : Choice) (l l' : Loop) → l'.removed ≡ l.removed → Removes c l (running l')
unfolding Removes
running-Removes c l l' e = e

append_closed-Removes :
    (c : Choice) (o : Option NotificationClosed) (l : Loop) → Removes c l (append_closed o l)
unfolding append_closed Removes
append_closed-Removes c none l = tt
append_closed-Removes c (some v) l = refl

append_invoked-Removes :
    (c : Choice) (o : Option ActionInvoked) (l : Loop) → Removes c l (append_invoked o l)
unfolding append_invoked Removes
append_invoked-Removes c none l = tt
append_invoked-Removes c (some v) l = refl

if-Removes :
    (b : Bool) (c : Choice) (l : Loop) (x y : Outcome)
    → Removes c l x
    → Removes c l y
    → Removes c l (if b then x else y)
if-Removes true c l x y h k = h
if-Removes false c l x y h k = k

receive-Removes : (c : Choice) (s : Option Signal) (l : Loop) → Removes c l (receive s l)
unfolding receive
receive-Removes c none l = running-Removes c l l refl
receive-Removes c (some s) l =
    if-Removes (bytes_eq s.path path) c l _ _
      (if-Removes (bytes_eq s.name notification_closed) c l _ _ (append_closed-Removes c _ l) (
        if-Removes (bytes_eq s.name action_invoked) c l _ _ (append_invoked-Removes c _ l)
          (running-Removes c l l refl)))
      (running-Removes c l l refl)

take_case-Removes :
    (c : Choice) (v : NotificationClosed) (w : ActionInvoked) (l : Loop)
    → Removes c l (take_case c v w l)
unfolding take_case
take_case-Removes (take_signal s) v w l = receive-Removes (take_signal s) s l
take_case-Removes send_closed v w l =
    if-Removes l.closed.ready send_closed l _ _ (running-Removes send_closed l _ refl)
      (unfold Removes in tt)
take_case-Removes send_invoked v w l =
    if-Removes l.invoked.ready send_invoked l _ _ (running-Removes send_invoked l _ refl)
      (unfold Removes in tt)
take_case-Removes take_done v w l = unfold Removes in (refl, refl)

pub step-Removes :
    {cl : List NotificationClosed} {iv : List ActionInvoked} (c : Choice) (l : Loop)
    → Ordered cl iv l
    → Removes c l (step l c)
step-Removes c l h =
    let (v, w, ev, ew, e) = step-take_case c l h in rw e (take_case-Removes c v w l)

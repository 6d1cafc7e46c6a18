-- ===== src/Freedesktop/Signal/Order.antt =====
-- `Client.signal` hands over every signal once and in order, and does not panic.
use go_notify.Base.{
  ◌≡◌, inl, inr, refl, sym, ap, ◌∙◌, subst, true, false, ◌&&◌, List, [], ◌∷◌, ◌++◌, append-nil,
  append_assoc, Option, none, some, if◌then◌else◌, Bool-cases, Bytes, bytes_eq, bytes_eq_iff,
}
use go_notify.Outbox.{put, offer, sent}
use go_notify.Outbox.Fifo.{
  pending, IsWell, initial-IsWell, pending-initial, put-IsWell, pending-put, offer_total,
  sent-IsWell, sent-pending,
}
use go_notify.Freedesktop.Types.{
  NotificationClosed, ActionInvoked, Signal, path, notification_closed, action_invoked,
}
use go_notify.Freedesktop.Signal.{
  Loop, Choice, take_signal, send_closed, send_invoked, take_done, append_closed, append_invoked,
  Outcome, running, start, closed_of_body, invoked_of_body, receive, take_case, step, run, continue,
}

-- The signals of each kind that a round takes in, read off the signal alone.
abbrev to_list {ℓ} : {A : Type ℓ} → Option A → List A
to_list none = []
to_list (some a) = a ∷ []

pub closed_in : Choice → List NotificationClosed
closed_in (take_signal (some s)) =
    if bytes_eq s.path path && bytes_eq s.name notification_closed
    then to_list (closed_of_body s.body)
    else []
closed_in _ = []

pub invoked_in : Choice → List ActionInvoked
invoked_in (take_signal (some s)) =
    if bytes_eq s.path path && bytes_eq s.name action_invoked
    then to_list (invoked_of_body s.body)
    else []
invoked_in _ = []

abbrev pub all_in {ℓ} : {A : Type ℓ} → (Choice → List A) → List Choice → List A
all_in f [] = []
all_in f (c ∷ cs) = f c ++ all_in f cs

-- The two names differ, so a signal is of one kind at most.
names_ne : (n : Bytes) → bytes_eq n notification_closed ≡ true → bytes_eq n action_invoked ≡ false
unfolding bytes_eq
names_ne n h = rw ((bytes_eq_iff n notification_closed).0 h) refl

pub record Ordered (closed : List NotificationClosed) (invoked : List ActionInvoked) (l : Loop)
    : Type 0 where
  pub closed_well : IsWell l.closed
  pub invoked_well : IsWell l.invoked
  pub closed_order : l.closed_got ++ pending l.closed ≡ closed
  pub invoked_order : l.invoked_got ++ pending l.invoked ≡ invoked

abbrev pub Holds : (cl : List NotificationClosed) (iv : List ActionInvoked) → Outcome → Type 0
Holds cl iv (running l) = Ordered cl iv l
Holds cl iv _ = Unit

pub start-Ordered : Ordered [] [] start
unfolding start
start-Ordered = record {
  closed_well = initial-IsWell _;
  invoked_well = initial-IsWell _;
  closed_order = pending-initial _;
  invoked_order = pending-initial _;
}

put_closed-Ordered :
    {cl : List NotificationClosed} {iv : List ActionInvoked} {l : Loop} (v : NotificationClosed)
    → Ordered cl iv l
    → Ordered (cl ++ v ∷ []) iv (record l { closed = put v l.closed })
put_closed-Ordered {l = l} v h = record {
  closed_well = put-IsWell v l.closed h.closed_well;
  invoked_well = h.invoked_well;
  closed_order =
      rw (pending-put v l.closed h.closed_well, ← append_assoc)
        (ap (λ xs. xs ++ v ∷ []) h.closed_order);
  invoked_order = h.invoked_order;
}

put_invoked-Ordered :
    {cl : List NotificationClosed} {iv : List ActionInvoked} {l : Loop} (v : ActionInvoked)
    → Ordered cl iv l
    → Ordered cl (iv ++ v ∷ []) (record l { invoked = put v l.invoked })
put_invoked-Ordered {l = l} v h = record {
  closed_well = h.closed_well;
  invoked_well = put-IsWell v l.invoked h.invoked_well;
  closed_order = h.closed_order;
  invoked_order =
      rw (pending-put v l.invoked h.invoked_well, ← append_assoc)
        (ap (λ xs. xs ++ v ∷ []) h.invoked_order);
}

same-Holds :
    {cl : List NotificationClosed} {iv : List ActionInvoked} {l : Loop}
    → Ordered cl iv l
    → Ordered (cl ++ []) (iv ++ []) l
same-Holds {cl} {iv} h = rw (append-nil cl, append-nil iv) h

append_closed-Holds :
    {cl : List NotificationClosed} {iv : List ActionInvoked} (o : Option NotificationClosed)
    (l : Loop)
    → Ordered cl iv l
    → Holds (cl ++ to_list o) (iv ++ []) (append_closed o l)
unfolding append_closed
append_closed-Holds none l h = tt
append_closed-Holds {cl} {iv} (some v) l h = rw (append-nil iv) (put_closed-Ordered v h)

append_invoked-Holds :
    {cl : List NotificationClosed} {iv : List ActionInvoked} (o : Option ActionInvoked) (l : Loop)
    → Ordered cl iv l
    → Holds (cl ++ []) (iv ++ to_list o) (append_invoked o l)
unfolding append_invoked
append_invoked-Holds none l h = tt
append_invoked-Holds {cl} {iv} (some v) l h = rw (append-nil cl) (put_invoked-Ordered v h)

receive-Holds :
    {cl : List NotificationClosed} {iv : List ActionInvoked} (s : Option Signal) (l : Loop)
    → Ordered cl iv l
    → Holds (cl ++ closed_in (take_signal s)) (iv ++ invoked_in (take_signal s)) (receive s l)
unfolding receive closed_in invoked_in
receive-Holds none l h = same-Holds h
receive-Holds (some s) l h = elim (Bool-cases (bytes_eq s.path path)) [
  | inr elsewhere ↦ rw elsewhere (same-Holds h)
  | inl here ↦ elim (Bool-cases (bytes_eq s.name notification_closed)) [
    | inl is_closed ↦
        rw (here, is_closed, names_ne s.name is_closed)
          (append_closed-Holds (closed_of_body s.body) l h)
    | inr not_closed ↦ elim (Bool-cases (bytes_eq s.name action_invoked)) [
      | inl is_invoked ↦
          rw (here, not_closed, is_invoked) (append_invoked-Holds (invoked_of_body s.body) l h)
      | inr neither ↦ rw (here, not_closed, neither) (same-Holds h)
    ]
  ]
]

sent_closed-Ordered :
    {cl : List NotificationClosed} {iv : List ActionInvoked} {l : Loop} (v : NotificationClosed)
    → Ordered cl iv l
    → l.closed.ready ≡ true
    → offer l.closed ≡ some v
    → Ordered cl iv (record l { closed = sent l.closed; closed_got = l.closed_got ++ v ∷ [] })
sent_closed-Ordered {l = l} v h on e = record {
  closed_well = sent-IsWell l.closed h.closed_well on;
  invoked_well = h.invoked_well;
  closed_order =
      append_assoc l.closed_got (v ∷ []) (pending (sent l.closed))
      ∙ ap (λ xs. l.closed_got ++ xs) (sym (sent-pending l.closed v h.closed_well on e))
      ∙ h.closed_order;
  invoked_order = h.invoked_order;
}

sent_invoked-Ordered :
    {cl : List NotificationClosed} {iv : List ActionInvoked} {l : Loop} (v : ActionInvoked)
    → Ordered cl iv l
    → l.invoked.ready ≡ true
    → offer l.invoked ≡ some v
    → Ordered cl iv (record l { invoked = sent l.invoked; invoked_got = l.invoked_got ++ v ∷ [] })
sent_invoked-Ordered {l = l} v h on e = record {
  closed_well = h.closed_well;
  invoked_well = sent-IsWell l.invoked h.invoked_well on;
  closed_order = h.closed_order;
  invoked_order =
      append_assoc l.invoked_got (v ∷ []) (pending (sent l.invoked))
      ∙ ap (λ xs. l.invoked_got ++ xs) (sym (sent-pending l.invoked v h.invoked_well on e))
      ∙ h.invoked_order;
}

-- The operands of `select` are there, so a round is its case.
pub step-take_case :
    {cl : List NotificationClosed} {iv : List ActionInvoked} (c : Choice) (l : Loop)
    → Ordered cl iv l
    → (v : NotificationClosed) × (w : ActionInvoked) × (offer l.closed ≡ some v)
      × (offer l.invoked ≡ some w)
      × (step l c ≡ take_case c v w l)
unfolding step
step-take_case c l h =
    let (v, ev) = offer_total l.closed h.closed_well in
    let (w, ew) = offer_total l.invoked h.invoked_well in (v, w, ev, ew, rw (ev, step, ew))

pub take_case-Holds :
    {cl : List NotificationClosed} {iv : List ActionInvoked} (c : Choice) (l : Loop)
    (v : NotificationClosed) (w : ActionInvoked)
    → Ordered cl iv l
    → offer l.closed ≡ some v
    → offer l.invoked ≡ some w
    → Holds (cl ++ closed_in c) (iv ++ invoked_in c) (take_case c v w l)
unfolding take_case closed_in invoked_in
take_case-Holds (take_signal s) l v w h ev ew = receive-Holds s l h
take_case-Holds send_closed l v w h ev ew = elim (Bool-cases l.closed.ready) [
  | inl on ↦ simp on (same-Holds (sent_closed-Ordered v h on ev))
  | inr off ↦ simp off tt
]
take_case-Holds send_invoked l v w h ev ew = elim (Bool-cases l.invoked.ready) [
  | inl on ↦ simp on (same-Holds (sent_invoked-Ordered w h on ew))
  | inr off ↦ simp off tt
]
take_case-Holds take_done l v w h ev ew = tt

pub continue-Holds :
    (cl : List NotificationClosed) (iv : List ActionInvoked) (o : Outcome) (c : Choice)
    → Holds cl iv o
    → Holds (cl ++ closed_in c) (iv ++ invoked_in c) (continue o c)
unfolding continue
continue-Holds cl iv (running l) c h =
    let (v, w, ev, ew, e) = step-take_case c l h in rw e (take_case-Holds c l v w h ev ew)
continue-Holds cl iv _ c h = tt

run-Holds :
    (cs : List Choice) (cl : List NotificationClosed) (iv : List ActionInvoked) (o : Outcome)
    → Holds cl iv o
    → Holds (cl ++ all_in closed_in cs) (iv ++ all_in invoked_in cs) (run o cs)
unfolding run
run-Holds [] cl iv o h = rw (append-nil cl, append-nil iv) h
run-Holds (c ∷ cs) cl iv o h =
    rw
      (
        ← append_assoc cl (closed_in c) (all_in closed_in cs),
        ← append_assoc iv (invoked_in c) (all_in invoked_in cs),
      )
      (run-Holds cs (cl ++ closed_in c) (iv ++ invoked_in c) (continue o c)
        (continue-Holds cl iv o c h))

-- Whatever rounds the loop has run, what each channel's receiver was handed, followed by what is
-- still held back, is exactly the list of that channel's signals taken in, in order; both buffers
-- are well formed.
pub run-Ordered :
    (cs : List Choice) (l : Loop)
    → run (running start) cs ≡ running l
    → Ordered (all_in closed_in cs) (all_in invoked_in cs) l
run-Ordered cs l e = subst (Holds _ _) e (run-Holds cs [] [] (running start) start-Ordered)

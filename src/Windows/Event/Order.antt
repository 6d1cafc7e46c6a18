-- ===== src/Windows/Event/Order.antt =====
-- `NotifyIcon.event` hands over every event once and in order, and does not panic.
use go_notify.Base.{
  ◌≡◌, inl, inr, sym, ap, ◌∙◌, true, List, [], ◌∷◌, ◌++◌, append-nil, append_assoc, some,
  Bool-cases,
}
use go_notify.Outbox.{offer, sent}
use go_notify.Outbox.Fifo.{
  pending, IsWell, initial-IsWell, pending-initial, put-IsWell, pending-put, offer_total,
  sent-IsWell, sent-pending,
}
use go_notify.Windows.Event.{
  BalloonEvent, MenuEvent, Event, balloon_event, menu_event, other_event, Loop, Choice, take_event,
  send_balloon, send_menu, take_done, Outcome, running, returned, blocked, panicked, start, receive,
  take_case, step, run,
}

-- The events of each kind that a round takes in.
unfoldable pub balloons_in : Choice → List BalloonEvent
balloons_in (take_event (balloon_event e)) = e ∷ []
balloons_in _ = []

unfoldable pub menus_in : Choice → List MenuEvent
menus_in (take_event (menu_event e)) = e ∷ []
menus_in _ = []

abbrev pub all_in {ℓ} : {A : Type ℓ} → (Choice → List A) → List Choice → List A
all_in f [] = []
all_in f (c ∷ cs) = f c ++ all_in f cs

pub record Ordered (balloons : List BalloonEvent) (menus : List MenuEvent) (l : Loop) : Type 0 where
  pub balloon_well : IsWell l.balloon
  pub menu_well : IsWell l.menu
  pub balloon_order : l.balloon_got ++ pending l.balloon ≡ balloons
  pub menu_order : l.menu_got ++ pending l.menu ≡ menus

-- Of the outcome of a run: a panic is excluded, and a loop that goes on is in order.
abbrev pub Runs : List BalloonEvent → List MenuEvent → Outcome → Type 0
Runs bs ms (running l) = Ordered bs ms l
Runs bs ms (returned l) = Unit
Runs bs ms blocked = Unit
Runs bs ms panicked = ⊥

start-Ordered : Ordered [] [] start
unfolding start
start-Ordered = record {
  balloon_well = initial-IsWell _;
  menu_well = initial-IsWell _;
  balloon_order = pending-initial _;
  menu_order = pending-initial _;
}

receive-Ordered :
    {bs : List BalloonEvent} {ms : List MenuEvent} (e : Event) (l : Loop)
    → Ordered bs ms l
    → Ordered (bs ++ balloons_in (take_event e)) (ms ++ menus_in (take_event e)) (receive e l)
unfolding receive balloons_in menus_in
receive-Ordered {bs} {ms} (balloon_event e) l h = rw (append-nil ms) (record {
  balloon_well = put-IsWell e l.balloon h.balloon_well;
  menu_well = h.menu_well;
  balloon_order =
      rw (pending-put e l.balloon h.balloon_well, ← append_assoc)
        (ap (λ xs. xs ++ e ∷ []) h.balloon_order);
  menu_order = h.menu_order;
})
receive-Ordered {bs} {ms} (menu_event e) l h = rw (append-nil bs) (record {
  balloon_well = h.balloon_well;
  menu_well = put-IsWell e l.menu h.menu_well;
  balloon_order = h.balloon_order;
  menu_order =
      rw (pending-put e l.menu h.menu_well, ← append_assoc) (ap (λ xs. xs ++ e ∷ []) h.menu_order);
})
receive-Ordered {bs} {ms} other_event l h = rw (append-nil bs, append-nil ms) h

sent_balloon-Ordered :
    {bs : List BalloonEvent} {ms : List MenuEvent} (l : Loop) (v : BalloonEvent)
    → Ordered bs ms l
    → l.balloon.ready ≡ true
    → offer l.balloon ≡ some v
    → Ordered bs ms (record l { balloon = sent l.balloon; balloon_got = l.balloon_got ++ v ∷ [] })
sent_balloon-Ordered l v h on e = record {
  balloon_well = sent-IsWell l.balloon h.balloon_well on;
  menu_well = h.menu_well;
  balloon_order =
      append_assoc l.balloon_got (v ∷ []) (pending (sent l.balloon))
      ∙ ap (λ xs. l.balloon_got ++ xs) (sym (sent-pending l.balloon v h.balloon_well on e))
      ∙ h.balloon_order;
  menu_order = h.menu_order;
}

sent_menu-Ordered :
    {bs : List BalloonEvent} {ms : List MenuEvent} (l : Loop) (w : MenuEvent)
    → Ordered bs ms l
    → l.menu.ready ≡ true
    → offer l.menu ≡ some w
    → Ordered bs ms (record l { menu = sent l.menu; menu_got = l.menu_got ++ w ∷ [] })
sent_menu-Ordered l w h on e = record {
  balloon_well = h.balloon_well;
  menu_well = sent-IsWell l.menu h.menu_well on;
  balloon_order = h.balloon_order;
  menu_order =
      append_assoc l.menu_got (w ∷ []) (pending (sent l.menu))
      ∙ ap (λ xs. l.menu_got ++ xs) (sym (sent-pending l.menu w h.menu_well on e))
      ∙ h.menu_order;
}

same-Ordered :
    {bs : List BalloonEvent} {ms : List MenuEvent} {l : Loop}
    → Ordered bs ms l
    → Ordered (bs ++ []) (ms ++ []) l
same-Ordered {bs} {ms} h = rw (append-nil bs, append-nil ms) h

take_case-Runs :
    {bs : List BalloonEvent} {ms : List MenuEvent} (c : Choice) (l : Loop) (v : BalloonEvent)
    (w : MenuEvent)
    → Ordered bs ms l
    → offer l.balloon ≡ some v
    → offer l.menu ≡ some w
    → Runs (bs ++ balloons_in c) (ms ++ menus_in c) (take_case c v w l)
unfolding take_case balloons_in menus_in
take_case-Runs (take_event e) l v w h ev ew = receive-Ordered e l h
take_case-Runs send_balloon l v w h ev ew = elim (Bool-cases l.balloon.ready) [
  | inl on ↦ simp on (same-Ordered (sent_balloon-Ordered l v h on ev))
  | inr off ↦ simp off tt
]
take_case-Runs send_menu l v w h ev ew = elim (Bool-cases l.menu.ready) [
  | inl on ↦ simp on (same-Ordered (sent_menu-Ordered l w h on ew))
  | inr off ↦ simp off tt
]
take_case-Runs take_done l v w h ev ew = tt

step-Runs :
    (bs : List BalloonEvent) (ms : List MenuEvent) (c : Choice) (o : Outcome)
    → Runs bs ms o
    → Runs (bs ++ balloons_in c) (ms ++ menus_in c) (step c o)
unfolding step
step-Runs bs ms c (running l) h =
    let (v, ev) = offer_total l.balloon h.balloon_well in
    let (w, ew) = offer_total l.menu h.menu_well in
    rw (ev, step, ew) (take_case-Runs c l v w h ev ew)
step-Runs bs ms c (returned l) h = tt
step-Runs bs ms c blocked h = tt
step-Runs bs ms c panicked h = absurd h

run_from-Runs :
    (cs : List Choice) (bs : List BalloonEvent) (ms : List MenuEvent) (o : Outcome)
    → Runs bs ms o
    → Runs (bs ++ all_in balloons_in cs) (ms ++ all_in menus_in cs) (run cs o)
unfolding run
run_from-Runs [] bs ms o h = rw (append-nil bs, append-nil ms) h
run_from-Runs (c ∷ cs) bs ms o h =
    rw
      (
        ← append_assoc bs (balloons_in c) (all_in balloons_in cs),
        ← append_assoc ms (menus_in c) (all_in menus_in cs),
      )
      (run_from-Runs cs (bs ++ balloons_in c) (ms ++ menus_in c) (step c o) (step-Runs bs ms c o h))

-- Whatever the rounds of the loop: it does not panic, and while it goes on, what each channel's
-- receiver was handed, followed by what is still held back, is exactly the list of that channel's
-- events taken in, in order.
pub run-Runs :
    (cs : List Choice) → Runs (all_in balloons_in cs) (all_in menus_in cs) (run cs (running start))
run-Runs cs = run_from-Runs cs [] [] (running start) start-Ordered

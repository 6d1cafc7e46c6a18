-- ===== src/Freedesktop/Lifecycle/Lawful.antt =====
-- The connection between `New` and the end of `Close`, whatever the order of events.
use go_notify.Base.{
  ℕ, zero, suc, ◌≡◌, refl, ◌∙◌, subst, Bool, true, false, List, [], ◌∷◌, ◌++◌, Option, none, some,
  arith, get_elem?, Bool-cases, inl, inr,
}
use go_notify.Freedesktop.Types.{
  notification_closed, action_invoked, NotificationClosed, ActionInvoked,
}
use go_notify.Freedesktop.Bus.{close_connection, History, Bus}
use go_notify.Freedesktop.Signal.{
  Loop, Choice, take_signal, send_closed, send_invoked, take_done, Outcome, running, returned,
  blocked, panicked, start, step, continue,
}
use go_notify.Freedesktop.Signal.Order.{
  Ordered, Holds, start-Ordered, continue-Holds, closed_in, invoked_in,
}
use go_notify.Freedesktop.Lifecycle.{
  Caller, idle, waiting, back, closed, created, new, Goroutine, live, ended, World, Event, goes_on,
  round, becomes, enters, waits, close, stops, goes, can_go, round_of, next, and_then, run, opened,
}
use go_notify.Freedesktop.Lifecycle.Opening.{
  opening, removals, new-opening, remove_matches-removals,
}
use go_notify.Freedesktop.Lifecycle.Callers.{
  is_closed, is_busy, count, count-set_caller, count-replicate, Tally, Tally-back, Tally-waiting,
  Tally-closed, none_closed, busy_done,
}
use go_notify.Freedesktop.Lifecycle.Rounds.{Removes, step-Removes}

abbrev pub closes : ℕ → History
closes zero = []
closes (suc n) = close_connection ∷ closes n

-- Where the goroutine is: in its loop with both matches added, or ended with both removed, and then
-- the connection is closed by as many callers as have closed it.
abbrev pub Phase : Goroutine → Bool → History → ℕ → Type 0
Phase (live l) done h n =
    ((cl : List NotificationClosed) × (iv : List ActionInvoked) × Ordered cl iv l)
    × (l.removed ≡ [])
    × (h ≡ opening)
    × (n ≡ 0)
Phase ended done h n = (done ≡ true) × (h ≡ opening ++ removals ++ closes n)

pub record Lawful (w : World) : Type 0 where
  pub phase : Phase w.goroutine w.done w.history (count is_closed w.callers)
  pub tally : Tally w.done w.callers

pub opened-Lawful : (n : ℕ) → Lawful (opened opening n)
unfolding opened start
opened-Lawful n = record {
  phase = (([], [], start-Ordered), refl, refl, count-replicate is_closed n refl);
  tally = (count-replicate is_busy n refl, count-replicate is_closed n refl);
}

-- What one event leads to, where it is not a panic.
abbrev LawfulNext : Option World → Type 0
LawfulNext none = Unit
LawfulNext (some w) = Lawful w

Phase-moved :
    (g : Goroutine) (d d' : Bool) (h : History) (n n' : ℕ)
    → Phase g d h n
    → n' ≡ n
    → (d ≡ true → d' ≡ true)
    → Phase g d' h n'
Phase-moved (live l) d d' h n n' (o, r, e, z) m f = (o, r, e, m ∙ z)
Phase-moved ended d d' h n n' (e, r) m f = (f e, rw m r)

enters-Lawful :
    (i : ℕ) (d : Bool) (w : World)
    → Lawful w
    → get_elem? w.callers i ≡ some idle
    → w.done ≡ d
    → Lawful (enters i d w)
unfolding enters becomes
enters-Lawful i true w h e t = record {
  phase =
      Phase-moved w.goroutine w.done w.done w.history _ _ h.phase
        (omega (arith, count-set_caller is_closed i idle back w.callers e)) (λ x. x);
  tally = rw t (Tally-back i w.callers e (subst (λ d. Tally d w.callers) t h.tally));
}
enters-Lawful i false w h e t = record {
  phase =
      Phase-moved w.goroutine w.done true w.history _ _ h.phase
        (omega (arith, count-set_caller is_closed i idle waiting w.callers e)) (λ x. refl);
  tally = Tally-waiting i w.callers e (subst (λ d. Tally d w.callers) t h.tally);
}

-- The closing of the connection is the last that is done on it.
closed-history :
    (h : History) (n n' : ℕ)
    → h ≡ opening ++ removals ++ closes n
    → n ≡ 0
    → n' ≡ suc n
    → h ++ close_connection ∷ [] ≡ opening ++ removals ++ closes n'
closed-history h n n' e z m = rw (m, e, z) refl

waits-Lawful :
    (b : Bus) (i : ℕ) (g : Goroutine) (w : World)
    → Lawful w
    → get_elem? w.callers i ≡ some waiting
    → w.goroutine ≡ g
    → Lawful (waits b i g w)
unfolding waits becomes
waits-Lawful b i (live l) w h e t = h
waits-Lawful b i ended w h e t =
    let d : w.done ≡ true = busy_done i w.callers waiting w.done e refl h.tally in
    let y : Tally true w.callers = subst (λ d. Tally d w.callers) d h.tally in
    let p : Phase ended w.done w.history (count is_closed w.callers) =
      subst (λ g. Phase g w.done w.history (count is_closed w.callers)) t h.phase in
    record {
      phase = rw t (
        d,
        closed-history w.history _ _ p.1 (none_closed i w.callers e y) (
            omega (
              arith,
              count-set_caller is_closed i waiting (closed (b.close w.history)) w.callers e,
            )),
      );
      tally = rw d (Tally-closed i w.callers _ e y);
    }

pub close-Lawful :
    (b : Bus) (i : ℕ) (c : Option Caller) (w : World)
    → Lawful w
    → get_elem? w.callers i ≡ c
    → Lawful (close b i c w)
unfolding close
close-Lawful b i none w h e = h
close-Lawful b i (some idle) w h e = enters-Lawful i w.done w h e refl
close-Lawful b i (some waiting) w h e = waits-Lawful b i w.goroutine w h e refl
close-Lawful b i (some back) w h e = h
close-Lawful b i (some (closed x)) w h e = h

goes-Lawful :
    (b : Bus) (c : Choice) (l : Loop) (o : Outcome) (w : World) (cl : List NotificationClosed)
    (iv : List ActionInvoked)
    → Lawful w
    → w.goroutine ≡ live l
    → Holds cl iv o
    → Removes c l o
    → (c ≡ take_done → w.done ≡ true)
    → LawfulNext (goes b o w)
unfolding goes stops Removes
goes-Lawful b c l (running l') w cl iv h t o r d =
    let (q, r0, e, z) : Phase (live l) w.done w.history (count is_closed w.callers) =
      subst (λ g. Phase g w.done w.history (count is_closed w.callers)) t h.phase in
    record { phase = ((cl, iv, o), r ∙ r0, e, z); tally = h.tally }
goes-Lawful b c l (returned l') w cl iv h t o (is_done, r) d =
    let (q, r0, e, z) : Phase (live l) w.done w.history (count is_closed w.callers) =
      subst (λ g. Phase g w.done w.history (count is_closed w.callers)) t h.phase in
    let k : l'.removed ≡ notification_closed ∷ action_invoked ∷ [] = r ∙ rw r0 refl in
    rw (k, remove_matches-removals b w.history)
      (record { phase = (d is_done, rw (e, z) refl); tally = h.tally })
goes-Lawful b c l blocked w cl iv h t o r d = h
goes-Lawful b c l panicked w cl iv h t o r d = tt

step-Holds :
    (cl : List NotificationClosed) (iv : List ActionInvoked) (c : Choice) (l : Loop)
    → Ordered cl iv l
    → Holds (cl ++ closed_in c) (iv ++ invoked_in c) (step l c)
unfolding continue
step-Holds cl iv c l o = continue-Holds cl iv (running l) c o

can_go-done : (c : Choice) (d : Bool) → can_go c d ≡ true → c ≡ take_done → d ≡ true
unfolding can_go
can_go-done take_done d e t = e
can_go-done (take_signal s) d e t = cc
can_go-done send_closed d e t = cc
can_go-done send_invoked d e t = cc

round_of-Lawful :
    (b : Bus) (c : Choice) (g : Goroutine) (w : World)
    → Lawful w
    → w.goroutine ≡ g
    → LawfulNext (round_of b c g w)
unfolding round_of
round_of-Lawful b c ended w h t = h
round_of-Lawful b c (live l) w h t =
    let ((cl, iv, o), r, e, z) : Phase (live l) w.done w.history (count is_closed w.callers) =
      subst (λ g. Phase g w.done w.history (count is_closed w.callers)) t h.phase in
    elim (Bool-cases (can_go c w.done)) [
      | inl on ↦ rw on (
          goes-Lawful b c l (step l c) w (cl ++ closed_in c) (iv ++ invoked_in c) h t
            (step-Holds cl iv c l o) (step-Removes c l o) (can_go-done c w.done on))
      | inr off ↦ rw off h
    ]

next-Lawful : (b : Bus) (e : Event) (w : World) → Lawful w → LawfulNext (next b e w)
unfolding next
next-Lawful b (goes_on i) w h = close-Lawful b i (get_elem? w.callers i) w h refl
next-Lawful b (round c) w h = round_of-Lawful b c w.goroutine w h refl

and_then-Lawful :
    (o : Option World) (f : World → Option World)
    → LawfulNext o
    → ((w : World) → Lawful w → LawfulNext (f w))
    → LawfulNext (and_then o f)
unfolding and_then
and_then-Lawful none f h k = tt
and_then-Lawful (some w) f h k = k w h

run_from-Lawful : (b : Bus) (es : List Event) (w : World) → Lawful w → LawfulNext (run b es w)
unfolding run
run_from-Lawful b [] w h = h
run_from-Lawful b (e ∷ es) w h =
    and_then-Lawful (next b e w) (run b es) (next-Lawful b e w h) (run_from-Lawful b es)

-- After `New` has returned a client, and whatever callers of `Close` and rounds of the loop follow in
-- whatever order, as long as nothing panics: while the goroutine is in its loop, the channel is
-- registered, a match is added for each of the two signals, and nothing else is done on the
-- connection. It ends only when `done` is closed, and then it has removed the same two matches; after
-- that the connection is closed by as many callers as are behind the call, and by one at most:
-- before `done` is closed nobody has come in, and afterwards exactly one caller waits or has closed.
pub run-Lawful :
    (b : Bus) (h : History) (n : ℕ) (es : List Event) (w : World)
    → new b ≡ created h
    → run b es (opened h n) ≡ some w
    → Lawful w
run-Lawful b h n es w c e =
    subst LawfulNext e
      (run_from-Lawful b es (opened h n) (rw (new-opening b h c) (opened-Lawful n)))

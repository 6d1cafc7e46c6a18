-- ===== src/Freedesktop/Lifecycle/Ends.antt =====
-- `Close` comes back.
use go_notify.Base.{
  ℕ, ◌≡◌, refl, ◌∙◌, Bool, true, false, List, [], ◌∷◌, ◌++◌, Option, none, some, get_elem?,
}
use go_notify.Freedesktop.Bus.{History, Bus}
use go_notify.Freedesktop.Signal.{take_done, take_case}
use go_notify.Freedesktop.Signal.Order.{step-take_case}
use go_notify.Freedesktop.Lifecycle.{
  Caller, idle, waiting, back, closed, created, new, Goroutine, live, ended, World, Event, goes_on,
  round, becomes, enters, waits, close, stops, goes, can_go, round_of, next, and_then, run, opened,
}
use go_notify.Freedesktop.Lifecycle.Opening.{removals, remove_matches-removals}
use go_notify.Freedesktop.Lifecycle.Callers.{count, is_closed, get_elem?-set_caller, busy_done}
use go_notify.Freedesktop.Lifecycle.Lawful.{Lawful, Phase, close-Lawful, run-Lawful}

abbrev pub HasReturned : Option Caller → Type 0
HasReturned (some back) = Unit
HasReturned (some (closed e)) = Unit
HasReturned _ = ⊥

abbrev HasEntered : Option Caller → Type 0
HasEntered (some back) = Unit
HasEntered (some waiting) = Unit
HasEntered (some (closed e)) = Unit
HasEntered _ = ⊥

abbrev IsIn : ℕ → World → Type 0
IsIn i w = (w.done ≡ true) × HasEntered (get_elem? w.callers i)

-- A caller that goes on is in, and the goroutine is where it was.
enters-IsIn :
    (i : ℕ) (d : Bool) (w : World)
    → get_elem? w.callers i ≡ some idle
    → w.done ≡ d
    → IsIn i (enters i d w)
unfolding enters becomes
enters-IsIn i true w e t = (t, rw (get_elem?-set_caller i idle back w.callers e) tt)
enters-IsIn i false w e t = (refl, rw (get_elem?-set_caller i idle waiting w.callers e) tt)

waits-IsIn :
    (b : Bus) (i : ℕ) (g : Goroutine) (w : World)
    → get_elem? w.callers i ≡ some waiting
    → w.done ≡ true
    → IsIn i (waits b i g w)
unfolding waits becomes
waits-IsIn b i (live l) w e t = (t, rw e tt)
waits-IsIn b i ended w e t =
    (t, rw (get_elem?-set_caller i waiting (closed (b.close w.history)) w.callers e) tt)

close-IsIn :
    (b : Bus) (i : ℕ) (c : Caller) (w : World)
    → Lawful w
    → get_elem? w.callers i ≡ some c
    → IsIn i (close b i (some c) w)
unfolding close
close-IsIn b i idle w h e = enters-IsIn i w.done w e refl
close-IsIn b i waiting w h e =
    waits-IsIn b i w.goroutine w e (busy_done i w.callers waiting w.done e refl h.tally)
close-IsIn b i back w h e = (busy_done i w.callers back w.done e refl h.tally, rw e tt)
close-IsIn b i (closed x) w h e = (busy_done i w.callers (closed x) w.done e refl h.tally, rw e tt)

-- Once `done` is closed, the round that receives from it ends the goroutine.
round-ended :
    (b : Bus) (g : Goroutine) (w : World)
    → Phase g w.done w.history (count is_closed w.callers)
    → w.done ≡ true
    → w.goroutine ≡ g
    → (w' : World) × (round_of b take_done g w ≡ some w')
      × (w'.goroutine ≡ ended)
      × (w'.done ≡ true)
      × (w'.callers ≡ w.callers)
unfolding round_of can_go goes stops take_case
round-ended b ended w p d t = (w, refl, t, d, refl)
round-ended b (live l) w ((cl, iv, o), r, e, z) d t =
    let (v, u, ev, eu, s) = step-take_case take_done l o in
    (
      record w { goroutine = ended; history = w.history ++ removals },
      rw (d, s, r, remove_matches-removals b w.history) refl,
      refl,
      d,
      refl,
    )

returns :
    (b : Bus) (i : ℕ) (c : Option Caller) (w : World)
    → w.goroutine ≡ ended
    → get_elem? w.callers i ≡ c
    → HasEntered c
    → HasReturned (get_elem? (close b i c w).callers i)
unfolding close waits becomes
returns b i (some waiting) w g e h =
    rw (g, waits, get_elem?-set_caller i waiting (closed (b.close w.history)) w.callers e) tt
returns b i (some back) w g e h = rw e tt
returns b i (some (closed x)) w g e h = rw e tt
returns b i (some idle) w g e h = absurd h
returns b i none w g e h = absurd h

enters-goroutine : (i : ℕ) (d : Bool) (w : World) → (enters i d w).goroutine ≡ w.goroutine
unfolding enters becomes
enters-goroutine i true w = refl
enters-goroutine i false w = refl

waits-goroutine :
    (b : Bus) (i : ℕ) (g : Goroutine) (w : World) → (waits b i g w).goroutine ≡ w.goroutine
unfolding waits becomes
waits-goroutine b i (live l) w = refl
waits-goroutine b i ended w = refl

close-goroutine :
    (b : Bus) (i : ℕ) (c : Option Caller) (w : World) → (close b i c w).goroutine ≡ w.goroutine
unfolding close
close-goroutine b i none w = refl
close-goroutine b i (some idle) w = enters-goroutine i w.done w
close-goroutine b i (some waiting) w = waits-goroutine b i w.goroutine w
close-goroutine b i (some back) w = refl
close-goroutine b i (some (closed x)) w = refl

abbrev pub Returns : Bus → ℕ → World → Type 0
Returns b i w =
    (w' : World) × (run b (goes_on i ∷ round take_done ∷ goes_on i ∷ []) w ≡ some w')
    × HasReturned (get_elem? w'.callers i)
    × (w'.goroutine ≡ ended)

Lawful-Returns :
    (b : Bus) (i : ℕ) (c : Caller) (w : World)
    → Lawful w
    → get_elem? w.callers i ≡ some c
    → Returns b i w
unfolding run next and_then
Lawful-Returns b i c w h e =
    let w1 : World = close b i (get_elem? w.callers i) w in
    let h1 : Lawful w1 = close-Lawful b i (get_elem? w.callers i) w h refl in
    let (d1, in1) : IsIn i w1 = rw e (close-IsIn b i c w h e) in
    let (w2, r, g, d, cs) = round-ended b w1.goroutine w1 h1.phase d1 refl in
    (
      close b i (get_elem? w2.callers i) w2,
      rw r refl,
      returns b i (get_elem? w2.callers i) w2 g refl (rw cs in1),
      close-goroutine b i (get_elem? w2.callers i) w2 ∙ g,
    )

-- After any events in which nothing panics, a caller of `Close` comes back: it goes on, the goroutine
-- takes the case of `done`, and it goes on once more. None of that panics, the caller has returned,
-- and the goroutine has ended.
pub run-Returns :
    (b : Bus) (h : History) (n : ℕ) (es : List Event) (w : World) (i : ℕ) (c : Caller)
    → new b ≡ created h
    → run b es (opened h n) ≡ some w
    → get_elem? w.callers i ≡ some c
    → Returns b i w
run-Returns b h n es w i c k r e = Lawful-Returns b i c w (run-Lawful b h n es w k r) e

-- ===== src/Freedesktop/Lifecycle.antt =====
-- `New` and `Close` of freedesktop/notify.go, with the goroutine of `Client.signal` between them:
-- any number of callers of `Close` and the rounds of the loop, in any order. The calls that the other
-- methods make on the connection are left out of the history here.
pub mod Opening
pub mod Callers
pub mod Rounds
pub mod Lawful
pub mod Ends
use go_notify.Base.{
  ℕ, zero, suc, Bool, true, false, List, [], ◌∷◌, ◌++◌, Option, none, some, if◌then◌else◌,
  get_elem?, ◌==◌, replicate, Bytes, codes,
}
use go_notify.Freedesktop.Types.{notification_closed, action_invoked}
use go_notify.Freedesktop.Bus.{
  bus, string_arg, signal_channel, close_connection, History, Error, Bus, invoke,
}
use go_notify.Freedesktop.Signal.{
  Loop, Choice, take_signal, send_closed, send_invoked, take_done, Outcome, running, returned,
  blocked, panicked, start, step,
}

-- `sig[:i]` and `sig[i+1:]` at the last '.'; without one, `sig[:-1]` panics.
split_member : Bytes → Option (Bytes × Bytes)
split_member [] = none
split_member (c ∷ s) = elim (split_member s) [
  | none ↦ if c == b'.' then some ([], s) else none
  | some (i, m) ↦ some (c ∷ i, m)
]

-- The rule that `addMatch` and `removeMatch` print.
unfoldable pub match_rule : Bytes → Option Bytes
unfolding split_member
match_rule sig = elim (split_member sig) [
  | none ↦ none
  | some (i, m) ↦
      some (codes "type='signal',interface='" ++ i ++ codes "',member='" ++ m ++ codes "'")
]

abbrev pub add_match_method : Bytes
add_match_method = codes "org.freedesktop.DBus.AddMatch"

abbrev pub remove_match_method : Bytes
remove_match_method = codes "org.freedesktop.DBus.RemoveMatch"

-- A call on the bus with the rule; `none` is a panic.
call_rule : Bus → Bytes → Option Bytes → History → Option (Option Error × History)
unfolding invoke
call_rule b m none h = none
call_rule b m (some r) h = let (a, h') = invoke b bus m (string_arg r ∷ []) h in some (a.err, h')

unfoldable pub add_match : Bus → Bytes → History → Option (Option Error × History)
unfolding call_rule
add_match b sig h = call_rule b add_match_method (match_rule sig) h

unfoldable pub remove_match : Bus → Bytes → History → Option (Option Error × History)
unfolding call_rule
remove_match b sig h = call_rule b remove_match_method (match_rule sig) h

pub data Created : Type 0 where
  refused : Error → History → Created
  created : History → Created
  crashed : Created

-- An error of `addMatch` is returned, and nothing is undone.
after_match : Option (Option Error × History) → (History → Created) → Created
after_match none k = crashed
after_match (some (some e, h)) k = refused e h
after_match (some (none, h)) k = k h

-- The loop of `New` over the signals.
unfoldable pub add_matches : Bus → List Bytes → History → Created
unfolding add_match after_match
add_matches b [] h = created h
add_matches b (sig ∷ sigs) h = after_match (add_match b sig h) (add_matches b sigs)

abbrev pub signals : List Bytes
signals = notification_closed ∷ action_invoked ∷ []

connected : Bus → Option Error → Created
unfolding add_matches
connected b (some e) = refused e []
connected b none = add_matches b signals (signal_channel ∷ [])

-- `New`, up to the start of the goroutine.
unfoldable pub new : Bus → Created
unfolding connected
new b = connected b b.session_bus

-- A caller of `Close`: `waiting` stands in `c.wg.Wait()`, and it alone goes on to close the
-- connection. `back` has returned without a call, `closed` with the result of `c.conn.Close()`.
pub data Caller : Type 0 where
  idle waiting back : Caller
  closed : Option Error → Caller

-- The goroutine.
pub data Goroutine : Type 0 where
  live : Loop → Goroutine
  ended : Goroutine

pub record World : Type 0 where
  pub goroutine : Goroutine
  -- the channel `done` is closed
  pub done : Bool
  pub history : History
  pub callers : List Caller

-- What happens next: a caller goes on, or the loop makes a round.
pub data Event : Type 0 where
  goes_on : ℕ → Event
  round : Choice → Event

unfoldable pub set_caller : ℕ → Caller → List Caller → List Caller
set_caller i c [] = []
set_caller zero c (d ∷ cs) = c ∷ cs
set_caller (suc i) c (d ∷ cs) = d ∷ set_caller i c cs

becomes : ℕ → Caller → World → World
unfolding set_caller
becomes i c w = record w { callers = set_caller i c w.callers }

-- The select under the mutex: `done` is closed once.
enters : ℕ → Bool → World → World
unfolding becomes
enters i true w = becomes i back w
enters i false w = becomes i waiting (record w { done = true })

waits : Bus → ℕ → Goroutine → World → World
unfolding becomes
waits b i (live l) w = w
waits b i ended w =
    becomes i (closed (b.close w.history))
      (record w { history = w.history ++ close_connection ∷ [] })

-- `Close`.
unfoldable pub close : Bus → ℕ → Option Caller → World → World
unfolding enters waits
close b i (some idle) w = enters i w.done w
close b i (some waiting) w = waits b i w.goroutine w
close b i _ w = w

-- The loop over the signals behind `case <-c.done`; errors are dropped.
unfoldable pub remove_matches : Bus → List Bytes → History → Option History
unfolding remove_match
remove_matches b [] h = some h
remove_matches b (sig ∷ sigs) h = elim (remove_match b sig h) [
  | none ↦ none
  | some (e, h') ↦ remove_matches b sigs h'
]

stops : Option History → World → Option World
stops none w = none
stops (some h) w = some (record w { goroutine = ended; history = h })

-- `none` is a panic.
goes : Bus → Outcome → World → Option World
unfolding remove_matches stops
goes b (running l) w = some (record w { goroutine = live l })
goes b (returned l) w = stops (remove_matches b l.removed w.history) w
goes b blocked w = some w
goes b panicked w = none

-- A receive from `done` waits until it is closed.
can_go : Choice → Bool → Bool
can_go take_done done = done
can_go (take_signal s) done = true
can_go send_closed done = true
can_go send_invoked done = true

unfoldable pub round_of : Bus → Choice → Goroutine → World → Option World
unfolding goes can_go
round_of b c (live l) w = let next = goes b (step l c) w in if can_go c w.done then next else some w
round_of b c ended w = some w

unfoldable pub next : Bus → Event → World → Option World
unfolding close round_of
next b (goes_on i) w = some (close b i (get_elem? w.callers i) w)
next b (round c) w = round_of b c w.goroutine w

-- Nothing happens after a panic.
unfoldable pub and_then : Option World → (World → Option World) → Option World
and_then none f = none
and_then (some w) f = f w

unfoldable pub run : Bus → List Event → World → Option World
unfolding next and_then
run b [] w = some w
run b (e ∷ es) w = and_then (next b e w) (run b es)

-- The client that `New` returned, and so many callers of `Close` to come.
unfoldable pub opened : History → ℕ → World
opened h n = record {
  goroutine = live start;
  done = false;
  history = h;
  callers = replicate n idle;
}

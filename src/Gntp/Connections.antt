-- ===== src/Gntp/Connections.antt =====
-- The connections of a `Client` of gntp/gntp.go that wait for a callback: `Client.cb`, `ctx`, and
-- the goroutines that `send` starts.
pub mod Reachable
pub mod Reset
use go_notify.Base.{ℕ, ◌+◌, ◌<◌, ◌≡◌, Bool, true, false, List, [], ◌∷◌, ◌++◌, map, if◌then◌else◌}

-- Where the goroutine of a connection is. `unspawned`: `send` has put the connection into the map
-- and has not started the goroutine. `closing` and `removing` are its deferred calls.
pub data Phase : Type 0 where
  unspawned reading offering closing removing finished : Phase

-- `registered`: the connection is in `cb`. `context`: the context that the goroutine is given, by
-- its number.
pub record Waiter : Type 0 where
  pub phase : Phase
  pub registered : Bool
  pub opened : Bool
  pub context : ℕ

-- `current` is the number of `ctx`; the contexts below it are cancelled.
pub record World : Type 0 where
  pub current : ℕ
  pub waiters : List Waiter

-- `New`.
abbrev pub new_world : World
new_world = record { current = 0; waiters = [] }

-- `cb[conn] = struct{}{}` in `send`.
abbrev pub new_waiter : ℕ → Waiter
new_waiter g = record { phase = unspawned; registered = true; opened = true; context = g }

-- What one goroutine does, under the current context. A read can succeed after the connection is
-- closed, since its reader keeps what it has read.
pub data Move (g : ℕ) : Waiter → Waiter → Type 0 where
  spawn : (w : Waiter) → w.phase ≡ unspawned → Move g w (record w { phase = reading; context = g })
  hear : (w : Waiter) → w.phase ≡ reading → Move g w (record w { phase = offering })
  fail : (w : Waiter) → w.phase ≡ reading → Move g w (record w { phase = closing })
  deliver : (w : Waiter) → w.phase ≡ offering → Move g w (record w { phase = closing })
  cancel :
      (w : Waiter) → w.phase ≡ offering → w.context < g → Move g w (record w { phase = closing })
  close :
      (w : Waiter) → w.phase ≡ closing → Move g w (record w { phase = removing; opened = false })
  remove :
      (w : Waiter)
      → w.phase ≡ removing
      → Move g w (record w { phase = finished; registered = false })

pub shut : Waiter → Waiter
shut w = if w.registered then record w { opened = false } else w

-- `Client.Reset`, under the lock: the connections of the map are closed, and there is a new context.
unfoldable pub reset : World → World
unfolding shut
reset w = record { current = w.current + 1; waiters = map shut w.waiters }

pub data Step : World → World → Type 0 where
  register : (w : World) → Step w (record w { waiters = w.waiters ++ new_waiter w.current ∷ [] })
  move :
      (g : ℕ) (before after : List Waiter) (a b : Waiter)
      → Move g a b
      → Step
          (record { current = g; waiters = before ++ a ∷ after })
          (record { current = g; waiters = before ++ b ∷ after })
  reset_all : (w : World) → Step w (reset w)

-- The worlds that a new client comes to.
pub data Reached : World → Type 0 where
  start : Reached new_world
  next : {v w : World} → Reached v → Step v w → Reached w

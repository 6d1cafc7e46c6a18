-- ===== src/Gntp/Connections/Reset.antt =====
-- After `Client.Reset`, the goroutines that were waiting end, without a peer and without a receiver.
use go_notify.Base.{ℕ, ◌≤◌, ◌<◌, ◌≡◌, ◌⊎◌, false}
use go_notify.Gntp.Connections.{
  unspawned, reading, offering, closing, removing, finished, Waiter, Move, fail, cancel, close,
  remove,
}

-- The moves that need nobody else: a read fails since the connection is closed, and the `select`
-- takes the context that is cancelled.
pub data IsFree (g : ℕ) : (a b : Waiter) → Move g a b → Type 0 where
  free_fail :
      (w : Waiter) (e : w.phase ≡ reading)
      → w.opened ≡ false
      → IsFree g w (record w { phase = closing }) (fail w e)
  free_cancel :
      (w : Waiter) (e : w.phase ≡ offering) (h : w.context < g)
      → IsFree g w (record w { phase = closing }) (cancel w e h)
  free_close :
      (w : Waiter) (e : w.phase ≡ closing)
      → IsFree g w (record w { phase = removing; opened = false }) (close w e)
  free_remove :
      (w : Waiter) (e : w.phase ≡ removing)
      → IsFree g w (record w { phase = finished; registered = false }) (remove w e)

-- Under the context `g` or any later one there is always a free move, and whichever moves are made,
-- the goroutine comes to its end.
pub data Ends (g : ℕ) : Waiter → Type 0 where
  over : (w : Waiter) → w.phase ≡ finished → Ends g w
  later :
      (w : Waiter)
      → ((k : ℕ) → g ≤ k → (v : Waiter) × (m : Move k w v) × IsFree k w v m)
      → ((k : ℕ) (v : Waiter) → g ≤ k → Move k w v → Ends g v)
      → Ends g w

-- A connection after `Reset`: it is closed, and its goroutine ends unless `send` has yet to start it.
abbrev pub IsShut : ℕ → Waiter → Type 0
IsShut g w = (w.opened ≡ false) × ((w.phase ≡ unspawned) ⊎ Ends g w)

-- ===== src/Outbox.antt =====
-- The buffer in front of an unbuffered channel that `signal` of freedesktop/notify.go and `event` of
-- windows/notify_windows.go each keep twice, in local variables: the channel variable (nil or not),
-- the index of the next value, and the slice, whose first element is a place holder.
pub mod Fifo
use go_notify.Base.{
  ℕ, ◌+◌, ◌-◌, Bool, true, false, List, [], ◌∷◌, ◌++◌, Option, ◌==◌, if◌then◌else◌, length,
  get_elem?, take,
}

pub record Outbox (A : Type 0) : Type 0 where
  pub ready : Bool
  pub idx : ℕ
  pub buf : List A

module _ {A : Type 0} where
  -- `make([]T, 1)`, with `zero` the zero value of `T`; the channel variable is nil.
  unfoldable pub initial : A → Outbox A
  initial zero_value = record { ready = false; idx = 0; buf = zero_value ∷ [] }

  -- `if closed == nil { closed = c.NotificationClosed; closedIdx = 1 }` and the append.
  unfoldable pub put : A → Outbox A → Outbox A
  put a o =
      let opened = if o.ready then o else record o { ready = true; idx = 1 } in
      record opened { buf = opened.buf ++ a ∷ [] }

  -- The operand `closedBuf[closedIdx]`, which `select` evaluates in every round; `none` is a panic.
  unfoldable pub offer : Outbox A → Option A
  offer o = get_elem? o.buf o.idx

  -- The body of the send's case.
  unfoldable pub sent : Outbox A → Outbox A
  sent o =
      if o.idx == length o.buf - 1
      then record { ready = false; idx = 0; buf = take 1 o.buf }
      else record o { idx = o.idx + 1 }

-- ===== src/Windows/Window/Closing/Deadlock.antt =====
-- When `Close` does not come back.
use go_notify.Base.{◌≡◌, refl, true, false, List, [], ◌∷◌, ◌++◌}
use go_notify.Windows.Data.{System}
use go_notify.Windows.Menu.{Shell}
use go_notify.Windows.Window.{Message, taskbar_created, wm_close}
use go_notify.Windows.Window.Closing.{
  looping, in_modify, outside, waiting, World, Step, arrives, enters, enters_late, closes, restores,
  handles, modifies, cannot_modify, adds, quits, events_end, leaves, Steps, here, then,
}

-- The caller waits for the thread with the mutex held, and the thread waits for the mutex.
pub record Deadlocked (w : World) : Type 0 where
  pub closer_waits : w.closer ≡ waiting
  pub thread_waits : w.thread ≡ in_modify
  pub held : w.locked ≡ true
  pub not_done : w.window.done ≡ false

step-Deadlocked :
    (c : System) (s : Shell) (w v : World) → Step c s w v → Deadlocked w → Deadlocked v
step-Deadlocked c s w v (arrives _ m) h = record {
  closer_waits = h.closer_waits;
  thread_waits = h.thread_waits;
  held = h.held;
  not_done = h.not_done;
}
step-Deadlocked c s w v (enters _ a b d) h = let x = h.closer_waits in cc
step-Deadlocked c s w v (enters_late _ a b d) h = let x = h.closer_waits in cc
step-Deadlocked c s w v (closes _ q x y t a b d) h = let x = h.thread_waits in cc
step-Deadlocked c s w v (restores _ q t a) h = let x = h.thread_waits in cc
step-Deadlocked c s w v (handles _ m q x p t a b) h = let x = h.thread_waits in cc
step-Deadlocked c s w v (modifies _ n t l a) h = let x = h.held in cc
step-Deadlocked c s w v (cannot_modify _ n f t l a) h = let x = h.held in cc
step-Deadlocked c s w v (adds _ n t l a) h = let x = h.held in cc
step-Deadlocked c s w v (quits _ t q d) h = let x = h.thread_waits in cc
step-Deadlocked c s w v (events_end _ d) h = let x = h.not_done in cc
step-Deadlocked c s w v (leaves _ e es a t o r) h = let x = h.thread_waits in cc

Steps-Deadlocked :
    (c : System) (s : Shell) (w v : World) → Steps c s w v → Deadlocked w → Deadlocked v
Steps-Deadlocked c s w v (here _) h = h
Steps-Deadlocked c s w v (then _ u _ p ps) h =
    Steps-Deadlocked c s u v ps (step-Deadlocked c s w u p h)

-- The caller has come in, and the thread has taken TaskbarCreated from the queue.
abbrev pub stuck : List Message → World → World
stuck q w = record w {
  locked = true;
  queue = q ++ wm_close ∷ [];
  closer = waiting;
  thread = in_modify;
}

-- Where the message TaskbarCreated is next in the queue when `Close` is called on an icon that is
-- not closed yet, this may happen: the caller takes the mutex and waits, the thread waits for the
-- mutex, and whatever happens after that, the caller never comes back.
pub stuck-waiting :
    (c : System) (s : Shell) (w v : World) (q : List Message)
    → w.thread ≡ looping
    → w.closer ≡ outside
    → w.locked ≡ false
    → w.window.done ≡ false
    → w.queue ≡ taskbar_created ∷ q
    → Steps c s (stuck q w) v
    → Steps c s w (stuck q w) × (v.closer ≡ waiting)
stuck-waiting c s w v q t o l d e p = (
  then w _ _ (enters w o l d) (then _ _ _ (restores _ (q ++ wm_close ∷ []) t (rw e refl)) (here _)),
  (Steps-Deadlocked c s (stuck q w) v p (record {
    closer_waits = refl;
    thread_waits = refl;
    held = refl;
    not_done = d;
  })).closer_waits,
)

-- ===== src/Windows/Window/Closing.antt =====
-- `NotifyIcon.Close` of windows/notify_windows.go against the thread of `NotifyIcon.message`: the
-- mutex, the queue of messages and the wait, as a step relation. The other methods, which hold the
-- mutex for a while and give it back, are left out.
pub mod Deadlock
pub mod Return
use go_notify.Base.{◌≡◌, Bool, true, false, List, [], ◌∷◌, ◌++◌, Option, none, some}
use go_notify.Windows.Data.{System}
use go_notify.Windows.Menu.{Shell}
use go_notify.Windows.Icon.{Fault, NotifyIcon, modify, add_icon}
use go_notify.Windows.Window.{
  Message, wm_close, wm_destroy, wm_context_menu, wm_user, wm_command, wm_sys_key_down,
  taskbar_created, other_message, Window, handled, window_proc,
}

-- Where the thread of the messages is: in its loop, at the locks of `Modify` and of `Add` that the
-- message TaskbarCreated leads to, or at its end.
pub data Thread : Type 0 where
  looping in_modify in_add over : Thread

-- The caller of `Close`: before it, in `wg.Wait()` with the mutex, and behind it with its result.
pub data Closer : Type 0 where
  outside waiting : Closer
  returned : Option Fault → Closer

-- `locked`: the mutex is held; `events_over`: the goroutine of the events has ended.
pub record World : Type 0 where
  pub window : Window
  pub queue : List Message
  pub thread : Thread
  pub events_over : Bool
  pub locked : Bool
  pub closer : Closer

-- The messages that are handled by one call of `windowProc` that takes no lock.
abbrev pub IsPlain : Message → Type 0
IsPlain (wm_user l) = Unit
IsPlain (wm_command p) = Unit
IsPlain wm_sys_key_down = Unit
IsPlain other_message = Unit
IsPlain wm_context_menu = Unit
IsPlain _ = ⊥

-- One step of the caller, of the thread or of the system. The window that WM_CLOSE destroys gets
-- WM_DESTROY at once, and the messages that are left for it are dropped.
pub data Step (c : System) (s : Shell) : World → World → Type 0 where
  arrives : (w : World) (m : Message) → Step c s w (record w { queue = w.queue ++ m ∷ [] })
  enters :
      (w : World)
      → w.closer ≡ outside
      → w.locked ≡ false
      → w.window.done ≡ false
      → Step c s w (record w { locked = true; queue = w.queue ++ wm_close ∷ []; closer = waiting })
  enters_late :
      (w : World)
      → w.closer ≡ outside
      → w.locked ≡ false
      → w.window.done ≡ true
      → Step c s w (record w { closer = returned none })
  closes :
      (w : World) (q : List Message) (v u : Window)
      → w.thread ≡ looping
      → w.queue ≡ wm_close ∷ q
      → window_proc c s wm_close w.window ≡ handled v
      → window_proc c s wm_destroy v ≡ handled u
      → Step c s w (record w { window = u; queue = [] })
  restores :
      (w : World) (q : List Message)
      → w.thread ≡ looping
      → w.queue ≡ taskbar_created ∷ q
      → Step c s w (record w { thread = in_modify; queue = q })
  handles :
      (w : World) (m : Message) (q : List Message) (v : Window)
      → IsPlain m
      → w.thread ≡ looping
      → w.queue ≡ m ∷ q
      → window_proc c s m w.window ≡ handled v
      → Step c s w (record w { window = v; queue = q })
  modifies :
      (w : World) (ni : NotifyIcon)
      → w.thread ≡ in_modify
      → w.locked ≡ false
      → modify c w.window.ni ≡ (none, ni)
      → Step c s w (record w { thread = looping; window = record w.window { ni = ni } })
  cannot_modify :
      (w : World) (ni : NotifyIcon) (f : Fault)
      → w.thread ≡ in_modify
      → w.locked ≡ false
      → modify c w.window.ni ≡ (some f, ni)
      → Step c s w (record w {
        thread = in_add;
        window = record w.window { ni = record ni { added = false } };
      })
  adds :
      (w : World) (ni : NotifyIcon)
      → w.thread ≡ in_add
      → w.locked ≡ false
      → add_icon c w.window.ni ≡ (none, ni)
      → Step c s w (record w { thread = looping; window = record w.window { ni = ni } })
  quits :
      (w : World)
      → w.thread ≡ looping
      → w.queue ≡ []
      → w.window.done ≡ true
      → Step c s w (record w { thread = over })
  events_end : (w : World) → w.window.done ≡ true → Step c s w (record w { events_over = true })
  leaves :
      (w : World) (e : Option Fault) (es : List (Option Fault))
      → w.closer ≡ waiting
      → w.thread ≡ over
      → w.events_over ≡ true
      → w.window.errs ≡ e ∷ es
      → Step c s w
          (record w { locked = false; closer = returned e; window = record w.window { errs = es } })

pub data Steps (c : System) (s : Shell) : World → World → Type 0 where
  here : (w : World) → Steps c s w w
  then : (w v u : World) → Step c s w v → Steps c s v u → Steps c s w u

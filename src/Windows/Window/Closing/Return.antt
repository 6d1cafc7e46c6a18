-- ===== src/Windows/Window/Closing/Return.antt =====
-- When `Close` comes back.
use go_notify.Base.{◌≡◌, ◌⊎◌, true, false, List, [], ◌∷◌, ◌++◌, Option, none, some}
use go_notify.Windows.Data.{nim_delete, Call, System}
use go_notify.Windows.Menu.{Menu}
use go_notify.Windows.Icon.{Fault, call_error, NotifyIcon}
use go_notify.Windows.Window.{
  Message, wm_user, wm_command, wm_sys_key_down, other_message, Window, closed,
}
use go_notify.Windows.Window.Closing.{looping, over, waiting, returned, World}

-- The messages that neither take a lock nor panic.
abbrev pub IsQuiet : Message → Type 0
IsQuiet (wm_user l) = Unit
IsQuiet (wm_command p) = Unit
IsQuiet wm_sys_key_down = Unit
IsQuiet other_message = Unit
IsQuiet _ = ⊥

abbrev pub AllQuiet : List Message → Type 0
AllQuiet [] = Unit
AllQuiet (m ∷ q) = IsQuiet m × AllQuiet q

-- What such a message leaves as it is.
abbrev Same : Window → Window → Type 0
Same w v = (v.done ≡ w.done) × (v.errs ≡ w.errs) × (v.ni ≡ w.ni)

-- What comes of the deletion of an icon, and the calls of the system: an icon that is not added is
-- not deleted.
abbrev pub Deletes : System → NotifyIcon → Option Fault → List Call → Type 0
Deletes c ni e calls =
    let deletion : Call = record { message = nim_delete; icon_data = ni.icon_data } in
    ((ni.added ≡ false) × (e ≡ none) × (calls ≡ ni.calls))
    ⊎ ((ni.added ≡ true)
        × (calls ≡ ni.calls ++ deletion ∷ [])
        × (((c.notify_icon ni.calls deletion ≡ true) × (e ≡ none))
            ⊎ ((c.notify_icon ni.calls deletion ≡ false) × (e ≡ some call_error))))

-- The caller waits while the thread goes through its queue.
pub record Waits (w : World) : Type 0 where
  pub thread_loops : w.thread ≡ looping
  pub closer_waits : w.closer ≡ waiting
  pub not_done : w.window.done ≡ false
  pub no_errs : w.window.errs ≡ []

-- The caller is back with the result of the deletion of the icon `ni`, and the icon is closed.
pub record Back (c : System) (ni : NotifyIcon) (w : World) : Type 0 where
  pub result : Option Fault
  pub deletes : Deletes c ni result w.window.ni.calls
  pub closer_back : w.closer ≡ returned result
  pub unlocked : w.locked ≡ false
  pub thread_over : w.thread ≡ over
  pub closed : w.window.done ≡ true

-- ===== src/Windows/Window.antt =====
-- `NotifyIcon.windowProc` of windows/notify_windows.go, and `Close`.
pub mod Kept
pub mod Closing
use go_notify.Base.{
  ℕ, ◌-◌, ◌%◌, ◌^◌, Bool, true, false, List, [], ◌∷◌, ◌++◌, Option, none, some, ◌==◌, if◌then◌else◌,
}
use go_notify.Windows.Data.{nim_delete, System}
use go_notify.Windows.Event.{Event, balloon_event, menu_event}
use go_notify.Windows.Menu.{Menu, popup, size, Desktop, Shell, Built, built, broken, menu_sys}
use go_notify.Windows.Icon.{Fault, NotifyIcon, shell_notify_icon, call_result, add_icon, modify}

-- The messages that `windowProc` tells apart; `taskbar_created` is the one that Windows registers
-- under this name, and `lParam` and `wParam` are words of any size.
pub data Message : Type 0 where
  wm_close wm_destroy wm_context_menu wm_sys_key_down taskbar_created other_message : Message
  wm_user wm_command : ℕ → Message

-- What is asked of the system, without a result that is looked at: `tracks` is `TrackPopupMenu`.
pub data Request : Type 0 where
  destroy_window post_quit post_context_menu post_null tracks : Request

-- `events` is what is sent on `ev`, `errs` what is sent on `err`, and `done` whether the channel is
-- closed.
pub record Window : Type 0 where
  pub ni : NotifyIcon
  pub menu : Option Menu
  pub desktop : Desktop
  pub events : List Event
  pub done : Bool
  pub errs : List (Option Fault)
  pub requests : List Request

pub data Handled : Type 0 where
  handled : Window → Handled
  panicked : Handled

-- `sys.LoWord` of a `uint32`.
lo_word : ℕ → ℕ
lo_word v = v % 2 ^ 16

asked : Request → Window → Window
asked r w = record w { requests = w.requests ++ r ∷ [] }

sent : Event → Window → Window
sent e w = record w { events = w.events ++ e ∷ [] }

-- WM_DESTROY: `close(ni.done)` panics the second time.
deleted : System → Bool → NotifyIcon → Option Fault × NotifyIcon
unfolding shell_notify_icon call_result
deleted c false ni = (none, ni)
deleted c true ni =
    let (done, after) = shell_notify_icon c nim_delete ni.icon_data ni in (call_result done, after)

destroyed : System → Bool → Window → Handled
unfolding deleted asked
destroyed c true w = panicked
destroyed c false w =
    let (f, ni) = deleted c w.ni.added w.ni in
    handled (asked post_quit (record w { ni = ni; done = true; errs = w.errs ++ f ∷ [] }))

-- `switch sys.LoWord(uint32(lParam))`: WM_RBUTTONUP and the four NIN_BALLOON messages.
context_menu : Option Menu → Window → Window
unfolding asked
context_menu none w = w
context_menu (some m) w = asked post_context_menu w

-- What the low word of `lParam` tells.
pub data Notice : Type 0 where
  clicked shown closed user_clicked no_notice : Notice

notice_of : ℕ → Notice
notice_of n =
    if n == 0x205
    then clicked
    else if n == 0x402
    then shown
    else if n == 0x403
    then closed
    else if n == 0x404
    then closed
    else if n == 0x405
    then user_clicked
    else no_notice

notified : Notice → Window → Window
unfolding sent context_menu
notified clicked w = context_menu w.menu w
notified shown w = sent (balloon_event 0) w
notified closed w = sent (balloon_event 1) w
notified user_clicked w = sent (balloon_event 2) w
notified no_notice w = w

-- The menu is tracked, and destroyed; a nil menu is one whose items are read.
tracked : Built × Desktop → Window → Handled
unfolding asked
tracked (broken, d) w = panicked
tracked (built es, d) w =
    let live = d.live - size (popup es) in
    handled (asked post_null (asked tracks (record w { desktop = record d { live = live } })))

popped_up : Shell → Option Menu → Window → Handled
unfolding menu_sys tracked
popped_up s none w = panicked
popped_up s (some m) w = tracked (menu_sys s m w.desktop) w

-- The taskbar has been made again: the icon is modified, or else added once more.
re_added : Option Fault × NotifyIcon → Window → Handled
re_added (some f, ni) w = panicked
re_added (none, ni) w = handled (record w { ni = ni })

restored : System → Option Fault × NotifyIcon → Window → Handled
unfolding re_added add_icon
restored c (none, ni) w = handled (record w { ni = ni })
restored c (some f, ni) w = re_added (add_icon c (record ni { added = false })) w

unfoldable pub window_proc : System → Shell → Message → Window → Handled
unfolding lo_word notice_of asked sent destroyed notified popped_up restored modify
window_proc c s wm_close w = handled (asked destroy_window w)
window_proc c s wm_destroy w = destroyed c w.done w
window_proc c s (wm_user l) w = handled (notified (notice_of (lo_word (l % 2 ^ 32))) w)
window_proc c s wm_context_menu w = popped_up s w.menu w
window_proc c s (wm_command p) w =
    handled (sent (menu_event (record { id = lo_word (p % 2 ^ 32) })) w)
window_proc c s wm_sys_key_down w = handled w
window_proc c s taskbar_created w = restored c (modify c w.ni) w
window_proc c s other_message w = handled w

-- `CreateMenu`.
unfoldable pub create_menu : Menu → Window → Window
create_menu m w = record w { menu = some m }

-- ===== src/Tests/Icons.antt =====
-- The menu and the icon of windows/notify_windows.go.
use go_notify.Base.{
  ℕ, ◌≡◌, ◌⊎◌, refl, true, false, [], ◌∷◌, ◌++◌, List, Option, none, some, Bytes, codes, ltb,
  replicate, ◌==◌, not,
}
use go_notify.Windows.Data.{Data, size_v3, icon_info, icon_user, zero_data, copy, System}
use go_notify.Base.{bytes_eq}
use go_notify.Dict.{lookup}
use go_notify.Go.Value.{bool, uint16}
use go_notify.Windows.Data.{icon_none}
use go_notify.Windows.Notifier.{Loader, Options, accepted, event_of, register}
use go_notify.Windows.Notifier.Events.{Pictures, register-Pictures}
use go_notify.Windows.Menu.{
  Menu, menu, end, item, submenu, separator, Desktop, Shell, broken, menu_sys,
}
use go_notify.Windows.Icon.{
  fine, version_error, NotifyIcon, Notification, new_data, new_icon, prepare, notify, notify_data,
}
use go_notify.Windows.Icon.Balloon.{Balloon}
use go_notify.Windows.Icon.Guards.{Refused, Shows, notify-Balloon}
use go_notify.Windows.Icon.Kept.{use_icon, use_notify}
use go_notify.Windows.Window.{taskbar_created, wm_destroy, handled}
use go_notify.Windows.Window.Kept.{Holds, used, received, run, new_window, run-Holds}
use go_notify.Windows.Icon.Texts.{Placed, notify_data-Placed}

-- `UTF16FromString` of ASCII text.
abbrev with_nul : Bytes → Option (List ℕ)
with_nul s = some (s ++ 0 ∷ [])

-- The fifth call fails.
abbrev shell : Shell
shell = record { creates = λ n. true; appends = λ n. not (n == 4); utf16 = with_nul }

abbrev two_menus : Menu
two_menus =
    menu (item (codes "a") 1 (submenu (codes "b") (menu (item (codes "c") 2 end)) (separator end)))

abbrev desktop : Desktop
desktop = record { live = 3; calls = 0 }

-- The submenu is built, and cannot be appended: it stays.
menu_sys_leaks : menu_sys shell two_menus desktop ≡ (broken, record { live = 4; calls = 5 })
unfolding menu_sys
menu_sys_leaks = refl

-- Windows XP with no service pack.
abbrev xp : System
xp = record {
  shell_version = λ a b c. not (ltb 0 c);
  windows7 = false;
  xp_sp2 = false;
  utf16 = with_nul;
  notify_icon = λ calls call. true;
}

abbrev hello : Notification
hello = record {
  title = codes "hello";
  body = codes "world";
  icon_type = icon_info;
  icon = none;
  sound = false;
}

abbrev icon : NotifyIcon
icon = record { icon = none; guid = []; icon_data = zero_data; added = false; calls = [] }

notify-Balloon_example :
    Refused icon (notify xp hello icon).0 (notify xp hello icon).1
    ⊎ ((e : Data) × Balloon xp hello (prepare xp icon).1.icon_data e
        × Shows xp e (prepare xp icon).1 (notify xp hello icon).0 (notify xp hello icon).1)
notify-Balloon_example = notify-Balloon xp hello icon

notify_added : (notify xp hello icon).1.added ≡ true
unfolding notify prepare
notify_added = refl

notify_refused :
    (notify xp (record hello { icon_type = icon_user }) icon).0
    ≡ some (version_error (codes "XP SP2"))
unfolding notify prepare
notify_refused = refl

abbrev made : NotifyIcon
made = record {
  icon = none;
  guid = [];
  icon_data = record zero_data {
    size = size_v3;
    wnd = 9;
    flags = record zero_data.flags { message = true; tip = true };
    callback_message = 0x400;
    tip = b'n' ∷ 0 ∷ replicate 126 0;
    version = 3;
  };
  added = false;
  calls = [];
}

new_icon-made : new_icon xp (codes "n") (some 9) ≡ fine made
unfolding new_icon new_data copy
new_icon-made = refl

run-Holds_example : Holds xp (
    run xp shell
      (used (use_icon (some 4))
        ∷ used (use_notify hello)
        ∷ received taskbar_created
        ∷ received wm_destroy
        ∷ [])
      (handled (new_window made)))
run-Holds_example =
    run-Holds xp shell (codes "n") (some 9)
      (used (use_icon (some 4))
        ∷ used (use_notify hello)
        ∷ received taskbar_created
        ∷ received wm_destroy
        ∷ [])
      made new_icon-made

-- A title of 65 units in the array of 64.
abbrev long_title : Notification
long_title = record hello { title = replicate 65 b'x' }

abbrev long_data : Data
long_data = record zero_data {
  flags = record zero_data.flags { info = true };
  info_title = replicate 64 b'x';
  info = codes "world" ++ replicate 251 0;
  info_flags = record zero_data.info_flags { icon_type = 1; no_sound = true };
}

notify_data-long : notify_data xp long_title zero_data ≡ fine long_data
unfolding notify_data copy
notify_data-long = refl

notify_data-Placed_example :
    Placed zero_data.info_title (replicate 65 b'x') long_data.info_title
    × Placed zero_data.info (codes "world") long_data.info
notify_data-Placed_example =
    notify_data-Placed xp long_title zero_data long_data (replicate 65 b'x') (codes "world") refl
      refl notify_data-long

-- An image decoder that gives every image the same handle.
abbrev loader : Loader
loader = record { draw = λ k img. img.pix; create_icon = λ img. some 5; load_icon = λ n. some n }

abbrev options : Options
options = (codes "windows:sound", bool false) ∷ []

-- The fourth resource, on a shell that does not take icons of the caller's.
register-Pictures_example :
    Pictures xp loader
      (uint16 4)
      options
      (event_of xp loader (uint16 4) options)
      (codes "e")
      (codes "e")
      (codes "t")
      (codes "b")
      []
      icon
      (register xp loader (codes "e") (uint16 4) options [])
register-Pictures_example =
    register-Pictures xp loader (codes "e") (codes "e") (codes "t") (codes "b") (uint16 4) options
      [] icon

event_of-resource :
    event_of xp loader (uint16 4) options
    ≡ accepted (record { title = []; body = []; icon_type = icon_none; icon = none; sound = false })
unfolding event_of lookup bytes_eq
event_of-resource = refl

-- ===== src/Tests/Desktop.antt =====
-- windows/: the making of an icon, the versions of the shell, and the end of the window.
use go_notify.Base.{
  ℕ, Bool, ◌≡◌, refl, true, false, not, [], ◌∷◌, List, none, some, arith, length, ◌==◌,
}
use go_notify.Go.Image.{Image, nrgba}
use go_notify.Windows.Data.{zero_data, System}
use go_notify.Windows.Menu.{Shell}
use go_notify.Windows.Gdi.{
  Call, Gdi, icon, failed, create_icon, create_bitmap, get_dc, create_dc, select, deselect,
  delete_object, delete_dc, release_dc,
}
use go_notify.Windows.Version.{
  Dll, reports, version_of, Answers, is_shell_dll_version_or_greater,
  is_shell_dll_version_or_greater-Answers, is_windows7_or_greater, is_windows_xp_sp2_or_greater,
  Verifier,
}
use go_notify.Windows.Window.{Window, Message, taskbar_created}
use go_notify.Windows.Window.Closing.{World, looping, outside, waiting, Steps, here}
use go_notify.Windows.Window.Closing.Deadlock.{stuck, stuck-waiting}

-- The second bitmap cannot be had, and all else succeeds.
abbrev but_bitmap : ℕ → Call → Bool
but_bitmap n (create_bitmap dc x y) = not (n == 5)
but_bitmap n _ = true

abbrev no_second : Gdi
no_second = record { succeeds = λ l c. but_bitmap (length l) c }

abbrev all_succeed : Gdi
all_succeed = record { succeeds = λ l c. true }

-- Two pixels, one above the other.
abbrev two_pixels : Image
two_pixels = record {
  kind = nrgba;
  width = 1;
  height = 2;
  stride = 4;
  pix = 1 ∷ 2 ∷ 3 ∷ 255 ∷ 4 ∷ 5 ∷ 6 ∷ 0 ∷ [];
}

create_icon_fails : create_icon no_second two_pixels [] ≡ (
  failed,
  (get_dc, true)
      ∷ (create_dc 0, true)
      ∷ (create_bitmap 0 1 2, true)
      ∷ (select 1 2, true)
      ∷ (create_dc 0, true)
      ∷ (create_bitmap 0 1 2, false)
      ∷ (delete_dc 4, true)
      ∷ (deselect 1 3, true)
      ∷ (delete_object 2, true)
      ∷ (delete_dc 1, true)
      ∷ (release_dc 0, true)
      ∷ [],
)
unfolding create_icon
create_icon_fails = refl

-- Windows XP.
abbrev xp_shell : Dll
xp_shell = reports (record { major = 6; minor = 0; build = 2900 })

is_shell_dll_version_or_greater-Answers_example :
    Answers 6 6 (version_of xp_shell) (is_shell_dll_version_or_greater xp_shell 6 0 6)
is_shell_dll_version_or_greater-Answers_example =
    is_shell_dll_version_or_greater-Answers xp_shell 6 6 (omega arith) (omega arith)
      (omega arith, omega arith, omega arith)

asks_service_pack :
    (c : Verifier)
    → is_windows_xp_sp2_or_greater c
      ≡ c.verify_version_info 5 1 2 35
          (c.set_condition_mask (c.set_condition_mask (c.set_condition_mask 0 2 3) 1 3) 32 3)
unfolding is_windows_xp_sp2_or_greater
asks_service_pack c = refl

asks_windows7 :
    (c : Verifier)
    → is_windows7_or_greater c
      ≡ c.verify_version_info 6 1 0 35
          (c.set_condition_mask (c.set_condition_mask (c.set_condition_mask 0 2 3) 1 3) 32 3)
unfolding is_windows7_or_greater
asks_windows7 c = refl

abbrev windows : System
windows = record {
  shell_version = λ a b c. true;
  windows7 = true;
  xp_sp2 = true;
  utf16 = λ s. some s;
  notify_icon = λ calls call. true;
}

abbrev shell : Shell
shell = record { creates = λ n. true; appends = λ n. true; utf16 = λ s. some s }

abbrev fresh_window : Window
fresh_window = record {
  ni = record { icon = none; guid = []; icon_data = zero_data; added = true; calls = [] };
  menu = none;
  desktop = record { live = 0; calls = 0 };
  events = [];
  done = false;
  errs = [];
  requests = [];
}

abbrev world : List Message → World
world q = record {
  window = fresh_window;
  queue = q;
  thread = looping;
  events_over = false;
  locked = false;
  closer = outside;
}

stuck-waiting_example :
    Steps windows shell (world (taskbar_created ∷ [])) (stuck [] (world (taskbar_created ∷ [])))
    × (waiting ≡ waiting)
stuck-waiting_example =
    stuck-waiting windows shell (world (taskbar_created ∷ []))
      (record (stuck [] (world (taskbar_created ∷ []))) { events_over = false }) [] refl refl refl
      refl refl (here _)

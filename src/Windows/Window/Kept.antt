-- ===== src/Windows/Window/Kept.antt =====
-- What the owner of an icon and its window procedure keep, in any order.
use mathlib.Core.Bool.{true≢false}
use go_notify.Base.{
  ℕ, ◌≡◌, ◌⊎◌, inl, inr, ◌%◌, ◌^◌, refl, sym, ap, ◌∙◌, subst, Bool, true, false, List, [], ◌∷◌,
  ◌++◌, Option, none, some, length, Bytes,
}
use go_notify.Windows.Data.{System}
use go_notify.Windows.Menu.{Menu, Desktop, Shell, Built, built, broken, menu_sys}
use go_notify.Windows.Icon.{Fault, fine, NotifyIcon, new_icon, add_icon, modify}
use go_notify.Windows.Icon.Kept.{Sane, Use, act, act-Sane, use_add, use_modify}
use go_notify.Windows.Icon.Fresh.{new_icon-Sane}
use go_notify.Windows.Window.{
  Message, wm_close, wm_destroy, wm_context_menu, wm_sys_key_down, taskbar_created, other_message,
  wm_user, wm_command, Window, Handled, handled, panicked, Notice, clicked, shown, closed,
  user_clicked, no_notice, notified, context_menu, asked, deleted, destroyed, tracked, popped_up,
  re_added, restored, window_proc, create_menu, lo_word, notice_of,
}

-- The channel `done` is closed once the window is destroyed, and then `err` has had its one value.
abbrev Closes : Window → Type 0
Closes w = ((w.done ≡ false) × (w.errs ≡ [])) ⊎ ((w.done ≡ true) × (length w.errs ≡ 1))

abbrev pub Holds : System → Handled → Type 0
Holds c panicked = Unit
Holds c (handled w) = Sane c w.ni.icon_data × Closes w

Holds-context_menu :
    (c : System) (o : Option Menu) (w : Window)
    → Holds c (handled w)
    → Holds c (handled (context_menu o w))
unfolding context_menu
Holds-context_menu c none w h = h
Holds-context_menu c (some m) w h = h

Holds-notified :
    (c : System) (n : Notice) (w : Window) → Holds c (handled w) → Holds c (handled (notified n w))
unfolding notified
Holds-notified c clicked w h = Holds-context_menu c w.menu w h
Holds-notified c shown w h = h
Holds-notified c closed w h = h
Holds-notified c user_clicked w h = h
Holds-notified c no_notice w h = h

deleted-data :
    (c : System) (b : Bool) (ni : NotifyIcon) → (deleted c b ni).1.icon_data ≡ ni.icon_data
unfolding deleted
deleted-data c true ni = refl
deleted-data c false ni = refl

Holds-destroyed :
    (c : System) (b : Bool) (w : Window)
    → w.done ≡ b
    → Holds c (handled w)
    → Holds c (destroyed c b w)
unfolding destroyed asked
Holds-destroyed c true w e h = tt
Holds-destroyed c false w e (sane, closes) = (
  subst (Sane c) (sym (deleted-data c w.ni.added w.ni)) sane,
  elim closes [
    | inr (is_done, _) ↦ absurd (true≢false (sym is_done ∙ e))
    | inl (_, none_yet) ↦ inr (
      refl,
      ap (λ (l : List (Option Fault)). length (l ++ (deleted c w.ni.added w.ni).0 ∷ [])) none_yet,
    )
  ],
)

Holds-tracked :
    (c : System) (r : Built × Desktop) (w : Window) → Holds c (handled w) → Holds c (tracked r w)
unfolding tracked
Holds-tracked c (broken, d) w h = tt
Holds-tracked c (built es, d) w h = h

Holds-popped_up :
    (c : System) (s : Shell) (o : Option Menu) (w : Window)
    → Holds c (handled w)
    → Holds c (popped_up s o w)
unfolding popped_up
Holds-popped_up c s none w h = tt
Holds-popped_up c s (some m) w h = Holds-tracked c (menu_sys s m w.desktop) w h

Holds-re_added :
    (c : System) (r : Option Fault × NotifyIcon) (w : Window)
    → Sane c r.1.icon_data
    → Closes w
    → Holds c (re_added r w)
unfolding re_added
Holds-re_added c (some f, ni) w k h = tt
Holds-re_added c (none, ni) w k h = (k, h)

Holds-restored :
    (c : System) (r : Option Fault × NotifyIcon) (w : Window)
    → Sane c r.1.icon_data
    → Closes w
    → Holds c (restored c r w)
unfolding restored act
Holds-restored c (none, ni) w k h = (k, h)
Holds-restored c (some f, ni) w k h =
    Holds-re_added c (add_icon c (record ni { added = false })) w
      (act-Sane c use_add (record ni { added = false }) k) h

Holds-window_proc :
    (c : System) (s : Shell) (m : Message) (w : Window)
    → Holds c (handled w)
    → Holds c (window_proc c s m w)
unfolding window_proc act
Holds-window_proc c s wm_close w h = h
Holds-window_proc c s wm_destroy w h = Holds-destroyed c w.done w refl h
Holds-window_proc c s (wm_user l) w h = Holds-notified c (notice_of (lo_word (l % 2 ^ 32))) w h
Holds-window_proc c s wm_context_menu w h = Holds-popped_up c s w.menu w h
Holds-window_proc c s (wm_command p) w h = h
Holds-window_proc c s wm_sys_key_down w h = h
Holds-window_proc c s taskbar_created w (sane, closes) =
    Holds-restored c (modify c w.ni) w (act-Sane c use_modify w.ni sane) closes
Holds-window_proc c s other_message w h = h

-- What happens to an icon: its owner uses it, or its window gets a message.
pub data Event : Type 0 where
  used : Use → Event
  received : Message → Event
  given_menu : Menu → Event

pub step : System → Shell → Event → Handled → Handled
unfolding window_proc create_menu
step c s e panicked = panicked
step c s (used u) (handled w) = handled (record w { ni = act c u w.ni })
step c s (received m) (handled w) = window_proc c s m w
step c s (given_menu m) (handled w) = handled (create_menu m w)

pub run : System → Shell → List Event → Handled → Handled
unfolding step
run c s [] h = h
run c s (e ∷ es) h = run c s es (step c s e h)

Holds-step : (c : System) (s : Shell) (e : Event) (h : Handled) → Holds c h → Holds c (step c s e h)
unfolding step create_menu
Holds-step c s e panicked k = tt
Holds-step c s (used u) (handled w) (sane, closes) = (act-Sane c u w.ni sane, closes)
Holds-step c s (received m) (handled w) k = Holds-window_proc c s m w k
Holds-step c s (given_menu m) (handled w) k = k

Holds-run :
    (c : System) (s : Shell) (es : List Event) (h : Handled) → Holds c h → Holds c (run c s es h)
unfolding run
Holds-run c s [] h k = k
Holds-run c s (e ∷ es) h k = Holds-run c s es (step c s e h) (Holds-step c s e h k)

abbrev pub new_window : NotifyIcon → Window
new_window ni = record {
  ni = ni;
  menu = none;
  desktop = record { live = 0; calls = 0 };
  events = [];
  done = false;
  errs = [];
  requests = [];
}

-- An icon that `New` has made, whatever its owner does with it, whichever messages its window gets and
-- whichever calls of the system fail, up to a panic: its data have no icon or no GUID where the flag
-- for it is off, the flag of a GUID only on Windows 7 or later, never the flag of a balloon or the type
-- of one, which only the copy of `Notify` has, and the texts in arrays of 128, 256 and 64 units; and the channel `done`
-- is closed exactly if `err` has had its one value, which `Close` waits for.
pub run-Holds :
    (c : System) (s : Shell) (name : Bytes) (wnd : Option ℕ) (es : List Event) (ni : NotifyIcon)
    → new_icon c name wnd ≡ fine ni
    → Holds c (run c s es (handled (new_window ni)))
run-Holds c s name wnd es ni made =
    Holds-run c s es (handled (new_window ni)) (new_icon-Sane c name wnd ni made, inl (refl, refl))

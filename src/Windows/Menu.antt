-- ===== src/Windows/Menu.antt =====
-- `Menu` of windows/notify_windows.go, and the system's menus that `Menu.sys` builds of it.
pub mod Shown
use go_notify.Base.{
  ℕ, zero, suc, ◌+◌, ◌-◌, List, [], Option, none, some, Bool, true, false, if◌then◌else◌, Bytes,
}

-- `menuItem`s, which the three methods append: `item` with MF_STRING, `submenu` with MF_POPUP and
-- `separator` with MF_SEPARATOR, an empty text and the ID 0.
mutual
  pub data Menu : Type 0 where
    menu : Items → Menu

  pub data Items : Type 0 where
    end : Items
    item : Bytes → ℕ → Items → Items
    submenu : Bytes → Menu → Items → Items
    separator : Items → Items

-- The methods `Item`, `Submenu` and `Sep`, which append an item; `Submenu` is given the menu that its
-- caller makes of the one it returns.
append : Items → Items → Items
append end more = more
append (item text id rest) more = item text id (append rest more)
append (submenu text m rest) more = submenu text m (append rest more)
append (separator rest) more = separator (append rest more)

unfoldable pub add_item : Bytes → ℕ → Menu → Menu
unfolding append
add_item text id (menu items) = menu (append items (item text id end))

unfoldable pub add_submenu : Bytes → Menu → Menu → Menu
unfolding append
add_submenu text sub (menu items) = menu (append items (submenu text sub end))

unfoldable pub add_sep : Menu → Menu
unfolding append
add_sep (menu items) = menu (append items (separator end))

-- A menu of the system, as its handle stands for it: each entry with its text in UTF-16 and what it
-- stands for, a number or a menu of its own.
mutual
  pub data Popup : Type 0 where
    popup : Entries → Popup

  pub data Entries : Type 0 where
    no_entry : Entries
    string_entry : Entries → List ℕ → ℕ → Entries
    popup_entry : Entries → List ℕ → Popup → Entries
    separator_entry : Entries → List ℕ → Entries

-- The system's menus: how many there are, and how many calls have been made.
pub record Desktop : Type 0 where
  pub live : ℕ
  pub calls : ℕ

-- What the system answers: whether the call of a number succeeds, and `UTF16FromString`, with `none`
-- for its error.
pub record Shell : Type 0 where
  pub creates : ℕ → Bool
  pub appends : ℕ → Bool
  pub utf16 : Bytes → Option (List ℕ)

-- The number of menus in one; `DestroyMenu` destroys the menus in it as well.
mutual
  pub size : Popup → ℕ
  size (popup es) = suc (sizes es)

  pub sizes : Entries → ℕ
  sizes no_entry = zero
  sizes (string_entry es t n) = sizes es
  sizes (popup_entry es t p) = sizes es + size p
  sizes (separator_entry es t) = sizes es

pub data Built : Type 0 where
  built : Entries → Built
  broken : Built

destroy : Entries → Desktop → Desktop
unfolding size
destroy es d = record d { live = d.live - size (popup es) }

-- `UTF16PtrFromString` and `AppendMenu`, with what is done about their errors.
appended : Bool → Entries → (List ℕ → Entries) → List ℕ → Desktop → Built × Desktop
unfolding destroy
appended true es f t d = (built (f t), record d { calls = d.calls + 1 })
appended false es f t d = (broken, destroy es (record d { calls = d.calls + 1 }))

append_text : Shell → Entries → (List ℕ → Entries) → Option (List ℕ) → Desktop → Built × Desktop
unfolding appended destroy
append_text c es f none d = (broken, destroy es d)
append_text c es f (some t) d = appended (c.appends d.calls) es f t d

pub and_then : Built × Desktop → (Entries → Desktop → Built × Desktop) → Built × Desktop
and_then (built es, d) f = f es d
and_then (broken, d) f = (broken, d)

-- A submenu that cannot be built.
or_destroy : Built × Desktop → Entries → (Entries → Desktop → Built × Desktop) → Built × Desktop
unfolding destroy
or_destroy (built sub, d) es f = f sub d
or_destroy (broken, d) es f = (broken, destroy es d)

-- `CreatePopupMenu`.
create : Shell → Desktop → (Desktop → Built × Desktop) → Built × Desktop
create c d f =
    if c.creates d.calls
    then f (record { live = d.live + 1; calls = d.calls + 1 })
    else (broken, record d { calls = d.calls + 1 })

-- `Menu.sys`, with the entries of the menu whose handle it returns.
unfoldable mutual
  unfolding create append_text and_then or_destroy

  pub menu_sys : Shell → Menu → Desktop → Built × Desktop
  menu_sys c (menu items) d = create c d (λ e. append_all c items no_entry e)

  pub append_all : Shell → Items → Entries → Desktop → Built × Desktop
  append_all c end es d = (built es, d)
  append_all c (item text id rest) es d =
      and_then (append_text c es (λ t. string_entry es t id) (c.utf16 text) d)
        (λ fs e. append_all c rest fs e)
  append_all c (submenu text m rest) es d = or_destroy (menu_sys c m d) es (λ sub e.
      and_then (append_text c es (λ t. popup_entry es t (popup sub)) (c.utf16 text) e)
        (λ fs e'. append_all c rest fs e'))
  append_all c (separator rest) es d =
      and_then (append_text c es (λ t. separator_entry es t) (c.utf16 []) d)
        (λ fs e. append_all c rest fs e)

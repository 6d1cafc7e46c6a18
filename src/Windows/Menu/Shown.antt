-- ===== src/Windows/Menu/Shown.antt =====
-- What `Menu.sys` builds, and the system's menus that are left when it fails.
use go_notify.Base.{
  ℕ, suc, ◌+◌, ◌-◌, ◌≤◌, ◌≡◌, ◌⊎◌, inl, inr, refl, ◌∙◌, arith, List, [], Option, none, some, Bool,
  true, false, Bytes, if◌then◌else◌,
}
use go_notify.Windows.Menu.{
  Menu, menu, Items, end, item, submenu, separator, popup, Entries, no_entry, string_entry,
  popup_entry, separator_entry, Desktop, Shell, sizes, size, Built, built, broken, destroy,
  appended, append_text, and_then, or_destroy, create, menu_sys, append_all,
}

abbrev pub maybe : Option (List ℕ) → (List ℕ → Option Entries) → Option Entries
maybe none f = none
maybe (some t) f = f t

abbrev pub maybe_entries : Option Entries → (Entries → Option Entries) → Option Entries
maybe_entries none f = none
maybe_entries (some es) f = f es

-- The entries that a menu stands for, behind those that are there: every item, in its order.
mutual
  pub shown : (Bytes → Option (List ℕ)) → Menu → Option Entries
  shown u (menu items) = shown_items u items no_entry

  pub shown_items : (Bytes → Option (List ℕ)) → Items → Entries → Option Entries
  shown_items u end es = some es
  shown_items u (item text id rest) es =
      maybe (u text) (λ t. shown_items u rest (string_entry es t id))
  shown_items u (submenu text m rest) es =
      maybe_entries (shown u m)
        (λ sub. maybe (u text) (λ t. shown_items u rest (popup_entry es t (popup sub))))
  shown_items u (separator rest) es = maybe (u []) (λ t. shown_items u rest (separator_entry es t))

-- No item has a menu of its own.
pub flat_items : Items → Bool
flat_items end = true
flat_items (item text id rest) = flat_items rest
flat_items (submenu text m rest) = false
flat_items (separator rest) = flat_items rest

abbrev pub flat : Menu → Bool
flat (menu items) = flat_items items

-- What becomes of a menu.
abbrev pub Told : Shell → Menu → Desktop → Built × Desktop → Type 0
Told c m d (built es, e) = (shown c.utf16 m ≡ some es) × (e.live ≡ d.live + size (popup es))
Told c m d (broken, e) = (d.live ≤ e.live) × ((flat m ≡ false) ⊎ (e.live ≡ d.live))

abbrev Adds : Shell → Items → Entries → Desktop → Built × Desktop → Type 0
Adds c items es d (built fs, e) =
    (shown_items c.utf16 items es ≡ some fs) × (e.live + sizes es ≡ d.live + sizes fs)
Adds c items es d (broken, e) =
    (d.live ≤ e.live + suc (sizes es))
    × ((flat_items items ≡ false) ⊎ (e.live + suc (sizes es) ≡ d.live))

module _ (c : Shell) (es : Entries) (f : List ℕ → Entries) (d : Desktop)
    (P : Built × Desktop → Type 0) (k : Entries → Desktop → Built × Desktop)
    (fails : (e : Desktop) → e.live ≡ d.live → P (broken, destroy es e)) where
  appended-P :
      (b : Bool) (t : List ℕ)
      → ((e : Desktop) → e.live ≡ d.live → P (k (f t) e))
      → P (and_then (appended b es f t d) k)
  unfolding appended and_then
  appended-P true t h = h _ refl
  appended-P false t h = fails _ refl

  append_text-P :
      (o : Option (List ℕ))
      → ((t : List ℕ) (e : Desktop) → o ≡ some t → e.live ≡ d.live → P (k (f t) e))
      → P (and_then (append_text c es f o d) k)
  unfolding append_text and_then
  append_text-P none h = fails d refl
  append_text-P (some t) h = appended-P (c.appends d.calls) t (λ e same. h t e refl same)

-- The rest of the items, behind one more entry that has `x` menus.
Adds-behind :
    (c : Shell) (items rest : Items) (es fs : Entries) (d e : Desktop) (x : ℕ) (r : Built × Desktop)
    → sizes fs ≡ sizes es + x
    → e.live ≡ d.live + x
    → shown_items c.utf16 items es ≡ shown_items c.utf16 rest fs
    → (flat_items items ≡ false) ⊎ ((x ≡ 0) × (flat_items items ≡ flat_items rest))
    → Adds c rest fs e r
    → Adds c items es d r
Adds-behind c items rest es fs d e x (built gs, g) s l same flat_too (told, count) =
    (same ∙ told, omega arith)
Adds-behind c items rest es fs d e x (broken, g) s l same (inl deep) (more, count) =
    (omega arith, inl deep)
Adds-behind c items rest es fs d e x (broken, g) s l same (inr (zero_more, is_flat))
      (more, inl deep) =
    (omega arith, inl (is_flat ∙ deep))
Adds-behind c items rest es fs d e x (broken, g) s l same (inr (zero_more, is_flat))
      (more, inr count) =
    (omega arith, inr (omega arith))

or_destroy-P :
    (c : Shell) (m : Menu) (es : Entries) (d : Desktop) (P : Built × Desktop → Type 0)
    (k : Entries → Desktop → Built × Desktop) (r : Built × Desktop)
    → Told c m d r
    → ((e : Desktop) → d.live ≤ e.live → P (broken, destroy es e))
    → ((sub : Entries) (e : Desktop)
        → shown c.utf16 m ≡ some sub
        → e.live ≡ d.live + size (popup sub)
        → P (k sub e))
    → P (or_destroy r es k)
unfolding or_destroy
or_destroy-P c m es d P k (built sub, e) (told, count) fails h = h sub e told count
or_destroy-P c m es d P k (broken, e) (more, count) fails h = fails e more

destroy-live : (es : Entries) (d : Desktop) → (destroy es d).live ≡ d.live - suc (sizes es)
unfolding destroy size
destroy-live es d = refl

-- A call that fails when a menu of `x` more has been built and is not in the menu yet.
Adds-broken :
    (c : Shell) (items : Items) (es : Entries) (d e : Desktop)
    → suc (sizes es) ≤ d.live
    → ((flat_items items ≡ false) × (d.live ≤ e.live)) ⊎ (e.live ≡ d.live)
    → Adds c items es d (broken, destroy es e)
Adds-broken c items es d e h (inl (deep, more)) = (omega (arith, destroy-live es e), inl deep)
Adds-broken c items es d e h (inr same) =
    (omega (arith, destroy-live es e), inr (omega (arith, destroy-live es e)))

create-Told :
    (c : Shell) (items : Items) (d : Desktop) (b : Bool) (r : Built × Desktop)
    → Adds c items no_entry (record { live = d.live + 1; calls = d.calls + 1 }) r
    → Told c (menu items) d (if b then r else (broken, record d { calls = d.calls + 1 }))
unfolding size sizes shown shown_items
create-Told c items d false r h = (omega arith, inr refl)
create-Told c items d true (built es, e) (told, count) = (told, omega arith)
create-Told c items d true (broken, e) (more, inl deep) = (omega arith, inl deep)
create-Told c items d true (broken, e) (more, inr count) = (omega arith, inr (omega arith))

mutual
  unfolding menu_sys append_all create shown_items flat_items sizes size

  menu_built : (c : Shell) (m : Menu) (d : Desktop) → Told c m d (menu_sys c m d)
  menu_built c (menu items) d = create-Told c items d (c.creates d.calls) _ (
      items_built c items no_entry (record { live = d.live + 1; calls = d.calls + 1 })
        (omega arith))

  items_built :
      (c : Shell) (items : Items) (es : Entries) (d : Desktop)
      → suc (sizes es) ≤ d.live
      → Adds c items es d (append_all c items es d)
  items_built c end es d h = (refl, refl)
  items_built c (item text id rest) es d h =
      append_text-P c es (λ t. string_entry es t id) d (Adds c (item text id rest) es d)
        (λ fs e. append_all c rest fs e)
        (λ e same. Adds-broken c (item text id rest) es d e h (inr same)) (c.utf16 text)
        (λ t e is_t same.
          Adds-behind c (item text id rest) rest es (string_entry es t id) d e 0 _ (omega arith)
            (omega arith) (rw is_t refl) (inr (refl, refl))
            (items_built c rest (string_entry es t id) e (omega arith)))
  items_built c (submenu text m rest) es d h =
      or_destroy-P c m es d (Adds c (submenu text m rest) es d)
        (λ sub e.
          and_then (append_text c es (λ t. popup_entry es t (popup sub)) (c.utf16 text) e)
            (λ fs e'. append_all c rest fs e'))
        (menu_sys c m d) (menu_built c m d)
        (λ e more. Adds-broken c (submenu text m rest) es d e h (inl (refl, more)))
        (λ sub e told count.
          append_text-P c es (λ t. popup_entry es t (popup sub)) e
            (Adds c (submenu text m rest) es d) (λ fs e'. append_all c rest fs e')
            (λ e' same. Adds-broken c (submenu text m rest) es d e' h (inl (refl, omega arith)))
            (c.utf16 text)
            (λ t e' is_t same.
              Adds-behind c (submenu text m rest) rest es (popup_entry es t (popup sub)) d e'
                (size (popup sub)) _ (omega arith) (omega arith) (rw (told, is_t) refl) (inl refl)
                (items_built c rest (popup_entry es t (popup sub)) e' (omega arith))))
  items_built c (separator rest) es d h =
      append_text-P c es (λ t. separator_entry es t) d (Adds c (separator rest) es d)
        (λ fs e. append_all c rest fs e)
        (λ e same. Adds-broken c (separator rest) es d e h (inr same)) (c.utf16 [])
        (λ t e is_t same.
          Adds-behind c (separator rest) rest es (separator_entry es t) d e 0 _ (omega arith)
            (omega arith) (rw is_t refl) (inr (refl, refl))
            (items_built c rest (separator_entry es t) e (omega arith)))

-- ===== src/Windows/Icon/Kept.antt =====
-- What the methods of a `NotifyIcon` keep, in any order.
use go_notify.Base.{
  ℕ, ◌≡◌, ◌⊎◌, inl, inr, refl, sym, subst, Bool, true, false, List, [], ◌∷◌, Option, none, some,
  arith, length, take, drop, length-append, length-take, length-drop, Bytes, ◌==◌,
}
use go_notify.Windows.Guid.{Guid, parse}
use go_notify.Windows.Data.{Data, copy, zero_guid, System}
use go_notify.Windows.Icon.{
  Fault, Checked, fine, fault, ◌>>◌, require, without_icon, without_guid, unless_zero, after_add,
  show_by, show, prepared, shell_notify_icon, notify_data, NotifyIcon, Notification, with_icon,
  guided, with_guid, kept, prepare, add, modify_with, add_icon, modify, notify,
}

-- The data match the flags: no icon and no GUID where the flag is off, a GUID only on Windows 7 or
-- later, never a balloon or the
-- type of one, and the arrays of their sizes.
pub record Sane (c : System) (d : Data) : Type 0 where
  pub no_icon : (d.flags.icon ≡ true) ⊎ (d.icon ≡ 0)
  pub no_guid : (d.flags.guid ≡ true) ⊎ (d.guid_item ≡ zero_guid)
  pub guid_known : (d.flags.guid ≡ false) ⊎ (c.windows7 ≡ true)
  pub no_type : d.info_flags.icon_type ≡ 0
  pub no_info : d.flags.info ≡ false
  pub basic : (d.flags.message ≡ true) × (d.flags.tip ≡ true)
  pub tip_size : length d.tip ≡ 128
  pub info_size : length d.info ≡ 256
  pub title_size : length d.info_title ≡ 64

pub length-copy : (s t : List ℕ) → length (copy s t) ≡ length s
unfolding copy
length-copy s t = omega (
  arith,
  length-append (take (length s) t) (drop (length t) s),
  length-take (length s) t,
  length-drop (length t) s,
)

Sane-without_icon : (c : System) (b : Bool) (d : Data) → Sane c d → Sane c (without_icon b d)
unfolding without_icon
Sane-without_icon c false d k = k
Sane-without_icon c true d k = record {
  no_icon = inr refl;
  no_guid = k.no_guid;
  guid_known = k.guid_known;
  no_type = k.no_type;
  no_info = k.no_info;
  basic = k.basic;
  tip_size = k.tip_size;
  info_size = k.info_size;
  title_size = k.title_size;
}

Sane-without_guid : (c : System) (b : Bool) (d : Data) → Sane c d → Sane c (without_guid b d)
unfolding without_guid
Sane-without_guid c false d k = k
Sane-without_guid c true d k = record {
  no_icon = k.no_icon;
  no_guid = inr refl;
  guid_known = inl refl;
  no_type = k.no_type;
  no_info = k.no_info;
  basic = k.basic;
  tip_size = k.tip_size;
  info_size = k.info_size;
  title_size = k.title_size;
}

Sane-icon : (c : System) (o : Option ℕ) (d : Data) → Sane c d → Sane c (with_icon o d)
unfolding with_icon
Sane-icon c (some h) d k = record {
  no_icon = inl refl;
  no_guid = k.no_guid;
  guid_known = k.guid_known;
  no_type = k.no_type;
  no_info = k.no_info;
  basic = k.basic;
  tip_size = k.tip_size;
  info_size = k.info_size;
  title_size = k.title_size;
}
Sane-icon c none d k = Sane-without_icon c d.flags.icon d k

Sane-guided :
    (c : System) (d : Data) (o : Option Guid)
    → c.windows7 ≡ true
    → Sane c d
    → Sane c (kept d (guided d o)).1
unfolding guided kept
Sane-guided c d none on k = k
Sane-guided c d (some g) on k = record {
  no_icon = k.no_icon;
  no_guid = inl refl;
  guid_known = inr on;
  no_type = k.no_type;
  no_info = k.no_info;
  basic = k.basic;
  tip_size = k.tip_size;
  info_size = k.info_size;
  title_size = k.title_size;
}

Sane-required :
    (c : System) (b : Bool) (f : Fault) (d : Data) (o : Option Guid)
    → c.windows7 ≡ b
    → Sane c d
    → Sane c (kept d (require b f >> guided d o)).1
unfolding kept
Sane-required c true f d o on k = Sane-guided c d o on k
Sane-required c false f d o off k = k

Sane-guid : (c : System) (g : Bytes) (d : Data) → Sane c d → Sane c (kept d (with_guid c g d)).1
unfolding with_guid kept
Sane-guid c [] d k = Sane-without_guid c d.flags.guid d k
Sane-guid c (x ∷ g) d k = Sane-required c c.windows7 _ d (parse (x ∷ g)) refl k

Sane-prepare :
    (c : System) (ni : NotifyIcon) → Sane c ni.icon_data → Sane c (prepare c ni).1.icon_data
unfolding prepare
Sane-prepare c ni k =
    Sane-guid c ni.guid (with_icon ni.icon ni.icon_data) (Sane-icon c ni.icon ni.icon_data k)

-- A method leaves the data as `prepare` does.
unless_zero_data :
    (z : Bool) (c : System) (d : Data) (ni : NotifyIcon)
    → (unless_zero z c d ni).icon_data ≡ ni.icon_data
unfolding unless_zero shell_notify_icon
unless_zero_data true c d ni = refl
unless_zero_data false c d ni = refl

after_add_data :
    (b : Bool) (c : System) (d : Data) (ni : NotifyIcon)
    → (after_add b c d ni).1.icon_data ≡ ni.icon_data
unfolding after_add
after_add_data false c d ni = refl
after_add_data true c d ni = unless_zero_data (d.version == 0) c d ni

data-add : (c : System) (d : Data) (ni : NotifyIcon) → (add c d ni).1.icon_data ≡ ni.icon_data
unfolding add shell_notify_icon
data-add c d ni = after_add_data (c.notify_icon ni.calls _) c d _

data-prepared :
    (r : Option Fault × NotifyIcon) (k : NotifyIcon → Option Fault × NotifyIcon)
    → ((p : NotifyIcon) → (k p).1.icon_data ≡ p.icon_data)
    → (prepared r k).1.icon_data ≡ r.1.icon_data
unfolding prepared
data-prepared (some f, p) k h = refl
data-prepared (none, p) k h = h p

data-show_by :
    (b : Bool) (c : System) (ni : NotifyIcon) (d : Data)
    → (show_by b c ni d).1.icon_data ≡ ni.icon_data
unfolding show_by modify_with shell_notify_icon
data-show_by true c ni d = refl
data-show_by false c ni d = data-add c d ni

data-show :
    (c : System) (ni : NotifyIcon) (m : Checked Data) → (show c ni m).1.icon_data ≡ ni.icon_data
unfolding show
data-show c ni (fault f) = refl
data-show c ni (fine d) = data-show_by ni.added c ni d

-- What the owner of an icon does.
pub data Use : Type 0 where
  use_icon : Option ℕ → Use
  use_guid : Bytes → Use
  use_add use_modify : Use
  use_notify : Notification → Use

unfoldable pub act : System → Use → NotifyIcon → NotifyIcon
unfolding add_icon modify notify
act c (use_icon o) ni = record ni { icon = o }
act c (use_guid g) ni = record ni { guid = g }
act c use_add ni = (add_icon c ni).1
act c use_modify ni = (modify c ni).1
act c (use_notify n) ni = (notify c n ni).1

pub act-Sane :
    (c : System) (u : Use) (ni : NotifyIcon) → Sane c ni.icon_data → Sane c (act c u ni).icon_data
unfolding act add_icon modify notify modify_with shell_notify_icon
act-Sane c (use_icon o) ni k = k
act-Sane c (use_guid g) ni k = k
act-Sane c use_add ni k =
    subst (Sane c) (sym (data-prepared (prepare c ni) _ (λ p. data-add c p.icon_data p)))
      (Sane-prepare c ni k)
act-Sane c use_modify ni k =
    subst (Sane c) (sym (data-prepared (prepare c ni) _ (λ p. refl))) (Sane-prepare c ni k)
act-Sane c (use_notify n) ni k =
    subst (Sane c)
      (sym (data-prepared (prepare c ni) _ (λ p. data-show c p (notify_data c n p.icon_data))))
      (Sane-prepare c ni k)

-- ===== src/Windows/Icon/Fresh.antt =====
-- The data of an icon that `New` makes.
use go_notify.Base.{
  ℕ, ◌≡◌, inl, inr, refl, ◌∙◌, subst, Bool, true, false, List, Option, none, some, length, Bytes,
}
use go_notify.Windows.Data.{Data, copy, zero_data, System}
use go_notify.Windows.Icon.Balloon.{bind-eq-fine, fine-injective}
use go_notify.Windows.Icon.{
  fine, versioned_by, versioned, in_window, text_of, NotifyIcon, new_data, new_icon,
}
use go_notify.Windows.Icon.Kept.{Sane, length-copy}

Sane-versioned_by :
    (c : System) (a b e w : Bool) (t : List ℕ)
    → length t ≡ 128
    → let d = versioned_by a b e w zero_data in
      Sane c (record d {
        flags = record d.flags { message = true; tip = true };
        callback_message = 0x400;
        tip = t;
      })
unfolding versioned_by
Sane-versioned_by c true b e w t h = record {
  no_icon = inr refl;
  no_guid = inr refl;
  guid_known = inl refl;
  no_type = refl;
  no_info = refl;
  basic = (refl, refl);
  tip_size = h;
  info_size = refl;
  title_size = refl;
}
Sane-versioned_by c false true e w t h = record {
  no_icon = inr refl;
  no_guid = inr refl;
  guid_known = inl refl;
  no_type = refl;
  no_info = refl;
  basic = (refl, refl);
  tip_size = h;
  info_size = refl;
  title_size = refl;
}
Sane-versioned_by c false false true w t h = record {
  no_icon = inr refl;
  no_guid = inr refl;
  guid_known = inl refl;
  no_type = refl;
  no_info = refl;
  basic = (refl, refl);
  tip_size = h;
  info_size = refl;
  title_size = refl;
}
Sane-versioned_by c false false false w t h = record {
  no_icon = inr refl;
  no_guid = inr refl;
  guid_known = inl refl;
  no_type = refl;
  no_info = refl;
  basic = (refl, refl);
  tip_size = h;
  info_size = refl;
  title_size = refl;
}

length-tip : (a b e w : Bool) → length (versioned_by a b e w zero_data).tip ≡ 128
unfolding versioned_by
length-tip true b e w = refl
length-tip false true e w = refl
length-tip false false true w = refl
length-tip false false false w = refl

new_data-Sane : (c : System) (name : Bytes) {d : Data} → new_data c name ≡ fine d → Sane c d
unfolding new_data versioned
new_data-Sane c name h =
    let (u, _, is_d) = bind-eq-fine (text_of c name) _ h in
    let a = c.shell_version 6 0 6 in
    let b = c.shell_version 6 0 0 in
    let e = c.shell_version 5 0 0 in
    let old = (versioned c zero_data).tip in
    subst (Sane c) (fine-injective is_d) (
      Sane-versioned_by c a b e c.windows7 (copy old u)
        (length-copy old u ∙ length-tip a b e c.windows7))

in_window-Sane :
    (c : System) (d : Data) (wnd : Option ℕ) {ni : NotifyIcon}
    → Sane c d
    → in_window d wnd ≡ fine ni
    → Sane c ni.icon_data
unfolding in_window
in_window-Sane c d none k h = cc
in_window-Sane c d (some w) k h =
    subst (λ (ni : NotifyIcon). Sane c ni.icon_data) (fine-injective h)
      (record {
        no_icon = k.no_icon;
        no_guid = k.no_guid;
        guid_known = k.guid_known;
        no_type = k.no_type;
        no_info = k.no_info;
        basic = k.basic;
        tip_size = k.tip_size;
        info_size = k.info_size;
        title_size = k.title_size;
      })

pub new_icon-Sane :
    (c : System) (name : Bytes) (wnd : Option ℕ) (ni : NotifyIcon)
    → new_icon c name wnd ≡ fine ni
    → Sane c ni.icon_data
unfolding new_icon
new_icon-Sane c name wnd ni h =
    let (d, made, opened) = bind-eq-fine (new_data c name) _ h in
    in_window-Sane c d wnd (new_data-Sane c name made) opened

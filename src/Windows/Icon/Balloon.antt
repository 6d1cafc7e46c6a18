-- ===== src/Windows/Icon/Balloon.antt =====
-- The data of a balloon, and for which versions of Windows they are.
use go_notify.Base.{
  ◌≡◌, ◌≢◌, ◌⊎◌, inl, inr, refl, sym, ap, ◌∙◌, subst, Bool, true, false, List, Option, none, some,
  Option-cases, ℕ, Bytes,
}
use Prim.Native.Nat.{bit_or}
use go_notify.Windows.Data.{
  IconType, type_bits, icon_none, icon_info, icon_warn, icon_error, icon_user, other_type, Data,
  copy, System,
}
use go_notify.Windows.Icon.{
  Fault, Checked, fine, fault, ◌>>=◌, ◌>>◌, require, Notification, text_of, with_texts, typed,
  with_balloon_icon, with_type, with_sound, notify_data,
}

pub bind-eq-fine :
    {A C : Type 0} (m : Checked A) (f : A → Checked C) {c : C}
    → m >>= f ≡ fine c
    → (a : A) × (m ≡ fine a) × (f a ≡ fine c)
bind-eq-fine (fault r) f e = cc
bind-eq-fine (fine a) f e = (a, refl, e)

require-eq-fine :
    {C : Type 0} (b : Bool) (f : Fault) (k : Checked C) {c : C}
    → require b f >> k ≡ fine c
    → (b ≡ true) × (k ≡ fine c)
require-eq-fine true f k e = (refl, e)
require-eq-fine false f k e = cc

pub fine-injective : {A : Type 0} {a b : A} → fine a ≡ fine b → a ≡ b
fine-injective e = cc

text_of-fine : (c : System) (s : Bytes) {u : List ℕ} → text_of c s ≡ fine u → c.utf16 s ≡ some u
unfolding text_of
text_of-fine c s e = elim (Option-cases (c.utf16 s)) [
  | inl missing ↦ let e1 = rw (missing, text_of) at e in cc
  | inr (v, found) ↦ let e1 = rw (found, text_of) at e in cc
]

-- The texts, and the flag that says so.
abbrev Worded : System → Notification → Data → Data → Type 0
Worded c n d e =
    (t : List ℕ) × (b : List ℕ) × (c.utf16 n.title ≡ some t)
    × (c.utf16 n.body ≡ some b)
    × (e ≡ record d {
      flags = record d.flags { info = true };
      info_title = copy d.info_title t;
      info = copy d.info b;
    })

with_texts_sound :
    (c : System) (n : Notification) (d : Data) {e : Data}
    → with_texts c n d ≡ fine e
    → Worded c n d e
unfolding with_texts
with_texts_sound c n d h =
    let (t, et, h1) = bind-eq-fine (text_of c n.title) _ h in
    let (b, eb, h2) = bind-eq-fine (text_of c n.body) _ h1 in
    (t, b, text_of-fine c n.title et, text_of-fine c n.body eb, sym (fine-injective h2))

-- The type of the icon, and an icon of the caller's.
abbrev pub Iconed : System → Notification → ℕ → ℕ → Type 0
Iconed c n before after =
    ((n.icon_type ≢ icon_user) × (after ≡ before))
    ⊎ ((n.icon_type ≡ icon_user)
        × (c.xp_sp2 ≡ true)
        × (((n.icon ≡ none) × (after ≡ before))
            ⊎ ((n.icon ≡ some after) × (c.shell_version 6 0 6 ≡ true))))

-- A type that has a constant.
abbrev pub IsKnown : IconType → Type 0
IsKnown (other_type t) = ⊥
IsKnown t = Unit

Typed : System → Notification → IconType → Data → Data → Type 0
unfolding typed
Typed c n t d e =
    (h : ℕ) × (e ≡ record (typed t d) { balloon_icon = h })
    × IsKnown t
    × (((t ≢ icon_user) × (h ≡ d.balloon_icon))
        ⊎ ((t ≡ icon_user)
            × (c.xp_sp2 ≡ true)
            × (((n.icon ≡ none) × (h ≡ d.balloon_icon))
                ⊎ ((n.icon ≡ some h) × (c.shell_version 6 0 6 ≡ true)))))

with_balloon_icon_sound :
    (c : System) (o : Option ℕ) (d : Data) {e : Data}
    → with_balloon_icon c o d ≡ fine e
    → (h : ℕ) × (e ≡ record d { balloon_icon = h })
      × (((o ≡ none) × (h ≡ d.balloon_icon)) ⊎ ((o ≡ some h) × (c.shell_version 6 0 6 ≡ true)))
unfolding with_balloon_icon
with_balloon_icon_sound c none d e = (d.balloon_icon, sym (fine-injective e), inl (refl, refl))
with_balloon_icon_sound c (some h) d e =
    let (vista, e1) = require-eq-fine (c.shell_version 6 0 6) _ _ e in
    (h, sym (fine-injective e1), inr (refl, vista))

with_type_sound :
    (c : System) (n : Notification) (t : IconType) (d : Data) {e : Data}
    → with_type c t n.icon d ≡ fine e
    → Typed c n t d e
unfolding with_type typed Typed
with_type_sound c n icon_none d e =
    (d.balloon_icon, sym (fine-injective e), tt, inl ((λ f. cc), refl))
with_type_sound c n icon_info d e =
    (d.balloon_icon, sym (fine-injective e), tt, inl ((λ f. cc), refl))
with_type_sound c n icon_warn d e =
    (d.balloon_icon, sym (fine-injective e), tt, inl ((λ f. cc), refl))
with_type_sound c n icon_error d e =
    (d.balloon_icon, sym (fine-injective e), tt, inl ((λ f. cc), refl))
with_type_sound c n (other_type t) d e = cc
with_type_sound c n icon_user d e =
    let (sp2, e1) = require-eq-fine c.xp_sp2 _ _ e in
    let (h, is_e, given) = with_balloon_icon_sound c n.icon (typed icon_user d) e1 in
    (h, is_e, tt, inr (refl, sp2, given))

abbrev pub Sounded : System → Notification → Bool → Bool → Type 0
Sounded c n before after =
    ((n.sound ≡ true) × (after ≡ before))
    ⊎ ((n.sound ≡ false) × (after ≡ true) × (c.shell_version 6 0 0 ≡ true))

with_sound_sound :
    (c : System) (b : Bool) (d : Data) {e : Data}
    → with_sound c b d ≡ fine e
    → (s : Bool) × (e ≡ record d { info_flags = record d.info_flags { no_sound = s } })
      × (((b ≡ true) × (s ≡ d.info_flags.no_sound))
          ⊎ ((b ≡ false) × (s ≡ true) × (c.shell_version 6 0 0 ≡ true)))
unfolding with_sound
with_sound_sound c true d e = (d.info_flags.no_sound, sym (fine-injective e), inl (refl, refl))
with_sound_sound c false d e =
    let (xp, e1) = require-eq-fine (c.shell_version 6 0 0) _ _ e in
    (true, sym (fine-injective e1), inr (refl, refl, xp))

-- The data of a balloon, as the notification `n` and the icon's own data `d` make them.
pub record Balloon (c : System) (n : Notification) (d e : Data) : Type 0 where
  pub title : List ℕ
  pub body : List ℕ
  pub title_is : c.utf16 n.title ≡ some title
  pub body_is : c.utf16 n.body ≡ some body
  pub info_title_is : e.info_title ≡ copy d.info_title title
  pub info_is : e.info ≡ copy d.info body
  pub flags_are : e.flags ≡ record d.flags { info = true }
  pub known : IsKnown n.icon_type
  pub type_is : e.info_flags.icon_type ≡ bit_or d.info_flags.icon_type (type_bits n.icon_type)
  pub iconed : Iconed c n d.balloon_icon e.balloon_icon
  pub sounded : Sounded c n d.info_flags.no_sound e.info_flags.no_sound
  pub same_icon : e.icon ≡ d.icon
  pub same_guid : e.guid_item ≡ d.guid_item
  pub same_size : e.size ≡ d.size
  pub same_version : e.version ≡ d.version
  pub same_tip : e.tip ≡ d.tip
  pub same_wnd : e.wnd ≡ d.wnd
  pub same_callback : e.callback_message ≡ d.callback_message
  pub same_large : e.info_flags.large_icon ≡ d.info_flags.large_icon
  pub same_respect : e.info_flags.respect_quiet_time ≡ d.info_flags.respect_quiet_time

balloon_of :
    (c : System) (n : Notification) (d a b e : Data)
    → Worded c n d a
    → Typed c n n.icon_type a b
    → (s : Bool) × (e ≡ record b { info_flags = record b.info_flags { no_sound = s } })
      × Sounded c n b.info_flags.no_sound s
    → Balloon c n d e
unfolding Typed typed
balloon_of c n d a b e (t, s, is_t, is_s, is_a) (i, is_b, known, iconed) (q, is_e, sounded) =
    let quiet : b.info_flags.no_sound ≡ d.info_flags.no_sound =
      ap (λ (x : Data). x.info_flags.no_sound) is_b
      ∙ ap (λ (x : Data). x.info_flags.no_sound) is_a in
    let bare : a.balloon_icon ≡ d.balloon_icon = ap (λ (x : Data). x.balloon_icon) is_a in
    let iconed1 = subst (λ (x : ℕ). Iconed c n x i) bare iconed in
    let sounded1 = subst (λ (x : Bool). Sounded c n x q) quiet sounded in
    rw is_e (
      rw is_b (
        rw is_a (record {
          title = t;
          body = s;
          title_is = is_t;
          body_is = is_s;
          info_title_is = refl;
          info_is = refl;
          flags_are = refl;
          known = known;
          type_is = refl;
          iconed = iconed1;
          sounded = sounded1;
          same_icon = refl;
          same_guid = refl;
          same_size = refl;
          same_version = refl;
          same_tip = refl;
          same_wnd = refl;
          same_callback = refl;
          same_large = refl;
          same_respect = refl;
        })))

pub notify_data-Balloon :
    (c : System) (n : Notification) (d e : Data) → notify_data c n d ≡ fine e → Balloon c n d e
unfolding notify_data
notify_data-Balloon c n d e h =
    let (a, ea, h1) = bind-eq-fine (with_texts c n d) _ h in
    let (b, eb, h2) = bind-eq-fine (with_type c n.icon_type n.icon a) _ h1 in
    balloon_of c n d a b e (with_texts_sound c n d ea) (with_type_sound c n n.icon_type a eb)
      (with_sound_sound c n.sound b h2)

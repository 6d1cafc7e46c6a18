-- ===== src/Windows/Notifier/Icons.antt =====
-- The icon and the sound of an event of the Windows notifier.
use go_notify.Base.{
  ℕ, ◌≤◌, ◌≡◌, ◌⊎◌, inl, inr, refl, sym, subst, Bool, true, false, Option, none, some, Bool-cases,
  arith, leb, if◌then◌else◌, codes,
}
use go_notify.Base.Int.{ℤ, pos, negsuc}
use go_notify.Dict.{lookup}
use go_notify.Go.Image.{Image}
use go_notify.Go.Value.{
  nil, bool, image, ext, int, int8, int16, int32, int64, uint, uint8, uint16, uint32, uint64,
  number_of,
}
use go_notify.Windows.Data.{IconType, icon_none, icon_user, System}
use go_notify.Windows.Icon.{Notification}
use go_notify.Windows.Notifier.{
  icon_type, icon_pointer, Any, Options, Loader, Checked, accepted, refused, ◌>>=◌, load_image,
  pointed, load_icon_u, load_icon_i, loaded, fallback, with_pointer, with_icon, sounded, event_of,
}

-- The icon of a handle: of an image that is loaded, of a number of 16 bits that names a resource, or
-- the one that is given.
abbrev pub Loads : Loader → Any → Option ℕ → Type 0
Loads l icon o =
    ((img : Image) × (h : ℕ) × (icon ≡ image img) × (load_image l img ≡ some h) × (o ≡ some h))
    ⊎ ((u : ℕ) × (h : ℕ) × (number_of icon ≡ some (pos u))
        × (u ≤ 0xffff)
        × (l.load_icon u ≡ some h)
        × (o ≡ some h))
    ⊎ (icon ≡ ext (icon_pointer o))

-- What the icon of a notification is: none, a type, or a handle on a shell that knows it, in whose
-- place an older one gets the type that is given for that.
abbrev pub Pictured : System → Loader → Any → Options → Notification → Type 0
Pictured c l icon opts n =
    ((icon ≡ nil) × (n.icon ≡ none) × (n.icon_type ≡ icon_none))
    ⊎ ((t : IconType) × (icon ≡ ext (icon_type t)) × (n.icon ≡ none) × (n.icon_type ≡ t))
    ⊎ ((o : Option ℕ) × Loads l icon o
        × (((c.shell_version 6 0 6 ≡ true) × (n.icon ≡ o) × (n.icon_type ≡ icon_user))
            ⊎ ((c.shell_version 6 0 6 ≡ false)
                × (n.icon ≡ none)
                × (((lookup (codes "windows:fallback-icon") opts ≡ none)
                      × (n.icon_type ≡ icon_none))
                    ⊎ (lookup (codes "windows:fallback-icon") opts
                        ≡ some (ext (icon_type n.icon_type)))))))

-- Its sound: the one given on a shell that can be silent, and else there is sound.
abbrev pub Sounds : System → Options → Bool → Type 0
Sounds c opts s =
    ((lookup (codes "windows:sound") opts ≡ none) × (s ≡ true))
    ⊎ ((b : Bool) × (lookup (codes "windows:sound") opts ≡ some (bool b))
        × (s ≡ (if c.shell_version 6 0 0 then b else true)))

bind-eq-accepted :
    {A C : Type 0} (m : Checked A) (f : A → Checked C) {c : C}
    → m >>= f ≡ accepted c
    → (a : A) × (f a ≡ accepted c) × (m ≡ accepted a)
bind-eq-accepted (refused r) f e = cc
bind-eq-accepted (accepted a) f e = (a, e, refl)

accepted-injective : {A : Type 0} {a b : A} → accepted a ≡ accepted b → a ≡ b
accepted-injective e = cc

-- What the first `switch` makes of a value: itself, an icon, or a number that names no resource.
Came : Loader → Any → Any → Type 0
Came l icon v =
    (v ≡ icon)
    ⊎ ((o : Option ℕ) × (v ≡ ext (icon_pointer o)) × Loads l icon o)
    ⊎ (((z : ℤ) × (v ≡ int64 z)) ⊎ ((u : ℕ) × (v ≡ uint64 u)))

pointed_sound :
    (o : Option ℕ) {v : Any}
    → pointed o ≡ accepted v
    → (h : ℕ) × (o ≡ some h) × (v ≡ ext (icon_pointer (some h)))
unfolding pointed
pointed_sound none e = cc
pointed_sound (some h) e = (h, refl, cc)

load_icon_u_sound :
    (l : Loader) (icon : Any) (u : ℕ) {v : Any}
    → number_of icon ≡ some (pos u)
    → load_icon_u l u ≡ accepted v
    → Came l icon v
unfolding load_icon_u Came
load_icon_u_sound l icon u n e = elim (Bool-cases (leb u 0xffff)) [
  | inl small ↦
      let (h, made, is_v) = pointed_sound (l.load_icon u) (simp small at e) in
      inr (inl (some h, is_v, inr (inl (u, h, n, ground arith, made, refl))))
  | inr large ↦ let e1 = simp large at e in inr (inr (inr (u, cc)))
]

load_icon_i_sound :
    (l : Loader) (icon : Any) (z : ℤ) {v : Any}
    → number_of icon ≡ some z
    → load_icon_i l z ≡ accepted v
    → Came l icon v
unfolding load_icon_i Came
load_icon_i_sound l icon (negsuc m) n e = inr (inr (inl (negsuc m, cc)))
load_icon_i_sound l icon (pos u) n e = elim (Bool-cases (leb u 0xffff)) [
  | inl small ↦
      let (h, made, is_v) = pointed_sound (l.load_icon u) (simp small at e) in
      inr (inl (some h, is_v, inr (inl (u, h, n, ground arith, made, refl))))
  | inr large ↦ let e1 = simp large at e in inr (inr (inl (pos u, cc)))
]

loaded_sound : (l : Loader) (icon : Any) {v : Any} → loaded l icon ≡ accepted v → Came l icon v
unfolding loaded number_of Came
loaded_sound l (image img) e =
    let (h, made, is_v) = pointed_sound (load_image l img) e in
    inr (inl (some h, is_v, inl (img, h, refl, made, refl)))
loaded_sound l (int z) e = load_icon_i_sound l (int z) z refl e
loaded_sound l (int8 z) e = load_icon_i_sound l (int8 z) z refl e
loaded_sound l (int16 z) e = load_icon_i_sound l (int16 z) z refl e
loaded_sound l (int32 z) e = load_icon_i_sound l (int32 z) z refl e
loaded_sound l (int64 z) e = load_icon_i_sound l (int64 z) z refl e
loaded_sound l (uint u) e = load_icon_u_sound l (uint u) u refl e
loaded_sound l (uint8 u) e = load_icon_u_sound l (uint8 u) u refl e
loaded_sound l (uint16 u) e = load_icon_u_sound l (uint16 u) u refl e
loaded_sound l (uint32 u) e = load_icon_u_sound l (uint32 u) u refl e
loaded_sound l (uint64 u) e = load_icon_u_sound l (uint64 u) u refl e
loaded_sound l _ e = inl cc

fallback_sound :
    (o : Option Any) {n : Notification}
    → fallback o ≡ accepted n
    → (n.icon ≡ none)
      × (((o ≡ none) × (n.icon_type ≡ icon_none)) ⊎ (o ≡ some (ext (icon_type n.icon_type))))
unfolding fallback
fallback_sound none e = rw (← accepted-injective e) (refl, inl (refl, refl))
fallback_sound (some (ext (icon_type t))) e = rw (← accepted-injective e) (refl, inr refl)
fallback_sound (some (ext (icon_pointer o))) e = cc
fallback_sound (some _) e = cc

with_pointer_sound :
    (c : System) (l : Loader) (icon : Any) (opts : Options) (o : Option ℕ) (b : Bool)
    {n : Notification}
    → c.shell_version 6 0 6 ≡ b
    → Loads l icon o
    → with_pointer b opts o ≡ accepted n
    → Pictured c l icon opts n
unfolding with_pointer
with_pointer_sound c l icon opts o true new loads e =
    rw (← accepted-injective e) (inr (inr (o, loads, inl (new, refl, refl))))
with_pointer_sound c l icon opts o false old loads e =
    let (no_icon, given) = fallback_sound (lookup (codes "windows:fallback-icon") opts) e in
    inr (inr (o, loads, inr (old, no_icon, given)))

with_icon_sound :
    (c : System) (l : Loader) (opts : Options) (icon v : Any) {n : Notification}
    → Came l icon v
    → with_icon c opts v ≡ accepted n
    → Pictured c l icon opts n
unfolding with_icon Came
with_icon_sound c l opts icon nil (inl same) e =
    rw (← accepted-injective e) (inl (sym same, refl, refl))
with_icon_sound c l opts icon nil (inr (inl (o, is_v, loads))) e = cc
with_icon_sound c l opts icon nil (inr (inr (inl (z, is_v)))) e = cc
with_icon_sound c l opts icon nil (inr (inr (inr (u, is_v)))) e = cc
with_icon_sound c l opts icon (ext (icon_type t)) (inl same) e =
    rw (← accepted-injective e) (inr (inl (t, sym same, refl, refl)))
with_icon_sound c l opts icon (ext (icon_type t)) (inr (inl (o, is_v, loads))) e = cc
with_icon_sound c l opts icon (ext (icon_type t)) (inr (inr (inl (z, is_v)))) e = cc
with_icon_sound c l opts icon (ext (icon_type t)) (inr (inr (inr (u, is_v)))) e = cc
with_icon_sound c l opts icon (ext (icon_pointer o)) (inl same) e =
    with_pointer_sound c l icon opts o (c.shell_version 6 0 6) refl (inr (inr (sym same))) e
with_icon_sound c l opts icon (ext (icon_pointer o)) (inr (inl (p, is_v, loads))) e =
    let same : p ≡ o = cc in
    with_pointer_sound c l icon opts o (c.shell_version 6 0 6) refl
      (subst (Loads l icon) same loads) e
with_icon_sound c l opts icon (ext (icon_pointer o)) (inr (inr (inl (z, is_v)))) e = cc
with_icon_sound c l opts icon (ext (icon_pointer o)) (inr (inr (inr (u, is_v)))) e = cc
with_icon_sound c l opts icon _ came e = cc

fallback-loud : (o : Option Any) {n : Notification} → fallback o ≡ accepted n → n.sound ≡ true
unfolding fallback
fallback-loud none e = rw (← accepted-injective e) refl
fallback-loud (some (ext (icon_type t))) e = rw (← accepted-injective e) refl
fallback-loud (some (ext (icon_pointer o))) e = cc
fallback-loud (some _) e = cc

with_pointer-loud :
    (opts : Options) (o : Option ℕ) (b : Bool) {n : Notification}
    → with_pointer b opts o ≡ accepted n
    → n.sound ≡ true
unfolding with_pointer
with_pointer-loud opts o true e = rw (← accepted-injective e) refl
with_pointer-loud opts o false e = fallback-loud _ e

with_icon-loud :
    (c : System) (opts : Options) (v : Any) {n : Notification}
    → with_icon c opts v ≡ accepted n
    → n.sound ≡ true
unfolding with_icon
with_icon-loud c opts nil e = rw (← accepted-injective e) refl
with_icon-loud c opts (ext (icon_type t)) e = rw (← accepted-injective e) refl
with_icon-loud c opts (ext (icon_pointer o)) e = with_pointer-loud opts o _ e
with_icon-loud c opts _ e = cc

sounded_sound :
    (xp : Bool) (o : Option Any) (m : Notification) {n : Notification}
    → m.sound ≡ true
    → sounded xp o m ≡ accepted n
    → (n ≡ record m { sound = n.sound })
      × (((o ≡ none) × (n.sound ≡ true))
          ⊎ ((b : Bool) × (o ≡ some (bool b)) × (n.sound ≡ (if xp then b else true))))
unfolding sounded
sounded_sound xp none m loud e = rw (← accepted-injective e) (refl, inl (refl, loud))
sounded_sound xp (some (bool b)) m loud e = rw (← accepted-injective e) (refl, inr (b, refl, refl))
sounded_sound xp (some _) m loud e = cc

-- An event that is registered: its picture and its sound.
pub record Described (c : System) (l : Loader) (icon : Any) (opts : Options) (n : Notification)
    : Type 0 where
  pub pictured : Pictured c l icon opts n
  pub sounds : Sounds c opts n.sound

pub event_of-Described :
    (c : System) (l : Loader) (icon : Any) (opts : Options) (n : Notification)
    → event_of c l icon opts ≡ accepted n
    → Described c l icon opts n
unfolding event_of
event_of-Described c l icon opts n e =
    let (v, e1, came) = bind-eq-accepted (loaded l icon) _ e in
    let (m, e2, made) = bind-eq-accepted (with_icon c opts v) _ e1 in
    let (same, sounds) =
      sounded_sound (c.shell_version 6 0 0) _ m (with_icon-loud c opts v made) e2 in
    let picture = with_icon_sound c l opts icon v (loaded_sound l icon came) made in
    record { pictured = subst (Pictured c l icon opts) (sym same) picture; sounds = sounds }

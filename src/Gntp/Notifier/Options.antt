-- ===== src/Gntp/Notifier/Options.antt =====
-- The options of a registration.
use go_notify.Base.{
  ◌≡◌, ◌⊎◌, inl, inr, refl, some, none, [], Bool, true, false, arith, Bytes, codes, Option-cases,
}
use go_notify.Base.Int.{ℤ, pos, negsuc, ◌≤ℤ◌}
use go_notify.Dict.{lookup}
use go_notify.Go.Value.{
  string, bool, int, int8, int16, int32, int64, uint, uint8, uint16, uint32, uint64, number_of,
}
use go_notify.Gntp.Buffer.{Any}
use go_notify.Gntp.Request.{Notification}
use go_notify.Gntp.Notifier.{
  Checked, accepted, refused, ◌>>=◌, Options, event_of, as_string, as_bool, as_int, option_or,
}

-- The value of a key is the one given, where it stands for it, or the default.
abbrev pub Given : {A : Type 0} → (Any → A → Type 0) → Bytes → A → Options → A → Type 0
Given Stands k default opts a =
    ((lookup k opts ≡ none) × (a ≡ default)) ⊎ ((v : Any) × (lookup k opts ≡ some v) × Stands v a)

-- An `int` of any size, or another integer in the range of an int32.
abbrev pub IsPriority : Any → ℤ → Type 0
IsPriority v z =
    (number_of v ≡ some z) × ((v ≡ int z) ⊎ ((negsuc 0x7fffffff ≤ℤ z) × (z ≤ℤ pos 0x7fffffff)))

pub record Described (event : Bytes) (icon : Any) (opts : Options) (n : Notification) : Type 0 where
  pub name_is : n.name ≡ event
  pub icon_is : n.icon_value ≡ icon
  pub display_name_is :
      Given (λ v s. v ≡ string s) (codes "gntp:display-name") [] opts n.display_name
  pub enabled_is : Given (λ v b. v ≡ bool b) (codes "gntp:enabled") true opts n.enabled
  pub sticky_is : Given (λ v b. v ≡ bool b) (codes "gntp:sticky") false opts n.sticky
  pub priority_is : Given IsPriority (codes "gntp:priority") (pos 0) opts n.priority

accepted-injective : {A : Type 0} {a b : A} → accepted a ≡ accepted b → a ≡ b
accepted-injective e = cc

bind-eq-accepted :
    {A C : Type 0} (m : Checked A) (f : A → Checked C) {c : C}
    → m >>= f ≡ accepted c
    → (a : A) × (f a ≡ accepted c) × (m ≡ accepted a)
bind-eq-accepted (refused r) f e = cc
bind-eq-accepted (accepted a) f e = (a, e, refl)

option_or-Given :
    {A : Type 0} (Stands : Any → A → Type 0) (f : Bytes → Any → Checked A) (k : Bytes) (default : A)
    (opts : Options) {a : A}
    → ((v : Any) (b : A) → f k v ≡ accepted b → Stands v b)
    → option_or f k default opts ≡ accepted a
    → Given Stands k default opts a
unfolding option_or
option_or-Given Stands f k default opts h e = elim (Option-cases (lookup k opts)) [
  | inl missing ↦ let e1 = rw (missing, option_or) at e in inl (missing, cc)
  | inr (v, found) ↦ let e1 = rw (found, option_or) at e in inr (v, found, h v _ e1)
]

as_string-Stands : (k : Bytes) (v : Any) (s : Bytes) → as_string k v ≡ accepted s → v ≡ string s
unfolding as_string
as_string-Stands k (string t) s e = cc
as_string-Stands k _ s e = cc

as_bool-Stands : (k : Bytes) (v : Any) (b : Bool) → as_bool k v ≡ accepted b → v ≡ bool b
unfolding as_bool
as_bool-Stands k (bool t) b e = cc
as_bool-Stands k _ b e = cc

as_int-IsPriority : (k : Bytes) (v : Any) (z : ℤ) → as_int k v ≡ accepted z → IsPriority v z
unfolding as_int number_of
as_int-IsPriority k (int v) z e = let same : v ≡ z = cc in (cc, inl cc)
as_int-IsPriority k (int8 v) z e = ground arith
as_int-IsPriority k (int16 v) z e = ground arith
as_int-IsPriority k (int32 v) z e = ground arith
as_int-IsPriority k (int64 v) z e = ground arith
as_int-IsPriority k (uint v) z e = ground arith
as_int-IsPriority k (uint8 v) z e = ground arith
as_int-IsPriority k (uint16 v) z e = ground arith
as_int-IsPriority k (uint32 v) z e = ground arith
as_int-IsPriority k (uint64 v) z e = ground arith
as_int-IsPriority k _ z e = cc

-- Where the options are accepted, each field of the event that is registered is the value given
-- under its key, of the type that the key wants, or the default where the key is missing; a
-- priority keeps its number, which is in the range of an int32 unless it is given as an int.
pub event_of-Described :
    (event : Bytes) (icon : Any) (opts : Options) (n : Notification)
    → event_of event icon opts ≡ accepted n
    → Described event icon opts n
unfolding event_of
event_of-Described event icon opts n e =
    let (d, e1, ed) =
      bind-eq-accepted (option_or as_string (codes "gntp:display-name") [] opts) _ e in
    let (b, e2, eb) = bind-eq-accepted (option_or as_bool (codes "gntp:enabled") true opts) _ e1 in
    let (s, e3, es) = bind-eq-accepted (option_or as_bool (codes "gntp:sticky") false opts) _ e2 in
    let (p, e4, ep) =
      bind-eq-accepted (option_or as_int (codes "gntp:priority") (pos 0) opts) _ e3 in
    rw (← accepted-injective e4) (record {
      name_is = refl;
      icon_is = refl;
      display_name_is =
          option_or-Given (λ v s. v ≡ string s) as_string _ _ opts (as_string-Stands _) ed;
      enabled_is = option_or-Given (λ v b. v ≡ bool b) as_bool _ _ opts (as_bool-Stands _) eb;
      sticky_is = option_or-Given (λ v b. v ≡ bool b) as_bool _ _ opts (as_bool-Stands _) es;
      priority_is = option_or-Given IsPriority as_int _ _ opts (as_int-IsPriority _) ep;
    })

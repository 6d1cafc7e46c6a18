-- ===== src/Windows/Notifier.antt =====
-- The notifier of windows/impl_windows.go over its icon: the table of events.
pub mod Icons
pub mod Events
use go_notify.Base.{
  ℕ, Bool, true, false, List, Option, none, some, leb, if◌then◌else◌, [], Bytes, codes,
}
use go_notify.Base.Int.{ℤ, pos, negsuc}
use go_notify.Dict.{insert, lookup}
use go_notify.Go.Image.{Image}
use go_notify.Go.Value.{
  Value, nil, bool, image, ext, int, int8, int16, int32, int64, uint, uint8, uint16, uint32, uint64,
}
use go_notify.Util.Convert.{Draw, convert}
use go_notify.Windows.Data.{IconType, icon_none, icon_user, System}
use go_notify.Windows.Icon.{NotifyIcon, Notification, Fault}
use go_notify.Windows.Icon

-- The types of windows/ that an `interface{}` may hold; an `*Icon` has a handle or is nil.
pub data Extra : Type 0 where
  icon_type : IconType → Extra
  icon_pointer : Option ℕ → Extra

abbrev pub Any : Type 0
Any = Value Extra

abbrev pub Options : Type 0
Options = List (Bytes × Any)

-- `draw.Draw`, the calls of GDI in `LoadImage`, and those of Win32 in `LoadIcon`; `none` is an error.
pub record Loader : Type 0 where
  pub draw : Draw
  pub create_icon : Image → Option ℕ
  pub load_icon : ℕ → Option ℕ

-- The errors of a registration.
pub data Refusal : Type 0 where
  load_failed unsupported_icon : Refusal
  expects_icon_type expects_bool : Bytes → Refusal

pub data Checked (A : Type 0) : Type 0 where
  accepted : A → Checked A
  refused : Refusal → Checked A

infixl 5 ◌>>=◌
abbrev pub ◌>>=◌ : {A C : Type 0} → Checked A → (A → Checked C) → Checked C
refused r >>= f = refused r
accepted a >>= f = f a

-- `LoadImage`: the image is converted, and then drawn pixel by pixel.
created : Loader → Option Image → Option ℕ
created l none = none
created l (some img) = l.create_icon img

pub load_image : Loader → Image → Option ℕ
unfolding created convert
load_image l img = created l (convert l.draw img)

pointed : Option ℕ → Checked Any
pointed none = refused load_failed
pointed (some h) = accepted (ext (icon_pointer (some h)))

-- `loadIconU` and `loadIconI`; a number out of range stays what it is.
load_icon_u : Loader → ℕ → Checked Any
unfolding pointed
load_icon_u l u = if leb u 0xffff then pointed (l.load_icon u) else accepted (uint64 u)

load_icon_i : Loader → ℤ → Checked Any
unfolding pointed
load_icon_i l (negsuc n) = accepted (int64 (negsuc n))
load_icon_i l (pos n) = if leb n 0xffff then pointed (l.load_icon n) else accepted (int64 (pos n))

-- The first `switch` of `Register`.
unfoldable pub loaded : Loader → Any → Checked Any
unfolding pointed load_image load_icon_u load_icon_i
loaded l (image img) = pointed (load_image l img)
loaded l (int v) = load_icon_i l v
loaded l (int8 v) = load_icon_i l v
loaded l (int16 v) = load_icon_i l v
loaded l (int32 v) = load_icon_i l v
loaded l (int64 v) = load_icon_i l v
loaded l (uint v) = load_icon_u l v
loaded l (uint8 v) = load_icon_u l v
loaded l (uint16 v) = load_icon_u l v
loaded l (uint32 v) = load_icon_u l v
loaded l (uint64 v) = load_icon_u l v
loaded l v = accepted v

-- `&Notification{Sound: true}`.
abbrev pub blank : Notification
blank = record { title = []; body = []; icon_type = icon_none; icon = none; sound = true }

-- The fallback for an `*Icon` on an older shell.
fallback : Option Any → Checked Notification
fallback none = accepted blank
fallback (some (ext (icon_type t))) = accepted (record blank { icon_type = t })
fallback (some v) = refused (expects_icon_type (codes "windows:fallback-icon"))

with_pointer : Bool → Options → Option ℕ → Checked Notification
unfolding fallback
with_pointer true opts h = accepted (record blank { icon = h; icon_type = icon_user })
with_pointer false opts h = fallback (lookup (codes "windows:fallback-icon") opts)

-- The second `switch`.
unfoldable pub with_icon : System → Options → Any → Checked Notification
unfolding with_pointer
with_icon c opts nil = accepted blank
with_icon c opts (ext (icon_type t)) = accepted (record blank { icon_type = t })
with_icon c opts (ext (icon_pointer h)) = with_pointer (c.shell_version 6 0 6) opts h
with_icon c opts v = refused unsupported_icon

sounded : Bool → Option Any → Notification → Checked Notification
sounded xp none n = accepted n
sounded xp (some (bool b)) n = accepted (record n { sound = if xp then b else true })
sounded xp (some v) n = refused (expects_bool (codes "windows:sound"))

unfoldable pub event_of : System → Loader → Any → Options → Checked Notification
unfolding loaded with_icon sounded
event_of c l icon opts = do
  v ← loaded l icon
  n ← with_icon c opts v
  sounded (c.shell_version 6 0 0) (lookup (codes "windows:sound") opts) n

-- The map `ev`, in the order of one iteration over it.
abbrev pub Events : Type 0
Events = List (Bytes × Notification)

pub data Reply : Type 0 where
  registered unknown_event : Reply
  rejects : Refusal → Reply
  notified : Option Fault → Reply

enter : Bytes → Checked Notification → Events → Events × Reply
enter event (accepted n) evs = (insert event n evs, registered)
enter event (refused r) evs = (evs, rejects r)

unfoldable pub register : System → Loader → Bytes → Any → Options → Events → Events × Reply
unfolding event_of enter
register c l event icon opts evs = enter event (event_of c l icon opts) evs

shown_by : System → NotifyIcon → Notification → Reply × NotifyIcon
unfolding Icon.notify
shown_by c ni n = let (f, after) = Icon.notify c n ni in (notified f, after)

unfoldable pub notify : System → Bytes → Bytes → Bytes → Events → NotifyIcon → Reply × NotifyIcon
unfolding shown_by
notify c event title body evs ni = elim (lookup event evs) [
  | none ↦ (unknown_event, ni)
  | some n ↦ shown_by c ni (record n { title = title; body = body })
]

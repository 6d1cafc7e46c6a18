-- ===== src/Freedesktop/Types.antt =====
-- The data of freedesktop/notify.go.
use go_notify.Base.{ℕ, Bool, List, ◌++◌, Bytes, codes}
use go_notify.Base.Int.{ℤ}
use go_notify.Go.Value.{Value}

-- `Reason` is a `uint32`.
pub record NotificationClosed : Type 0 where
  pub id : ℕ
  pub reason : ℕ

pub record ActionInvoked : Type 0 where
  pub id : ℕ
  pub key : Bytes

pub record ImageData : Type 0 where
  pub width : ℤ
  pub height : ℤ
  pub stride : ℤ
  pub alpha : Bool
  pub bits_per_sample : ℤ
  pub num_channels : ℤ
  pub pixels : Bytes

-- The types that this package adds to `interface{}`; `other` is any type that no case names.
pub data Extra : Type 0 where
  image_data image_data_pointer : ImageData → Extra
  other : Bytes → Extra

abbrev pub Any : Type 0
Any = Value Extra

-- What the client reads of a `dbus.Signal`.
pub record Signal : Type 0 where
  pub path : Bytes
  pub name : Bytes
  pub body : List Any

abbrev pub path : Bytes
path = codes "/org/freedesktop/Notifications"

abbrev pub iface : Bytes
iface = codes "org.freedesktop.Notifications"

abbrev pub notification_closed : Bytes
notification_closed = iface ++ codes ".NotificationClosed"

abbrev pub action_invoked : Bytes
action_invoked = iface ++ codes ".ActionInvoked"

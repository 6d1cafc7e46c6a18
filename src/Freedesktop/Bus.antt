-- ===== src/Freedesktop/Bus.antt =====
-- What freedesktop/notify.go uses of the package dbus: a connection whose answers may depend on
-- everything that was done on it before.
use go_notify.Base.{ℕ, Bool, List, [], ◌∷◌, ◌++◌, Option, Bytes}
use go_notify.Base.Int.{ℤ}
use go_notify.Freedesktop.Types.{Any}

-- `conn.BusObject()` and `conn.Object(iface, path)`.
pub data Object : Type 0 where
  bus server : Object

-- An argument of a call, by its type on the wire.
pub data Arg : Type 0 where
  uint32_arg : ℕ → Arg
  int32_arg : ℤ → Arg
  string_arg : Bytes → Arg
  strings_arg : List Bytes → Arg
  variants_arg : List (Bytes × Any) → Arg

pub record Call : Type 0 where
  pub object : Object
  pub method : Bytes
  pub args : List Arg

pub data Action : Type 0 where
  call : Call → Action
  -- `conn.Signal(c.c)` and `conn.Close()`
  signal_channel close_connection : Action

abbrev pub History : Type 0
History = List Action

-- `ServerInfo` of notify.go.
pub record ServerInfo : Type 0 where
  pub name : Bytes
  pub vendor : Bytes
  pub version : Bytes
  pub spec_version : Bytes

-- The errors that dbus gives.
abbrev pub Error : Type 0
Error = Bytes

-- What `Call` leaves in `Call.Err` and `Call.Body`.
pub record Answer : Type 0 where
  pub err : Option Error
  pub body : List Any

-- The package, as a parameter. `has_type` tells whether a value has a type of D-Bus: `MakeVariant`
-- panics on one that has none, such as nil. `Store` may have stored some of the values when it fails.
pub record Bus : Type 0 where
  pub session_bus : Option Error
  pub answer : History → Call → Answer
  pub close : History → Option Error
  pub has_type : Any → Bool
  pub store_id : List Any → ℕ × Option Error
  pub store_caps : List Any → List Bytes × Option Error
  pub store_info : List Any → ServerInfo × Option Error

-- `obj.Call(method, 0, args...)`.
unfoldable pub invoke : Bus → Object → Bytes → List Arg → History → Answer × History
invoke b o m xs h =
    let c : Call = record { object = o; method = m; args = xs } in (b.answer h c, h ++ call c ∷ [])

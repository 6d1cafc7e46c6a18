-- ===== src/Windows/Data.antt =====
-- `sys.NotifyIconData` and what windows/notify_windows.go hands to the system with it. A flag of a
-- word of flags is a field; `ID`, `State` and `StateMask`, which stay zero, are left out.
use go_notify.Base.{ℕ, Bool, false, List, ◌++◌, Option, length, take, drop, replicate, Bytes}
use go_notify.Windows.Guid.{Guid}

-- `IconType` is a `uint8`; `other_type` is any value without a constant.
pub data IconType : Type 0 where
  icon_none icon_info icon_warn icon_error icon_user : IconType
  other_type : ℕ → IconType

-- `Flags`: the NIF flags.
pub record Flags : Type 0 where
  pub message : Bool
  pub icon : Bool
  pub tip : Bool
  pub info : Bool
  pub guid : Bool
  pub show_tip : Bool

-- `uint32` of an icon's type.
unfoldable pub type_bits : IconType → ℕ
type_bits icon_none = 0
type_bits icon_info = 1
type_bits icon_warn = 2
type_bits icon_error = 3
type_bits icon_user = 4
type_bits (other_type t) = t

-- `InfoFlags`: the NIIF flags, and the four low bits, NIIF_ICON_MASK, where the icon's type goes.
pub record InfoFlags : Type 0 where
  pub icon_type : ℕ
  pub no_sound : Bool
  pub large_icon : Bool
  pub respect_quiet_time : Bool

-- `Size`: the whole structure, or the part of it that a version of the shell knows.
pub data Size : Type 0 where
  size_v1 size_v2 size_v3 size_full : Size

-- Handles are numbers, and 0 is none. The texts are arrays of UTF-16 units.
pub record Data : Type 0 where
  pub size : Size
  pub wnd : ℕ
  pub flags : Flags
  pub callback_message : ℕ
  pub icon : ℕ
  pub tip : List ℕ
  pub info : List ℕ
  pub version : ℕ
  pub info_title : List ℕ
  pub info_flags : InfoFlags
  pub guid_item : Guid
  pub balloon_icon : ℕ

abbrev pub zero_guid : Guid
zero_guid = record { data1 = 0; data2 = 0; data3 = 0; data4 = replicate 8 0 }

-- The structure of zeros.
abbrev pub zero_data : Data
zero_data = record {
  size = size_v1;
  wnd = 0;
  flags = record {
    message = false;
    icon = false;
    tip = false;
    info = false;
    guid = false;
    show_tip = false;
  };
  callback_message = 0;
  icon = 0;
  tip = replicate 128 0;
  info = replicate 256 0;
  version = 0;
  info_title = replicate 64 0;
  info_flags = record {
    icon_type = 0;
    no_sound = false;
    large_icon = false;
    respect_quiet_time = false;
  };
  guid_item = zero_guid;
  balloon_icon = 0;
}

-- `copy(dst[:], src)`.
unfoldable pub copy : List ℕ → List ℕ → List ℕ
copy dst src = take (length dst) src ++ drop (length src) dst

-- The messages of `Shell_NotifyIcon`.
pub data Message : Type 0 where
  nim_add nim_modify nim_delete nim_set_version : Message

pub record Call : Type 0 where
  pub message : Message
  pub icon_data : Data

-- What the system and golang.org/x/sys are asked: the version of the shell's library and of Windows,
-- `UTF16FromString`, with `none` for its error, and whether a call of `Shell_NotifyIcon` succeeds
-- after those that were made before.
pub record System : Type 0 where
  pub shell_version : ℕ → ℕ → ℕ → Bool
  pub windows7 : Bool
  pub xp_sp2 : Bool
  pub utf16 : Bytes → Option (List ℕ)
  pub notify_icon : List Call → Call → Bool

-- ===== src/Windows/Icon.antt =====
-- `NotifyIcon` of windows/notify_windows.go: `New`, `prepare`, `Add`, `Modify` and `Notify`.
pub mod Kept
pub mod Balloon
pub mod Guards
pub mod Fresh
pub mod Texts
use go_notify.Base.{
  ℕ, Bool, true, false, List, [], ◌∷◌, ◌++◌, Option, none, some, ◌==◌, Bytes, codes,
}
use Prim.Native.Nat.{bit_or}
use go_notify.Windows.Guid.{Guid, parse}
use go_notify.Windows.Data.{
  IconType, icon_user, other_type, size_v1, size_v2, size_v3, size_full, Data, zero_guid, zero_data,
  copy, type_bits, Message, nim_add, nim_modify, nim_set_version, Call, System,
}

-- The errors: a `VersionError`, `ErrGUID`, `ErrIcon`, and those of `UTF16FromString` and of
-- `Shell_NotifyIcon`.
pub data Fault : Type 0 where
  version_error : Bytes → Fault
  guid_error icon_error_ text_error call_error : Fault

pub data Checked (A : Type 0) : Type 0 where
  fine : A → Checked A
  fault : Fault → Checked A

infixl 5 ◌>>=◌ ◌>>◌
abbrev pub ◌>>=◌ : {A C : Type 0} → Checked A → (A → Checked C) → Checked C
fault e >>= f = fault e
fine a >>= f = f a

abbrev pub require : Bool → Fault → Checked (Unit {0})
require true e = fine tt
require false e = fault e

abbrev pub ◌>>◌ : {C : Type 0} → Checked (Unit {0}) → Checked C → Checked C
c >> d = c >>= λ u. d

-- The fields that the caller sets, and those that the methods keep; `calls` are the calls of
-- `Shell_NotifyIcon` so far.
pub record NotifyIcon : Type 0 where
  pub icon : Option ℕ
  pub guid : Bytes
  pub icon_data : Data
  pub added : Bool
  pub calls : List Call

pub record Notification : Type 0 where
  pub title : Bytes
  pub body : Bytes
  pub icon_type : IconType
  pub icon : Option ℕ
  pub sound : Bool

-- The version of the shell in `New`: 6.0.6, 6.0.0 or 5.0.0 or greater, and Windows 7.
versioned_by : Bool → Bool → Bool → Bool → Data → Data
versioned_by true b c seven d = record d {
  size = size_full;
  flags = record d.flags { show_tip = true };
  version = 4;
  info_flags = record d.info_flags { large_icon = true; respect_quiet_time = seven };
}
versioned_by false true c seven d = record d { size = size_v3; version = 3 }
versioned_by false false true seven d = record d { size = size_v2; version = 3 }
versioned_by false false false seven d = record d { size = size_v1 }

versioned : System → Data → Data
unfolding versioned_by
versioned c d =
    versioned_by (c.shell_version 6 0 6) (c.shell_version 6 0 0) (c.shell_version 5 0 0) c.windows7
      d

text_of : System → Bytes → Checked (List ℕ)
text_of c s = elim (c.utf16 s) [ none ↦ fault text_error | some u ↦ fine u ]

-- `New` up to its goroutines.
unfoldable pub new_data : System → Bytes → Checked Data
unfolding versioned text_of copy
new_data c name = do
  u ← text_of c name
  let d = versioned c zero_data
  fine (record d {
    flags = record d.flags { message = true; tip = true };
    callback_message = 0x400;
    tip = copy d.tip u;
  })

in_window : Data → Option ℕ → Checked NotifyIcon
in_window d none = fault call_error
in_window d (some w) =
    fine (record {
      icon = none;
      guid = [];
      icon_data = record d { wnd = w };
      added = false;
      calls = [];
    })

-- `New`: `wnd` is the window that `message` creates, with `none` for its error.
unfoldable pub new_icon : System → Bytes → Option ℕ → Checked NotifyIcon
unfolding new_data in_window
new_icon c name wnd = new_data c name >>= λ d. in_window d wnd

-- Whether a flag that is on is switched off, with what it stands for.
without_icon : Bool → Data → Data
without_icon true d = record d { flags = record d.flags { icon = false }; icon = 0 }
without_icon false d = d

without_guid : Bool → Data → Data
without_guid true d = record d { flags = record d.flags { guid = false }; guid_item = zero_guid }
without_guid false d = d

-- The two cases of `prepare`.
with_icon : Option ℕ → Data → Data
unfolding without_icon
with_icon (some h) d = record d { flags = record d.flags { icon = true }; icon = h }
with_icon none d = without_icon d.flags.icon d

guided : Data → Option Guid → Checked Data
guided d none = fault guid_error
guided d (some g) = fine (record d { flags = record d.flags { guid = true }; guid_item = g })

with_guid : System → Bytes → Data → Checked Data
unfolding without_guid guided parse
with_guid c [] d = fine (without_guid d.flags.guid d)
with_guid c (x ∷ g) d = require c.windows7 (version_error (codes "7")) >> guided d (parse (x ∷ g))

-- Where the GUID is refused, the data keep what the icon has changed.
kept : Data → Checked Data → Option Fault × Data
kept d (fine e) = (none, e)
kept d (fault f) = (some f, d)

unfoldable pub prepare : System → NotifyIcon → Option Fault × NotifyIcon
unfolding kept with_icon with_guid
prepare c ni =
    let d = with_icon ni.icon ni.icon_data in
    let (f, e) = kept d (with_guid c ni.guid d) in (f, record ni { icon_data = e })

-- `sys.Shell_NotifyIcon`.
unfoldable pub shell_notify_icon : System → Message → Data → NotifyIcon → Bool × NotifyIcon
shell_notify_icon c m d ni =
    let call : Call = record { message = m; icon_data = d } in
    (c.notify_icon ni.calls call, record ni { calls = ni.calls ++ call ∷ [] })

unfoldable pub call_result : Bool → Option Fault
call_result true = none
call_result false = some call_error

-- `if data.Version != 0` in `add`.
unless_zero : Bool → System → Data → NotifyIcon → NotifyIcon
unfolding shell_notify_icon
unless_zero true c d ni = ni
unless_zero false c d ni = (shell_notify_icon c nim_set_version d ni).1

-- What `add` does behind NIM_ADD.
after_add : Bool → System → Data → NotifyIcon → Option Fault × NotifyIcon
unfolding unless_zero
after_add false c d ni = (some call_error, ni)
after_add true c d ni = (none, record (unless_zero (d.version == 0) c d ni) { added = true })

unfoldable pub add : System → Data → NotifyIcon → Option Fault × NotifyIcon
unfolding shell_notify_icon after_add
add c d ni = let (done, after) = shell_notify_icon c nim_add d ni in after_add done c d after

modify_with : System → Data → NotifyIcon → Option Fault × NotifyIcon
unfolding shell_notify_icon call_result
modify_with c d ni =
    let (done, after) = shell_notify_icon c nim_modify d ni in (call_result done, after)

-- A step behind `prepare`.
prepared :
    Option Fault × NotifyIcon → (NotifyIcon → Option Fault × NotifyIcon) → Option Fault × NotifyIcon
prepared (some f, ni) k = (some f, ni)
prepared (none, ni) k = k ni

-- `Add` and `Modify`.
unfoldable pub add_icon : System → NotifyIcon → Option Fault × NotifyIcon
unfolding prepare prepared add
add_icon c ni = prepared (prepare c ni) (λ p. add c p.icon_data p)

unfoldable pub modify : System → NotifyIcon → Option Fault × NotifyIcon
unfolding prepare prepared modify_with
modify c ni = prepared (prepare c ni) (λ p. modify_with c p.icon_data p)

-- The texts of a notification.
with_texts : System → Notification → Data → Checked Data
unfolding text_of copy
with_texts c n d = do
  title ← text_of c n.title
  body ← text_of c n.body
  fine (record d {
    flags = record d.flags { info = true };
    info_title = copy d.info_title title;
    info = copy d.info body;
  })

-- `data.InfoFlags |= uint32(n.IconType)`, for a type that has a constant.
typed : IconType → Data → Data
unfolding type_bits
typed t d = record d {
  info_flags = record d.info_flags { icon_type = bit_or d.info_flags.icon_type (type_bits t) };
}

with_balloon_icon : System → Option ℕ → Data → Checked Data
with_balloon_icon c none d = fine d
with_balloon_icon c (some h) d =
    require (c.shell_version 6 0 6) (version_error (codes "Vista"))
    >> fine (record d { balloon_icon = h })

with_type : System → IconType → Option ℕ → Data → Checked Data
unfolding typed with_balloon_icon
with_type c icon_user h d =
    require c.xp_sp2 (version_error (codes "XP SP2")) >> with_balloon_icon c h (typed icon_user d)
with_type c (other_type t) h d = fault icon_error_
with_type c t h d = fine (typed t d)

with_sound : System → Bool → Data → Checked Data
with_sound c true d = fine d
with_sound c false d =
    require (c.shell_version 6 0 0) (version_error (codes "XP"))
    >> fine (record d { info_flags = record d.info_flags { no_sound = true } })

-- The copy of the data that `Notify` hands to the system.
unfoldable pub notify_data : System → Notification → Data → Checked Data
unfolding with_texts with_type with_sound
notify_data c n d = do
  d ← with_texts c n d
  d ← with_type c n.icon_type n.icon d
  with_sound c n.sound d

-- `if atomic.LoadInt32(&ni.added) == 0`.
show_by : Bool → System → NotifyIcon → Data → Option Fault × NotifyIcon
unfolding add modify_with
show_by true c ni d = modify_with c d ni
show_by false c ni d = add c d ni

show : System → NotifyIcon → Checked Data → Option Fault × NotifyIcon
unfolding show_by
show c ni (fault f) = (some f, ni)
show c ni (fine d) = show_by ni.added c ni d

unfoldable pub notify : System → Notification → NotifyIcon → Option Fault × NotifyIcon
unfolding prepare prepared notify_data show
notify c n ni = prepared (prepare c ni) (λ p. show c p (notify_data c n p.icon_data))

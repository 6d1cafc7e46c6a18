-- ===== src/Freedesktop/Client.antt =====
-- The methods of `Client` in freedesktop/notify.go that call the notification server.
pub mod Names
pub mod Delivery
use go_notify.Base.{ℕ, List, [], ◌∷◌, Option, none, some, if◌then◌else◌, ◌==◌, Bytes, codes}
use go_notify.Base.Int.{ℤ}
use go_notify.Dict.{insert}
use go_notify.Go.Scan.{scan_version}
use go_notify.Freedesktop.Types.{Any}
use go_notify.Freedesktop.Bus.{
  server, uint32_arg, int32_arg, string_arg, strings_arg, variants_arg, History, ServerInfo, Error,
  Answer, Bus, invoke,
}
use go_notify.Freedesktop.Notification.{sent_key}
use go_notify.Freedesktop.Notifier.{Notification}

abbrev pub close_notification_method : Bytes
close_notification_method = codes "org.freedesktop.Notifications.CloseNotification"

abbrev pub get_capabilities_method : Bytes
get_capabilities_method = codes "org.freedesktop.Notifications.GetCapabilities"

abbrev pub get_server_information_method : Bytes
get_server_information_method = codes "org.freedesktop.Notifications.GetServerInformation"

abbrev pub notify_method : Bytes
notify_method = codes "org.freedesktop.Notifications.Notify"

unfoldable pub close_notification : Bus → ℕ → History → Option Error × History
unfolding invoke
close_notification b id h =
    let (a, h') = invoke b server close_notification_method (uint32_arg id ∷ []) h in (a.err, h')

-- The results of a call and of `Store`: `zero` is what the variables hold before.
stored : {A : Type 0} → A → (List Any → A × Option Error) → Answer → A × Option Error
stored zero store a = elim a.err [ none ↦ store a.body | some e ↦ (zero, some e) ]

unfoldable pub get_capabilities : Bus → History → (List Bytes × Option Error) × History
unfolding invoke stored
get_capabilities b h =
    let (a, h') = invoke b server get_capabilities_method [] h in (stored [] b.store_caps a, h')

abbrev pub no_info : ServerInfo
no_info = record { name = []; vendor = []; version = []; spec_version = [] }

unfoldable pub get_server_information : Bus → History → (ServerInfo × Option Error) × History
unfolding invoke stored
get_server_information b h =
    let (a, h') = invoke b server get_server_information_method [] h in
    (stored no_info b.store_info a, h')

-- The errors of `Notify`: one of dbus, or that the version of the server is not `major.minor`.
pub data Failure : Type 0 where
  dbus : Error → Failure
  scan : Failure

-- The loop over the hints; `none` is a panic of `MakeVariant`.
unfoldable pub renamed :
    Bus → ℤ → ℤ → List (Bytes × Any) → List (Bytes × Any) → Option (List (Bytes × Any))
renamed b major minor [] sent = some sent
renamed b major minor ((k, v) ∷ hs) sent =
    let rest = renamed b major minor hs (insert (sent_key major minor k) v sent) in
    if b.has_type v then rest else none

failed : Option Error → Option Failure
failed none = none
failed (some e) = some (dbus e)

-- The call of Notify, with the hints under the names of the server.
unfoldable pub call_notify :
    Bus → Notification → List (Bytes × Any) → History → (ℕ × Option Failure) × History
unfolding invoke stored failed
call_notify b n hints h =
    let args =
      string_arg n.name
      ∷ uint32_arg n.id
      ∷ string_arg n.icon
      ∷ string_arg n.summary
      ∷ string_arg n.body
      ∷ strings_arg n.actions
      ∷ variants_arg hints
      ∷ int32_arg n.timeout
      ∷ [] in
    let (a, h') = invoke b server notify_method args h in
    let (id, e) = stored 0 b.store_id a in ((id, failed e), h')

-- What `Notify` comes to: its two results, or a panic.
pub data Outcome : Type 0 where
  returned : ℕ → Option Failure → Outcome
  panicked : Outcome

sent_as : Bus → Notification → Option (List (Bytes × Any)) → History → Outcome × History
unfolding call_notify
sent_as b n none h = (panicked, h)
sent_as b n (some hints) h = let ((id, e), h') = call_notify b n hints h in (returned id e, h')

versioned : Bus → Notification → Option (ℤ × ℤ) → History → Outcome × History
unfolding sent_as renamed
versioned b n none h = (returned 0 (some scan), h)
versioned b n (some (major, minor)) h = sent_as b n (renamed b major minor n.hints []) h

informed : Bus → Notification → ServerInfo × Option Error → History → Outcome × History
unfolding versioned scan_version
informed b n (si, some e) h = (returned 0 (some (dbus e)), h)
informed b n (si, none) h = versioned b n (scan_version si.spec_version) h

notify_with : Bus → Notification → List (Bytes × Any) → History → Outcome × History
unfolding sent_as informed get_server_information
notify_with b n [] h = sent_as b n (some []) h
notify_with b n (_ ∷ _) h = let (r, h') = get_server_information b h in informed b n r h'

-- `Notify`; the hints in the order of one iteration.
unfoldable pub notify : Bus → Notification → History → Outcome × History
unfolding notify_with
notify b n h = notify_with b n n.hints h

-- `Reason.String`.
unfoldable pub reason_string : ℕ → Bytes
reason_string r =
    if r == 1
    then codes "the notification expired"
    else if r == 2
    then codes "the notification was dismissed by the user"
    else if r == 3
    then codes "the notification was closed by a call to CloseNotification"
    else codes "undefined/reserved reasons"

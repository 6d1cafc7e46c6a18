-- ===== src/Gntp/Request.antt =====
-- The bodies of the REGISTER and NOTIFY requests: `Client.Register` and `Client.Notify` of
-- gntp/gntp.go up to the call of `send`.
pub mod Traverse
pub mod Lines
use go_notify.Base.{zero, Bool, true, false, List, [], ◌∷◌, length, Bytes, codes}
use go_notify.Base.Int.{ℤ}
use go_notify.Gntp.Crypto.{HashAlgorithm}
use go_notify.Base.Int.{pos}
use go_notify.Go.Value.{string, int, Entries, end, entry}
use go_notify.Go.Mime.{canonical_key}
use go_notify.Gntp.Buffer.{Any, Platform, B, ◌>>=◌, ◌>>◌, return, crlf, header, icon, resource}

pub record Notification : Type 0 where
  pub name : Bytes
  pub display_name : Bytes
  pub enabled : Bool
  pub id : Bytes
  pub title : Bytes
  pub text : Bytes
  pub sticky : Bool
  pub priority : ℤ
  pub icon_value : Any
  pub coalescing_id : Bytes
  pub callback_context : Bytes
  pub callback_context_type : Bytes
  pub callback_target : Bytes

-- The fields of `Client` that a request's body reads; `headers` is the map `Header` in the order of
-- one iteration.
pub record Client : Type 0 where
  pub name : Bytes
  pub icon_value : Any
  pub hash_alg : HashAlgorithm
  pub headers : Entries Bytes

-- `if s != "" { b.Header(k, s) }`.
header_if : Platform → Bytes → Bytes → B (Unit {0})
header_if p k [] = return tt
header_if p k (x ∷ s) = header p k (string (x ∷ s))

flag_if : Platform → Bytes → Bool → B (Unit {0})
flag_if p k true = header p k (string (codes "True"))
flag_if p k false = return tt

-- `if n.Priority != 0 { b.Header("Notification-Priority", n.Priority) }`.
priority_if : Platform → ℤ → B (Unit {0})
priority_if p (pos zero) = return tt
priority_if p z = header p (codes "Notification-Priority") (int z)

icon_if : Platform → Bytes → HashAlgorithm → Any → B (Unit {0})
unfolding header_if
icon_if p k h v = do id ← icon p h v; header_if p k id

-- A value that is a resource is replaced by its identifier.
custom_value : Any → Bytes → Any
custom_value v [] = v
custom_value v (x ∷ id) = string (x ∷ id)

custom_headers : Platform → HashAlgorithm → Entries Bytes → B (Unit {0})
unfolding custom_value
custom_headers p h end = return tt
custom_headers p h (entry k v rest) = do
  id ← resource p h v
  header p (canonical_key k) (custom_value v id)
  custom_headers p h rest

register_one : Platform → HashAlgorithm → Notification → B (Unit {0})
unfolding header_if flag_if icon_if
register_one p h n = do
  crlf
  header p (codes "Notification-Name") (string n.name)
  header_if p (codes "Notification-Display-Name") n.display_name
  flag_if p (codes "Notification-Enabled") n.enabled
  icon_if p (codes "Notification-Icon") h n.icon_value

register_all : Platform → HashAlgorithm → List Notification → B (Unit {0})
unfolding register_one
register_all p h [] = return tt
register_all p h (n ∷ ns) = do register_one p h n; register_all p h ns

unfoldable pub register : Platform → Client → List Notification → B (Unit {0})
unfolding header_if icon_if custom_headers register_all
register p c ns = do
  header p (codes "Application-Name") (string c.name)
  icon_if p (codes "Application-Icon") c.hash_alg c.icon_value
  header p (codes "Notifications-Count") (int (pos (length ns)))
  custom_headers p c.hash_alg c.headers
  register_all p c.hash_alg ns

callback_context_if : Platform → Notification → Bytes → B (Unit {0})
callback_context_if p n [] = return tt
callback_context_if p n (x ∷ s) = do
  header p (codes "Notification-Callback-Context") (string (x ∷ s))
  header p (codes "Notification-Callback-Context-Type") (string n.callback_context_type)

unfoldable pub notify : Platform → Client → Notification → B (Unit {0})
unfolding header_if flag_if priority_if icon_if callback_context_if custom_headers
notify p c n = do
  header p (codes "Application-Name") (string c.name)
  header p (codes "Notification-Name") (string n.name)
  header_if p (codes "Notification-ID") n.id
  header p (codes "Notification-Title") (string n.title)
  header p (codes "Notification-Text") (string n.text)
  flag_if p (codes "Notification-Sticky") n.sticky
  priority_if p n.priority
  icon_if p (codes "Notification-Icon") c.hash_alg n.icon_value
  header_if p (codes "Notification-Coalescing-ID") n.coalescing_id
  callback_context_if p n n.callback_context
  header_if p (codes "Notification-Callback-Target") n.callback_target
  custom_headers p c.hash_alg c.headers

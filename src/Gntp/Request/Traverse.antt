-- ===== src/Gntp/Request/Traverse.antt =====
-- The request bodies over any property of the buffer that their parts keep.
use go_notify.Base.{zero, suc, Bool, true, false, List, [], ◌∷◌, arith, length, Bytes, codes}
use go_notify.Base.Int.{ℤ, negsuc}
use go_notify.Gntp.Crypto.{HashAlgorithm}
use go_notify.Base.Int.{pos}
use go_notify.Go.Mime.{canonical_key}
use go_notify.Go.Strings.Cut.{Lacks}
use go_notify.Go.Value.{string, int, Entries, end, entry}
use go_notify.Gntp.Buffer.{Any, Platform, Buffer, crlf, header, icon, resource}
use go_notify.Gntp.Buffer.Preserves.{Preserves, Preserves-bind}
use go_notify.Gntp.Request.{
  Notification, Client, header_if, flag_if, priority_if, icon_if, custom_value, custom_headers,
  register_one, register_all, register, callback_context_if, notify,
}

-- The custom keys of the client as they are sent hold no "\r".
abbrev pub KeysLack : Entries Bytes → Type 0
KeysLack end = Unit
KeysLack (entry k v rest) = Lacks b'\r' (canonical_key k) × KeysLack rest

module _ (p : Platform) (P : Buffer → Type 0)
    (header-P : (k : Bytes) (v : Any) → Lacks b'\r' k → Preserves P (header p k v))
    (crlf-P : Preserves P crlf) (icon-P : (h : HashAlgorithm) (v : Any) → Preserves P (icon p h v))
    (resource-P : (h : HashAlgorithm) (v : Any) → Preserves P (resource p h v)) where
  header_if-P : (k s : Bytes) → Lacks b'\r' k → Preserves P (header_if p k s)
  unfolding header_if
  header_if-P k [] l = λ b h. h
  header_if-P k (x ∷ s) l = header-P k _ l

  flag_if-P : (k : Bytes) (f : Bool) → Lacks b'\r' k → Preserves P (flag_if p k f)
  unfolding flag_if
  flag_if-P k true l = header-P k _ l
  flag_if-P k false l = λ b h. h

  priority_if-P : (z : ℤ) → Preserves P (priority_if p z)
  unfolding priority_if
  priority_if-P (pos zero) = λ b h. h
  priority_if-P (pos (suc n)) = header-P _ _ (omega arith)
  priority_if-P (negsuc n) = header-P _ _ (omega arith)

  icon_if-P :
      (k : Bytes) (h : HashAlgorithm) (v : Any) → Lacks b'\r' k → Preserves P (icon_if p k h v)
  unfolding icon_if
  icon_if-P k h v l = Preserves-bind P (icon p h v) _ (icon-P h v) (λ id. header_if-P k id l)

  custom_headers-P :
      (h : HashAlgorithm) (es : Entries Bytes) → KeysLack es → Preserves P (custom_headers p h es)
  unfolding custom_headers
  custom_headers-P h end l = λ b v. v
  custom_headers-P h (entry k v rest) l = Preserves-bind P (resource p h v) _ (resource-P h v) λ id.
      Preserves-bind P (header p (canonical_key k) (custom_value v id)) _ (header-P _ _ l.0)
        λ _. custom_headers-P h rest l.1

  register_one-P : (h : HashAlgorithm) (n : Notification) → Preserves P (register_one p h n)
  unfolding register_one
  register_one-P h n = Preserves-bind P crlf _ crlf-P λ _.
      Preserves-bind P (header p (codes "Notification-Name") (string n.name)) _
        (header-P _ _ (omega arith))
        λ _.
          Preserves-bind P (header_if p (codes "Notification-Display-Name") n.display_name) _
            (header_if-P _ _ (omega arith))
            λ _.
              Preserves-bind P (flag_if p (codes "Notification-Enabled") n.enabled) _
                (flag_if-P _ _ (omega arith)) λ _. icon_if-P _ h n.icon_value (omega arith)

  register_all-P : (h : HashAlgorithm) (ns : List Notification) → Preserves P (register_all p h ns)
  unfolding register_all
  register_all-P h [] = λ b v. v
  register_all-P h (n ∷ ns) =
      Preserves-bind P (register_one p h n) _ (register_one-P h n) (λ _. register_all-P h ns)

  pub register-P :
      (c : Client) (ns : List Notification) → KeysLack c.headers → Preserves P (register p c ns)
  unfolding register
  register-P c ns l =
      Preserves-bind P (header p (codes "Application-Name") (string c.name)) _
        (header-P _ _ (omega arith))
        λ _.
          Preserves-bind P (icon_if p (codes "Application-Icon") c.hash_alg c.icon_value) _
            (icon_if-P _ _ _ (omega arith))
            λ _.
              Preserves-bind P (header p (codes "Notifications-Count") (int (pos (length ns)))) _
                (header-P _ _ (omega arith))
                λ _.
                  Preserves-bind P (custom_headers p c.hash_alg c.headers) _
                    (custom_headers-P _ _ l) λ _. register_all-P _ ns

  callback_context_if-P : (n : Notification) (s : Bytes) → Preserves P (callback_context_if p n s)
  unfolding callback_context_if
  callback_context_if-P n [] = λ b h. h
  callback_context_if-P n (x ∷ s) =
      Preserves-bind P (header p (codes "Notification-Callback-Context") (string (x ∷ s))) _
        (header-P _ _ (omega arith)) (λ _. header-P _ _ (omega arith))

  pub notify-P : (c : Client) (n : Notification) → KeysLack c.headers → Preserves P (notify p c n)
  unfolding notify
  notify-P c n l =
      Preserves-bind P (header p (codes "Application-Name") (string c.name)) _
        (header-P _ _ (omega arith))
        λ _.
          Preserves-bind P (header p (codes "Notification-Name") (string n.name)) _
            (header-P _ _ (omega arith))
            λ _.
              Preserves-bind P (header_if p (codes "Notification-ID") n.id) _
                (header_if-P _ _ (omega arith))
                λ _.
                  Preserves-bind P (header p (codes "Notification-Title") (string n.title)) _
                    (header-P _ _ (omega arith))
                    λ _.
                      Preserves-bind P (header p (codes "Notification-Text") (string n.text)) _
                        (header-P _ _ (omega arith))
                        λ _.
                          Preserves-bind P (flag_if p (codes "Notification-Sticky") n.sticky) _
                            (flag_if-P _ _ (omega arith))
                            λ _.
                              Preserves-bind P (priority_if p n.priority) _
                                (priority_if-P n.priority)
                                λ _.
                                  Preserves-bind P
                                    (icon_if p (codes "Notification-Icon") c.hash_alg n.icon_value)
                                    _ (icon_if-P _ _ _ (omega arith))
                                    λ _.
                                      Preserves-bind P
                                        (header_if p (codes "Notification-Coalescing-ID")
                                          n.coalescing_id)
                                        _ (header_if-P _ _ (omega arith))
                                        λ _.
                                          Preserves-bind P
                                            (callback_context_if p n n.callback_context) _
                                            (callback_context_if-P n n.callback_context)
                                            λ _.
                                              Preserves-bind P
                                                (header_if p (codes "Notification-Callback-Target")
                                                  n.callback_target)
                                                _ (header_if-P _ _ (omega arith))
                                                λ _. custom_headers-P _ _ l

-- ===== src/Gntp/Request/Lines.antt =====
-- The text of a whole request body.
use go_notify.Base.{◌≡◌, refl, subst, List, []}
use go_notify.Gntp.Result.{Result, ok}
use go_notify.Gntp.Buffer.{Platform, Readers, Buffer}
use go_notify.Gntp.Buffer.Preserves.{After}
use go_notify.Gntp.Buffer.Lined.{
  IsLined, Lined, PrintsLack, header-Lined, crlf-Lined, icon-Lined, resource-Lined,
}
use go_notify.Gntp.Request.Traverse.{KeysLack, register-P, notify-P}
use go_notify.Gntp.Request.{Notification, Client, register, notify}

-- `Client.buffer`.
abbrev pub empty_buffer : Readers → Buffer
empty_buffer r = record { text = []; list = []; readers = r }

after_ok :
    {A : Type 0} (P : Buffer → Type 0) {r : Result (A × Buffer)} {a : A} {b : Buffer}
    → r ≡ ok (a, b)
    → After P r
    → P b
after_ok P e h = subst (After P) e h

module _ (p : Platform) (c : Client) (keys : KeysLack c.headers) (rs : Readers) where
  -- The body of a NOTIFY request that is built without an error is lines that end with "\r\n" and hold no other "\r", whatever the
  -- texts of the notification and of the client are, as long as no custom key and no printed
  -- value that is not a string holds a "\r".
  pub notify-IsLined :
      (n : Notification) (b : Buffer)
      → PrintsLack p
      → notify p c n (empty_buffer rs) ≡ ok (tt, b)
      → IsLined b.text
  notify-IsLined n b prints e = after_ok (Lined p prints) e (
      notify-P p (Lined p prints) (header-Lined p prints) (crlf-Lined p prints)
        (icon-Lined p prints) (resource-Lined p prints) c n keys (empty_buffer rs)
        (record { lines = []; text_is = refl; no_cr = tt }))

  -- The same, under the same conditions, for a REGISTER request.
  pub register-IsLined :
      (ns : List Notification) (b : Buffer)
      → PrintsLack p
      → register p c ns (empty_buffer rs) ≡ ok (tt, b)
      → IsLined b.text
  register-IsLined ns b prints e = after_ok (Lined p prints) e (
      register-P p (Lined p prints) (header-Lined p prints) (crlf-Lined p prints)
        (icon-Lined p prints) (resource-Lined p prints) c ns keys (empty_buffer rs)
        (record { lines = []; text_is = refl; no_cr = tt }))

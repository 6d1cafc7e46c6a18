-- ===== src/Gntp/Callback/Sound.antt =====
-- The callbacks that `Client.callback` hands on.
use go_notify.Base.{
  ◌-◌, ◌+◌, ◌≡◌, inl, inr, refl, Bool, true, false, [], Option, Option-cases, Bool-cases, length,
  take, Bytes, codes, bytes_eq, bytes_eq_iff,
}
use go_notify.Go.Textproto.{Header, Mime, done, ended, malformed, read_line, read_header}
use go_notify.Util.ReadBytes.{Outcome, read, failed, panicked, unfinished, read_bytes}
use go_notify.Gntp.Result.{Result, ok, err, panic}
use go_notify.Gntp.Crypto.{Crypto, is_encrypted}
use go_notify.Gntp.Info.{Info}
use go_notify.Gntp.Info.Parse.{parse_info}
use go_notify.Gntp.Info.Parse.Sound.{parse_info_sound}
use go_notify.Gntp.Info.Crypt.{decrypt}
use go_notify.Gntp.Response.{Callback}
use go_notify.Gntp.Send.{blank_line_text}
use go_notify.Gntp.Send.Answer.{Shows, Tells, Accepts}
use go_notify.Gntp.Callback.{
  heard, callback_of, of_header, of_decrypted, of_sealed, of_info, of_line, listen,
}

module _ {Time : Type 0} (parse_time : Bytes → Option Time) (c : Crypto) (name : Bytes) where
  of_header_sound :
      (ends : Bool) (m : Mime) {cb : Callback Time}
      → of_header parse_time name ends m ≡ heard cb
      → (h : Header) × (u : Bytes) × Shows ends m h u × (cb ≡ callback_of parse_time name h)
  unfolding of_header
  of_header_sound ends (done h s) e = (h, s, inl refl, cc)
  of_header_sound true (ended h) e = (h, [], inr (refl, refl, refl), cc)
  of_header_sound false (ended h) e = cc
  of_header_sound ends malformed e = cc

  of_decrypted_sound :
      (m : Result Bytes) {cb : Callback Time}
      → of_decrypted parse_time name m ≡ heard cb
      → (t : Bytes) × (h : Header) × (u : Bytes) × (m ≡ ok t)
        × Shows true (read_header t) h u
        × (cb ≡ callback_of parse_time name h)
  unfolding of_decrypted
  of_decrypted_sound (ok t) e =
      let (h, u, shows, is_cb) = of_header_sound true (read_header t) e in
      (t, h, u, refl, shows, is_cb)
  of_decrypted_sound (err f) e = cc
  of_decrypted_sound panic e = cc

  of_sealed_sound :
      (i : Info) (o : Outcome) {cb : Callback Time}
      → of_sealed parse_time c name i o ≡ heard cb
      → (rest : Bytes) × (t : Bytes) × (h : Header) × (u : Bytes) × ((b : Bytes) × (o ≡ read b rest)
          × (decrypt c i (take (length b - 4) b) ≡ ok t))
        × Shows true (read_header t) h u
        × (cb ≡ callback_of parse_time name h)
  unfolding of_sealed
  of_sealed_sound i (read b rest) e =
      let (t, h, u, opens, shows, is_cb) =
        of_decrypted_sound (decrypt c i (take (length b - 4) b)) e in
      (rest, t, h, u, (b, refl, opens), shows, is_cb)
  of_sealed_sound i failed e = cc
  of_sealed_sound i panicked e = cc
  of_sealed_sound i unfinished e = cc

  of_info_sound :
      (ends : Bool) (s : Bytes) (i : Info) {cb : Callback Time}
      → of_info parse_time c name ends s i ≡ heard cb
      → (i.message_type ≡ codes "-CALLBACK")
        × ((h : Header) × (u : Bytes) × Tells c i ends s h u × (cb ≡ callback_of parse_time name h))
  unfolding of_info
  of_info_sound ends s i e = elim (Bool-cases (bytes_eq i.message_type (codes "-CALLBACK"))) [
    | inr off ↦ let e1 = simp off at e in cc
    | inl on ↦ (
      (bytes_eq_iff i.message_type _).0 on,
      elim (Bool-cases (is_encrypted i.enc)) [
        | inl sealed ↦
            let (rest, t, h, u, opens, shows, is_cb) =
              of_sealed_sound i (read_bytes (length s + 1) s blank_line_text)
                (simp (on, sealed) at e) in
            (h, rest, inr (sealed, (t, u, opens, shows)), is_cb)
        | inr clear ↦
            let (h, u, shows, is_cb) =
              of_header_sound ends (read_header s) (simp (on, clear) at e) in
            (h, u, inl (clear, shows), is_cb)
      ],
    )
  ]

  of_line_sound :
      (ends : Bool) (s : Bytes) (m : Result Info) {cb : Callback Time}
      → of_line parse_time c name ends s m ≡ heard cb
      → (i : Info) × (m ≡ ok i) × (of_info parse_time c name ends s i ≡ heard cb)
  unfolding of_line
  of_line_sound ends s (ok i) e = (i, refl, e)
  of_line_sound ends s (err f) e = cc
  of_line_sound ends s panic e = cc

  -- Whatever bytes come over the connection: a callback is handed on only if the first line is an
  -- information line of type "-CALLBACK" that is accepted under the client's password, which has no
  -- security or is verified by it; and it is the callback of the header that stands behind the line,
  -- in the clear if the line names no algorithm and else in what its cipher opens.
  pub listen-heard :
      (pw : Bytes) (ends : Bool) (s : Bytes) (cb : Callback Time)
      → listen parse_time c pw name ends s ≡ heard cb
      → (h : Header) × (u : Bytes) × Accepts c pw ends (codes "-CALLBACK") s h u
        × (cb ≡ callback_of parse_time name h)
  unfolding listen
  listen-heard pw ends s cb e = elim (Option-cases (read_line s)) [
    | inl missing ↦ let e1 = rw (missing, listen) at e in cc
    | inr ((l, t), found) ↦
        let e1 = rw (found, listen) at e in
        let (i, parsed, e2) = of_line_sound ends t (parse_info c l pw) e1 in
        let (is_callback, (h, u, tells, is_cb)) = of_info_sound ends t i e2 in
        let secured = (parse_info_sound c l pw i parsed).1 in
        (h, u, (l, t, i, found, parsed, is_callback, secured, tells), is_cb)
  ]

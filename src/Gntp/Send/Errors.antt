-- ===== src/Gntp/Send/Errors.antt =====
-- The errors that `Client.send` reports as the server's.
use go_notify.Base.{
  ◌≡◌, ◌≢◌, inl, inr, refl, Bool, true, false, [], Option, none, some, Option-cases, Bool-cases,
  Bytes, codes, bytes_eq, bytes_eq_iff,
}
use go_notify.Base.Int.{ℤ}
use go_notify.Go.Decimal.{atoi}
use go_notify.Go.Textproto.{Header, get, del, Mime, done, ended, malformed, read_line, read_header}
use go_notify.Util.ReadBytes.{Outcome, read, failed, panicked, unfinished}
use go_notify.Gntp.Result.{Result, ok, err, panic}
use go_notify.Gntp.Crypto.{Crypto, is_encrypted}
use go_notify.Gntp.Info.{Info}
use go_notify.Gntp.Info.Parse.{parse_info}
use go_notify.Gntp.Info.Parse.Sound.{IsSecured, parse_info_sound}
use go_notify.Gntp.Info.Crypt.{decrypt}
use go_notify.Gntp.Response.{ServerError}
use go_notify.Gntp.Send.{
  refused, server, ok_header, decrypted_header, opened, sealed_answer, coded, error_of,
  error_header, ok_answer, error_answer, by_type, after_line, receive,
}
use go_notify.Gntp.Send.Answer.{Shows}

ok_header-ne-server :
    (ends : Bool) (m : Mime) (left : Bytes → Bytes) {x : ServerError}
    → ok_header ends m left ≢ refused (server x)
unfolding ok_header
ok_header-ne-server ends (done h s) left e = cc
ok_header-ne-server true (ended h) left e = cc
ok_header-ne-server false (ended h) left e = cc
ok_header-ne-server ends malformed left e = cc

decrypted_header-ne-server :
    (m : Result Bytes) (left : Bytes) {x : ServerError}
    → decrypted_header m left ≢ refused (server x)
unfolding decrypted_header
decrypted_header-ne-server (ok t) left e = ok_header-ne-server true (read_header t) (λ s. left) e
decrypted_header-ne-server (err f) left e = cc
decrypted_header-ne-server panic left e = cc

opened-ne-server :
    (c : Crypto) (i : Info) (o : Outcome) {x : ServerError} → opened c i o ≢ refused (server x)
unfolding opened
opened-ne-server c i (read b left) e = decrypted_header-ne-server (decrypt c i _) left e
opened-ne-server c i failed e = cc
opened-ne-server c i panicked e = cc
opened-ne-server c i unfinished e = cc

ok_answer-ne-server :
    (c : Crypto) (i : Info) (ends : Bool) (s : Bytes) {x : ServerError}
    → ok_answer c i ends s ≢ refused (server x)
unfolding ok_answer sealed_answer
ok_answer-ne-server c i ends s e = elim (Bool-cases (is_encrypted i.enc)) [
  | inl on ↦ opened-ne-server c i _ (simp on at e)
  | inr off ↦ ok_header-ne-server ends (read_header s) (λ t. t) (simp off at e)
]

-- The fields of the error come from the header.
abbrev pub Reports : Header → ServerError → Type 0
Reports h x =
    (atoi (get (codes "Error-Code") h) ≡ some x.code)
    × (x.description ≡ get (codes "Error-Description") h)

coded_sound :
    (h : Header) (o : Option ℤ) {x : ServerError}
    → coded h o ≡ refused (server x)
    → (o ≡ some x.code) × (x.description ≡ get (codes "Error-Description") h)
unfolding coded
coded_sound h none e = cc
coded_sound h (some n) {x} e =
    let is_x : x ≡ record {
      code = n;
      description = get (codes "Error-Description") h;
      header = del (codes "Error-Description") (del (codes "Error-Code") h);
    } =
      cc in
    rw is_x (refl, refl)

error_header_sound :
    (ends : Bool) (m : Mime) {x : ServerError}
    → error_header ends m ≡ refused (server x)
    → (h : Header) × (s : Bytes) × Shows ends m h s × Reports h x
unfolding error_header error_of
error_header_sound ends (done h s) e = (h, s, inl refl, coded_sound h _ e)
error_header_sound true (ended h) e = (h, [], inr (refl, refl, refl), coded_sound h _ e)
error_header_sound false (ended h) e = cc
error_header_sound ends malformed e = cc

error_answer_sound :
    (i : Info) (ends : Bool) (s : Bytes) {x : ServerError}
    → error_answer i ends s ≡ refused (server x)
    → (is_encrypted i.enc ≡ false)
      × ((h : Header) × (t : Bytes) × Shows ends (read_header s) h t × Reports h x)
unfolding error_answer
error_answer_sound i ends s e = elim (Bool-cases (is_encrypted i.enc)) [
  | inl on ↦ let e1 = simp on at e in cc
  | inr off ↦ (off, error_header_sound ends (read_header s) (simp off at e))
]

by_type_error :
    (c : Crypto) (i : Info) (ends : Bool) (s : Bytes) {x : ServerError}
    → by_type c i ends s ≡ refused (server x)
    → (i.message_type ≡ codes "-ERROR") × (error_answer i ends s ≡ refused (server x))
unfolding by_type
by_type_error c i ends s e = elim (Bool-cases (bytes_eq i.message_type (codes "-OK"))) [
  | inl is_ok ↦ absurd (ok_answer-ne-server c i ends s (simp is_ok at e))
  | inr n1 ↦ elim (Bool-cases (bytes_eq i.message_type (codes "-ERROR"))) [
    | inl is_error ↦ ((bytes_eq_iff i.message_type _).0 is_error, simp (n1, is_error) at e)
    | inr n2 ↦ let e1 = simp (n1, n2) at e in cc
  ]
]

after_line_error :
    (c : Crypto) (ends : Bool) (s : Bytes) (m : Result Info) {x : ServerError}
    → after_line c ends s m ≡ refused (server x)
    → (i : Info) × (m ≡ ok i) × (by_type c i ends s ≡ refused (server x))
unfolding after_line
after_line_error c ends s (ok i) e = (i, refl, e)
after_line_error c ends s (err f) e = cc
after_line_error c ends s panic e = cc

-- The bytes `s` start with an information line of type "-ERROR" that is accepted under the password,
-- and that names no encryption and has no security or is verified by the password; and the header
-- behind it reports the error.
abbrev pub Reported : Crypto → Bytes → Bool → Bytes → ServerError → Type 0
Reported c pw ends s x =
    (l : Bytes) × (t : Bytes) × (i : Info) × (h : Header) × (u : Bytes) × (read_line s
      ≡ some (l, t))
    × (parse_info c l pw ≡ ok i)
    × (i.message_type ≡ codes "-ERROR")
    × (is_encrypted i.enc ≡ false)
    × IsSecured c pw i
    × Shows ends (read_header t) h u
    × Reports h x

-- Whatever the password and the bytes that come: an error is reported as the server's only if the
-- first line is an information line of type "-ERROR" that is accepted under the password, names no
-- encryption, and has no security or is verified by the password; and its code and description are
-- those of the header that stands behind the line, in the clear.
pub receive-server_error :
    (c : Crypto) (pw : Bytes) (ends : Bool) (s : Bytes) (x : ServerError)
    → receive c pw ends s ≡ refused (server x)
    → Reported c pw ends s x
unfolding receive
receive-server_error c pw ends s x e = elim (Option-cases (read_line s)) [
  | inl missing ↦ let e1 = rw (missing, receive) at e in cc
  | inr ((l, t), found) ↦
      let e1 = rw (found, receive) at e in
      let (i, parsed, e2) = after_line_error c ends t (parse_info c l pw) e1 in
      let (is_error, e3) = by_type_error c i ends t e2 in
      let (off, (h, u, shows, reports)) = error_answer_sound i ends t e3 in
      (
        l,
        t,
        i,
        h,
        u,
        found,
        parsed,
        is_error,
        off,
        (parse_info_sound c l pw i parsed).1,
        shows,
        reports,
      )
]

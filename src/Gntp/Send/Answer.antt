-- ===== src/Gntp/Send/Answer.antt =====
-- What `Client.send` takes for an answer, and what becomes of the connection.
use go_notify.Base.{
  ◌-◌, ◌+◌, ◌≡◌, ◌⊎◌, inl, inr, refl, sym, ap, ◌≢◌, Option, Bool, true, false, [], Option-cases,
  Bool-cases, some, none, length, take, Bytes, codes, bytes_eq, bytes_eq_iff,
}
use go_notify.Base.Int.{ℤ}
use go_notify.Go.Textproto.{Header, Mime, done, ended, malformed, read_line, read_header}
use go_notify.Util.ReadBytes.{Outcome, read, failed, panicked, unfinished, read_bytes}
use go_notify.Gntp.Result.{Result, ok, err, panic}
use go_notify.Gntp.Crypto.{Crypto, is_encrypted}
use go_notify.Gntp.Info.{Info}
use go_notify.Gntp.Info.Parse.{parse_info}
use go_notify.Gntp.Info.Parse.Sound.{IsSecured, parse_info_sound}
use go_notify.Gntp.Info.Crypt.{decrypt}
use go_notify.Gntp.Response.{Response}
use go_notify.Gntp.Send.{
  answered, blank_line_text, response_of, ok_header, decrypted_header, opened, sealed_answer, coded,
  error_of, error_header, ok_answer, error_answer, by_type, after_line, receive,
}

-- The header that a text shows, at an empty line or at its end, and what is behind it.
abbrev pub Shows : Bool → Mime → Header → Bytes → Type 0
Shows ends m h rest = (m ≡ done h rest) ⊎ ((ends ≡ true) × (m ≡ ended h) × (rest ≡ []))

-- The text that the information `i` seals in `s`, and what is behind it.
abbrev pub Opens : Crypto → Info → Bytes → Bytes → Bytes → Type 0
Opens c i s t rest =
    (b : Bytes) × (read_bytes (length s + 1) s blank_line_text ≡ read b rest)
    × (decrypt c i (take (length b - 4) b) ≡ ok t)

ok_header_clear :
    (ends : Bool) (m : Mime) {r : Response} {rest : Bytes}
    → ok_header ends m (λ s. s) ≡ answered r rest
    → (h : Header) × Shows ends m h rest × (r ≡ response_of h)
unfolding ok_header
ok_header_clear ends (done h s) e = (h, inl cc, cc)
ok_header_clear true (ended h) e = (h, inr (refl, refl, cc), cc)
ok_header_clear false (ended h) e = cc
ok_header_clear ends malformed e = cc

ok_header_sealed :
    (m : Mime) (left : Bytes) {r : Response} {rest : Bytes}
    → ok_header true m (λ s. left) ≡ answered r rest
    → (h : Header) × (s : Bytes) × Shows true m h s × (r ≡ response_of h) × (rest ≡ left)
unfolding ok_header
ok_header_sealed (done h s) left e = (h, s, inl refl, cc, cc)
ok_header_sealed (ended h) left e = (h, [], inr (refl, refl, refl), cc, cc)
ok_header_sealed malformed left e = cc

decrypted_header_sound :
    (m : Result Bytes) (left : Bytes) {r : Response} {rest : Bytes}
    → decrypted_header m left ≡ answered r rest
    → (t : Bytes) × (h : Header) × (s : Bytes) × (m ≡ ok t)
      × Shows true (read_header t) h s
      × (r ≡ response_of h)
      × (rest ≡ left)
unfolding decrypted_header
decrypted_header_sound (ok t) left e =
    let (h, s, shows, is_r, is_left) = ok_header_sealed (read_header t) left e in
    (t, h, s, refl, shows, is_r, is_left)
decrypted_header_sound (err f) left e = cc
decrypted_header_sound panic left e = cc

opened_sound :
    (c : Crypto) (i : Info) (o : Outcome) {r : Response} {rest : Bytes}
    → opened c i o ≡ answered r rest
    → (t : Bytes) × (h : Header) × (u : Bytes) × ((b : Bytes) × (o ≡ read b rest)
        × (decrypt c i (take (length b - 4) b) ≡ ok t))
      × Shows true (read_header t) h u
      × (r ≡ response_of h)
unfolding opened
opened_sound c i (read b left) e =
    let (t, h, u, opens, shows, is_r, is_left) =
      decrypted_header_sound (decrypt c i (take (length b - 4) b)) left e in
    (t, h, u, (b, ap (read b) (sym is_left), opens), shows, is_r)
opened_sound c i failed e = cc
opened_sound c i panicked e = cc
opened_sound c i unfinished e = cc

-- Where an answer's header stands: in the clear, or in what the line's cipher opens.
abbrev pub Tells : Crypto → Info → Bool → Bytes → Header → Bytes → Type 0
Tells c i ends s h rest =
    ((is_encrypted i.enc ≡ false) × Shows ends (read_header s) h rest)
    ⊎ ((is_encrypted i.enc ≡ true)
        × ((t : Bytes) × (u : Bytes) × Opens c i s t rest × Shows true (read_header t) h u))

ok_answer_sound :
    (c : Crypto) (i : Info) (ends : Bool) (s : Bytes) {r : Response} {rest : Bytes}
    → ok_answer c i ends s ≡ answered r rest
    → (h : Header) × Tells c i ends s h rest × (r ≡ response_of h)
unfolding ok_answer sealed_answer
ok_answer_sound c i ends s e = elim (Bool-cases (is_encrypted i.enc)) [
  | inl on ↦
      let (t, h, u, opens, shows, is_r) =
        opened_sound c i (read_bytes (length s + 1) s blank_line_text) (simp on at e) in
      (h, inr (on, (t, u, opens, shows)), is_r)
  | inr off ↦
      let (h, shows, is_r) = ok_header_clear ends (read_header s) (simp off at e) in
      (h, inl (off, shows), is_r)
]

coded-ne-answered :
    (h : Header) (o : Option ℤ) {r : Response} {rest : Bytes} → coded h o ≢ answered r rest
unfolding coded
coded-ne-answered h none e = cc
coded-ne-answered h (some n) e = cc

error_header-ne-answered :
    (ends : Bool) (m : Mime) {r : Response} {rest : Bytes} → error_header ends m ≢ answered r rest
unfolding error_header error_of
error_header-ne-answered ends (done h s) e = coded-ne-answered h _ e
error_header-ne-answered true (ended h) e = coded-ne-answered h _ e
error_header-ne-answered false (ended h) e = cc
error_header-ne-answered ends malformed e = cc

error_answer-ne-answered :
    (i : Info) (ends : Bool) (s : Bytes) {r : Response} {rest : Bytes}
    → error_answer i ends s ≢ answered r rest
unfolding error_answer
error_answer-ne-answered i ends s e = elim (Bool-cases (is_encrypted i.enc)) [
  | inl on ↦ let e1 = simp on at e in cc
  | inr off ↦ error_header-ne-answered ends (read_header s) (simp off at e)
]

by_type_sound :
    (c : Crypto) (i : Info) (ends : Bool) (s : Bytes) {r : Response} {rest : Bytes}
    → by_type c i ends s ≡ answered r rest
    → (i.message_type ≡ codes "-OK")
      × ((h : Header) × Tells c i ends s h rest × (r ≡ response_of h))
unfolding by_type
by_type_sound c i ends s e = elim (Bool-cases (bytes_eq i.message_type (codes "-OK"))) [
  | inl is_ok ↦
      ((bytes_eq_iff i.message_type _).0 is_ok, ok_answer_sound c i ends s (simp is_ok at e))
  | inr n1 ↦ elim (Bool-cases (bytes_eq i.message_type (codes "-ERROR"))) [
    | inl is_error ↦ absurd (error_answer-ne-answered i ends s (simp (n1, is_error) at e))
    | inr n2 ↦ let e1 = simp (n1, n2) at e in cc
  ]
]

after_line_sound :
    (c : Crypto) (ends : Bool) (s : Bytes) (m : Result Info) {r : Response} {rest : Bytes}
    → after_line c ends s m ≡ answered r rest
    → (i : Info) × (m ≡ ok i) × (by_type c i ends s ≡ answered r rest)
unfolding after_line
after_line_sound c ends s (ok i) e = (i, refl, e)
after_line_sound c ends s (err f) e = cc
after_line_sound c ends s panic e = cc

-- The bytes `s` start with an information line of the type `kind` that is accepted under the
-- password, and that has no security or is verified by it; and the header `h` stands behind it.
abbrev pub Accepts : Crypto → Bytes → Bool → Bytes → Bytes → Header → Bytes → Type 0
Accepts c pw ends kind s h rest =
    (l : Bytes) × (t : Bytes) × (i : Info) × (read_line s ≡ some (l, t))
    × (parse_info c l pw ≡ ok i)
    × (i.message_type ≡ kind)
    × IsSecured c pw i
    × Tells c i ends t h rest

-- Whatever the password and the bytes that come: a response is given only if the first line is an
-- information line of type "-OK" that is accepted under the password, which has no security or is
-- verified by it; and it is the response of the header that stands behind the line, in the clear
-- if the line names no algorithm and else in what its cipher opens.
pub receive-answered :
    (c : Crypto) (pw : Bytes) (ends : Bool) (s : Bytes) (r : Response) (rest : Bytes)
    → receive c pw ends s ≡ answered r rest
    → (h : Header) × Accepts c pw ends (codes "-OK") s h rest × (r ≡ response_of h)
unfolding receive
receive-answered c pw ends s r rest e = elim (Option-cases (read_line s)) [
  | inl missing ↦ let e1 = rw (missing, receive) at e in cc
  | inr ((l, t), found) ↦
      let e1 = rw (found, receive) at e in
      let (i, parsed, e2) = after_line_sound c ends t (parse_info c l pw) e1 in
      let (is_ok, (h, tells, is_r)) = by_type_sound c i ends t e2 in
      (h, (l, t, i, found, parsed, is_ok, (parse_info_sound c l pw i parsed).1, tells), is_r)
]

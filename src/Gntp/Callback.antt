-- ===== src/Gntp/Callback.antt =====
-- `Client.callback` of gntp/gntp.go up to its `select`: what is read off a connection.
pub mod Fields
pub mod Sound
use go_notify.Base.{
  ◌+◌, ◌-◌, Bool, true, false, [], ◌∷◌, Option, none, some, if◌then◌else◌, ◌||◌, length, take,
  Bytes, codes, bytes_eq,
}
use go_notify.Go.Strings.{to_upper}
use go_notify.Go.Textproto.{Header, get, del, Mime, done, ended, malformed, read_line, read_header}
use go_notify.Util.ReadBytes.{Outcome, read, failed, panicked, unfinished, read_bytes}
use go_notify.Gntp.Result.{Result, ok, err, panic}
use go_notify.Gntp.Crypto.{Crypto, is_encrypted}
use go_notify.Gntp.Info.{Info}
use go_notify.Gntp.Info.Parse.{parse_info}
use go_notify.Gntp.Info.Crypt.{decrypt}
use go_notify.Gntp.Response
use go_notify.Gntp.Response.{no_result, clicked, closed, timeout, Callback}
use go_notify.Gntp.Send.{blank_line_text}

-- `heard`: a callback to hand on; `silent`: the goroutine ends without one.
pub data Heard (Time : Type 0) : Type 0 where
  heard : Callback Time → Heard Time
  silent : Heard Time
  crashed : Heard Time

outcome_of : Bytes → Response.Outcome
unfolding bytes_eq
outcome_of t =
    if bytes_eq t (codes "CLICKED") || bytes_eq t (codes "CLICK")
    then clicked
    else if bytes_eq t (codes "CLOSED") || bytes_eq t (codes "CLOSE")
    then closed
    else if bytes_eq t (codes "TIMEDOUT") || bytes_eq t (codes "TIMEOUT")
    then timeout
    else no_result

-- `cb.Result != 0`.
abbrev pub is_result : Response.Outcome → Bool
is_result no_result = false
is_result _ = true

abbrev pub is_some {ℓ} : {A : Type ℓ} → Option A → Bool
is_some none = false
is_some (some a) = true

or_else : Bytes → Bytes → Bytes
or_else [] name = name
or_else (x ∷ s) name = x ∷ s

-- The header without what the first fields take.
abbrev pub untold : Header → Header
untold h = del (codes "Notification-Callback-Context-Type") (
    del (codes "Notification-Callback-Context")
      (del (codes "Notification-ID") (del (codes "Application-Name") h)))

del_if : Bool → Bytes → Header → Header
unfolding del
del_if b k h = if b then del k h else h

module _ {Time : Type 0} (parse_time : Bytes → Option Time) where
  -- `name` is the client's.
  unfoldable pub callback_of : Bytes → Header → Callback Time
  unfolding outcome_of or_else del_if get del to_upper
  callback_of name h =
      let outcome = outcome_of (to_upper (get (codes "Notification-Callback-Result") (untold h))) in
      let told = del_if (is_result outcome) (codes "Notification-Callback-Result") (untold h) in
      let time = parse_time (get (codes "Notification-Callback-Timestamp") told) in
      record {
        name = or_else (get (codes "Application-Name") h) name;
        id = get (codes "Notification-ID") h;
        outcome = outcome;
        timestamp = time;
        context = get (codes "Notification-Callback-Context") h;
        context_type = get (codes "Notification-Callback-Context-Type") h;
        header = del_if (is_some time) (codes "Notification-Callback-Timestamp") told;
      }

  of_header : Bytes → Bool → Mime → Heard Time
  unfolding callback_of
  of_header name ends (done h rest) = heard (callback_of name h)
  of_header name ends (ended h) = if ends then heard (callback_of name h) else silent
  of_header name ends malformed = silent

  of_decrypted : Bytes → Result Bytes → Heard Time
  unfolding of_header read_header
  of_decrypted name (ok t) = of_header name true (read_header t)
  of_decrypted name (err e) = silent
  of_decrypted name panic = crashed

  of_sealed : Crypto → Bytes → Info → Outcome → Heard Time
  unfolding of_decrypted decrypt
  of_sealed c name i (read b rest) = of_decrypted name (decrypt c i (take (length b - 4) b))
  of_sealed c name i failed = silent
  of_sealed c name i panicked = crashed
  of_sealed c name i unfinished = crashed

  of_info : Crypto → Bytes → Bool → Bytes → Info → Heard Time
  unfolding of_header of_sealed read_header read_bytes bytes_eq
  of_info c name ends s i =
      if bytes_eq i.message_type (codes "-CALLBACK")
      then (if is_encrypted i.enc
          then of_sealed c name i (read_bytes (length s + 1) s blank_line_text)
          else of_header name ends (read_header s))
      else silent

  of_line : Crypto → Bytes → Bool → Bytes → Result Info → Heard Time
  unfolding of_info
  of_line c name ends s (ok i) = of_info c name ends s i
  of_line c name ends s (err e) = silent
  of_line c name ends s panic = crashed

  -- `s` is all that can be read of the connection, and then a read fails, with `io.EOF` if `ends`.
  unfoldable pub listen : Crypto → Bytes → Bytes → Bool → Bytes → Heard Time
  unfolding of_line read_line parse_info
  listen c pw name ends s = elim (read_line s) [
    | none ↦ silent
    | some (l, rest) ↦ of_line c name ends rest (parse_info c l pw)
  ]

-- ===== src/Gntp/Send.antt =====
-- `Client.send` of gntp/gntp.go over a connection: what is written, and what becomes of the answer.
pub mod Answer
pub mod Errors
pub mod Received
pub mod Server
use go_notify.Base.{
  ◌+◌, ◌-◌, Bool, true, List, [], ◌∷◌, ◌++◌, Option, none, some, if◌then◌else◌, length, take, Bytes,
  codes, bytes_eq,
}
use go_notify.Base.Int.{ℤ}
use go_notify.Go.Decimal.{format_nat, atoi}
use go_notify.Go.Textproto.{Header, get, del, Mime, done, ended, malformed, read_line, read_header}
use go_notify.Util.ReadBytes.{Outcome, read, failed, panicked, unfinished, read_bytes}
use go_notify.Gntp.Result.{Failure, protocol, system, Result, ok, err, panic, ◌>>=◌}
use go_notify.Gntp.Crypto.{Crypto, HashAlgorithm, EncryptionAlgorithm, is_encrypted}
use go_notify.Gntp.Info.{Info}
use go_notify.Gntp.Info.Parse.{parse_info}
use go_notify.Gntp.Info.Print.{to_string, Entropy, set_password}
use go_notify.Gntp.Info.Print.Keyed.{request_info}
use go_notify.Gntp.Info.Crypt.{encrypt, decrypt}
use go_notify.Gntp.Response.{Response, ServerError}

-- The fields of `Client` that `send` reads.
pub record Settings : Type 0 where
  pub password : Bytes
  pub hash_alg : HashAlgorithm
  pub enc : EncryptionAlgorithm

-- The connection as the client meets it: `answer` is all that can be read of it, and then a read
-- fails, with `io.EOF` if `ends` is true. The errors of writes are not looked at.
pub record Network : Type 0 where
  pub dials : Bool
  pub answer : Bytes
  pub ends : Bool

abbrev pub crlf_text : Bytes
crlf_text = codes "\r\n"

abbrev pub blank_line_text : Bytes
blank_line_text = codes "\r\n\r\n"

-- The data as they are written, which `Encrypt` changes where an algorithm is set.
sealed : Crypto → EncryptionAlgorithm → Info → Bytes → Result Bytes
unfolding encrypt
sealed c a i s = if is_encrypted a then encrypt c i s else ok s

body_text : Crypto → EncryptionAlgorithm → Info → Bytes → Result Bytes
unfolding sealed
body_text c a i s = do
  t ← sealed c a i s
  ok (t ++ (if is_encrypted a then blank_line_text else crlf_text))

-- A resource as it is written: its headers and its data.
described : Bytes → Bytes → Bytes
unfolding format_nat
described id t =
    codes "Identifier: "
    ++ (id
        ++ (codes "\r\nLength: "
            ++ (format_nat (length t) ++ (blank_line_text ++ (t ++ blank_line_text)))))

resource_text : Crypto → EncryptionAlgorithm → Info → Bytes × Bytes → Result Bytes
unfolding sealed described
resource_text c a i (id, s) = do t ← sealed c a i s; ok (described id t)

resource_texts : Crypto → EncryptionAlgorithm → Info → List (Bytes × Bytes) → Result Bytes
unfolding resource_text
resource_texts c a i [] = ok []
resource_texts c a i (r ∷ rs) = do
  t ← resource_text c a i r
  ts ← resource_texts c a i rs
  ok (t ++ ts)

-- All that is written to the connection.
unfoldable pub request_text :
    Crypto → EncryptionAlgorithm → Info → Bytes → List (Bytes × Bytes) → Result Bytes
unfolding body_text resource_texts to_string
request_text c a i body list = do
  b ← body_text c a i body
  rs ← resource_texts c a i list
  ok (to_string i ++ (crlf_text ++ (b ++ (rs ++ crlf_text))))

-- `failure`: an error of the package or of a call, told by a number; `server`: what the server says.
pub data SendError : Type 0 where
  failure : Failure → SendError
  server : ServerError → SendError

abbrev pub dial_error : SendError
dial_error = failure (system 5)

abbrev pub read_error : SendError
read_error = failure (system 6)

abbrev pub header_error : SendError
header_error = failure (system 7)

abbrev pub number_error : SendError
number_error = failure (system 8)

-- `answered` also has what the connection's reader is left with.
pub data Reply : Type 0 where
  answered : Response → Bytes → Reply
  refused : SendError → Reply
  crashed : Reply

pub response_of : Header → Response
unfolding get del
response_of h = record {
  action = get (codes "Response-Action") h;
  id = get (codes "Notification-ID") h;
  header = del (codes "Notification-ID") (del (codes "Response-Action") h);
}

-- The header of an "-OK" in a text that ends with `io.EOF` or not; `left` is kept for the reader.
ok_header : Bool → Mime → (Bytes → Bytes) → Reply
unfolding response_of
ok_header ends (done h rest) left = answered (response_of h) (left rest)
ok_header ends (ended h) left =
    if ends then answered (response_of h) (left []) else refused read_error
ok_header ends malformed left = refused header_error

decrypted_header : Result Bytes → Bytes → Reply
unfolding ok_header read_header
decrypted_header (ok t) rest = ok_header true (read_header t) (λ s. rest)
decrypted_header (err e) rest = refused (failure e)
decrypted_header panic rest = crashed

opened : Crypto → Info → Outcome → Reply
unfolding decrypted_header decrypt
opened c i (read b rest) = decrypted_header (decrypt c i (take (length b - 4) b)) rest
opened c i failed = refused read_error
opened c i panicked = crashed
opened c i unfinished = crashed

sealed_answer : Crypto → Info → Bytes → Reply
unfolding opened read_bytes
sealed_answer c i s = opened c i (read_bytes (length s + 1) s blank_line_text)

coded : Header → Option ℤ → Reply
unfolding get del
coded h none = refused number_error
coded h (some n) = refused (
    server (record {
      code = n;
      description = get (codes "Error-Description") h;
      header = del (codes "Error-Description") (del (codes "Error-Code") h);
    }))

error_of : Header → Reply
unfolding coded atoi get
error_of h = coded h (atoi (get (codes "Error-Code") h))

error_header : Bool → Mime → Reply
unfolding error_of
error_header ends (done h rest) = error_of h
error_header ends (ended h) = if ends then error_of h else refused read_error
error_header ends malformed = refused header_error

ok_answer : Crypto → Info → Bool → Bytes → Reply
unfolding sealed_answer ok_header read_header
ok_answer c i ends s =
    if is_encrypted i.enc
    then sealed_answer c i s
    else ok_header ends (read_header s) (λ rest. rest)

error_answer : Info → Bool → Bytes → Reply
unfolding error_header read_header
error_answer i ends s =
    if is_encrypted i.enc then refused (failure protocol) else error_header ends (read_header s)

-- `switch i.MessageType`.
by_type : Crypto → Info → Bool → Bytes → Reply
unfolding ok_answer error_answer bytes_eq
by_type c i ends s =
    if bytes_eq i.message_type (codes "-OK")
    then ok_answer c i ends s
    else if bytes_eq i.message_type (codes "-ERROR")
    then error_answer i ends s
    else refused (failure protocol)

after_line : Crypto → Bool → Bytes → Result Info → Reply
unfolding by_type
after_line c ends s (ok i) = by_type c i ends s
after_line c ends s (err e) = refused (failure e)
after_line c ends s panic = crashed

-- The answer to a request.
unfoldable pub receive : Crypto → Bytes → Bool → Bytes → Reply
unfolding after_line read_line parse_info
receive c pw ends s = elim (read_line s) [
  | none ↦ refused read_error
  | some (l, rest) ↦ after_line c ends rest (parse_info c l pw)
]

-- What becomes of the connection; `waiting` is in the map of those that wait for a callback, with
-- what its reader is left with.
pub data Conn : Type 0 where
  not_opened closed left_open : Conn
  waiting : Bytes → Conn

pub record Sent : Type 0 where
  pub written : Bytes
  pub reply : Reply
  pub conn : Conn

abbrev pub is_notify : Bytes → Bool
is_notify t = bytes_eq t (codes "NOTIFY")

-- The deferred function, and the registration for the callback. A panic leaves `err` nil.
settle : Bytes → Reply → Conn
unfolding bytes_eq
settle t (answered r rest) = if is_notify t then waiting rest else closed
settle t (refused e) = closed
settle t crashed = if is_notify t then left_open else closed

sent_with : Bytes → Bytes → Reply → Sent
unfolding settle
sent_with t text r = record { written = text; reply = r; conn = settle t r }

exchange : Crypto → Settings → Network → Bytes → Result Bytes → Sent
unfolding sent_with receive
exchange c z net t (ok text) = sent_with t text (receive c z.password net.ends net.answer)
exchange c z net t (err e) = sent_with t [] (refused (failure e))
exchange c z net t panic = sent_with t [] crashed

-- What is written once the password is set.
request_of : Crypto → Settings → Result Info → Bytes → List (Bytes × Bytes) → Result Bytes
unfolding request_text
request_of c z m body list = m >>= λ i. request_text c z.enc i body list

-- `send`; `salts` and `ivs` are the results of the two calls of `rand.Read`.
unfoldable pub send :
    Crypto → Entropy → Entropy → Settings → Network → Bytes → Bytes → List (Bytes × Bytes) → Sent
unfolding exchange request_of set_password
send c salts ivs z net t body list =
    if net.dials
    then exchange c z net t (
        request_of c z (set_password c salts ivs z.password (request_info t z.enc z.hash_alg)) body
          list)
    else record { written = []; reply = refused dial_error; conn = not_opened }

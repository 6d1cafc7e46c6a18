-- ===== src/Tests/Client.antt =====
-- What the GNTP client reads off its connections, and their life.
use go_notify.Base.{
  ◌≡◌, refl, true, List, [], ◌∷◌, ◌++◌, Option, none, some, Bytes, codes, if◌then◌else◌, bytes_eq,
}
use go_notify.Go.Strings.{to_upper, trim_space, index_byte, has_prefix}
use go_notify.Go.Decimal.{atoi}
use go_notify.Go.Mime.{canonical_key}
use go_notify.Go.Textproto.{Header, get, del, drop_last, read_line, read_header}
use go_notify.Gntp.Crypto.{none_enc, md5, aes, sha256}
use go_notify.Gntp.Info.Parse.{parse_info}
use go_notify.Gntp.Info.{is_message_type}
use go_notify.Gntp.Info.Print.{set_password, to_string}
use go_notify.Gntp.Response.{Response, ServerError, clicked, Callback}
use go_notify.Gntp.Send.{answered, refused, server, receive}
use go_notify.Gntp.Send.Received.{Received, receive-Received}
use go_notify.Gntp.Send.Errors.{receive-server_error}
use go_notify.Base.{replicate}
use go_notify.Base.Int.{pos}
use go_notify.Gntp.Result.{ok}
use go_notify.Gntp.Info.{Info}
use go_notify.Gntp.Info.Crypt.{encrypt}
use go_notify.Gntp.Info.Print.Keyed.{request_info}
use go_notify.Gntp.Crypto.{aes_cipher, new_hash, new_cipher}
use go_notify.Gntp.Response.{message, description}
use go_notify.Gntp.Send.{Settings, Network, crlf_text, send, waiting}
use go_notify.Gntp.Send.Answer.{Accepts}
use go_notify.Gntp.Send.Errors.{Reported}
use go_notify.Gntp.Send.Server.{ending, Seals, Sections, send-server_reads}
use go_notify.Gntp.Callback.{heard, listen, callback_of}
use go_notify.Gntp.Callback.Sound.{listen-heard}
use go_notify.Gntp.Callback.Fields.{is_taken, callback_of-header}
use go_notify.Gntp.Connections.{
  Phase, unspawned, reading, offering, Waiter, World, new_world, Reached, start, next, register,
  move, spawn, hear,
}
use go_notify.Gntp.Connections.Reachable.{All, Kept, Reached-Kept}
use go_notify.Tests.Toy.{toy, zeros, zeros-fill}

abbrev ok_text : Bytes
ok_text = codes "GNTP/1.0 -OK NONE\r\nresponse-action: REGISTER\r\nX-Y: z\r\n\r\nrest"

abbrev ok_response : Response
ok_response = record { action = codes "REGISTER"; id = []; header = (codes "X-Y", codes "z") ∷ [] }

receive-ok_text : receive toy [] true ok_text ≡ answered ok_response (codes "rest")
unfolding receive parse_info read_line read_header get del to_upper trim_space index_byte has_prefix
    is_message_type bytes_eq canonical_key drop_last
receive-ok_text = refl

receive-Received_example : Received toy [] true ok_text (receive toy [] true ok_text)
receive-Received_example = receive-Received toy [] true ok_text

abbrev error_text : Bytes
error_text = codes "GNTP/1.0 -ERROR NONE\r\nError-Code: 401\r\nError-Description: who\r\n\r\n"

abbrev unknown_application : ServerError
unknown_application = record { code = pos 401; description = codes "who"; header = [] }

receive-error_text : receive toy [] true error_text ≡ refused (server unknown_application)
unfolding receive parse_info read_line read_header get del to_upper trim_space index_byte has_prefix
    is_message_type bytes_eq canonical_key drop_last atoi
receive-error_text = refl

received_error : Reported toy [] true error_text unknown_application
received_error = receive-server_error toy [] true error_text unknown_application receive-error_text

-- The description of a code that comes with none.
message-code :
    message (record { code = pos 401; description = []; header = [] }) ≡ codes "Unknown Application"
unfolding message description
message-code = refl

abbrev settings : Settings
settings = record { password = codes "pw"; hash_alg = sha256; enc = aes }

abbrev network : Network
network = record { dials = true; answer = ok_text; ends = true }

abbrev sent_info : Info
sent_info = record {
  version = codes "1.0";
  message_type = codes "NOTIFY";
  enc = aes;
  iv = replicate 16 0;
  hash_alg = sha256;
  key_hash = replicate 32 32;
  salt = replicate 16 0;
  cipher = some (record { cipher = aes_cipher; key = replicate 24 18 });
}

set_password-sent :
    set_password toy zeros zeros (codes "pw") (request_info (codes "NOTIFY") aes sha256)
    ≡ ok sent_info
unfolding set_password new_hash new_cipher
set_password-sent = refl

notify-is_message_type : is_message_type (codes "NOTIFY") ≡ true
unfolding is_message_type
notify-is_message_type = refl

abbrev one_resource : List (Bytes × Bytes)
one_resource = (codes "id", codes "data") ∷ []

send-server_reads_example :
    (u : Bytes) × (rs : Bytes) × (read_line
        (send toy zeros zeros settings network (codes "NOTIFY") (codes "body") one_resource).written
      ≡ some (to_string sent_info, (u ++ ending aes) ++ (rs ++ crlf_text)))
    × (parse_info toy (to_string sent_info) (codes "pw") ≡ ok sent_info)
    × Seals toy sent_info (codes "body") u
    × Sections toy sent_info one_resource rs
send-server_reads_example =
    send-server_reads toy zeros zeros zeros-fill zeros-fill b'p' (codes "w") settings network
      (codes "NOTIFY") (codes "body") one_resource sent_info refl refl notify-is_message_type
      set_password-sent

-- A notification waits for its callback, with what its reader has already read.
send_waits :
    (send toy zeros zeros
      (record { password = []; hash_alg = md5; enc = none_enc })
      network
      (codes "NOTIFY")
      (codes "body")
      []).conn
    ≡ waiting (codes "rest")
unfolding send set_password encrypt receive parse_info read_line read_header get del to_upper
    trim_space index_byte has_prefix is_message_type bytes_eq canonical_key drop_last
send_waits = refl

abbrev parse_time : Bytes → Option Bytes
parse_time s = if bytes_eq s [] then none else some s

abbrev callback_text : Bytes
callback_text =
    codes
      "GNTP/1.0 -CALLBACK NONE\r\nNotification-ID: 7\r\nNotification-Callback-Result: click\r\n\r\n"

abbrev click : Callback Bytes
click = record {
  name = codes "app";
  id = codes "7";
  outcome = clicked;
  timestamp = none;
  context = [];
  context_type = [];
  header = [];
}

listen-callback_text : listen parse_time toy [] (codes "app") true callback_text ≡ heard click
unfolding listen callback_of receive parse_info read_line read_header get del to_upper trim_space
    index_byte has_prefix is_message_type bytes_eq canonical_key drop_last
listen-callback_text = refl

listen-heard_example :
    (h : Header) × (u : Bytes) × Accepts toy [] true (codes "-CALLBACK") callback_text h u
    × (click ≡ callback_of parse_time (codes "app") h)
listen-heard_example =
    listen-heard parse_time toy (codes "app") [] true callback_text click listen-callback_text

abbrev callback_header : Header
callback_header =
    (codes "Notification-Callback-Result", codes "LATER") ∷ (codes "X-Y", codes "z") ∷ []

-- A result that is not known stays in the header.
callback_as_sent :
    get
      (codes "notification-callback-result")
      (callback_of parse_time (codes "app") callback_header).header
    ≡ (if is_taken
          (callback_of parse_time (codes "app") callback_header)
          (codes "notification-callback-result")
        then []
        else get (codes "notification-callback-result") callback_header)
callback_as_sent =
    callback_of-header parse_time (codes "app") (codes "notification-callback-result")
      callback_header

abbrev waiter : Phase → Waiter
waiter p = record { phase = p; registered = true; opened = true; context = 0 }

abbrev world : Phase → World
world p = record { current = 0; waiters = waiter p ∷ [] }

-- A connection whose callback nobody receives.
offered : Reached (world offering)
offered =
    next (next (next start (register new_world)) (move 0 [] [] _ _ (spawn (waiter unspawned) refl)))
      (move 0 [] [] _ _ (hear (waiter reading) refl))

Reached-Kept_example : All (Kept 0) (world offering).waiters
Reached-Kept_example = Reached-Kept (world offering) offered

-- ===== src/Tests/Gntp.antt =====
-- gntp/.
use go_notify.Base.{
  map, ◌⊎◌, ℕ, ◌+◌, ◌%◌, ◌<◌, ◌≤◌, ◌≡◌, ◌≢◌, ◌↔◌, refl, true, false, [], ◌∷◌, ◌++◌, none, some,
  arith, ◌==◌, if◌then◌else◌, length, replicate, last, Bytes, codes, bytes_eq,
}
use go_notify.Base.Int.{negsuc}
use go_notify.Go.Strings.{to_upper, trim_space, index_byte, has_prefix}
use go_notify.Go.Hex.{decode_string, format_hex}
use go_notify.Go.Decimal.{format_int}
use go_notify.Gntp.Result.{key_length, password, ok, err, panic}
use go_notify.Gntp.Crypto.{
  md5, sha256, sha512, none_enc, des, aes, des_cipher, aes_cipher, Block, new_hash, new_cipher,
}
use go_notify.Go.Strings.{trim_space, upper_byte}
use go_notify.Go.Value.{string, bytes, reader, end, entry}
use go_notify.Go.Mime.{canonical_key}
use go_notify.Gntp.Info.{Info, is_message_type}
use go_notify.Gntp.Info.Verified.{WellInfo}
use go_notify.Gntp.Info.Parse.{parse_info}
use go_notify.Gntp.Info.Parse.Sound.{IsSecured, parse_info_sound}
use go_notify.Gntp.Info.Print.{set_password, to_string}
use go_notify.Gntp.Info.Print.Keyed.{request_info, parse_info-set_password}
use go_notify.Gntp.Info.RoundTrip.{parse_info-to_string-Plain}
use go_notify.Gntp.Info.Crypt.{encrypt, decrypt}
use go_notify.Gntp.Info.Crypt.Padding.{decrypt-encrypt, decrypt_cases}
use go_notify.Gntp.Buffer.{
  Any, Platform, Readers, Buffer, header, icon, uniqueid, resource, read_all, sanitize, scheme,
}
use go_notify.Gntp.Buffer.Sanitizer.{join_lines, blank_cr, sanitize-replaced}
use go_notify.Gntp.Buffer.Lined.{IsLined}
use go_notify.Gntp.Buffer.Resources.{uniqueid_sound, icon-reader_again, emptied}
use go_notify.Gntp.Request.{Notification, Client, notify, register}
use go_notify.Gntp.Request.Lines.{empty_buffer, notify-IsLined, register-IsLined}
use go_notify.Dict.{lookup, insert}
use go_notify.Go.Value.{nil, bool, int8}
use go_notify.Gntp.Notifier
use go_notify.Gntp.Notifier.{Options, accepted, refused, expects_bool, event_of}
use go_notify.Gntp.Notifier.Events.{Registers, register-Registers}
use go_notify.Gntp.Notifier.Options.{Described, event_of-Described}
use go_notify.Gntp.Info.Print.Clear.{set_password-none}
use go_notify.Tests.Toy.{toy, zeros, zeros-fill}

abbrev line : Bytes
line = codes "gntp/1.0 -ok  DES:0000000000000000 MD5:10101010101010101010101010101010.aa"

abbrev line_info : Info
line_info = record {
  version = codes "1.0";
  message_type = codes "-OK";
  enc = des;
  iv = replicate 8 0;
  hash_alg = md5;
  key_hash = replicate 16 16;
  salt = 0xaa ∷ [];
  cipher = some (record { cipher = des_cipher; key = replicate 8 3 });
}

parse_info-line : parse_info toy line (codes "pw") ≡ ok line_info
unfolding parse_info to_upper has_prefix index_byte trim_space is_message_type bytes_eq
    decode_string new_hash new_cipher
parse_info-line = refl

-- Another key hash is refused.
parse_info_refused :
    parse_info toy
      (codes "GNTP/1.0 -OK DES:0000000000000000 MD5:10101010101010101010101010101011.AA")
      (codes "pw")
    ≡ err password
unfolding parse_info to_upper has_prefix index_byte trim_space is_message_type bytes_eq
    decode_string new_hash new_cipher
parse_info_refused = refl

parse_info_sound_example : WellInfo line_info × IsSecured toy (codes "pw") line_info
parse_info_sound_example = parse_info_sound toy line (codes "pw") line_info parse_info-line

abbrev sent_info : Info
sent_info = record {
  version = codes "1.0";
  message_type = codes "NOTIFY";
  enc = aes;
  iv = replicate 16 0;
  hash_alg = sha256;
  key_hash = replicate 32 32;
  salt = replicate 16 0;
  cipher = some (record { cipher = aes_cipher; key = replicate 24 18 });
}

set_password-sent :
    set_password toy zeros zeros (codes "pw") (request_info (codes "NOTIFY") aes sha256)
    ≡ ok sent_info
unfolding set_password new_hash new_cipher
set_password-sent = refl

notify-is_message_type : is_message_type (codes "NOTIFY") ≡ true
unfolding is_message_type
notify-is_message_type = refl

parse_info-set_password_example : parse_info toy (to_string sent_info) (codes "pw") ≡ ok sent_info
parse_info-set_password_example =
    parse_info-set_password toy zeros zeros zeros-fill zeros-fill b'p' (codes "w") (codes "NOTIFY")
      aes sha256 sent_info notify-is_message_type set_password-sent

-- AES wants a key of 24 bytes, which MD5 does not give.
set_password_short :
    set_password toy zeros zeros (codes "pw") (request_info (codes "NOTIFY") aes md5)
    ≡ err key_length
unfolding set_password new_hash new_cipher
set_password_short = refl

abbrev plain_info : Info
plain_info = request_info (codes "NOTIFY") none_enc sha512

parse_info-to_string-Plain_example :
    parse_info toy (to_string plain_info) (codes "pw")
    ≡ ok (record plain_info { hash_alg = md5; salt = [] })
parse_info-to_string-Plain_example =
    parse_info-to_string-Plain toy (codes "pw") plain_info
      (record { version_is = refl; type_is = notify-is_message_type })
      (record { no_encryption = refl; no_iv = refl; no_key_hash = refl; no_cipher = refl })

abbrev key : Block
key = record { cipher = aes_cipher; key = replicate 24 18 }

decrypt-encrypt_example :
    (t : Bytes) × (encrypt toy sent_info (codes "data") ≡ ok t)
    × (decrypt toy sent_info t ≡ ok (codes "data"))
    × (length t % 16 ≡ 0)
    × (length (codes "data") < length t)
    × (length t ≤ length (codes "data") + 16)
decrypt-encrypt_example = decrypt-encrypt toy sent_info key refl (codes "data") refl

-- A last byte of 0 is let through, and nothing is taken off.
abbrev sixteen : Bytes
sixteen = replicate 16 0

decrypt_cases_example :
    ((length sent_info.iv ≢ 16) ⊎ (16 % 16 ≢ 0) ⊎ (sixteen ≡ []))
      × (decrypt toy sent_info (replicate 16 0) ≡ panic)
    ⊎ (length sent_info.iv ≡ 16)
      × (16 % 16 ≡ 0)
      × (sixteen ≢ [])
      × ((decrypt toy sent_info (replicate 16 0) ≡ ok (replicate 16 0)) ↔ (
          (v : ℕ) × (last (replicate 16 0) ≡ some v)
          × (replicate 16 0 ≡ replicate 16 0 ++ replicate v v)))
decrypt_cases_example = decrypt_cases toy sent_info key refl (replicate 16 0) (replicate 16 0)

decrypt_zero : decrypt toy sent_info (replicate 16 0) ≡ ok (replicate 16 0)
unfolding decrypt
decrypt_zero = refl

decrypt_short : decrypt toy sent_info (codes "short") ≡ panic
unfolding decrypt
decrypt_short = refl

abbrev platform : Platform
platform = record {
  crypto = toy;
  png = λ img. some img.pix;
  draw = λ k img. img.pix;
  print = λ v. codes "value";
}

-- Reader 3 holds "abc".
abbrev one_reader : Readers
one_reader n = if n == 3 then some (codes "abc") else none

abbrev client : Client
client = record {
  name = codes "app\r\nX-Evil: 1";
  icon_value = bytes (codes "i");
  hash_alg = md5;
  headers = entry (codes "x-extra") (string (codes "1\r")) end;
}

abbrev event : Notification
event = record {
  name = codes "ev";
  display_name = [];
  enabled = true;
  id = [];
  title = codes "t\rt";
  text = codes "a\r\nb";
  sticky = false;
  priority = negsuc 1;
  icon_value = reader 3;
  coalescing_id = [];
  callback_context = codes "c";
  callback_context_type = codes "d";
  callback_target = [];
}

abbrev notify_text : Bytes
notify_text =
    codes
      "Application-Name: app\nX-Evil: 1\r\nNotification-Name: ev\r\nNotification-Title: t t\r\nNotification-Text: a\nb\r\nNotification-Priority: -2\r\nNotification-Icon: x-growl-resource://03030303030303030303030303030303\r\nNotification-Callback-Context: c\r\nNotification-Callback-Context-Type: d\r\nX-Extra: 1 \r\n"

abbrev notify_buffer : Buffer
notify_buffer = record {
  text = notify_text;
  list = (codes "03030303030303030303030303030303", codes "abc") ∷ [];
  readers = (emptied 3 (empty_buffer one_reader)).readers;
}

notify-event : notify platform client event (empty_buffer one_reader) ≡ ok (tt, notify_buffer)
unfolding notify header icon uniqueid new_hash bytes_eq canonical_key format_int upper_byte resource
    read_all format_hex insert
notify-event = refl

notify-IsLined_example : IsLined notify_text
notify-IsLined_example =
    notify-IsLined platform client (unfold canonical_key upper_byte in omega arith, tt) one_reader
      event notify_buffer (λ v. omega arith) notify-event

abbrev register_text : Bytes
register_text =
    codes
      "Application-Name: app\nX-Evil: 1\r\nApplication-Icon: x-growl-resource://01010101010101010101010101010101\r\nNotifications-Count: 1\r\nX-Extra: 1 \r\n\r\nNotification-Name: ev\r\nNotification-Enabled: True\r\nNotification-Icon: x-growl-resource://03030303030303030303030303030303\r\n"

abbrev register_buffer : Buffer
register_buffer = record {
  text = register_text;
  list =
      (codes "01010101010101010101010101010101", codes "i")
      ∷ (codes "03030303030303030303030303030303", codes "abc")
      ∷ [];
  readers = (emptied 3 (empty_buffer one_reader)).readers;
}

register-event :
    register platform client (event ∷ []) (empty_buffer one_reader) ≡ ok (tt, register_buffer)
unfolding register header icon uniqueid new_hash bytes_eq canonical_key format_int upper_byte
    resource read_all format_hex go_notify.Gntp.Buffer.crlf insert
register-event = refl

IsLined-register_text : IsLined register_text
IsLined-register_text =
    register-IsLined platform client (unfold canonical_key upper_byte in omega arith, tt) one_reader
      (event ∷ []) register_buffer (λ v. omega arith) register-event

sanitize-replaced_example :
    sanitize (codes "a\r\n\rb") ≡ map blank_cr (join_lines (codes "a\r\n\rb"))
sanitize-replaced_example = sanitize-replaced (codes "a\r\n\rb")

sanitize_text : sanitize (codes "a\r\n\r\rb\r") ≡ codes "a\n  b "
unfolding sanitize
sanitize_text = refl

abbrev listed : Buffer
listed = record (empty_buffer one_reader) {
  list = (codes "01010101010101010101010101010101", codes "i") ∷ [];
}

uniqueid-listed :
    uniqueid platform md5 (codes "i") (empty_buffer one_reader)
    ≡ ok (scheme ++ codes "01010101010101010101010101010101", listed)
unfolding uniqueid new_hash bytes_eq format_hex insert
uniqueid-listed = refl

uniqueid_listed :
    (k : Bytes) × (scheme ++ codes "01010101010101010101010101010101" ≡ scheme ++ k)
    × (lookup (codes "02") listed.list
        ≡ (if bytes_eq k (codes "02") then some (codes "i") else lookup (codes "02") []))
    × (◌≡◌ {A = Bytes} [] [])
uniqueid_listed =
    uniqueid_sound platform md5 (codes "i") (empty_buffer one_reader) listed
      (scheme ++ codes "01010101010101010101010101010101") (codes "02") uniqueid-listed

-- The icon of `event` once more, in the body of the next request.
abbrev next_buffer : Buffer
next_buffer = empty_buffer (notify_buffer.readers)

icon-first :
    icon platform md5 (reader 3) (empty_buffer one_reader)
    ≡ ok (scheme ++ codes "03030303030303030303030303030303", record notify_buffer { text = [] })
unfolding icon uniqueid new_hash bytes_eq read_all format_hex insert
icon-first = refl

icon-reader_again_example :
    icon platform md5 (reader 3) next_buffer ≡ uniqueid platform md5 [] (emptied 3 next_buffer)
icon-reader_again_example =
    icon-reader_again platform md5 3 (empty_buffer one_reader) (record notify_buffer { text = [] })
      next_buffer (scheme ++ codes "03030303030303030303030303030303") icon-first refl

abbrev options : Options
options = (codes "gntp:sticky", bool true) ∷ (codes "gntp:priority", int8 (negsuc 1)) ∷ []

abbrev sticky_event : Notification
sticky_event = record {
  name = codes "ev";
  display_name = [];
  enabled = true;
  id = [];
  title = [];
  text = [];
  sticky = true;
  priority = negsuc 1;
  icon_value = nil;
  coalescing_id = [];
  callback_context = [];
  callback_context_type = [];
  callback_target = [];
}

event_of-options : event_of (codes "ev") nil options ≡ accepted sticky_event
unfolding event_of lookup bytes_eq
event_of-options = refl

event_of_refused :
    event_of (codes "ev") nil ((codes "gntp:sticky", nil) ∷ [])
    ≡ refused (expects_bool (codes "gntp:sticky"))
unfolding event_of lookup bytes_eq
event_of_refused = refl

event_of-Described_example : Described (codes "ev") nil options sticky_event
event_of-Described_example =
    event_of-Described (codes "ev") nil options sticky_event event_of-options

register-Registers_example :
    Registers
      (event_of (codes "ev") nil options)
      (codes "ev")
      (codes "ev")
      (codes "t")
      (codes "b")
      []
      (Notifier.register (codes "ev") nil options [])
register-Registers_example =
    register-Registers (codes "ev") (codes "ev") (codes "t") (codes "b") nil options []

-- AES is asked for, and no password given.
abbrev clear_info : Info
clear_info = request_info (codes "NOTIFY") aes sha256

set_password-empty : set_password toy zeros zeros [] clear_info ≡ ok clear_info
unfolding set_password
set_password-empty = refl

set_password-none_example :
    (clear_info.enc ≡ aes)
    × ((clear_info.cipher ≡ none) ↔ ((◌≡◌ {A = Bytes} [] []) ⊎ (aes ≡ none_enc)))
set_password-none_example =
    set_password-none toy zeros zeros [] (codes "NOTIFY") aes sha256 clear_info zeros-fill
      zeros-fill set_password-empty

encrypt-empty : encrypt toy clear_info (codes "data") ≡ ok (codes "data")
unfolding encrypt
encrypt-empty = refl

-- ===== src/Gntp/Info/Parse.antt =====
-- `ParseInfo` of gntp/gntp.go, one function for each part of the line.
pub mod Sound
use go_notify.Base.{
  ℕ, ◌+◌, [], ◌∷◌, ◌++◌, Option, none, some, ◌==◌, if◌then◌else◌, length, take, drop, Bytes, codes,
  bytes_eq,
}
use go_notify.Base.Int.{negsuc}
use go_notify.Go.Strings.{to_upper, trim_space, index_byte, has_prefix}
use go_notify.Go.Hex.{decode_string}
use go_notify.Gntp.Result.{protocol, password, Result, ok, err, panic, ◌>>=◌, ◌>>◌, guard, or_fail}
use go_notify.Gntp.Crypto.{
  HashAlgorithm, md5, sha1, sha256, sha512, other_hash, EncryptionAlgorithm, des, tdes, aes,
  other_enc, Block, block_size, Crypto, new_hash, new_cipher, is_encrypted,
}
use go_notify.Gntp.Info.{Info, new_info, is_message_type}

-- `strings.IndexRune`, then `goto Error` at -1.
abbrev pub index_or_fail : ℕ → Bytes → Result ℕ
index_or_fail b l = or_fail (index_byte b l) protocol

-- The names of the encryption algorithms; an unknown one is -1.
unfoldable pub enc_of_name : Bytes → Result EncryptionAlgorithm
unfolding bytes_eq
enc_of_name n =
    if bytes_eq n (codes "NONE")
    then err protocol
    else if bytes_eq n (codes "DES")
    then ok des
    else if bytes_eq n (codes "3DES")
    then ok tdes
    else if bytes_eq n (codes "AES")
    then ok aes
    else ok (other_enc (negsuc 0))

unfoldable pub hash_of_name : Bytes → HashAlgorithm
unfolding bytes_eq
hash_of_name n =
    if bytes_eq n (codes "MD5")
    then md5
    else if bytes_eq n (codes "SHA1")
    then sha1
    else if bytes_eq n (codes "SHA256")
    then sha256
    else if bytes_eq n (codes "SHA512")
    then sha512
    else other_hash (negsuc 0)

-- `NONE`, or an algorithm with its IV.
unfoldable pub parse_enc : Info → Bytes → Result Info
parse_enc i id = elim (index_byte b':' id) [
  | none ↦ if bytes_eq id (codes "NONE") then ok i else err protocol
  | some x ↦ do
    iv ← or_fail (decode_string (drop (x + 1) id)) protocol
    e ← enc_of_name (take x id)
    ok (record i { iv = iv; enc = e })
]

-- The IV is one block of the cipher; a nil cipher would panic.
unfoldable pub check_iv : Info → Option Block → Result Info
check_iv i none = panic
check_iv i (some b) =
    if length i.iv == block_size b.cipher then ok (record i { cipher = some b }) else err protocol

-- The last step of a successful check: the cipher, if the message is encrypted.
unfoldable pub set_cipher : Info → Bytes → Result Info
unfolding check_iv
set_cipher i k = if is_encrypted i.enc then (new_cipher i.enc k >>= λ b. check_iv i b) else ok i

-- The key hash is that of the password with the salt.
unfoldable pub verify : Crypto → Bytes → Bytes → Info → Result Info
verify c pw kh i = do
  sum ← new_hash c i.hash_alg
  guard (bytes_eq (sum (sum (pw ++ i.salt))) kh) password
  set_cipher (record i { key_hash = kh }) (sum (pw ++ i.salt))

-- The hash algorithm, the key hash and the salt.
unfoldable pub parse_key : Crypto → Bytes → Info → Bytes → Result Info
parse_key c pw i [] = ok i
parse_key c pw i (b ∷ bs) = do
  let l = b ∷ bs
  x ← index_or_fail b':' l
  let rest = drop (x + 1) l
  y ← index_or_fail b'.' rest
  kh ← or_fail (decode_string (take y rest)) protocol
  salt ← or_fail (decode_string (drop (y + 1) rest)) protocol
  verify c pw kh (record i { hash_alg = hash_of_name (take x l); salt = salt })

-- What follows the message type.
unfoldable pub parse_security : Crypto → Bytes → Info → Bytes → Result Info
parse_security c pw i l = elim (index_byte b' ' l) [
  | none ↦ if bytes_eq l (codes "NONE") then ok i else err protocol
  | some x ↦ do j ← parse_enc i (take x l); parse_key c pw j (trim_space (drop x l))
]

unfoldable pub parse_type : Crypto → Bytes → Info → Bytes → Result Info
parse_type c pw i l = do
  x ← index_or_fail b' ' l
  guard (is_message_type (take x l)) protocol
  parse_security c pw (record i { message_type = take x l }) (trim_space (drop x l))

unfoldable pub parse_version : Crypto → Bytes → Bytes → Result Info
parse_version c pw l = do
  x ← index_or_fail b' ' l
  guard (bytes_eq (take x l) (codes "1.0")) protocol
  parse_type c pw (record new_info { version = take x l }) (trim_space (drop x l))

unfoldable pub parse_upper : Crypto → Bytes → Bytes → Result Info
parse_upper c pw l = do guard (has_prefix (codes "GNTP/") l) protocol; parse_version c pw (drop 5 l)

unfoldable pub parse_info : Crypto → Bytes → Bytes → Result Info
unfolding parse_upper parse_version parse_type parse_security parse_key verify set_cipher parse_enc
    hash_of_name enc_of_name
parse_info c l pw = parse_upper c pw (to_upper l)

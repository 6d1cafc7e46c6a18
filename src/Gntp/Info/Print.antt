-- ===== src/Gntp/Info/Print.antt =====
-- `Info.String` and `Info.SetPassword` of gntp/gntp.go.
pub mod Keyed
pub mod Clear
use go_notify.Base.{
  ℕ, [], ◌∷◌, ◌++◌, Option, none, some, ltb, ◌==◌, if◌then◌else◌, length, Bytes, codes,
}
use go_notify.Go.Hex.{format_hex}
use go_notify.Go.Decimal.{format_int}
use go_notify.Gntp.Result.{system, Result, ok, panic, ◌>>=◌, ◌>>◌, or_fail}
use go_notify.Gntp.Crypto.{
  HashAlgorithm, md5, sha1, sha256, sha512, other_hash, EncryptionAlgorithm, none_enc, des, tdes,
  aes, other_enc, Block, block_size, Crypto, new_hash, new_cipher, is_encrypted,
}
use go_notify.Gntp.Info.{Info}

-- `EncryptionAlgorithm.String`.
unfoldable pub enc_name : EncryptionAlgorithm → Bytes
enc_name none_enc = codes "NONE"
enc_name des = codes "DES"
enc_name tdes = codes "3DES"
enc_name aes = codes "AES"
enc_name (other_enc n) = codes "EncryptionAlgorithm(" ++ format_int n ++ codes ")"

-- `HashAlgorithm.String`.
unfoldable pub hash_name : HashAlgorithm → Bytes
hash_name md5 = codes "MD5"
hash_name sha1 = codes "SHA1"
hash_name sha256 = codes "SHA256"
hash_name sha512 = codes "SHA512"
hash_name (other_hash n) = codes "HashAlgorithm(" ++ format_int n ++ codes ")"

-- `%v:%X.%X` of the hash algorithm, the key hash and the salt.
unfoldable pub key_text : Info → Bytes
unfolding hash_name
key_text i = hash_name i.hash_alg ++ b':' ∷ (format_hex i.key_hash ++ b'.' ∷ format_hex i.salt)

unfoldable pub security_text : Info → Bytes
unfolding enc_name key_text
security_text i =
    if is_encrypted i.enc
    then enc_name i.enc ++ b':' ∷ (format_hex i.iv ++ b' ' ∷ key_text i)
    else if ltb 0 (length i.key_hash)
    then enc_name i.enc ++ b' ' ∷ key_text i
    else enc_name i.enc

unfoldable pub to_string : Info → Bytes
unfolding security_text
to_string i = codes "GNTP/1.0 " ++ (i.message_type ++ b' ' ∷ security_text i)

-- The bytes that `rand.Read` gives for a slice of a length; `none` is its error.
abbrev pub Entropy : Type 0
Entropy = ℕ → Option Bytes

fill_salt : Entropy → Bytes → Result Bytes
fill_salt r [] = or_fail (r 16) (system 0)
fill_salt r (x ∷ s) = ok (x ∷ s)

set_block : Entropy → Info → Option Block → Result Info
set_block r i none = panic
set_block r i (some b) =
    if length i.iv == block_size b.cipher
    then ok (record i { cipher = some b })
    else or_fail (r (block_size b.cipher)) (system 0) >>= λ iv.
        ok (record i { cipher = some b; iv = iv })

-- `salts` and `ivs` are the results of the two calls of `rand.Read`.
unfoldable pub set_password : Crypto → Entropy → Entropy → Bytes → Info → Result Info
unfolding fill_salt set_block
set_password c salts ivs [] i = ok (record i { iv = []; key_hash = []; salt = []; cipher = none })
set_password c salts ivs (p ∷ pw) i = do
  salt ← fill_salt salts i.salt
  sum ← new_hash c i.hash_alg
  let k = sum ((p ∷ pw) ++ salt)
  let keyed = record i { salt = salt; key_hash = sum k }
  if is_encrypted i.enc then (new_cipher i.enc k >>= λ b. set_block ivs keyed b) else ok keyed

-- ===== src/Gntp/Info.antt =====
-- `Info` of gntp/gntp.go: the information line, its password check and its cipher.
pub mod Parse
pub mod Print
pub mod Verified
pub mod RoundTrip
pub mod Crypt
use go_notify.Base.{Bool, ◌||◌, [], Option, none, Bytes, codes, bytes_eq}
use go_notify.Gntp.Crypto.{HashAlgorithm, md5, EncryptionAlgorithm, none_enc, Block}

-- The byte slices that may be nil are read by their length and bytes alone, so nil is `[]`.
pub record Info : Type 0 where
  pub version : Bytes
  pub message_type : Bytes
  pub enc : EncryptionAlgorithm
  pub iv : Bytes
  pub hash_alg : HashAlgorithm
  pub key_hash : Bytes
  pub salt : Bytes
  pub cipher : Option Block

-- `new(Info)`.
abbrev pub new_info : Info
new_info = record {
  version = [];
  message_type = [];
  enc = none_enc;
  iv = [];
  hash_alg = md5;
  key_hash = [];
  salt = [];
  cipher = none;
}

-- The message types that a line may name.
unfoldable pub is_message_type : Bytes → Bool
unfolding bytes_eq
is_message_type t =
    bytes_eq t (codes "REGISTER")
    || bytes_eq t (codes "NOTIFY")
    || bytes_eq t (codes "-OK")
    || bytes_eq t (codes "-ERROR")
    || bytes_eq t (codes "-CALLBACK")

-- ===== src/Gntp/Crypto.antt =====
-- The hash and encryption algorithms of gntp/gntp.go, over the functions of Go's crypto packages.
use go_notify.Base.{
  ℕ, ◌%◌, ◌<◌, ◌≡◌, subst, Bool, true, false, Option, none, some, arith, ltb, if◌then◌else◌, length,
  take, Bytes,
}
use go_notify.Base.Int.{ℤ}
use go_notify.Go.Hex.Laws.{AllBytes}
use go_notify.Gntp.Result.{hash, encryption, key_length, Result, ok, err, ok-injective}

-- `HashAlgorithm` and `EncryptionAlgorithm` are `int`s; `other_…` is any value without a constant.
pub data HashAlgorithm : Type 0 where
  md5 sha1 sha256 sha512 : HashAlgorithm
  other_hash : ℤ → HashAlgorithm

pub data EncryptionAlgorithm : Type 0 where
  none_enc des tdes aes : EncryptionAlgorithm
  other_enc : ℤ → EncryptionAlgorithm

pub data Cipher : Type 0 where
  des_cipher tdes_cipher aes_cipher : Cipher

-- `cipher.Block`: a block cipher with its key.
pub record Block : Type 0 where
  pub cipher : Cipher
  pub key : Bytes

-- `BlockSize()`.
abbrev pub block_size : Cipher → ℕ
block_size des_cipher = 8
block_size tdes_cipher = 8
block_size aes_cipher = 16

-- What crypto/md5, sha1, sha256, sha512 and crypto/cipher are relied on for: digests are bytes of a
-- fixed number, and CBC decryption under a block, an IV of one block and whole blocks of data undoes encryption.
pub record Crypto : Type 0 where
  pub md5_sum : Bytes → Bytes
  pub sha1_sum : Bytes → Bytes
  pub sha256_sum : Bytes → Bytes
  pub sha512_sum : Bytes → Bytes
  pub cbc_encrypt : Block → Bytes → Bytes → Bytes
  pub cbc_decrypt : Block → Bytes → Bytes → Bytes
  pub md5_bytes : (s : Bytes) → AllBytes (md5_sum s)
  pub sha1_bytes : (s : Bytes) → AllBytes (sha1_sum s)
  pub sha256_bytes : (s : Bytes) → AllBytes (sha256_sum s)
  pub sha512_bytes : (s : Bytes) → AllBytes (sha512_sum s)
  pub md5_length : (s : Bytes) → length (md5_sum s) ≡ 16
  pub sha1_length : (s : Bytes) → length (sha1_sum s) ≡ 20
  pub sha256_length : (s : Bytes) → length (sha256_sum s) ≡ 32
  pub sha512_length : (s : Bytes) → length (sha512_sum s) ≡ 64
  pub encrypt_length : (b : Block) (iv s : Bytes) → length (cbc_encrypt b iv s) ≡ length s
  pub decrypt_length : (b : Block) (iv s : Bytes) → length (cbc_decrypt b iv s) ≡ length s
  pub decrypt_encrypt :
      (b : Block) (iv s : Bytes)
      → length iv ≡ block_size b.cipher
      → length s % block_size b.cipher ≡ 0
      → cbc_decrypt b iv (cbc_encrypt b iv s) ≡ s

-- `HashAlgorithm.New`: the sum over all that is written to the hash.
unfoldable pub new_hash : Crypto → HashAlgorithm → Result (Bytes → Bytes)
new_hash c md5 = ok c.md5_sum
new_hash c sha1 = ok c.sha1_sum
new_hash c sha256 = ok c.sha256_sum
new_hash c sha512 = ok c.sha512_sum
new_hash c (other_hash n) = err hash

with_key : Cipher → ℕ → Bytes → Result (Option Block)
with_key c n key =
    if ltb (length key) n
    then err key_length
    else ok (some (record { cipher = c; key = take n key }))

-- `EncryptionAlgorithm.New`; `none` is the nil block.
unfoldable pub new_cipher : EncryptionAlgorithm → Bytes → Result (Option Block)
unfolding with_key
new_cipher none_enc key = ok none
new_cipher des key = with_key des_cipher 8 key
new_cipher tdes key = with_key tdes_cipher 24 key
new_cipher aes key = with_key aes_cipher 24 key
new_cipher (other_enc n) key = err encryption

-- `i.EncryptionAlgorithm != NONE`.
abbrev pub is_encrypted : EncryptionAlgorithm → Bool
is_encrypted none_enc = false
is_encrypted _ = true

-- A digest is a text of bytes.
pub new_hash-AllBytes :
    (c : Crypto) (h : HashAlgorithm) (f : Bytes → Bytes) (s : Bytes)
    → new_hash c h ≡ ok f
    → AllBytes (f s)
unfolding new_hash
new_hash-AllBytes c md5 f s e =
    subst (λ (g : Bytes → Bytes). AllBytes (g s)) (ok-injective e) (c.md5_bytes s)
new_hash-AllBytes c sha1 f s e =
    subst (λ (g : Bytes → Bytes). AllBytes (g s)) (ok-injective e) (c.sha1_bytes s)
new_hash-AllBytes c sha256 f s e =
    subst (λ (g : Bytes → Bytes). AllBytes (g s)) (ok-injective e) (c.sha256_bytes s)
new_hash-AllBytes c sha512 f s e =
    subst (λ (g : Bytes → Bytes). AllBytes (g s)) (ok-injective e) (c.sha512_bytes s)
new_hash-AllBytes c (other_hash n) f s e = cc

pub new_hash-pos :
    (c : Crypto) (h : HashAlgorithm) (f : Bytes → Bytes) (s : Bytes)
    → new_hash c h ≡ ok f
    → 0 < length (f s)
unfolding new_hash
new_hash-pos c md5 f s e =
    subst (λ (g : Bytes → Bytes). 0 < length (g s)) (ok-injective e) (omega (arith, c.md5_length s))
new_hash-pos c sha1 f s e =
    subst (λ (g : Bytes → Bytes). 0 < length (g s)) (ok-injective e)
      (omega (arith, c.sha1_length s))
new_hash-pos c sha256 f s e =
    subst (λ (g : Bytes → Bytes). 0 < length (g s)) (ok-injective e)
      (omega (arith, c.sha256_length s))
new_hash-pos c sha512 f s e =
    subst (λ (g : Bytes → Bytes). 0 < length (g s)) (ok-injective e)
      (omega (arith, c.sha512_length s))
new_hash-pos c (other_hash n) f s e = cc

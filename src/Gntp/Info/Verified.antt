-- ===== src/Gntp/Info/Verified.antt =====
-- What a checked information line is.
use mathlib.Core.Bool.{true≢false}
use go_notify.Base.{
  ◌⊎◌, inl, inr, sym, ◌∙◌, ◌≡◌, true, false, [], ◌++◌, none, some, length, Bytes, codes,
}
use go_notify.Gntp.Result.{ok}
use go_notify.Gntp.Crypto.{none_enc, Block, block_size, Crypto, new_hash, new_cipher, is_encrypted}
use go_notify.Gntp.Info.{Info, is_message_type}

-- Nothing is encrypted and there is no cipher, or there is the cipher that the key `k` gives, and an
-- IV of one block.
abbrev pub HasCipher : Info → Bytes → Type 0
HasCipher i k =
    ((is_encrypted i.enc ≡ false) × (i.cipher ≡ none))
    ⊎ ((b : Block) × (is_encrypted i.enc ≡ true)
        × (new_cipher i.enc k ≡ ok (some b))
        × (i.cipher ≡ some b)
        × (length i.iv ≡ block_size b.cipher))

pub HasCipher-block :
    (i : Info) (k : Bytes)
    → HasCipher i k
    → is_encrypted i.enc ≡ true
    → (b : Block) × (new_cipher i.enc k ≡ ok (some b))
      × (i.cipher ≡ some b)
      × (length i.iv ≡ block_size b.cipher)
HasCipher-block i k (inl (off, n)) on = absurd (true≢false (sym on ∙ off))
HasCipher-block i k (inr (b, on, made, has, fits)) _ = (b, made, has, fits)

pub HasCipher-none :
    (i : Info) (k : Bytes) → HasCipher i k → is_encrypted i.enc ≡ false → i.cipher ≡ none
HasCipher-none i k (inl (off, n)) _ = n
HasCipher-none i k (inr (b, on, made, has, fits)) off = absurd (true≢false (sym on ∙ off))

-- The key hash is the one that the password and the salt give, under a known hash algorithm.
pub record Verified (c : Crypto) (pw : Bytes) (i : Info) : Type 0 where
  pub sum : Bytes → Bytes
  pub hashes : new_hash c i.hash_alg ≡ ok sum
  pub key_hash_is : i.key_hash ≡ sum (sum (pw ++ i.salt))
  pub has_cipher : HasCipher i (sum (pw ++ i.salt))

-- A line with no security: nothing is encrypted and nothing is authenticated.
pub record Plain (i : Info) : Type 0 where
  pub no_encryption : i.enc ≡ none_enc
  pub no_iv : i.iv ≡ []
  pub no_key_hash : i.key_hash ≡ []
  pub no_cipher : i.cipher ≡ none

pub record WellInfo (i : Info) : Type 0 where
  pub version_is : i.version ≡ codes "1.0"
  pub type_is : is_message_type i.message_type ≡ true

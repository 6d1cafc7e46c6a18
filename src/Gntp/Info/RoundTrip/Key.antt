-- ===== src/Gntp/Info/RoundTrip/Key.antt =====
-- The key part of an information line, and the cipher behind it.
use go_notify.Base.{
  ℕ, ◌≡◌, ◌≢◌, inl, inr, refl, sym, ap, [], ◌∷◌, ◌++◌, none, arith, ==_iff, Bool-cases, take-append,
  drop-append_suc, Bytes, bytes_eq_refl,
}
use go_notify.Go.Strings.{to_upper}
use go_notify.Go.Hex.{format_hex}
use go_notify.Go.Hex.Laws.{AllBytes}
use go_notify.Gntp.Result.{ok}
use go_notify.Gntp.Crypto.{md5, block_size, Crypto, is_encrypted, new_hash-AllBytes}
use go_notify.Go.Strings.{is_space}
use go_notify.Go.Strings.Cut.{
  StartsInk, EndsInk, index_byte-append, to_upper-append, EndsInk-append,
}
use go_notify.Go.Hex.Laws.{
  decode_string-format_hex, to_upper-format_hex, Lacks-format_hex, EndsInk-format_hex,
}
use go_notify.Gntp.Info.{Info}
use go_notify.Gntp.Info.Verified.{HasCipher-block, HasCipher-none, Verified}
use go_notify.Gntp.Info.Print.{hash_name, key_text}
use go_notify.Gntp.Info.Parse.{check_iv, set_cipher, verify, parse_key}
use go_notify.Gntp.Info.RoundTrip.Names.{hash_name-IsName}

-- The parser's state in front of the key part.
abbrev pub unkeyed : Info → Info
unkeyed i = record i { hash_alg = md5; key_hash = []; salt = []; cipher = none }

module _ (c : Crypto) (pw : Bytes) (i : Info) (v : Verified c pw i) where
  set_cipher-HasCipher : set_cipher (record i { cipher = none }) (v.sum (pw ++ i.salt)) ≡ ok i
  unfolding set_cipher check_iv
  set_cipher-HasCipher = elim (Bool-cases (is_encrypted i.enc)) [
    | inl on ↦
        let (b, made, is_b, fits) = HasCipher-block i _ v.has_cipher on in
        simp (on, made, fits, (==_iff (block_size b.cipher) (block_size b.cipher)).1 refl)
          (ap (λ o. ok (record i { cipher = o })) (sym is_b))
    | inr off ↦
        simp off
          (ap (λ o. ok (record i { cipher = o })) (sym (HasCipher-none i _ v.has_cipher off)))
  ]

  verify-Verified : verify c pw i.key_hash (record i { key_hash = []; cipher = none }) ≡ ok i
  unfolding verify
  verify-Verified =
      rw (v.hashes, verify) (rw (← v.key_hash_is, bytes_eq_refl i.key_hash) set_cipher-HasCipher)

  pub key_hash-AllBytes : AllBytes i.key_hash
  key_hash-AllBytes = rw v.key_hash_is (new_hash-AllBytes c i.hash_alg v.sum _ v.hashes)

  module _ (salt_bytes : AllBytes i.salt) where
    hash_part : Bytes
    hash_part = format_hex i.key_hash ++ b'.' ∷ format_hex i.salt

    parse_key_at_colon :
        (b : ℕ) (bs : Bytes)
        → b ∷ bs ≡ hash_name i.hash_alg ++ b':' ∷ hash_part
        → parse_key c pw (unkeyed i) (b ∷ bs) ≡ ok i
    unfolding parse_key hash_part
    parse_key_at_colon b bs e =
        let (name, known) = hash_name-IsName c i.hash_alg v.hashes in
        rw (e, index_byte-append b':' (hash_name i.hash_alg) hash_part name.no_colon)
          (rw (drop-append_suc (hash_name i.hash_alg) b':' hash_part) (
            rw
              (index_byte-append b'.' (format_hex i.key_hash) (format_hex i.salt)
                (Lacks-format_hex b'.' i.key_hash (inl (omega arith)) key_hash-AllBytes))
              (rw
                (
                  take-append (format_hex i.key_hash) (b'.' ∷ format_hex i.salt),
                  drop-append_suc (format_hex i.key_hash) b'.' (format_hex i.salt),
                  decode_string-format_hex i.key_hash key_hash-AllBytes,
                  decode_string-format_hex i.salt salt_bytes,
                  take-append (hash_name i.hash_alg) (b':' ∷ hash_part),
                  known,
                )
                verify-Verified)))

    parse_key_at :
        (l : Bytes)
        → l ≢ []
        → l ≡ hash_name i.hash_alg ++ b':' ∷ hash_part
        → parse_key c pw (unkeyed i) l ≡ ok i
    parse_key_at [] ne e = absurd (ne refl)
    parse_key_at (b ∷ bs) ne e = parse_key_at_colon b bs e

    -- The key part is read back, and its cipher is set up again.
    pub parse_key-key_text : parse_key c pw (unkeyed i) (key_text i) ≡ ok i
    unfolding hash_part key_text
    parse_key-key_text =
        parse_key_at (key_text i) ((hash_name-IsName c i.hash_alg v.hashes).0.at_colon _) refl

    pub to_upper-key_text : to_upper (key_text i) ≡ key_text i
    unfolding key_text to_upper
    to_upper-key_text =
        let name = (hash_name-IsName c i.hash_alg v.hashes).0 in
        rw (
          to_upper-append (hash_name i.hash_alg) _,
          name.word.capitals,
          to_upper-append (format_hex i.key_hash) _,
          to_upper-format_hex i.key_hash key_hash-AllBytes,
          to_upper-format_hex i.salt salt_bytes,
        )

    pub key_text-StartsInk : StartsInk (key_text i)
    unfolding key_text
    key_text-StartsInk = (hash_name-IsName c i.hash_alg v.hashes).0.word.first _

    pub key_text-EndsInk : EndsInk (key_text i)
    unfolding key_text is_space
    key_text-EndsInk =
        EndsInk-append (hash_name i.hash_alg)
          (b':' ∷ (format_hex i.key_hash ++ b'.' ∷ format_hex i.salt)) (λ e. cc)
          (EndsInk-append (b':' ∷ format_hex i.key_hash) (b'.' ∷ format_hex i.salt) (λ e. cc)
            (EndsInk-format_hex b'.' i.salt refl salt_bytes))

    pub key_text-ne-nil : key_text i ≢ []
    unfolding key_text
    key_text-ne-nil = (hash_name-IsName c i.hash_alg v.hashes).0.at_colon _

-- ===== src/Gntp/Info/RoundTrip/OneLine.antt =====
-- What `Info.String` writes is one line.
use go_notify.Base.{◌≡◌, inl, inr, false, arith, ltb, Bool-cases, length, Bytes, codes}
use go_notify.Go.Hex.{format_hex}
use go_notify.Go.Hex.Laws.{AllBytes, Lacks-format_hex}
use go_notify.Go.Strings.Cut.{Lacks, Lacks-append}
use go_notify.Gntp.Crypto.{
  EncryptionAlgorithm, none_enc, des, tdes, aes, other_enc, Crypto, is_encrypted,
}
use go_notify.Gntp.Info.{Info}
use go_notify.Gntp.Info.Verified.{HasCipher-block, Verified, WellInfo}
use go_notify.Gntp.Info.Print.{enc_name, hash_name, key_text, security_text, to_string}
use go_notify.Gntp.Info.RoundTrip.Names.{message_type-IsWord, enc_name-IsName, hash_name-IsName}
use go_notify.Gntp.Info.RoundTrip.Key.{key_hash-AllBytes}

none_name-one_line : (a : EncryptionAlgorithm) → is_encrypted a ≡ false → Lacks b'\n' (enc_name a)
unfolding enc_name
none_name-one_line none_enc e = omega arith
none_name-one_line des e = cc
none_name-one_line tdes e = cc
none_name-one_line aes e = cc
none_name-one_line (other_enc n) e = cc

module _ (c : Crypto) (pw : Bytes) (i : Info) (w : WellInfo i) (v : Verified c pw i)
    (salt_bytes : AllBytes i.salt) (iv_bytes : AllBytes i.iv) where
  key_text-one_line : Lacks b'\n' (key_text i)
  unfolding key_text
  key_text-one_line =
      let name = (hash_name-IsName c i.hash_alg v.hashes).0 in
      let hashed =
        Lacks-format_hex b'\n' i.key_hash (inl (omega arith)) (key_hash-AllBytes c pw i v) in
      let salted = Lacks-format_hex b'\n' i.salt (inl (omega arith)) salt_bytes in
      Lacks-append b'\n' (hash_name i.hash_alg) _ name.word.one_line
        (omega arith, Lacks-append b'\n' (format_hex i.key_hash) _ hashed (omega arith, salted))

  enc_name-one_line : Lacks b'\n' (enc_name i.enc)
  enc_name-one_line = elim (Bool-cases (is_encrypted i.enc)) [
    | inl on ↦
        let (b, made, _, _) = HasCipher-block i _ v.has_cipher on in
        (enc_name-IsName i.enc _ on made).0.word.one_line
    | inr off ↦ none_name-one_line i.enc off
  ]

  security_text-one_line : Lacks b'\n' (security_text i)
  unfolding security_text
  security_text-one_line =
      let lock = Lacks-format_hex b'\n' i.iv (inl (omega arith)) iv_bytes in
      elim (Bool-cases (is_encrypted i.enc)) [
        | inl on ↦
            rw (on, security_text)
              (Lacks-append b'\n' (enc_name i.enc) _ enc_name-one_line (
                omega arith,
                Lacks-append b'\n' (format_hex i.iv) _ lock (omega arith, key_text-one_line),
              ))
        | inr off ↦ elim (Bool-cases (ltb 0 (length i.key_hash))) [
          | inl keyed ↦
              rw (off, security_text)
                (rw keyed (
                  Lacks-append b'\n' (enc_name i.enc) _ enc_name-one_line
                    (omega arith, key_text-one_line)))
          | inr bare ↦ rw (off, security_text) (rw bare enc_name-one_line)
        ]
      ]

  pub to_string-one_line : Lacks b'\n' (to_string i)
  unfolding to_string
  to_string-one_line = Lacks-append b'\n' (codes "GNTP/1.0 ") _ (omega arith) (
      Lacks-append b'\n' i.message_type _ (message_type-IsWord i.message_type w.type_is).one_line
        (omega arith, security_text-one_line))

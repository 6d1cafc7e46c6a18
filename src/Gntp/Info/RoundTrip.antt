-- ===== src/Gntp/Info/RoundTrip.antt =====
-- `ParseInfo` reads back what `Info.String` writes.
mod Names
mod Key
pub mod OneLine
use go_notify.Base.{
  ◌<◌, ◌≡◌, ◌≢◌, inl, inr, refl, sym, ap, ◌∙◌, subst, true, false, [], ◌∷◌, ◌++◌, append_assoc,
  arith, Bool-cases, length, take-append, drop-append, drop-append_suc, Bytes, codes, bytes_eq,
}
use go_notify.Go.Strings.{to_upper, index_byte, has_prefix}
use go_notify.Go.Hex.{format_hex}
use go_notify.Go.Hex.Laws.{AllBytes}
use go_notify.Gntp.Result.{ok}
use go_notify.Gntp.Crypto.{
  md5, EncryptionAlgorithm, none_enc, des, tdes, aes, other_enc, Crypto, is_encrypted, new_hash-pos,
}
use go_notify.Go.Strings.{is_space}
use go_notify.Go.Strings.Cut.{
  Lacks, StartsInk, EndsInk, index_byte-append, to_upper-append, Lacks-append, EndsInk-append,
  trim_space_blank,
}
use go_notify.Go.Hex.Laws.{decode_string-format_hex, to_upper-format_hex, Lacks-format_hex}
use go_notify.Gntp.Info.{Info, new_info, is_message_type}
use go_notify.Gntp.Info.Verified.{HasCipher-block, Verified, Plain, WellInfo}
use go_notify.Gntp.Info.Print.{enc_name, key_text, security_text, to_string}
use go_notify.Gntp.Info.Parse.{
  parse_enc, parse_security, parse_type, parse_version, parse_upper, parse_info,
}
use Names.{message_type-IsWord, IsName, enc_name-IsName}
use Key.{
  unkeyed, parse_key-key_text, to_upper-key_text, key_text-StartsInk, key_text-EndsInk,
  key_text-ne-nil,
}

-- The line up to the security part.
abbrev pub line : Bytes → Bytes → Bytes
line t s = codes "GNTP/1.0 " ++ (t ++ b' ' ∷ s)

module _ (c : Crypto) (pw t s : Bytes) (known : is_message_type t ≡ true) (starts : StartsInk s)
    (ends : EndsInk s) (ne : s ≢ []) where
  to_upper-line : to_upper s ≡ s → to_upper (line t s) ≡ line t s
  unfolding to_upper
  to_upper-line e = rw (to_upper-append t (b' ' ∷ s), (message_type-IsWord t known).capitals, e)

  parse_type-words :
      parse_type c pw (record new_info { version = codes "1.0" }) (t ++ b' ' ∷ s)
      ≡ parse_security c pw (record new_info { version = codes "1.0"; message_type = t }) s
  unfolding parse_type
  parse_type-words =
      let word = message_type-IsWord t known in
      rw (index_byte-append b' ' t s word.no_blank) (
        rw (
          take-append t (b' ' ∷ s),
          drop-append t (b' ' ∷ s),
          known,
          trim_space_blank s starts ends,
        ))

  parse_upper-line :
      parse_upper c pw (line t s)
      ≡ parse_security c pw (record new_info { version = codes "1.0"; message_type = t }) s
  unfolding parse_upper parse_version has_prefix index_byte bytes_eq
  parse_upper-line =
      let word = message_type-IsWord t known in
      rw
        (trim_space_blank (t ++ b' ' ∷ s) (word.first _)
          (EndsInk-append t (b' ' ∷ s) (λ e. cc) (EndsInk-append (b' ' ∷ []) s ne ends)))
        parse_type-words

  pub parse_info-line :
      to_upper s ≡ s
      → parse_info c (line t s) pw
        ≡ parse_security c pw (record new_info { version = codes "1.0"; message_type = t }) s
  parse_info-line e = unfold parse_info in rw (to_upper-line e) parse_upper-line

none_enc_of : (a : EncryptionAlgorithm) → is_encrypted a ≡ false → a ≡ none_enc
none_enc_of none_enc e = refl
none_enc_of des e = cc
none_enc_of tdes e = cc
none_enc_of aes e = cc
none_enc_of (other_enc n) e = cc

module _ (c : Crypto) (pw : Bytes) (i : Info) (w : WellInfo i) (v : Verified c pw i)
    (salt_bytes : AllBytes i.salt) (iv_bytes : AllBytes i.iv) where
  abbrev typed : Info
  typed = record new_info { version = codes "1.0"; message_type = i.message_type }

  typed-unkeyed : record typed { iv = i.iv; enc = i.enc } ≡ unkeyed i
  typed-unkeyed = λ j. record (unkeyed i) { version = sym w.version_is j }

  parse_enc-name :
      is_encrypted i.enc ≡ true
      → parse_enc typed (enc_name i.enc ++ b':' ∷ format_hex i.iv)
        ≡ ok (record typed { iv = i.iv; enc = i.enc })
  unfolding parse_enc
  parse_enc-name on =
      let (b, made, _, _) = HasCipher-block i _ v.has_cipher on in
      let (name, known) = enc_name-IsName i.enc _ on made in
      rw (index_byte-append b':' (enc_name i.enc) (format_hex i.iv) name.no_colon, parse_enc)
        (rw (
          drop-append_suc (enc_name i.enc) b':' (format_hex i.iv),
          decode_string-format_hex i.iv iv_bytes,
          take-append (enc_name i.enc) (b':' ∷ format_hex i.iv),
          known,
        ))

  parse_security-encrypted :
      is_encrypted i.enc ≡ true
      → parse_security c pw typed ((enc_name i.enc ++ b':' ∷ format_hex i.iv) ++ b' ' ∷ key_text i)
        ≡ ok i
  unfolding parse_security
  parse_security-encrypted on =
      let (b, made, _, _) = HasCipher-block i _ v.has_cipher on in
      let name = (enc_name-IsName i.enc _ on made).0 in
      let front = enc_name i.enc ++ b':' ∷ format_hex i.iv in
      let lacks : Lacks b' ' front =
        Lacks-append b' ' (enc_name i.enc) (b':' ∷ format_hex i.iv) name.word.no_blank
          ((λ e. absurd (omega arith)), Lacks-format_hex b' ' i.iv (inl (omega arith)) iv_bytes) in
      rw (index_byte-append b' ' front (key_text i) lacks, parse_security)
        (rw
          (
            take-append front (b' ' ∷ key_text i),
            drop-append front (b' ' ∷ key_text i),
            parse_enc-name on,
          )
          (rw
            (trim_space_blank (key_text i) (key_text-StartsInk c pw i v salt_bytes)
              (key_text-EndsInk c pw i v salt_bytes))
            (rw typed-unkeyed (parse_key-key_text c pw i v salt_bytes))))

  abbrev encrypted_text : Bytes
  encrypted_text = (enc_name i.enc ++ b':' ∷ format_hex i.iv) ++ b' ' ∷ key_text i

  to_upper-encrypted_text : IsName (enc_name i.enc) → to_upper encrypted_text ≡ encrypted_text
  unfolding to_upper
  to_upper-encrypted_text name = rw (
    to_upper-append (enc_name i.enc ++ b':' ∷ format_hex i.iv) (b' ' ∷ key_text i),
    to_upper-append (enc_name i.enc) (b':' ∷ format_hex i.iv),
    name.word.capitals,
    to_upper-format_hex i.iv iv_bytes,
    to_upper-key_text c pw i v salt_bytes,
  )

  security_text-encrypted : is_encrypted i.enc ≡ true → security_text i ≡ encrypted_text
  unfolding security_text
  security_text-encrypted on =
      simp on (sym (append_assoc (enc_name i.enc) (b':' ∷ format_hex i.iv) (b' ' ∷ key_text i)))

  key_text-behind : (s : Bytes) → EndsInk (s ++ b' ' ∷ key_text i)
  key_text-behind s =
      EndsInk-append s (b' ' ∷ key_text i) (λ e. cc)
        (EndsInk-append (b' ' ∷ []) (key_text i) (key_text-ne-nil c pw i v salt_bytes)
          (key_text-EndsInk c pw i v salt_bytes))

  -- With encryption.
  parse-to_string_encrypted : is_encrypted i.enc ≡ true → parse_info c (to_string i) pw ≡ ok i
  unfolding to_string
  parse-to_string_encrypted on =
      let (b, made, _, _) = HasCipher-block i _ v.has_cipher on in
      let name = (enc_name-IsName i.enc _ on made).0 in
      let starts : StartsInk encrypted_text = rw append_assoc (name.word.first _) in
      let ne : encrypted_text ≢ [] = rw append_assoc (name.at_colon _) in
      rw (security_text-encrypted on) (
        parse_info-line c pw i.message_type encrypted_text w.type_is starts
          (key_text-behind (enc_name i.enc ++ b':' ∷ format_hex i.iv)) ne
          (to_upper-encrypted_text name)
        ∙ parse_security-encrypted on)

  abbrev signed_text : Bytes
  signed_text = codes "NONE" ++ b' ' ∷ key_text i

  security_text-signed : i.enc ≡ none_enc → security_text i ≡ signed_text
  unfolding security_text enc_name
  security_text-signed off =
      let filled : 0 < length i.key_hash =
        subst (λ (s : Bytes). 0 < length s) (sym v.key_hash_is)
          (new_hash-pos c i.hash_alg v.sum _ v.hashes) in
      ground arith

  to_upper-signed_text : to_upper signed_text ≡ signed_text
  unfolding to_upper
  to_upper-signed_text = rw (to_upper-key_text c pw i v salt_bytes)

  parse_security-signed :
      i.enc ≡ none_enc → i.iv ≡ [] → parse_security c pw typed signed_text ≡ ok i
  unfolding parse_security parse_enc index_byte bytes_eq
  parse_security-signed off no_iv =
      let e : typed ≡ unkeyed i =
        (λ j. record typed { iv = sym no_iv j; enc = sym off j }) ∙ typed-unkeyed in
      rw
        (trim_space_blank (key_text i) (key_text-StartsInk c pw i v salt_bytes)
          (key_text-EndsInk c pw i v salt_bytes))
        (rw e (parse_key-key_text c pw i v salt_bytes))

  -- With a key hash alone.
  parse-to_string_signed : i.enc ≡ none_enc → i.iv ≡ [] → parse_info c (to_string i) pw ≡ ok i
  unfolding to_string
  parse-to_string_signed off no_iv =
      let starts : StartsInk signed_text = unfold is_space in refl in
      rw (security_text-signed off) (
        parse_info-line c pw i.message_type signed_text w.type_is starts
          (key_text-behind (codes "NONE")) (λ e. cc) to_upper-signed_text
        ∙ parse_security-signed off no_iv)

  -- A peer that knows the password reads an information line back as it was written: the version,
  -- the type, the algorithms, the IV, the key hash, the salt and the cipher. Without encryption the
  -- line has no place for an IV, so there must be none.
  pub parse_info-to_string : (i.enc ≡ none_enc → i.iv ≡ []) → parse_info c (to_string i) pw ≡ ok i
  parse_info-to_string no_iv = elim (Bool-cases (is_encrypted i.enc)) [
    | inl on ↦ parse-to_string_encrypted on
    | inr off ↦ let e = none_enc_of i.enc off in parse-to_string_signed e (no_iv e)
  ]

security_text-Plain : (i : Info) → Plain i → security_text i ≡ codes "NONE"
unfolding security_text enc_name
security_text-Plain i p = ground (arith, p.no_encryption, p.no_key_hash)

parse_security-plain :
    (c : Crypto) (pw : Bytes) (i : Info) → parse_security c pw i (codes "NONE") ≡ ok i
unfolding parse_security index_byte bytes_eq
parse_security-plain c pw i = refl

-- An Info of version 1.0 and a known message type, without encryption, IV, key hash and cipher: it is
-- printed and read back, whatever the password, with its version and type; the line carries no hash
-- algorithm and no salt, so the reader has MD5 and an empty salt.
pub parse_info-to_string-Plain :
    (c : Crypto) (pw : Bytes) (i : Info)
    → WellInfo i
    → Plain i
    → parse_info c (to_string i) pw ≡ ok (record i { hash_alg = md5; salt = [] })
unfolding to_string
parse_info-to_string-Plain c pw i w p = rw (security_text-Plain i p) (
    parse_info-line c pw i.message_type (codes "NONE") w.type_is (unfold is_space in refl)
      (unfold is_space in refl) (λ e. cc) (unfold to_upper in refl)
    ∙ parse_security-plain c pw _
    ∙ ap ok (λ j. record {
      version = sym w.version_is j;
      message_type = i.message_type;
      enc = sym p.no_encryption j;
      iv = sym p.no_iv j;
      hash_alg = md5;
      key_hash = sym p.no_key_hash j;
      salt = [];
      cipher = sym p.no_cipher j;
    }))

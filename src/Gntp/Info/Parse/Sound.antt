-- ===== src/Gntp/Info/Parse/Sound.antt =====
-- `ParseInfo` lets through only what the password verifies.
use go_notify.Base.{
  ◌+◌, ◌≡◌, ◌≢◌, ◌⊎◌, inl, inr, refl, sym, ap, ◌∙◌, subst, true, [], ◌∷◌, ◌++◌, Option, none, some,
  arith, Bool-cases, Option-cases, length, take, drop, Bytes, codes, bytes_eq, bytes_eq_iff,
}
use go_notify.Go.Strings.{to_upper, trim_space, index_byte, has_prefix}
use go_notify.Go.Hex.{decode_string}
use go_notify.Gntp.Result.{
  protocol, password, ok, bind-eq-ok, guard-eq-ok, or_fail-eq-ok, ok-injective,
}
use go_notify.Gntp.Crypto.{Block, block_size, Crypto, new_hash, new_cipher, is_encrypted}
use go_notify.Go.Strings.Cut.{trim_space-drop-ne-nil}
use go_notify.Gntp.Info.{Info, new_info, is_message_type}
use go_notify.Gntp.Info.Verified.{HasCipher, Verified, Plain, WellInfo}
use go_notify.Gntp.Info.Parse.{
  enc_of_name, hash_of_name, parse_enc, check_iv, set_cipher, verify, parse_key, parse_security,
  parse_type, parse_info,
}

-- What the last steps leave as it was read.
abbrev Keeps : Info → Info → Type 0
Keeps i j =
    (j.version ≡ i.version)
    × (j.message_type ≡ i.message_type)
    × (j.hash_alg ≡ i.hash_alg)
    × (j.key_hash ≡ i.key_hash)
    × (j.salt ≡ i.salt)

check_iv_sound :
    (i : Info) (o : Option Block) {j : Info}
    → check_iv i o ≡ ok j
    → (b : Block) × (o ≡ some b)
      × (length i.iv ≡ block_size b.cipher)
      × (j ≡ record i { cipher = some b })
unfolding check_iv
check_iv_sound i none e = cc
check_iv_sound i (some b) e = (b, refl, ground arith, ground arith)

set_cipher_sound :
    (i : Info) (k : Bytes) {j : Info}
    → i.cipher ≡ none
    → set_cipher i k ≡ ok j
    → HasCipher j k × Keeps i j
unfolding set_cipher
set_cipher_sound i k {j} n e = elim (Bool-cases (is_encrypted i.enc)) [
  | inl on ↦
      let (o, made, checked) = bind-eq-ok (new_cipher i.enc k) (λ b. check_iv i b) (simp on at e) in
      let (b, is_b, fits, is_j) = check_iv_sound i o checked in
      rw is_j (inr (b, on, made ∙ ap ok is_b, refl, fits), (refl, refl, refl, refl, refl))
  | inr off ↦
      let is_j : i ≡ j = ok-injective (simp off at e) in
      rw (← is_j) (inl (off, n), (refl, refl, refl, refl, refl))
]

verify_sound :
    (c : Crypto) (pw kh : Bytes) (i : Info) {j : Info}
    → i.cipher ≡ none
    → verify c pw kh i ≡ ok j
    → Verified c pw j × (j.version ≡ i.version) × (j.message_type ≡ i.message_type)
unfolding verify
verify_sound c pw kh i {j} n e =
    let (sum, hashes, e1) = bind-eq-ok (new_hash c i.hash_alg) _ e in
    let (same, e2) = guard-eq-ok (bytes_eq (sum (sum (pw ++ i.salt))) kh) password _ e1 in
    let (has, keeps) = set_cipher_sound (record i { key_hash = kh }) (sum (pw ++ i.salt)) n e2 in
    let salted : sum (pw ++ j.salt) ≡ sum (pw ++ i.salt) = ap (λ s. sum (pw ++ s)) keeps.4 in
    (
      record {
        sum = sum;
        hashes = ap (new_hash c) keeps.2 ∙ hashes;
        key_hash_is = keeps.3 ∙ sym ((bytes_eq_iff _ kh).0 same) ∙ ap sum (sym salted);
        has_cipher = subst (HasCipher j) (sym salted) has;
      },
      keeps.0,
      keeps.1,
    )

parse_key_sound :
    (c : Crypto) (pw l : Bytes) (i : Info) {j : Info}
    → l ≢ []
    → i.cipher ≡ none
    → parse_key c pw i l ≡ ok j
    → Verified c pw j × (j.version ≡ i.version) × (j.message_type ≡ i.message_type)
unfolding parse_key
parse_key_sound c pw [] i ne n e = absurd (ne refl)
parse_key_sound c pw (b ∷ bs) i {j} ne n e =
    let (x, fx, e1) = or_fail-eq-ok (index_byte b':' (b ∷ bs)) protocol _ e in
    let rest = drop (x + 1) (b ∷ bs) in
    let (y, fy, e2) = or_fail-eq-ok (index_byte b'.' rest) protocol _ e1 in
    let (kh, fk, e3) = or_fail-eq-ok (decode_string (take y rest)) protocol _ e2 in
    let (salt, fs, e4) = or_fail-eq-ok (decode_string (drop (y + 1) rest)) protocol _ e3 in
    verify_sound c pw kh (record i { hash_alg = hash_of_name (take x (b ∷ bs)); salt = salt }) n e4

parse_enc_sound :
    (i : Info) (id : Bytes) {j : Info}
    → parse_enc i id ≡ ok j
    → (j.cipher ≡ i.cipher) × (j.version ≡ i.version) × (j.message_type ≡ i.message_type)
unfolding parse_enc
parse_enc_sound i id {j} e = elim (Option-cases (index_byte b':' id)) [
  | inl missing ↦ let e1 = rw (missing, parse_enc) at e in ground arith
  | inr (x, found) ↦
      let e1 = rw (found, parse_enc) at e in
      let (iv, _, e2) = or_fail-eq-ok (decode_string (drop (x + 1) id)) protocol _ e1 in
      let (a, _, e3) = bind-eq-ok (enc_of_name (take x id)) _ e2 in
      rw (← ok-injective e3) (refl, refl, refl)
]

-- A line has no security, or is verified; nothing else gets through.
abbrev pub IsSecured : Crypto → Bytes → Info → Type 0
IsSecured c pw j = Plain j ⊎ Verified c pw j

parse_security_sound :
    (c : Crypto) (pw s : Bytes) (i : Info) {j : Info}
    → Plain i
    → parse_security c pw i (trim_space s) ≡ ok j
    → IsSecured c pw j × (j.version ≡ i.version) × (j.message_type ≡ i.message_type)
unfolding parse_security
parse_security_sound c pw s i {j} p e = elim (Option-cases (index_byte b' ' (trim_space s))) [
  | inl missing ↦
      let e1 = rw (missing, parse_security) at e in
      let is_j : i ≡ j = ground arith in rw (← is_j) (inl p, refl, refl)
  | inr (x, found) ↦
      let e1 = rw (found, parse_security) at e in
      let (k, ek, e2) = bind-eq-ok (parse_enc i (take x (trim_space s))) _ e1 in
      let kept = parse_enc_sound i (take x (trim_space s)) ek in
      let done =
        parse_key_sound c pw (trim_space (drop x (trim_space s))) k
          (trim_space-drop-ne-nil b' ' s found) (kept.0 ∙ p.no_cipher) e2 in
      (inr done.0, done.1 ∙ kept.1, done.2 ∙ kept.2)
]

parse_type_sound :
    (c : Crypto) (pw l : Bytes) (i : Info) {j : Info}
    → Plain i
    → parse_type c pw i l ≡ ok j
    → IsSecured c pw j × (j.version ≡ i.version) × (is_message_type j.message_type ≡ true)
unfolding parse_type
parse_type_sound c pw l i {j} p e =
    let (x, _, e1) = or_fail-eq-ok (index_byte b' ' l) protocol _ e in
    let (known, e2) = guard-eq-ok (is_message_type (take x l)) protocol _ e1 in
    let typed = record i { message_type = take x l } in
    let done =
      parse_security_sound c pw (drop x l) typed
        (record {
          no_encryption = p.no_encryption;
          no_iv = p.no_iv;
          no_key_hash = p.no_key_hash;
          no_cipher = p.no_cipher;
        })
        e2 in
    (done.0, done.1, rw done.2 known)

-- Whatever line and password: an `Info` that `ParseInfo` returns is of version 1.0 and of a known
-- message type, and either has no security at all, or its key hash is the one that the password
-- and the salt give, and then an encryption algorithm comes with the cipher of that key and an IV
-- of one block.
pub parse_info_sound :
    (c : Crypto) (l pw : Bytes) (i : Info)
    → parse_info c l pw ≡ ok i
    → WellInfo i × IsSecured c pw i
unfolding parse_info
parse_info_sound c l pw i e =
    let (_, e1) = guard-eq-ok (has_prefix (codes "GNTP/") (to_upper l)) protocol _ e in
    let rest = drop 5 (to_upper l) in
    let (x, _, e2) = or_fail-eq-ok (index_byte b' ' rest) protocol _ e1 in
    let (v, e3) = guard-eq-ok (bytes_eq (take x rest) (codes "1.0")) protocol _ e2 in
    let plain : Plain (record new_info { version = take x rest }) = record {
      no_encryption = refl;
      no_iv = refl;
      no_key_hash = refl;
      no_cipher = refl;
    } in
    let done =
      parse_type_sound c pw (trim_space (drop x rest)) (record new_info { version = take x rest })
        plain e3 in
    (
      record {
        version_is = done.1 ∙ (bytes_eq_iff (take x rest) (codes "1.0")).0 v;
        type_is = done.2;
      },
      done.0,
    )

-- ===== src/Gntp/Info/Print/Keyed.antt =====
-- What `Info.SetPassword` sets up is what `ParseInfo` verifies.
use go_notify.Base.{
  ℕ, ◌≡◌, inl, inr, refl, sym, ap, ◌∙◌, true, [], ◌∷◌, ◌++◌, Option, none, some, ◌==◌, ==_iff,
  Bool-cases, length, Bytes, codes,
}
use go_notify.Go.Hex.Laws.{AllBytes}
use go_notify.Gntp.Result.{system, ok, bind-eq-ok, or_fail-eq-ok, or_fail-eq-ok_some, ok-injective}
use go_notify.Gntp.Crypto.{
  HashAlgorithm, EncryptionAlgorithm, none_enc, Block, block_size, Crypto, new_hash, new_cipher,
  is_encrypted,
}
use mathlib.Core.Bool.{true≢false}
use go_notify.Gntp.Info.{Info, new_info, is_message_type}
use go_notify.Gntp.Info.Verified.{Verified}
use go_notify.Gntp.Info.RoundTrip.{parse_info-to_string}
use go_notify.Gntp.Info.Parse.{parse_info}
use go_notify.Gntp.Info.Print.{Entropy, fill_salt, set_block, set_password, to_string}

-- `rand.Read` fills the slice it is given.
abbrev pub Fills : Entropy → Type 0
Fills r = (n : ℕ) (s : Bytes) → r n ≡ some s → (length s ≡ n) × AllBytes s

-- `Client.send` fills in nothing but these fields.
abbrev pub request_info : Bytes → EncryptionAlgorithm → HashAlgorithm → Info
request_info t e h = record new_info {
  version = codes "1.0";
  message_type = t;
  enc = e;
  hash_alg = h;
}

set_block_sound :
    (r : Entropy) (i : Info) (o : Option Block) {j : Info}
    → Fills r
    → AllBytes i.iv
    → set_block r i o ≡ ok j
    → (b : Block) × (s : Bytes) × (o ≡ some b)
      × (length s ≡ block_size b.cipher)
      × AllBytes s
      × (j ≡ record i { cipher = some b; iv = s })
unfolding set_block
set_block_sound r i none f a e = cc
set_block_sound r i (some b) f a e = elim (Bool-cases (length i.iv == block_size b.cipher)) [
  | inl fits ↦ (b, i.iv, refl, (==_iff _ _).0 fits, a, sym (ok-injective (simp fits at e)))
  | inr short ↦
      let (s, drawn, is_j) =
        or_fail-eq-ok (r (block_size b.cipher)) (system 0) _ (simp short at e) in
      let (fits, bytes) = f (block_size b.cipher) s drawn in
      (b, s, refl, fits, bytes, sym (ok-injective is_j))
]

fill_salt_sound : (r : Entropy) {s : Bytes} → Fills r → fill_salt r [] ≡ ok s → AllBytes s
unfolding fill_salt
fill_salt_sound r {s} f e = (f 16 s (or_fail-eq-ok_some (r 16) (system 0) e)).1

-- What a request's `Info` holds after `SetPassword`.
pub record IsKeyed (c : Crypto) (pw : Bytes) (t : Bytes) (a : EncryptionAlgorithm) (j : Info)
    : Type 0 where
  pub version_is : j.version ≡ codes "1.0"
  pub type_is : j.message_type ≡ t
  pub enc_is : j.enc ≡ a
  pub verified : Verified c pw j
  pub salt_bytes : AllBytes j.salt
  pub iv_bytes : AllBytes j.iv
  pub no_iv : j.enc ≡ none_enc → j.iv ≡ []

module _ (c : Crypto) (salts ivs : Entropy) (fs : Fills salts) (fi : Fills ivs) (x : ℕ)
    (xs : Bytes) where
  abbrev pw : Bytes
  pw = x ∷ xs

  pub set_password_sound :
      (t : Bytes) (a : EncryptionAlgorithm) (h : HashAlgorithm) (j : Info)
      → set_password c salts ivs pw (request_info t a h) ≡ ok j
      → IsKeyed c pw t a j
  unfolding set_password
  set_password_sound t a h j e =
      let (salt, es, e1) = bind-eq-ok (fill_salt salts []) _ e in
      let (sum, hashes, e2) = bind-eq-ok (new_hash c h) _ e1 in
      let salted = fill_salt_sound salts fs es in
      let k = sum (pw ++ salt) in
      let keyed = record (request_info t a h) { salt = salt; key_hash = sum k } in
      elim (Bool-cases (is_encrypted a)) [
        | inl on ↦
            let (o, made, e3) =
              bind-eq-ok (new_cipher a k) (λ b. set_block ivs keyed b) (simp on at e2) in
            let (b, s, is_b, fits, bytes, is_j) = set_block_sound ivs keyed o fi tt e3 in
            rw is_j (record {
              version_is = refl;
              type_is = refl;
              enc_is = refl;
              verified = record {
                sum = sum;
                hashes = hashes;
                key_hash_is = refl;
                has_cipher = inr (b, on, made ∙ ap ok is_b, refl, fits);
              };
              salt_bytes = salted;
              iv_bytes = bytes;
              no_iv = λ off. absurd (true≢false (sym on ∙ ap is_encrypted off));
            })
        | inr off ↦
            let is_j : keyed ≡ j = ok-injective (simp off at e2) in
            rw (← is_j) (record {
              version_is = refl;
              type_is = refl;
              enc_is = refl;
              verified = record {
                sum = sum;
                hashes = hashes;
                key_hash_is = refl;
                has_cipher = inl (off, refl);
              };
              salt_bytes = salted;
              iv_bytes = tt;
              no_iv = λ _. refl;
            })
      ]

  -- With a password that is not empty, a `rand.Read` that fills its slice, and a known message type:
  -- once `SetPassword` has succeeded on a request, its line is read back whole under the same
  -- password, whatever the algorithms and the random salt and IV.
  pub parse_info-set_password :
      (t : Bytes) (a : EncryptionAlgorithm) (h : HashAlgorithm) (j : Info)
      → is_message_type t ≡ true
      → set_password c salts ivs pw (request_info t a h) ≡ ok j
      → parse_info c (to_string j) pw ≡ ok j
  parse_info-set_password t a h j known e =
      let k = set_password_sound t a h j e in
      parse_info-to_string c pw j
        (record { version_is = k.version_is; type_is = rw k.type_is known }) k.verified k.salt_bytes
        k.iv_bytes k.no_iv

-- ===== src/Gntp/Info/Print/Clear.antt =====
-- When `Info.SetPassword` leaves a request without a cipher, so that `Encrypt` changes nothing.
use go_notify.Base.{◌≡◌, ◌↔◌, ◌⊎◌, inl, inr, refl, ap, ◌∙◌, false, [], ◌∷◌, none, Bytes, Bool-cases}
use go_notify.Gntp.Result.{ok, ok-injective}
use go_notify.Gntp.Crypto.{
  Crypto, EncryptionAlgorithm, none_enc, des, tdes, aes, other_enc, HashAlgorithm, is_encrypted,
}
use go_notify.Gntp.Info.{Info}
use go_notify.Gntp.Info.Verified.{HasCipher-block, HasCipher-none}
use go_notify.Gntp.Info.Print.{Entropy, set_password}
use go_notify.Gntp.Info.Print.Keyed.{Fills, request_info, set_password_sound}

not_encrypted : (a : EncryptionAlgorithm) → is_encrypted a ≡ false → a ≡ none_enc
not_encrypted none_enc e = refl
not_encrypted des e = cc
not_encrypted tdes e = cc
not_encrypted aes e = cc
not_encrypted (other_enc n) e = cc

-- With a `rand.Read` that fills its slice: once `SetPassword` has succeeded on a request, the algorithm is the one that was asked for, and
-- there is no cipher exactly where the password is empty or the algorithm is NONE.
pub set_password-none :
    (c : Crypto) (salts ivs : Entropy) (pw t : Bytes) (a : EncryptionAlgorithm) (h : HashAlgorithm)
    (j : Info)
    → Fills salts
    → Fills ivs
    → set_password c salts ivs pw (request_info t a h) ≡ ok j
    → (j.enc ≡ a) × ((j.cipher ≡ none) ↔ ((pw ≡ []) ⊎ (a ≡ none_enc)))
unfolding set_password
set_password-none c salts ivs [] t a h j fs fi e =
    rw (← ok-injective e) (refl, ((λ n. inl refl), λ o. refl))
set_password-none c salts ivs (x ∷ xs) t a h j fs fi e =
    let k = set_password_sound c salts ivs fs fi x xs t a h j e in
    (
      k.enc_is,
      (
        (λ bare. elim (Bool-cases (is_encrypted a)) [
          | inl on ↦
              let (b, made, has, fits) =
                HasCipher-block j _ k.verified.has_cipher (ap is_encrypted k.enc_is ∙ on) in
              cc
          | inr off ↦ inr (not_encrypted a off)
        ]),
        λ o. elim o [
          | inl empty ↦ cc
          | inr plain ↦
              HasCipher-none j _ k.verified.has_cipher (ap is_encrypted (k.enc_is ∙ plain))
        ],
      ),
    )

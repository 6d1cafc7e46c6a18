-- ===== src/Gntp/Info/Crypt/Padding.antt =====
-- Padding and its removal.
use go_notify.Base.{
  ℕ, zero, suc, ◌+◌, ◌-◌, ◌%◌, ◌<◌, ◌≤◌, ◌≡◌, ◌≢◌, ◌↔◌, ◌⊎◌, inl, inr, refl, sym, ap, ◌∙◌, true, [],
  ◌∷◌, ◌++◌, append_assoc, some, arith, leb, ◌==◌, ==_iff, Bool-cases, Option-cases, length, take,
  drop, replicate, length-append, take-append-drop, take-append, drop-append, length-drop,
  length-replicate, last, last-append, Bytes,
}
use go_notify.Gntp.Result.{pkcs7, ok, panic, guard-eq-ok, ok-injective}
use go_notify.Gntp.Crypto.{Cipher, des_cipher, tdes_cipher, aes_cipher, Block, block_size, Crypto}
use go_notify.Gntp.Info.{Info}
use go_notify.Gntp.Info.Crypt.{
  pad_block, encrypt_with, encrypt, all_are, unpad, decrypt_with, decrypt,
}

replicate-suc : (n x : ℕ) → replicate (suc n) x ≡ replicate n x ++ x ∷ []
replicate-suc zero x = refl
replicate-suc (suc n) x = ap (◌∷◌ x) (replicate-suc n x)

last-replicate : (s : Bytes) (n x : ℕ) → last (s ++ replicate (suc n) x) ≡ some x
last-replicate s n x =
    rw (replicate-suc n x, ← append_assoc s (replicate n x) (x ∷ []))
      (last-append (s ++ replicate n x) x)

all_are-replicate : (n x : ℕ) → all_are x (replicate n x) ≡ true
unfolding all_are
all_are-replicate zero x = refl
all_are-replicate (suc n) x = ground (arith, all_are-replicate n x)

all_are_iff : (v : ℕ) (s : Bytes) → all_are v s ≡ true → s ≡ replicate (length s) v
unfolding all_are
all_are_iff v [] h = refl
all_are_iff v (x ∷ s) h = ground (arith, all_are_iff v s)

-- From 1 to a whole block of padding is taken off again.
unpad-append : (s : Bytes) (n : ℕ) → unpad (s ++ replicate (suc n) (suc n)) ≡ ok s
unfolding unpad
unpad-append s n =
    let pad = replicate (suc n) (suc n) in
    let cut : length (s ++ pad) - suc n ≡ length s =
      omega (arith, length-append s pad, length-replicate (suc n) (suc n)) in
    let fits : leb (suc n) (length (s ++ pad)) ≡ true =
      ground (arith, length-append s pad, length-replicate (suc n) (suc n)) in
    rw (last-replicate s n (suc n), unpad)
      (rw (fits, cut)
        (rw (drop-append s pad, all_are-replicate (suc n) (suc n), take-append s pad)))

-- Padded data are whole blocks, and at least one byte longer.
pad_amount : (bs n : ℕ) → 0 < bs → (m : ℕ) × (bs - n % bs ≡ suc m)
pad_amount bs n h = let lt : n % bs < bs = grind arith in (bs - n % bs - 1, omega arith)

length-pad_block : (bs : ℕ) (s : Bytes) → length (pad_block bs s) ≡ length s + (bs - length s % bs)
unfolding pad_block
length-pad_block bs s = rw (
  length-append s (replicate (bs - length s % bs) (bs - length s % bs)),
  length-replicate (bs - length s % bs) (bs - length s % bs),
)

-- The length of padded data, for each cipher.
pad_block-whole :
    (k : Cipher) (s : Bytes)
    → let n = length (pad_block (block_size k) s) in
      (n % block_size k ≡ 0) × (length s < n) × (n ≤ length s + block_size k)
pad_block-whole des_cipher s = omega (arith, length-pad_block 8 s)
pad_block-whole tdes_cipher s = omega (arith, length-pad_block 8 s)
pad_block-whole aes_cipher s = omega (arith, length-pad_block 16 s)

unpad-pad_block : (bs : ℕ) (s : Bytes) → 0 < bs → unpad (pad_block bs s) ≡ ok s
unfolding pad_block
unpad-pad_block bs s h = let (m, e) = pad_amount bs (length s) h in rw e (unpad-append s m)

block_size-pos : (k : Cipher) → 0 < block_size k
block_size-pos des_cipher = omega arith
block_size-pos tdes_cipher = omega arith
block_size-pos aes_cipher = omega arith

unpad_split :
    (d p : Bytes) → unpad d ≡ ok p → (v : ℕ) × (last d ≡ some v) × (d ≡ p ++ replicate v v)
unfolding unpad
unpad_split d p e = elim (Option-cases (last d)) [
  | inl empty ↦ let e1 = rw (empty, unpad) at e in cc
  | inr (v, found) ↦
      let e1 = rw (found, unpad) at e in
      let n = length d - v in
      let (fits, e2) = guard-eq-ok (leb v (length d)) pkcs7 _ e1 in
      let (same, e3) = guard-eq-ok (all_are v (drop n d)) pkcs7 _ e2 in
      let count : length (drop n d) ≡ v = ground (arith, length-drop n d) in
      let tail = all_are_iff v (drop n d) same ∙ ap (λ m. replicate m v) count in
      (
        v,
        found,
        sym (take-append-drop n d)
            ∙ ap (λ q. take n d ++ q) tail
            ∙ ap (λ q. q ++ replicate v v) (ok-injective e3),
      )
]

unpad_join : (d p : Bytes) (v : ℕ) → last d ≡ some v → d ≡ p ++ replicate v v → unpad d ≡ ok p
unfolding unpad
unpad_join d p v found e =
    let size : length d ≡ length p + v =
      ap length e
      ∙ length-append p (replicate v v)
      ∙ ap (λ m. length p + m) (length-replicate v v) in
    let fits : leb v (length d) ≡ true = ground arith in
    let cut : length d - v ≡ length p = omega arith in
    rw (found, unpad)
      (rw (fits, cut)
        (rw (e, drop-append p (replicate v v))
          (rw (all_are-replicate v v, take-append p (replicate v v)))))

unpad-nil : (d : Bytes) → length d ≡ 0 → unpad d ≡ panic
unfolding unpad
unpad-nil [] h = refl
unpad-nil (x ∷ d) h = absurd (omega arith)

empty_or_not : (t : Bytes) → (t ≡ []) ⊎ (t ≢ [])
empty_or_not [] = inl refl
empty_or_not (x ∷ t) = inr (λ e. cc)

module _ (c : Crypto) (i : Info) (b : Block) (is_b : i.cipher ≡ some b) where
  -- What `Encrypt` computes where its cipher does not panic.
  encrypt-fits :
      (s : Bytes)
      → length i.iv ≡ block_size b.cipher
      → encrypt c i s ≡ ok (c.cbc_encrypt b i.iv (pad_block (block_size b.cipher) s))
  unfolding encrypt
  encrypt-fits s fits =
      rw (is_b, encrypt_with)
        (rw ((==_iff _ _).1 fits, (==_iff _ _).1 (pad_block-whole b.cipher s).0))

  decrypt-fits :
      (t : Bytes)
      → length i.iv ≡ block_size b.cipher
      → length t % block_size b.cipher ≡ 0
      → decrypt c i t ≡ unpad (c.cbc_decrypt b i.iv t)
  unfolding decrypt
  decrypt-fits t fits whole =
      rw (is_b, decrypt_with) (rw ((==_iff _ _).1 fits, (==_iff _ _).1 whole))

  -- With a cipher and an IV of one block, whatever the data: `Encrypt` gives a text in whole blocks
  -- that is longer by at least a byte and at most a block, and `Decrypt` gives the data back.
  pub decrypt-encrypt :
      (s : Bytes)
      → length i.iv ≡ block_size b.cipher
      → (t : Bytes) × (encrypt c i s ≡ ok t)
        × (decrypt c i t ≡ ok s)
        × (length t % block_size b.cipher ≡ 0)
        × (length s < length t)
        × (length t ≤ length s + block_size b.cipher)
  decrypt-encrypt s fits =
      let src = pad_block (block_size b.cipher) s in
      let (whole, more, most) = pad_block-whole b.cipher s in
      let t = c.cbc_encrypt b i.iv src in
      let same = c.encrypt_length b i.iv src in
      (
        t,
        encrypt-fits s fits,
        decrypt-fits t fits (rw same whole)
            ∙ rw (c.decrypt_encrypt b i.iv src fits whole)
                (unpad-pad_block (block_size b.cipher) s (block_size-pos b.cipher)),
        rw same whole,
        rw same more,
        rw same most,
      )

  -- It returns `p` exactly when the decrypted blocks are `p` and
  -- behind it as many bytes as the last byte says, each equal to the last byte. So the last byte
  -- may be more than a block, and it may be 0, and then nothing is taken off.
  decrypt_iff :
      (t p : Bytes)
      → length i.iv ≡ block_size b.cipher
      → length t % block_size b.cipher ≡ 0
      → (decrypt c i t ≡ ok p) ↔ (
          (v : ℕ) × (last (c.cbc_decrypt b i.iv t) ≡ some v)
          × (c.cbc_decrypt b i.iv t ≡ p ++ replicate v v))
  decrypt_iff t p fits whole =
      let d = c.cbc_decrypt b i.iv t in
      rw (decrypt-fits t fits whole) (unpad_split d p, λ (v, found, e). unpad_join d p v found e)

  -- A text that is empty, or not in whole blocks, or an IV that is not one block, panics `Decrypt`.
  decrypt-panic :
      (t : Bytes)
      → (length i.iv ≢ block_size b.cipher) ⊎ (length t % block_size b.cipher ≢ 0) ⊎ (t ≡ [])
      → decrypt c i t ≡ panic
  unfolding decrypt decrypt_with
  decrypt-panic t h = rw is_b (elim (Bool-cases (length i.iv == block_size b.cipher)) [
    | inr odd ↦ rw odd
    | inl fits ↦ rw fits (elim (Bool-cases (length t % block_size b.cipher == 0)) [
      | inr part ↦ rw part
      | inl whole ↦
          rw whole (unpad-nil (c.cbc_decrypt b i.iv t) (ground (arith, c.decrypt_length b i.iv t)))
    ])
  ])

  -- With a cipher: `Decrypt` panics on a text that is empty or not in whole blocks, and on any text
  -- where the IV is not one block. Else, on a text in whole blocks that is not empty, it returns `p` exactly when the decrypted blocks are `p` and
  -- behind it as many bytes as the last byte says, each equal to the last byte; so the last byte
  -- may be more than a block, and it may be 0, and then nothing is taken off.
  pub decrypt_cases :
      (t p : Bytes)
      → ((length i.iv ≢ block_size b.cipher) ⊎ (length t % block_size b.cipher ≢ 0) ⊎ (t ≡ []))
          × (decrypt c i t ≡ panic)
        ⊎ (length i.iv ≡ block_size b.cipher)
          × (length t % block_size b.cipher ≡ 0)
          × (t ≢ [])
          × ((decrypt c i t ≡ ok p) ↔ (
              (v : ℕ) × (last (c.cbc_decrypt b i.iv t) ≡ some v)
              × (c.cbc_decrypt b i.iv t ≡ p ++ replicate v v)))
  decrypt_cases t p = elim (Bool-cases (length i.iv == block_size b.cipher)) [
    | inr odd ↦
        let h : length i.iv ≢ block_size b.cipher = ground (arith, odd) in
        inl (inl h, decrypt-panic t (inl h))
    | inl fits ↦ elim (Bool-cases (length t % block_size b.cipher == 0)) [
      | inr part ↦
          let h : length t % block_size b.cipher ≢ 0 = ground (arith, part) in
          inl (inr (inl h), decrypt-panic t (inr (inl h)))
      | inl whole ↦ elim (empty_or_not t) [
        | inl e ↦ inl (inr (inr e), decrypt-panic t (inr (inr e)))
        | inr ne ↦
            let f = (==_iff _ _).0 fits in
            let w = (==_iff _ _).0 whole in inr (f, w, ne, decrypt_iff t p f w)
      ]
    ]
  ]

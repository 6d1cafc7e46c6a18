-- ===== src/Tests/Toy.antt =====
-- Stand-ins for Go's crypto packages: digests that tell the length alone, and a cipher that hides
-- nothing.
use go_notify.Base.{
  ℕ, zero, suc, ◌%◌, ◌<◌, ◌≡◌, refl, Option, some, arith, length, replicate, length-replicate,
  Bytes,
}
use go_notify.Go.Hex.Laws.{AllBytes}
use go_notify.Gntp.Crypto.{Crypto}

AllBytes-replicate : (n x : ℕ) → x < 256 → AllBytes (replicate n x)
AllBytes-replicate zero x h = tt
AllBytes-replicate (suc n) x h = (h, AllBytes-replicate n x h)

abbrev pub digest : ℕ → Bytes → Bytes
digest n s = replicate n (length s % 256)

pub digest-bytes : (n : ℕ) (s : Bytes) → AllBytes (digest n s)
digest-bytes n s = AllBytes-replicate n (length s % 256) (omega arith)

abbrev pub toy : Crypto
toy = record {
  md5_sum = digest 16;
  sha1_sum = digest 20;
  sha256_sum = digest 32;
  sha512_sum = digest 64;
  cbc_encrypt = λ b iv s. s;
  cbc_decrypt = λ b iv s. s;
  md5_bytes = digest-bytes 16;
  sha1_bytes = digest-bytes 20;
  sha256_bytes = digest-bytes 32;
  sha512_bytes = digest-bytes 64;
  md5_length = λ s. length-replicate 16 (length s % 256);
  sha1_length = λ s. length-replicate 20 (length s % 256);
  sha256_length = λ s. length-replicate 32 (length s % 256);
  sha512_length = λ s. length-replicate 64 (length s % 256);
  encrypt_length = λ b iv s. refl;
  decrypt_length = λ b iv s. refl;
  decrypt_encrypt = λ b iv s h k. refl;
}

-- `rand.Read` that gives zeros.
abbrev pub zeros : ℕ → Option Bytes
zeros n = some (replicate n 0)

pub zeros-fill : (n : ℕ) (s : Bytes) → zeros n ≡ some s → (length s ≡ n) × AllBytes s
zeros-fill n s e =
    let is_s : replicate n 0 ≡ s = cc in
    rw (← is_s) (length-replicate n 0, AllBytes-replicate n 0 (omega arith))

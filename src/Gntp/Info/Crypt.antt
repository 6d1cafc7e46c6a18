-- ===== src/Gntp/Info/Crypt.antt =====
-- `Info.Encrypt` and `Info.Decrypt` of gntp/gntp.go.
pub mod Padding
use go_notify.Base.{
  ℕ, ◌-◌, ◌%◌, Bool, true, ◌&&◌, [], ◌∷◌, ◌++◌, Option, none, some, leb, ◌==◌, length, take, drop,
  replicate, last, Bytes,
}
use go_notify.Gntp.Result.{pkcs7, Result, ok, panic, ◌>>=◌, ◌>>◌, guard, assert}
use go_notify.Gntp.Crypto.{Block, block_size, Crypto}
use go_notify.Gntp.Info.{Info}

-- `cipher.NewCBCEncrypter` panics unless the IV is one block, and `CryptBlocks` unless the data are
-- whole blocks.
abbrev pub crypt_blocks : Block → Bytes → Bytes → Result (Unit {0})
crypt_blocks b iv s =
    assert (length iv == block_size b.cipher) >> assert (length s % block_size b.cipher == 0)

-- The data with `pad` bytes of value `pad` behind them.
pub pad_block : ℕ → Bytes → Bytes
pad_block bs s = let pad = bs - length s % bs in s ++ replicate pad pad

encrypt_with : Crypto → Option Block → Bytes → Bytes → Result Bytes
unfolding pad_block
encrypt_with c none iv s = ok s
encrypt_with c (some b) iv s = do
  let src = pad_block (block_size b.cipher) s
  crypt_blocks b iv src
  ok (c.cbc_encrypt b iv src)

unfoldable pub encrypt : Crypto → Info → Bytes → Result Bytes
unfolding encrypt_with
encrypt c i s = encrypt_with c i.cipher i.iv s

pub all_are : ℕ → Bytes → Bool
all_are v [] = true
all_are v (x ∷ s) = x == v && all_are v s

pub unpad : Bytes → Result Bytes
unfolding last all_are
unpad dst = elim (last dst) [
  | none ↦ panic
  | some v ↦ do
    guard (leb v (length dst)) pkcs7
    let n = length dst - v
    guard (all_are v (drop n dst)) pkcs7
    ok (take n dst)
]

decrypt_with : Crypto → Option Block → Bytes → Bytes → Result Bytes
unfolding unpad
decrypt_with c none iv s = ok s
decrypt_with c (some b) iv s = do crypt_blocks b iv s; unpad (c.cbc_decrypt b iv s)

unfoldable pub decrypt : Crypto → Info → Bytes → Result Bytes
unfolding decrypt_with
decrypt c i s = decrypt_with c i.cipher i.iv s

-- ===== src/Windows/Guid.antt =====
-- `GUID.parse` of windows/notify_windows.go.
pub mod Formats
use go_notify.Base.{
  ℕ, ◌+◌, ◌-◌, ◌*◌, ◌^◌, [], ◌∷◌, ◌++◌, Option, none, some, ltb, ◌==◌, if◌then◌else◌, length, take,
  drop, last, Bytes,
}
use go_notify.Go.Hex.{hex_value, decode_string}

-- `windows.GUID`; Data4 is an array of eight bytes.
pub record Guid : Type 0 where
  pub data1 : ℕ
  pub data2 : ℕ
  pub data3 : ℕ
  pub data4 : Bytes

-- `strconv.ParseUint(s, 16, bits)`: digits alone, at least one, and a value that fits.
uint_from : ℕ → Bytes → Option ℕ
uint_from n [] = some n
uint_from n (c ∷ s) = elim (hex_value c) [ none ↦ none | some x ↦ uint_from (16 * n + x) s ]

fits : ℕ → Option ℕ → Option ℕ
fits limit none = none
fits limit (some n) = if ltb n limit then some n else none

unfoldable pub parse_uint : Bytes → ℕ → Option ℕ
unfolding uint_from fits
parse_uint [] limit = none
parse_uint (c ∷ s) limit = fits limit (uint_from 0 (c ∷ s))

infixl 5 ◌>>=◌
abbrev pub ◌>>=◌ : {A B : Type 0} → Option A → (A → Option B) → Option B
none >>= f = none
some a >>= f = f a

-- `case 32`; `none` is ErrGUID.
unfoldable pub parse_plain : Bytes → Option Guid
parse_plain s = do
  a ← parse_uint (take 8 s) (2 ^ 32)
  b ← parse_uint (take 4 (drop 8 s)) (2 ^ 16)
  c ← parse_uint (take 4 (drop 12 s)) (2 ^ 16)
  d ← decode_string (drop 16 s)
  some (record { data1 = a; data2 = b; data3 = c; data4 = d })

-- A group of the loop: the "-" in front of all but the first, then `n` bytes.
unfoldable pub dash : Bytes → Option Bytes
dash [] = none
dash (c ∷ s) = if c == b'-' then some s else none

unfoldable pub group : ℕ → Bytes → Option (Bytes × Bytes)
group n s = if ltb (length s) n then none else some (take n s, drop n s)

-- The loop over the five groups; what stands behind the last one is not looked at.
unfoldable pub parse_groups : Bytes → Option Guid
unfolding dash group
parse_groups s = do
  (g0, s) ← group 8 s
  a ← parse_uint g0 (2 ^ 32)
  s ← dash s
  (g1, s) ← group 4 s
  b ← parse_uint g1 (2 ^ 16)
  s ← dash s
  (g2, s) ← group 4 s
  c ← parse_uint g2 (2 ^ 16)
  s ← dash s
  (g3, s) ← group 4 s
  d ← decode_string g3
  s ← dash s
  (g4, s) ← group 12 s
  e ← decode_string g4
  some (record { data1 = a; data2 = b; data3 = c; data4 = d ++ e })

-- `if s[0] == '{'`: the last byte must be '}', and both are cut off.
unfoldable pub strip_braces : Bytes → Option Bytes
unfolding last
strip_braces [] = none
strip_braces (c ∷ s) =
    if c == b'{'
    then (last (c ∷ s) >>= λ z. if z == b'}' then some (take (length s - 1) s) else none)
    else some (c ∷ s)

unfoldable pub parse : Bytes → Option Guid
unfolding parse_plain parse_groups strip_braces
parse [] = none
parse (x ∷ xs) =
    if length (x ∷ xs) == 32
    then parse_plain (x ∷ xs)
    else (strip_braces (x ∷ xs) >>= λ s. parse_groups s)

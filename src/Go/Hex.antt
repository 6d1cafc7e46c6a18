-- ===== src/Go/Hex.antt =====
-- Package encoding/hex, and the verb %X of package fmt.
pub mod Laws
use go_notify.Base.{
  ℕ, ◌+◌, ◌-◌, ◌*◌, ◌/◌, ◌%◌, ◌&&◌, [], ◌∷◌, Option, none, some, ltb, leb, if◌then◌else◌, Bytes,
}

-- The value of a hexadecimal digit, of either case.
unfoldable pub hex_value : ℕ → Option ℕ
hex_value c =
    if leb b'0' c && leb c b'9'
    then some (c - b'0')
    else if leb b'A' c && leb c b'F'
    then some (c - 55)
    else if leb b'a' c && leb c b'f'
    then some (c - 87)
    else none

-- `hex.DecodeString`; `none` is an error.
unfoldable pub decode_string : Bytes → Option Bytes
unfolding hex_value
decode_string [] = some []
decode_string (a ∷ []) = none
decode_string (a ∷ b ∷ s) = elim (hex_value a) [
  | none ↦ none
  | some x ↦ elim (hex_value b) [
    | none ↦ none
    | some y ↦ elim (decode_string s) [ none ↦ none | some r ↦ some ((16 * x + y) ∷ r) ]
  ]
]

pub hex_digit : ℕ → ℕ
hex_digit x = if ltb x 10 then x + b'0' else x + 55

-- `%X` of a byte slice.
unfoldable pub format_hex : Bytes → Bytes
unfolding hex_digit
format_hex [] = []
format_hex (x ∷ s) = hex_digit (x / 16) ∷ hex_digit (x % 16) ∷ format_hex s

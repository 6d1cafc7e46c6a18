-- ===== src/Go/Hex/Laws.antt =====
-- Hexadecimal text and back.
use go_notify.Base.{ℕ, ◌/◌, ◌%◌, ◌<◌, ◌≡◌, ◌≢◌, ◌⊎◌, refl, ap, false, [], ◌∷◌, some, arith, Bytes}
use go_notify.Go.Strings.{upper_byte, to_upper, is_space}
use go_notify.Go.Strings.Cut.{Lacks, EndsInk}
use go_notify.Go.Hex.{hex_value, decode_string, hex_digit, format_hex}

abbrev pub AllBytes : Bytes → Type 0
AllBytes [] = Unit
AllBytes (x ∷ s) = (x < 256) × AllBytes s

hex_value-hex_digit : (x : ℕ) → x < 16 → hex_value (hex_digit x) ≡ some x
unfolding hex_value hex_digit
hex_value-hex_digit x h = ground arith

pub decode_string-format_hex : (s : Bytes) → AllBytes s → decode_string (format_hex s) ≡ some s
unfolding decode_string format_hex
decode_string-format_hex [] h = refl
decode_string-format_hex (x ∷ s) h =
    rw (hex_value-hex_digit (x / 16) (omega arith), decode_string)
      (rw (hex_value-hex_digit (x % 16) (omega arith), decode_string-format_hex s h.1)
        (ap some (ap (λ y. y ∷ s) (omega arith))))

hex_digit_upper : (x : ℕ) → x < 16 → upper_byte (hex_digit x) ≡ hex_digit x
unfolding hex_digit upper_byte
hex_digit_upper x h = ground arith

pub to_upper-format_hex : (s : Bytes) → AllBytes s → to_upper (format_hex s) ≡ format_hex s
unfolding to_upper format_hex
to_upper-format_hex [] h = refl
to_upper-format_hex (x ∷ s) h = rw (
  hex_digit_upper (x / 16) (omega arith),
  hex_digit_upper (x % 16) (omega arith),
  to_upper-format_hex s h.1,
)

-- No digit is a mark, such as a blank, a dot or a colon.
abbrev pub IsMark : ℕ → Type 0
IsMark b = (b < b'0') ⊎ (b ≡ b':')

hex_digit-ne : (b x : ℕ) → IsMark b → x < 16 → hex_digit x ≢ b
unfolding hex_digit
hex_digit-ne b x m h = ground arith

pub Lacks-format_hex : (b : ℕ) (s : Bytes) → IsMark b → AllBytes s → Lacks b (format_hex s)
unfolding format_hex
Lacks-format_hex b [] m h = tt
Lacks-format_hex b (x ∷ s) m h = (
  hex_digit-ne b (x / 16) m (omega arith),
  (hex_digit-ne b (x % 16) m (omega arith), Lacks-format_hex b s m h.1),
)

pub hex_digit-ink : (x : ℕ) → x < 16 → is_space (hex_digit x) ≡ false
unfolding hex_digit is_space
hex_digit-ink x h = ground arith

pub EndsInk-format_hex :
    (b : ℕ) (s : Bytes) → is_space b ≡ false → AllBytes s → EndsInk (b ∷ format_hex s)
unfolding format_hex
EndsInk-format_hex b [] e h = e
EndsInk-format_hex b (x ∷ s) e h =
    EndsInk-format_hex (hex_digit (x % 16)) s (hex_digit-ink (x % 16) (omega arith)) h.1

-- ===== src/Go/Decimal.antt =====
-- Decimal text of integers: the verb %v of package fmt, and `strconv`.
use go_notify.Base.{
  ℕ, zero, suc, ◌+◌, ◌-◌, ◌*◌, ◌/◌, ◌%◌, ◌^◌, ◌&&◌, [], ◌∷◌, ◌++◌, Option, none, some, ltb, leb,
  ◌==◌, if◌then◌else◌, Bytes,
}
use go_notify.Base.Int.{ℤ, pos, negsuc}

-- Fuel `suc n` is enough for `n`, which has at most that many digits.
unfoldable pub decimal : ℕ → ℕ → Bytes
decimal zero n = []
decimal (suc f) n =
    let more = decimal f (n / 10) ++ (b'0' + n % 10) ∷ [] in
    if ltb n 10 then (b'0' + n) ∷ [] else more

unfoldable pub format_nat : ℕ → Bytes
unfolding decimal
format_nat n = decimal (suc n) n

unfoldable pub format_int : ℤ → Bytes
unfolding format_nat
format_int (pos n) = format_nat n
format_int (negsuc n) = b'-' ∷ format_nat (suc n)

-- `strconv.Atoi`: a sign or none, digits alone and at least one, and a value that fits in the 64 bits
-- of an `int`.
digits_from : ℕ → Bytes → Option ℕ
digits_from n [] = some n
digits_from n (c ∷ s) =
    let rest = digits_from (10 * n + (c - b'0')) s in
    if leb b'0' c && leb c b'9' then rest else none

digits_of : Bytes → Option ℕ
unfolding digits_from
digits_of [] = none
digits_of (c ∷ s) = digits_from 0 (c ∷ s)

negated : ℕ → ℤ
negated zero = pos 0
negated (suc n) = negsuc n

positive : Option ℕ → Option ℤ
positive none = none
positive (some n) = if ltb n (2 ^ 63) then some (pos n) else none

negative : Option ℕ → Option ℤ
unfolding negated
negative none = none
negative (some n) = if leb n (2 ^ 63) then some (negated n) else none

unfoldable pub atoi : Bytes → Option ℤ
unfolding digits_of positive negative
atoi [] = none
atoi (c ∷ s) =
    if c == b'-'
    then negative (digits_of s)
    else if c == b'+'
    then positive (digits_of s)
    else positive (digits_of (c ∷ s))

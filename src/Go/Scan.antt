-- ===== src/Go/Scan.antt =====
-- `fmt.Sscanf` over ASCII text, as the packages use it: the format "%v.%v" into two ints.
use go_notify.Base.{
  ℕ, zero, suc, ◌+◌, ◌-◌, ◌*◌, ◌^◌, Bool, true, false, ◌&&◌, ◌||◌, [], ◌∷◌, Option, none, some, ltb,
  leb, ◌==◌, if◌then◌else◌, Bytes,
}
use go_notify.Base.Int.{ℤ, pos, negsuc}
use go_notify.Go.Strings.{is_space}

-- `SkipSpace`: `none` is the error "unexpected newline".
skip_space : Bytes → Option Bytes
unfolding is_space
skip_space [] = some []
skip_space (c ∷ s) =
    let rest = skip_space s in
    if c == b'\n' then none else if is_space c then rest else some (c ∷ s)

-- The value of a digit, a letter counting from ten on; 16 for any other byte.
digit : ℕ → ℕ
digit c =
    if leb b'0' c && leb c b'9'
    then c - b'0'
    else if leb b'a' c && leb c b'f'
    then c - b'a' + 10
    else if leb b'A' c && leb c b'F'
    then c - b'A' + 10
    else 16

-- What is accepted inside a number: the digits of the base, and underscores.
in_number : ℕ → ℕ → Bool
unfolding digit
in_number base c = c == b'_' || ltb (digit c) base

take_number : ℕ → Bytes → Bytes × Bytes
unfolding in_number
take_number base [] = ([], [])
take_number base (c ∷ s) =
    let (a, b) = take_number base s in if in_number base c then (c ∷ a, b) else ([], c ∷ s)

-- The base that `scanBasePrefix` finds in a text that starts with '0', and the text behind the prefix.
base_prefix : Bytes → ℕ × Bytes
base_prefix [] = (8, [])
base_prefix (c ∷ s) =
    if c == b'b' || c == b'B'
    then (2, s)
    else if c == b'o' || c == b'O'
    then (8, s)
    else if c == b'x' || c == b'X'
    then (16, s)
    else (8, c ∷ s)

has_prefix_letter : Bytes → Bool
has_prefix_letter [] = false
has_prefix_letter (c ∷ s) =
    c == b'b' || c == b'B' || c == b'o' || c == b'O' || c == b'x' || c == b'X'

-- `strconv.ParseUint` in base 0 behind the prefix, with the rule on underscores: each stands between
-- digits, or between the prefix and a digit. `after` tells whether a digit or the prefix is behind us.
digits_of : ℕ → Bool → ℕ → Bytes → Option ℕ
unfolding digit
digits_of base after n [] = if after then some n else none
digits_of base after n (c ∷ s) =
    let skipped = digits_of base false n s in
    let further = digits_of base true (base * n + digit c) s in
    if c == b'_'
    then (if after then skipped else none)
    else if ltb (digit c) base
    then further
    else none

negated : ℕ → ℤ
negated zero = pos 0
negated (suc n) = negsuc n

-- The range of an int of 64 bits.
in_range : Bool → Option ℕ → Option ℤ
unfolding negated
in_range minus none = none
in_range true (some n) = if leb n (2 ^ 63) then some (negated n) else none
in_range false (some n) = if ltb n (2 ^ 63) then some (pos n) else none

valued : Bool → Option ℕ → Bytes → Option (ℤ × Bytes)
unfolding in_range
valued minus n rest = elim (in_range minus n) [ none ↦ none | some z ↦ some (z, rest) ]

-- The token behind the sign, and what is left of the input. A prefix with a letter has a digit
-- behind it.
number : Bool → Bytes → Option (ℤ × Bytes)
unfolding base_prefix has_prefix_letter take_number digits_of valued
number minus [] = none
number minus (c ∷ s) =
    let (base, behind) = base_prefix s in
    let (token, rest) = take_number base behind in
    let (plain, plain_rest) = take_number 10 (c ∷ s) in
    if c == b'0'
    then (if has_prefix_letter s && elim token [ [] ↦ true | _ ↦ false ]
        then none
        else valued minus (digits_of base true 0 token) rest)
    else elim plain [ [] ↦ none | d ∷ ds ↦ valued minus (digits_of 10 false 0 (d ∷ ds)) plain_rest ]

signed : Bytes → Option (ℤ × Bytes)
unfolding number
signed [] = none
signed (c ∷ s) =
    let minus = number true s in
    let plus = number false s in
    if c == b'-' then minus else if c == b'+' then plus else number false (c ∷ s)

-- The verb %v for an int: `scanInt`.
scan_int : Bytes → Option (ℤ × Bytes)
unfolding skip_space signed
scan_int s = elim (skip_space s) [ none ↦ none | some t ↦ signed t ]

dot : Bytes → Option Bytes
dot [] = none
dot (c ∷ s) = if c == b'.' then some s else none

after_dot : ℤ → Option Bytes → Option (ℤ × ℤ)
unfolding scan_int
after_dot major none = none
after_dot major (some s) = elim (scan_int s) [
  | none ↦ none
  | some (minor, rest) ↦ some (major, minor)
]

-- `fmt.Sscanf(s, "%v.%v", &major, &minor)`; `none` is an error. What follows is not looked at.
unfoldable pub scan_version : Bytes → Option (ℤ × ℤ)
unfolding scan_int dot after_dot
scan_version s = elim (scan_int s) [ none ↦ none | some (major, rest) ↦ after_dot major (dot rest) ]

-- ===== src/Base/Bits.antt =====
-- The native `bit_or`: one equation for the lowest digit, and what follows for a number whose low
-- digits alone meet those of the other.
use Prim.Native.Nat.{
  ℕ, zero, suc, ◌+◌, ◌*◌, ◌/◌, ◌%◌, ◌≤◌, ◌<◌, max, bit_or, digits, bit_or-bitwise,
}
use mathlib.Core.Path.{◌≡◌, refl, ap}
use native.Mathlib.Omega.{arith}

abbrev or_digits : ℕ → ℕ → ℕ → ℕ
or_digits n a b = digits (λ c. c) max n a b

-- More fuel than digits changes nothing.
enough_digits : (n m a b : ℕ) → a ≤ n → a ≤ m → or_digits n a b ≡ or_digits m a b
enough_digits zero zero a b p q = refl
enough_digits (suc n) (suc m) (suc a) b p q =
    omega (arith, enough_digits n m (suc a / 2) (b / 2) (omega arith) (omega arith))
enough_digits (suc n) (suc m) zero b p q = refl
enough_digits (suc n) zero zero b p q = refl
enough_digits zero (suc m) zero b p q = refl
enough_digits (suc n) zero (suc a) b p q = absurd (omega arith)
enough_digits zero (suc m) (suc a) b p q = absurd (omega arith)

pub zero-or : (b : ℕ) → bit_or 0 b ≡ b
zero-or b = bit_or-bitwise 0 b

lowest_digit : (a b : ℕ) → bit_or a b ≡ bit_or (a / 2) (b / 2) * 2 + max (a % 2) (b % 2)
lowest_digit zero b = omega (arith, zero-or b, zero-or (b / 2))
lowest_digit (suc a) b = omega (
  arith,
  bit_or-bitwise (suc a) b,
  bit_or-bitwise (suc a / 2) (b / 2),
  enough_digits a (suc a / 2) (suc a / 2) (b / 2) (omega arith) (omega arith),
)

or-zero_fuel : (n a : ℕ) → a ≤ n → bit_or a 0 ≡ a
or-zero_fuel zero zero h = zero-or 0
or-zero_fuel zero (suc a) h = absurd (omega arith)
or-zero_fuel (suc n) a h = omega (arith, lowest_digit a 0, or-zero_fuel n (a / 2) (omega arith))

or-zero : (a : ℕ) → bit_or a 0 ≡ a
or-zero a = or-zero_fuel a a (omega arith)

or_le_fuel : (n a b : ℕ) → b ≤ n → (a ≤ bit_or a b) × (b ≤ bit_or a b)
or_le_fuel zero a b h = let e : b ≡ 0 = omega arith in rw e (omega (arith, or-zero a), omega arith)
or_le_fuel (suc n) a b h =
    let (p, q) = or_le_fuel n (a / 2) (b / 2) (omega arith) in
    (omega (arith, lowest_digit a b, p), omega (arith, lowest_digit a b, q))

pub or_le : (a b : ℕ) → (a ≤ bit_or a b) × (b ≤ bit_or a b)
or_le a b = or_le_fuel b a b (omega arith)

-- `x << k` and 2 to the power of k.
abbrev pub shift : ℕ → ℕ → ℕ
shift zero x = x
shift (suc k) x = 2 * shift k x

pub or_lt : (k a b : ℕ) → a < shift k 1 → b < shift k 1 → bit_or a b < shift k 1
or_lt zero a b p q =
    let e : a ≡ 0 = omega arith in
    let f : b ≡ 0 = omega arith in rw (e, f) (omega (arith, zero-or 0))
or_lt (suc k) a b p q =
    omega (arith, lowest_digit a b, or_lt k (a / 2) (b / 2) (omega (arith, p)) (omega (arith, q)))

-- The high digits stay as they are.
pub or-shift :
    (k x y b : ℕ)
    → y < shift k 1
    → b < shift k 1
    → bit_or (shift k x + y) b ≡ shift k x + bit_or y b
or-shift zero x y b p q =
    let e : y ≡ 0 = omega arith in
    let f : b ≡ 0 = omega arith in rw (e, f) (omega (arith, or-zero (x + 0), zero-or 0))
or-shift (suc k) x y b p q =
    let half : (shift (suc k) x + y) / 2 ≡ shift k x + y / 2 = omega arith in
    let low : (shift (suc k) x + y) % 2 ≡ y % 2 = omega arith in
    let high = or-shift k x (y / 2) (b / 2) (omega (arith, p)) (omega (arith, q)) in
    omega (
      arith,
      lowest_digit (shift (suc k) x + y) b,
      lowest_digit y b,
      high,
      ap (λ z. bit_or z (b / 2)) half,
      low,
    )

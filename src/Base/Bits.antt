-- ===== src/Base/Bits.antt =====
-- Laws of the bit operations on the native numbers, which the libraries leave at their definition
-- by binary digits.
use Prim.Native.Nat.{
  ℕ, zero, suc, ◌+◌, ◌-◌, ◌*◌, ◌/◌, ◌%◌, ◌^◌, ◌≤◌, ◌<◌, max, min, bit_or, bit_and, digits,
  bit_or-bitwise, bit_and-bitwise,
}
use mathlib.Core.Path.{◌≡◌, refl, ap}
use native.Mathlib.Omega.{arith}
use native.Mathlib.Nat.{pow-suc, one-le-pow}

-- The digit loop of either operation, on `n` rounds of fuel.
abbrev or_loop : ℕ → ℕ → ℕ → ℕ
or_loop = digits (λ b. b) max

abbrev and_loop : ℕ → ℕ → ℕ → ℕ
and_loop = digits (λ b. zero) min

-- More fuel than the left number changes nothing.
or_loop_fuel : (n m a b : ℕ) → a ≤ n → a ≤ m → or_loop n a b ≡ or_loop m a b
or_loop_fuel zero zero a b p q = refl
or_loop_fuel zero (suc m) zero b p q = refl
or_loop_fuel zero (suc m) (suc a) b p q = absurd (omega arith)
or_loop_fuel (suc n) zero zero b p q = refl
or_loop_fuel (suc n) zero (suc a) b p q = absurd (omega arith)
or_loop_fuel (suc n) (suc m) zero b p q = refl
or_loop_fuel (suc n) (suc m) (suc a) b p q =
    omega (arith, or_loop_fuel n m (suc a / 2) (b / 2) (omega arith) (omega arith))

and_loop_fuel : (n m a b : ℕ) → a ≤ n → a ≤ m → and_loop n a b ≡ and_loop m a b
and_loop_fuel zero zero a b p q = refl
and_loop_fuel zero (suc m) zero b p q = refl
and_loop_fuel zero (suc m) (suc a) b p q = absurd (omega arith)
and_loop_fuel (suc n) zero zero b p q = refl
and_loop_fuel (suc n) zero (suc a) b p q = absurd (omega arith)
and_loop_fuel (suc n) (suc m) zero b p q = refl
and_loop_fuel (suc n) (suc m) (suc a) b p q =
    omega (arith, and_loop_fuel n m (suc a / 2) (b / 2) (omega arith) (omega arith))

zero-bit_or : (b : ℕ) → bit_or 0 b ≡ b
zero-bit_or b = bit_or-bitwise 0 b

zero-bit_and : (b : ℕ) → bit_and 0 b ≡ 0
zero-bit_and b = bit_and-bitwise 0 b

-- The last binary digit is split off.
bit_or_digit : (a b : ℕ) → bit_or a b ≡ bit_or (a / 2) (b / 2) * 2 + max (a % 2) (b % 2)
bit_or_digit zero b = omega (arith, zero-bit_or b, zero-bit_or (b / 2))
bit_or_digit (suc a) b = omega (
  arith,
  bit_or-bitwise (suc a) b,
  bit_or-bitwise (suc a / 2) (b / 2),
  or_loop_fuel a (suc a / 2) (suc a / 2) (b / 2) (omega arith) (omega arith),
)

bit_and_digit : (a b : ℕ) → bit_and a b ≡ bit_and (a / 2) (b / 2) * 2 + min (a % 2) (b % 2)
bit_and_digit zero b = omega (arith, zero-bit_and b, zero-bit_and (b / 2))
bit_and_digit (suc a) b = omega (
  arith,
  bit_and-bitwise (suc a) b,
  bit_and-bitwise (suc a / 2) (b / 2),
  and_loop_fuel a (suc a / 2) (suc a / 2) (b / 2) (omega arith) (omega arith),
)

bit_or-zero_below : (n a : ℕ) → a ≤ n → bit_or a 0 ≡ a
bit_or-zero_below n zero h = refl
bit_or-zero_below zero (suc a) h = absurd (omega arith)
bit_or-zero_below (suc n) (suc a) h =
    omega (arith, bit_or_digit (suc a) 0, bit_or-zero_below n (suc a / 2) (omega arith))

bit_and-zero_below : (n a : ℕ) → a ≤ n → bit_and a 0 ≡ 0
bit_and-zero_below n zero h = refl
bit_and-zero_below zero (suc a) h = absurd (omega arith)
bit_and-zero_below (suc n) (suc a) h =
    omega (arith, bit_and_digit (suc a) 0, bit_and-zero_below n (suc a / 2) (omega arith))

double_pow : (q k : ℕ) → q * 2 ^ suc k ≡ 2 * (q * 2 ^ k)
double_pow q k = omega (arith, ap (λ (t : ℕ). q * t) (pow-suc 2 k))

-- `(q << k) | r` is a sum where `r` has at most `k` bits.
pub bit_or-shift : (k q r : ℕ) → r < 2 ^ k → bit_or (q * 2 ^ k) r ≡ q * 2 ^ k + r
bit_or-shift zero q r h = ground (arith, bit_or-zero_below q q)
bit_or-shift (suc k) q r h =
    ground (
      arith,
      bit_or_digit (q * 2 ^ suc k) r,
      double_pow q k,
      bit_or-shift k q (r / 2) (omega arith),
    )

-- `a & 1`
pub bit_and-one : (a : ℕ) → bit_and a 1 ≡ a % 2
bit_and-one a = omega (arith, bit_and_digit a 1, bit_and-zero_below (a / 2) (a / 2))

-- `a | 1`
pub bit_or-one : (a : ℕ) → bit_or a 1 ≡ a / 2 * 2 + 1
bit_or-one a = omega (arith, bit_or_digit a 1, bit_or-zero_below (a / 2) (a / 2))

-- `a & 0x0f`
pub bit_and-low_nibble : (a : ℕ) → bit_and a 15 ≡ a % 16
bit_and-low_nibble a = omega (
  arith,
  bit_and_digit a 15,
  bit_and_digit (a / 2) 7,
  bit_and_digit (a / 2 / 2) 3,
  bit_and-one (a / 2 / 2 / 2),
)

-- `a & 0xff`
pub bit_and-low_byte : (a : ℕ) → bit_and a 255 ≡ a % 256
bit_and-low_byte a = omega (
  arith,
  bit_and_digit a 255,
  bit_and_digit (a / 2) 127,
  bit_and_digit (a / 2 / 2) 63,
  bit_and_digit (a / 2 / 2 / 2) 31,
  bit_and-low_nibble (a / 2 / 2 / 2 / 2),
)

half_below : (k a : ℕ) → a < 2 ^ suc k → a / 2 < 2 ^ k
half_below k a h = omega (arith, pow-suc 2 k)

half_ones : (k : ℕ) → (2 ^ suc k - 1) / 2 ≡ 2 ^ k - 1
half_ones k = omega (arith, pow-suc 2 k)

odd_ones : (k : ℕ) → (2 ^ suc k - 1) % 2 ≡ 1
odd_ones k = omega (arith, pow-suc 2 k, one-le-pow k 2)

ones_step :
    (k a : ℕ) → a < 2 ^ suc k → bit_and a (2 ^ suc k - 1) ≡ bit_and (a / 2) (2 ^ k - 1) * 2 + a % 2
ones_step k a h = rw (bit_and_digit a (2 ^ suc k - 1)) (rw (half_ones k, odd_ones k) (omega arith))

-- A number of at most `k` bits is unchanged by a mask of `k` ones.
pub bit_and-ones : (k a : ℕ) → a < 2 ^ k → bit_and a (2 ^ k - 1) ≡ a
bit_and-ones zero a h = omega (arith, bit_and-zero_below a a)
bit_and-ones (suc k) a h = omega (arith, ones_step k a h, bit_and-ones k (a / 2) (half_below k a h))

half_double : (m : ℕ) → 2 * m / 2 ≡ m
half_double m = omega arith

double_mod : (m : ℕ) → 2 * m % 2 ≡ 0
double_mod m = omega arith

bit_and-even : (a m : ℕ) → bit_and a (2 * m) ≡ 2 * bit_and (a / 2) m
bit_and-even a m = rw (bit_and_digit a (2 * m)) (rw (half_double m, double_mod m) (omega arith))

-- `a & ~1`, on 32 bits
pub bit_and-clear_one : (a : ℕ) → a < 2 ^ 32 → bit_and a 0xfffffffe ≡ a / 2 * 2
bit_and-clear_one a h =
    omega (arith, bit_and-even a 0x7fffffff, bit_and-ones 31 (a / 2) (omega arith))

-- `a & ~1`, on a byte
pub bit_and-clear_one_byte : (a : ℕ) → a < 256 → bit_and a 0xfe ≡ a / 2 * 2
bit_and-clear_one_byte a h = omega (arith, bit_and-even a 127, bit_and-ones 7 (a / 2) (omega arith))

-- `a & 0xff00` keeps the second byte where it stands.
pub bit_and-second_byte : (a : ℕ) → bit_and a 0xff00 ≡ a / 256 % 256 * 256
bit_and-second_byte a = omega (
  arith,
  bit_and-even a 32640,
  bit_and-even (a / 2) 16320,
  bit_and-even (a / 2 / 2) 8160,
  bit_and-even (a / 2 / 2 / 2) 4080,
  bit_and-even (a / 2 / 2 / 2 / 2) 2040,
  bit_and-even (a / 2 / 2 / 2 / 2 / 2) 1020,
  bit_and-even (a / 2 / 2 / 2 / 2 / 2 / 2) 510,
  bit_and-even (a / 2 / 2 / 2 / 2 / 2 / 2 / 2) 255,
  bit_and-low_byte (a / 2 / 2 / 2 / 2 / 2 / 2 / 2 / 2),
)

-- ===== src/Common/Bits.antt =====
-- The bit operations with a mask of low bits and with one bit, as arithmetic, at every width.
use Prim.Native.Nat.{
  ℕ, zero, suc, ◌+◌, ◌-◌, ◌*◌, ◌/◌, ◌%◌, ◌^◌, ◌≤◌, ◌<◌, min, max, bit_and, bit_or, digits, bitwise,
  bit_and-bitwise, bit_or-bitwise,
}
use mathlib.Core.Path.{◌≡◌, refl, ap}
use native.Mathlib.Nat.{pow-suc, one-le-pow, le_refl}
use native.Mathlib.Omega.{arith}

-- More fuel than the first number gives the same digits.
module _ (z : ℕ → ℕ) (f : ℕ → ℕ → ℕ) where
  digits_enough : (n m a b : ℕ) → a ≤ n → a ≤ m → digits z f n a b ≡ digits z f m a b
  digits_enough zero zero a b p q = refl
  digits_enough zero (suc m) zero b p q = refl
  digits_enough zero (suc m) (suc a) b p q = absurd (omega arith)
  digits_enough (suc n) zero zero b p q = refl
  digits_enough (suc n) zero (suc a) b p q = absurd (omega arith)
  digits_enough (suc n) (suc m) zero b p q = refl
  digits_enough (suc n) (suc m) (suc a) b p q =
      ap (λ r. r * 2 + f (suc a % 2) (b % 2))
        (digits_enough n m (suc a / 2) (b / 2) (omega arith) (omega arith))

  bitwise_halves :
      (a b : ℕ)
      → bitwise z f (suc a) b ≡ bitwise z f (suc a / 2) (b / 2) * 2 + f (suc a % 2) (b % 2)
  bitwise_halves a b =
      ap (λ r. r * 2 + f (suc a % 2) (b % 2))
        (digits_enough a (suc a / 2) (suc a / 2) (b / 2) (omega arith) (le_refl _))

pub bit_or_halves : (a b : ℕ) → bit_or a b ≡ bit_or (a / 2) (b / 2) * 2 + max (a % 2) (b % 2)
bit_or_halves zero b = simp bit_or-bitwise (omega arith)
bit_or_halves (suc a) b = simp bit_or-bitwise (bitwise_halves (λ y. y) max a b)

pub bit_and_halves : (a b : ℕ) → bit_and a b ≡ bit_and (a / 2) (b / 2) * 2 + min (a % 2) (b % 2)
bit_and_halves zero b = simp bit_and-bitwise (omega arith)
bit_and_halves (suc a) b = simp bit_and-bitwise (bitwise_halves (λ y. 0) min a b)

-- `a & 0`, with a bound on `a` to recur on.
and_zero_below : (n a : ℕ) → a ≤ n → bit_and a 0 ≡ 0
and_zero_below n zero h = refl
and_zero_below zero (suc a) h = absurd (omega arith)
and_zero_below (suc n) (suc a) h =
    omega (arith, bit_and_halves (suc a) 0, and_zero_below n (suc a / 2) (omega arith))

pub bit_and-zero : (a : ℕ) → bit_and a 0 ≡ 0
bit_and-zero a = and_zero_below a a (le_refl a)

zero-bit_or : (b : ℕ) → bit_or 0 b ≡ b
zero-bit_or b = simp bit_or-bitwise (omega arith)

double_multiple : (q k : ℕ) → q * 2 ^ suc k ≡ 2 * (q * 2 ^ k)
double_multiple q k = omega (arith, ap (λ (t : ℕ). q * t) (pow-suc 2 k))

mask_fields : (k q r : ℕ) → r < 2 ^ k → bit_and (q * 2 ^ k + r) (2 ^ k - 1) ≡ r
mask_fields zero q r h = omega (arith, bit_and-zero (q * 2 ^ 0 + r))
mask_fields (suc k) q r h = ground (
  arith,
  bit_and_halves (q * 2 ^ suc k + r) (2 ^ suc k - 1),
  double_multiple q k,
  pow-suc 2 k,
  mask_fields k q (r / 2) (omega (arith, pow-suc 2 k)),
)

-- `a & (2^k - 1)` is the remainder by `2 ^ k`.
pub bit_and-mask : (k a : ℕ) → bit_and a (2 ^ k - 1) ≡ a % 2 ^ k
bit_and-mask k a = ground (arith, one-le-pow k 2, mask_fields k (a / 2 ^ k) (a % 2 ^ k))

bit_fields :
    (k q b r : ℕ) → b < 2 → r < 2 ^ k → bit_and (q * 2 ^ suc k + b * 2 ^ k + r) (2 ^ k) ≡ b * 2 ^ k
bit_fields zero q b r hb h = omega (
  arith,
  bit_and_halves (q * 2 ^ 1 + b * 2 ^ 0 + r) 1,
  bit_and-zero ((q * 2 ^ 1 + b * 2 ^ 0 + r) / 2),
)
bit_fields (suc k) q b r hb h = ground (
  arith,
  bit_and_halves (q * 2 ^ suc (suc k) + b * 2 ^ suc k + r) (2 ^ suc k),
  double_multiple q (suc k),
  double_multiple b k,
  pow-suc 2 k,
  bit_fields k q b (r / 2) hb (omega (arith, pow-suc 2 k)),
)

-- `a & (1 << k)` is the digit at `k`, in its place.
pub bit_and-bit : (k a : ℕ) → bit_and a (2 ^ k) ≡ a / 2 ^ k % 2 * 2 ^ k
bit_and-bit k a = ground (
  arith,
  one-le-pow k 2,
  double_multiple (a / 2 ^ k / 2) k,
  bit_fields k (a / 2 ^ k / 2) (a / 2 ^ k % 2) (a % 2 ^ k),
  ap (λ (t : ℕ). t * 2 ^ k) (split_digit (a / 2 ^ k)),
)
  where
    split_digit : (x : ℕ) → x ≡ 2 * (x / 2) + x % 2
    split_digit x = omega arith

-- `a | (1 << k)` is a sum where `a` has no digit from `k` on.
pub bit_or-bit : (k a : ℕ) → a < 2 ^ k → bit_or a (2 ^ k) ≡ a + 2 ^ k
bit_or-bit zero a h = let e : a ≡ 0 = omega arith in rw e (zero-bit_or 1)
bit_or-bit (suc k) a h = ground (
  arith,
  bit_or_halves a (2 ^ suc k),
  pow-suc 2 k,
  bit_or-bit k (a / 2) (omega (arith, pow-suc 2 k)),
)

-- `a | 0`, with a bound on `a` to recur on.
or_zero_below : (n a : ℕ) → a ≤ n → bit_or a 0 ≡ a
or_zero_below n zero h = refl
or_zero_below zero (suc a) h = absurd (omega arith)
or_zero_below (suc n) (suc a) h =
    omega (arith, bit_or_halves (suc a) 0, or_zero_below n (suc a / 2) (omega arith))

pub bit_or-zero : (a : ℕ) → bit_or a 0 ≡ a
bit_or-zero a = or_zero_below a a (le_refl a)

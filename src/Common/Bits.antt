-- ===== src/Common/Bits.antt =====
-- The bit operations at variables: masks, and the `|` of words with no bit in common.
use Prim.Native.Nat.{
  ℕ, zero, suc, ◌+◌, ◌-◌, ◌*◌, ◌/◌, ◌%◌, ◌^◌, ◌≤◌, ◌<◌, min, max, bit_and, bit_or, bit_xor, digits,
  bitwise, differ, bit_xor-bitwise, bit_and-bitwise, bit_or-bitwise,
}
use mathlib.Core.Path.{◌≡◌, refl, ap, sym, ◌∙◌}
use native.Mathlib.Nat.{pow-suc, one-le-pow}
use native.Mathlib.Omega.{arith}

-- An operation on binary digits, given by its value where the first number is 0 and by what it does
-- to two digits.
module _ (z : ℕ → ℕ) (f : ℕ → ℕ → ℕ) where
  -- A count of digits that is larger by `k` makes no difference.
  spare_digits : (k n a b : ℕ) → a ≤ n → digits z f (k + n) a b ≡ digits z f n a b
  spare_digits zero n a b h = ap (λ t. digits z f t a b) (omega arith)
  spare_digits (suc k) n a b h =
      ap (λ t. digits z f t a b) shift
      ∙ one_spare (k + n) a b (omega arith)
      ∙ spare_digits k n a b h
    where
      shift : suc k + n ≡ suc (k + n)
      shift = omega arith

      one_spare : (m c d : ℕ) → c ≤ m → digits z f (suc m) c d ≡ digits z f m c d
      one_spare zero zero d l = refl
      one_spare (suc m) zero d l = refl
      one_spare zero (suc c) d l = absurd (omega arith)
      one_spare (suc m) (suc c) d l =
          ap (λ t. t * 2 + f (suc c % 2) (d % 2)) (one_spare m (suc c / 2) (d / 2) (omega arith))

  -- One digit split off from a number that is not 0.
  split_digit :
      (op : ℕ → ℕ → ℕ) (law : (a b : ℕ) → op a b ≡ bitwise z f a b) (a b : ℕ)
      → op (suc a) b ≡ op (suc a / 2) (b / 2) * 2 + f (suc a % 2) (b % 2)
  split_digit op law a b =
      let half = suc a / 2 in
      let enough : a ≡ (a - half) + half = omega arith in
      law (suc a) b
      ∙ ap (λ t. t * 2 + f (suc a % 2) (b % 2))
          (ap (λ t. digits z f t half (b / 2)) enough
            ∙ spare_digits (a - half) half half (b / 2) (omega arith)
            ∙ sym (law half (b / 2)))

bit_and_step : (a b : ℕ) → bit_and a b ≡ bit_and (a / 2) (b / 2) * 2 + min (a % 2) (b % 2)
bit_and_step zero b = ground (arith, bit_and-bitwise 0 b, bit_and-bitwise 0 (b / 2))
bit_and_step (suc a) b = split_digit (λ d. 0) min bit_and bit_and-bitwise a b

zero-bit_or : (b : ℕ) → bit_or 0 b ≡ b
zero-bit_or b = bit_or-bitwise 0 b

bit_or_step : (a b : ℕ) → bit_or a b ≡ bit_or (a / 2) (b / 2) * 2 + max (a % 2) (b % 2)
bit_or_step zero b = ground (arith, zero-bit_or b, zero-bit_or (b / 2))
bit_or_step (suc a) b = split_digit (λ d. d) max bit_or bit_or-bitwise a b

-- Both go from half a number to the number: induction on a bound.
or_zero_below : (n a : ℕ) → a ≤ n → bit_or a 0 ≡ a
or_zero_below n zero h = refl
or_zero_below zero (suc a) h = absurd (omega arith)
or_zero_below (suc n) (suc a) h =
    omega (arith, bit_or_step (suc a) 0, or_zero_below n (suc a / 2) (omega arith))

and_zero_below : (n a : ℕ) → a ≤ n → bit_and a 0 ≡ 0
and_zero_below n zero h = refl
and_zero_below zero (suc a) h = absurd (omega arith)
and_zero_below (suc n) (suc a) h =
    omega (arith, bit_and_step (suc a) 0, and_zero_below n (suc a / 2) (omega arith))

pub bit_or-zero : (a : ℕ) → bit_or a 0 ≡ a
bit_or-zero a = or_zero_below a a (omega arith)

pub bit_and-zero : (a : ℕ) → bit_and a 0 ≡ 0
bit_and-zero a = and_zero_below a a (omega arith)

double_shift : (q k : ℕ) → q * 2 ^ suc k ≡ 2 * (q * 2 ^ k)
double_shift q k = omega (arith, ap (λ (t : ℕ). q * t) (pow-suc 2 k))

-- A word below `2 ^ k` and a word of the bits from `k` on: their `|` is their sum.
pub bit_or_high : (k q r : ℕ) → r < 2 ^ k → bit_or (q * 2 ^ k) r ≡ q * 2 ^ k + r
bit_or_high zero q r fits = ground (arith, bit_or-zero q)
bit_or_high (suc k) q r fits =
    ground (
      arith,
      double_shift q k,
      bit_or_step (q * 2 ^ suc k) r,
      bit_or_high k q (r / 2) (omega arith),
    )

pub bit_or_low : (k q r : ℕ) → r < 2 ^ k → bit_or r (q * 2 ^ k) ≡ r + q * 2 ^ k
bit_or_low zero q r fits = ground (arith, zero-bit_or q)
bit_or_low (suc k) q r fits =
    ground
      (arith, double_shift q k, bit_or_step r (q * 2 ^ suc k), bit_or_low k q (r / 2) (omega arith))

and_bit_fields : (k h r : ℕ) → r < 2 ^ k → bit_and (h * 2 ^ k + r) (2 ^ k) ≡ h % 2 * 2 ^ k
and_bit_fields zero h r fits =
    ground (arith, bit_and_step (h * 1 + r) 1, bit_and-zero ((h * 1 + r) / 2))
and_bit_fields (suc k) h r fits = ground (
  arith,
  double_shift h k,
  double_shift (h % 2) k,
  pow-suc 2 k,
  bit_and_step (h * 2 ^ suc k + r) (2 ^ suc k),
  and_bit_fields k h (r / 2) (omega arith),
)

-- A mask of the one bit `k`.
pub bit_and_bit : (k a : ℕ) → bit_and a (2 ^ k) ≡ a / 2 ^ k % 2 * 2 ^ k
bit_and_bit k a = ground (arith, one-le-pow k 2, and_bit_fields k (a / 2 ^ k) (a % 2 ^ k))

and_low_fields : (k q r : ℕ) → r < 2 ^ k → bit_and (q * 2 ^ k + r) (2 ^ k - 1) ≡ r
and_low_fields zero q r fits = ground (arith, bit_and-zero (q * 1 + r))
and_low_fields (suc k) q r fits = ground (
  arith,
  double_shift q k,
  pow-suc 2 k,
  one-le-pow k 2,
  bit_and_step (q * 2 ^ suc k + r) (2 ^ suc k - 1),
  and_low_fields k q (r / 2) (omega arith),
)

-- A mask of the `k` low bits.
pub bit_and_low : (k a : ℕ) → bit_and a (2 ^ k - 1) ≡ a % 2 ^ k
bit_and_low k a = ground (arith, one-le-pow k 2, and_low_fields k (a / 2 ^ k) (a % 2 ^ k))

zero-bit_xor : (b : ℕ) → bit_xor 0 b ≡ b
zero-bit_xor b = bit_xor-bitwise 0 b

differ_small : (a b : ℕ) → a < 2 → b < 2 → differ a b ≡ (a + b) % 2
differ_small zero b h k = omega arith
differ_small (suc zero) zero h k = refl
differ_small (suc zero) (suc zero) h k = refl
differ_small (suc zero) (suc (suc b)) h k = absurd (omega arith)
differ_small (suc (suc a)) b h k = absurd (omega arith)

bit_xor_step : (a b : ℕ) → bit_xor a b ≡ bit_xor (a / 2) (b / 2) * 2 + (a + b) % 2
bit_xor_step zero b = omega (arith, zero-bit_xor b, zero-bit_xor (b / 2))
bit_xor_step (suc a) b = omega (
  arith,
  split_digit (λ d. d) differ bit_xor bit_xor-bitwise a b,
  differ_small (suc a % 2) (b % 2),
)

xor_zero_below : (n a : ℕ) → a ≤ n → bit_xor a 0 ≡ a
xor_zero_below n zero h = refl
xor_zero_below zero (suc a) h = absurd (omega arith)
xor_zero_below (suc n) (suc a) h =
    omega (arith, bit_xor_step (suc a) 0, xor_zero_below n (suc a / 2) (omega arith))

-- A bit that stands above the word is set by `^`, and the top bit of a word is cleared by it.
pub bit_xor_set : (k r : ℕ) → r < 2 ^ k → bit_xor r (2 ^ k) ≡ 2 ^ k + r
bit_xor_set zero r fits = ground (arith, zero-bit_xor 1)
bit_xor_set (suc k) r fits =
    ground (arith, pow-suc 2 k, bit_xor_step r (2 ^ suc k), bit_xor_set k (r / 2) (omega arith))

pub bit_xor_clear : (k r : ℕ) → r < 2 ^ k → bit_xor (2 ^ k + r) (2 ^ k) ≡ r
bit_xor_clear zero r fits =
    ground (arith, bit_xor_step (1 + r) 1, xor_zero_below ((1 + r) / 2) ((1 + r) / 2) (omega arith))
bit_xor_clear (suc k) r fits = ground (
  arith,
  pow-suc 2 k,
  bit_xor_step (2 ^ suc k + r) (2 ^ suc k),
  bit_xor_clear k (r / 2) (omega arith),
)

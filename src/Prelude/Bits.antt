-- ===== src/Prelude/Bits.antt =====
-- `|` of numbers whose one bits do not meet is their sum.
use Prim.Native.Nat.{
  ℕ, zero, suc, ◌+◌, ◌*◌, ◌/◌, ◌%◌, ◌^◌, ◌≤◌, ◌<◌, max, bit_or, digits, bit_or-bitwise,
}
use mathlib.Core.Path.{◌≡◌, refl, ap, ap₂}
use native.Mathlib.Nat.{pow-suc}
use native.Mathlib.Omega.{arith}

abbrev or_digits : ℕ → ℕ → ℕ → ℕ
or_digits n a b = digits (λ b. b) max n a b

or_digits_fuel : (n m a b : ℕ) → a ≤ n → a ≤ m → or_digits n a b ≡ or_digits m a b
or_digits_fuel zero zero a b p q = refl
or_digits_fuel zero (suc m) zero b p q = refl
or_digits_fuel zero (suc m) (suc a) b p q = absurd (omega arith)
or_digits_fuel (suc n) zero zero b p q = refl
or_digits_fuel (suc n) zero (suc a) b p q = absurd (omega arith)
or_digits_fuel (suc n) (suc m) zero b p q = refl
or_digits_fuel (suc n) (suc m) (suc a) b p q =
    omega (arith, or_digits_fuel n m (suc a / 2) (b / 2) (omega arith) (omega arith))

pub zero-bit_or : (b : ℕ) → bit_or 0 b ≡ b
zero-bit_or b = bit_or-bitwise 0 b

pub bit_or_step : (a b : ℕ) → bit_or a b ≡ bit_or (a / 2) (b / 2) * 2 + max (a % 2) (b % 2)
bit_or_step zero b = omega (arith, zero-bit_or b, zero-bit_or (b / 2))
bit_or_step (suc a) b = omega (
  arith,
  bit_or-bitwise (suc a) b,
  bit_or-bitwise (suc a / 2) (b / 2),
  or_digits_fuel a (suc a / 2) (suc a / 2) (b / 2) (omega arith) (omega arith),
)

bit_or-zero_fuel : (n a : ℕ) → a ≤ n → bit_or a 0 ≡ a
bit_or-zero_fuel n zero h = zero-bit_or 0
bit_or-zero_fuel zero (suc a) h = absurd (omega arith)
bit_or-zero_fuel (suc n) (suc a) h =
    omega (arith, bit_or_step (suc a) 0, bit_or-zero_fuel n (suc a / 2) (omega arith))

pub bit_or-zero : (a : ℕ) → bit_or a 0 ≡ a
bit_or-zero a = bit_or-zero_fuel a a (omega arith)

-- One digit of the law below: `p` and `q` are twice `r` and `s`.
bit_or_split_digit :
    (a b r s t : ℕ)
    → bit_or (a / 2 + r) (b / 2 + s) ≡ bit_or (a / 2) (b / 2) + t
    → bit_or (a + r * 2) (b + s * 2) ≡ bit_or a b + t * 2
bit_or_split_digit a b r s t ih = omega (
  arith,
  bit_or_step (a + r * 2) (b + s * 2),
  bit_or_step a b,
  ap₂ bit_or (half a r) (half b s),
  ih,
)
  where
    half : (x y : ℕ) → (x + y * 2) / 2 ≡ x / 2 + y
    half x y = omega arith

-- The low `k` bits and those from `k` on are or-ed apart.
pub bit_or_split :
    (k a b x y : ℕ)
    → a < 2 ^ k
    → b < 2 ^ k
    → bit_or (a + x * 2 ^ k) (b + y * 2 ^ k) ≡ bit_or a b + bit_or x y * 2 ^ k
bit_or_split zero a b x y ha hb = omega (
  arith,
  ap₂ bit_or {x = a + x * 2 ^ 0} {y = x} {u = b + y * 2 ^ 0} {v = y} (omega arith) (omega arith),
  ap₂ bit_or {x = a} {y = 0} {u = b} {v = 0} (omega arith) (omega arith),
  zero-bit_or 0,
)
bit_or_split (suc k) a b x y ha hb = omega (
  arith,
  ap₂ bit_or (ap (λ t. a + t) (double x)) (ap (λ t. b + t) (double y)),
  double (bit_or x y),
  bit_or_split_digit a b (x * 2 ^ k) (y * 2 ^ k) (bit_or x y * 2 ^ k) (
      bit_or_split k (a / 2) (b / 2) x y (omega (arith, pow-suc 2 k)) (omega (arith, pow-suc 2 k))),
)
  where
    double : (x : ℕ) → x * 2 ^ suc k ≡ x * 2 ^ k * 2
    double x = omega (arith, ap (λ t. x * t) (pow-suc 2 k))

pow-pos : (k : ℕ) → 0 < 2 ^ k
pow-pos zero = omega arith
pow-pos (suc k) = omega (arith, pow-suc 2 k, pow-pos k)

-- Eight bits put where a word has none.
pub bit_or_byte :
    (k a c l : ℕ)
    → a < 2 ^ k
    → l < 2 ^ 8
    → bit_or (a + c * 2 ^ 8 * 2 ^ k) (l * 2 ^ k) ≡ a + (c * 2 ^ 8 + l) * 2 ^ k
bit_or_byte k a c l ha hl = omega (
  arith,
  bit_or_split k a 0 (c * 2 ^ 8) l ha (omega (arith, pow-pos k)),
  ap (bit_or (a + c * 2 ^ 8 * 2 ^ k)) {x = l * 2 ^ k} {y = 0 + l * 2 ^ k} (omega arith),
  bit_or-zero a,
  ap (λ t. t * 2 ^ k) high,
)
  where
    high : bit_or (c * 2 ^ 8) l ≡ c * 2 ^ 8 + l
    high = omega (
      arith,
      ap₂ bit_or {x = c * 2 ^ 8} {y = 0 + c * 2 ^ 8} {u = l} {v = l + 0 * 2 ^ 8} (omega arith)
          (omega arith),
      bit_or_split 8 0 l c 0 (omega arith) hl,
      zero-bit_or l,
      bit_or-zero c,
    )

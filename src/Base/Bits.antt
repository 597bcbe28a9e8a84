-- ===== src/Base/Bits.antt =====
-- Masks of bits on the native numbers.
use Prim.Native.Nat.{
  ℕ, zero, suc, ◌+◌, ◌-◌, ◌*◌, ◌/◌, ◌%◌, ◌^◌, ◌<◌, ◌≤◌, min, bit_and, bit_and-bitwise, digits,
}
use mathlib.Core.Path.{◌≡◌, refl, ap}
use native.Mathlib.Omega.{arith}

halve_mod : (x w : ℕ) → 0 < w → x % (2 * w) ≡ (x / 2 % w) * 2 + x % 2
halve_mod x w h = grind arith

halve_div : (x w : ℕ) → 0 < w → x / (2 * w) ≡ x / 2 / w
halve_div x w h = grind arith

-- The digits that two numbers share, with more rounds than the first one has digits.
abbrev shared : ℕ → ℕ → ℕ → ℕ
shared rounds x y = digits (λ _. 0) min rounds x y

shared_enough : (few many x y : ℕ) → x ≤ few → few ≤ many → shared many x y ≡ shared few x y
shared_enough zero zero zero y h k = refl
shared_enough zero (suc many) zero y h k = refl
shared_enough zero many (suc x) y h k = absurd (omega arith)
shared_enough (suc few) zero x y h k = absurd (omega arith)
shared_enough (suc few) (suc many) zero y h k = refl
shared_enough (suc few) (suc many) (suc x) y h k =
    omega (arith, shared_enough few many (suc x / 2) (y / 2) (omega arith) (omega arith))

pub bit_and-zero : (y : ℕ) → bit_and 0 y ≡ 0
bit_and-zero y = bit_and-bitwise 0 y

-- The last digit, and the others.
bit_and-halves : (x y : ℕ) → bit_and x y ≡ 2 * bit_and (x / 2) (y / 2) + min (x % 2) (y % 2)
bit_and-halves zero y = omega (arith, bit_and-zero y, bit_and-zero (y / 2))
bit_and-halves (suc x) y =
    let half = suc x / 2 in
    omega (
      arith,
      bit_and-bitwise (suc x) y,
      bit_and-bitwise half (y / 2),
      shared_enough half x half (y / 2) (omega arith) (omega arith),
    )

half_ones : (w : ℕ) → 0 < w → (2 * w - 1) / 2 ≡ w - 1
half_ones w h = omega arith

no_common : (bound x : ℕ) → x ≤ bound → bit_and x 0 ≡ 0
no_common zero zero h = refl
no_common zero (suc x) h = absurd (omega arith)
no_common (suc bound) zero h = refl
no_common (suc bound) (suc x) h =
    omega (arith, bit_and-halves (suc x) 0, no_common bound (suc x / 2) (omega arith))

abbrev pub power : ℕ → ℕ
power zero = 1
power (suc n) = 2 * power n

positive : (n : ℕ) → 0 < power n
positive zero = omega arith
positive (suc n) = omega (arith, positive n)

-- `x & (2^n - 1)` is the remainder.
pub bit_and-ones : (n x : ℕ) → bit_and x (power n - 1) ≡ x % power n
bit_and-ones zero x = omega (arith, no_common x x (omega arith))
bit_and-ones (suc n) x = omega (
  arith,
  positive n,
  bit_and-halves x (power (suc n) - 1),
  bit_and-ones n (x / 2),
  halve_mod x (power n) (positive n),
  ap (bit_and (x / 2)) (half_ones (power n) (positive n)),
)

-- A mask moved up by `k` bits.
pub bit_and-shift : (k m x : ℕ) → bit_and x (m * power k) ≡ bit_and (x / power k) m * power k
bit_and-shift zero m x =
    let whole : x / 1 ≡ x = omega arith in
    let same : m * 1 ≡ m = omega arith in
    omega (arith, ap (bit_and x) same, ap (λ y. bit_and y m) whole)
bit_and-shift (suc k) m x =
    let half : m * power (suc k) / 2 ≡ m * power k = grind arith in
    let even : m * power (suc k) % 2 ≡ 0 = grind arith in
    grind (
      arith,
      bit_and-halves x (m * power (suc k)),
      ap (bit_and (x / 2)) half,
      even,
      bit_and-shift k m (x / 2),
      ap (λ y. bit_and y m) (halve_div x (power k) (positive k)),
    )

-- `x & ~(2^21 - 1)` on 64 bits: the multiple of 2 MB at or below `x`.
pub huge_mask : (x : ℕ) → x < 2 ^ 64 → bit_and x (2 ^ 64 - 2 ^ 21) ≡ x / 2 ^ 21 * 2 ^ 21
huge_mask x h = omega (arith, bit_and-shift 21 (2 ^ 43 - 1) x, bit_and-ones 43 (x / 2 ^ 21))

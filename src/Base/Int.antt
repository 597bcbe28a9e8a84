-- ===== src/Base/Int.antt =====
-- Signed integers over the native numbers.
use Prim.Native.Nat.{ℕ, suc, ◌+◌, ◌-◌, ◌*◌, ◌≤◌, ◌^◌, ◌%◌}
use mathlib.Core.Path.{◌≡◌}
use mathlib.Core.Bool.{Bool}
use native.Mathlib.Omega.{arith}
use dma_migration_test.Base.Tests.{leb, ltb, if◌then◌else◌}

-- `negsuc n` is -(n + 1).
pub data ℤ : Type 0 where
  pos negsuc : ℕ → ℤ

-- An integer is the difference of its two parts.
abbrev pub above : ℤ → ℕ
above (pos n) = n
above (negsuc n) = 0

abbrev pub below : ℤ → ℕ
below (pos n) = 0
below (negsuc n) = suc n

abbrev pub minus : ℕ → ℕ → ℤ
minus a b = if leb b a then pos (a - b) else negsuc (b - a - 1)

infixl 65 ◌+ℤ◌ ◌-ℤ◌
infixl 70 ◌*ℤ◌
infix 50 ◌≤ℤ◌
unfoldable pub ◌+ℤ◌ : ℤ → ℤ → ℤ
a +ℤ b = minus (above a + above b) (below a + below b)

unfoldable pub ◌-ℤ◌ : ℤ → ℤ → ℤ
a -ℤ b = minus (above a + below b) (below a + above b)

-- A product with a number.
unfoldable pub ◌*ℤ◌ : ℤ → ℕ → ℤ
a *ℤ n = minus (above a * n) (below a * n)

abbrev pub ◌≤ℤ◌ : ℤ → ℤ → Type 0
a ≤ℤ b = above a + below b ≤ above b + below a

abbrev pub is_negative : ℤ → Bool
is_negative a = ltb (above a) (below a)

-- What an `int` holds behind a conversion from 64 bits.
abbrev pub to_int : ℕ → ℤ
to_int x = if ltb (x % 2 ^ 32) (2 ^ 31) then pos (x % 2 ^ 32) else negsuc (2 ^ 32 - x % 2 ^ 32 - 1)

pub sum_parts : (a b : ℤ) → above (a +ℤ b) + below a + below b ≡ below (a +ℤ b) + above a + above b
unfolding ◌+ℤ◌
sum_parts a b = ground arith

pub difference_parts :
    (a b : ℤ) → above (a -ℤ b) + below a + above b ≡ below (a -ℤ b) + above a + below b
unfolding ◌-ℤ◌
difference_parts a b = ground arith

pub product_parts : (a : ℤ) (n : ℕ) → above (a *ℤ n) + below a * n ≡ below (a *ℤ n) + above a * n
unfolding ◌*ℤ◌
product_parts a n = ground arith

pub eq_of_parts : (a b : ℤ) → above a + below b ≡ above b + below a → a ≡ b
eq_of_parts a b h = ground arith

-- The signs of the operations' parts are settled by these, with the operations shut.
pub ruleset int_laws = (arith, sum_parts, difference_parts, product_parts, eq_of_parts)

-- ===== src/Common/Int.antt =====
-- Signed integers over the native numbers: what Go's int32 and int64 values are compared by, and
-- the bit patterns of int32 sums and products.
use Prim.Native.Nat.{ℕ, zero, suc, ◌+◌, ◌-◌, ◌%◌, ◌≤◌, ◌<◌}
use mathlib.Core.Path.{◌≡◌}
use mathlib.Core.Bool.{Bool, true, false}
use native.Mathlib.Omega.{arith}
use wellcake.Common.Tests.{ltb, leb, ◌==◌, if◌then◌else◌}

-- `negsuc n` is -(n + 1).
pub data ℤ : Type 0 where
  pos : ℕ → ℤ
  negsuc : ℕ → ℤ

abbrev pub pos_part : ℤ → ℕ
pos_part (pos n) = n
pos_part (negsuc n) = 0

abbrev pub neg_part : ℤ → ℕ
neg_part (pos n) = 0
neg_part (negsuc n) = suc n

infix 50 ◌≤ℤ◌ ◌<ℤ◌
abbrev pub ◌≤ℤ◌ : ℤ → ℤ → Type 0
a ≤ℤ b = pos_part a + neg_part b ≤ pos_part b + neg_part a

abbrev pub ◌<ℤ◌ : ℤ → ℤ → Type 0
a <ℤ b = pos_part a + neg_part b < pos_part b + neg_part a

-- a < b, a <= b and a == b on int32 and int64 values.
unfoldable pub ltb_ℤ : ℤ → ℤ → Bool
ltb_ℤ a b = ltb (pos_part a + neg_part b) (pos_part b + neg_part a)

unfoldable pub leb_ℤ : ℤ → ℤ → Bool
leb_ℤ a b = leb (pos_part a + neg_part b) (pos_part b + neg_part a)

unfoldable pub eqb_ℤ : ℤ → ℤ → Bool
eqb_ℤ a b = (pos_part a + neg_part b) == (pos_part b + neg_part a)

pub ltb_ℤ→lt : (a b : ℤ) → ltb_ℤ a b ≡ true → a <ℤ b
unfolding ltb_ℤ
ltb_ℤ→lt a b h = ground arith

pub ltb_ℤ→ge : (a b : ℤ) → ltb_ℤ a b ≡ false → b ≤ℤ a
unfolding ltb_ℤ
ltb_ℤ→ge a b h = ground arith

pub lt→ltb_ℤ : (a b : ℤ) → a <ℤ b → ltb_ℤ a b ≡ true
unfolding ltb_ℤ
lt→ltb_ℤ a b h = ground arith

pub ge→ltb_ℤ : (a b : ℤ) → b ≤ℤ a → ltb_ℤ a b ≡ false
unfolding ltb_ℤ
ge→ltb_ℤ a b h = ground arith

pub eqb_ℤ→eq : (a b : ℤ) → eqb_ℤ a b ≡ true → a ≡ b
unfolding eqb_ℤ
eqb_ℤ→eq a b h = ground arith

pub eqb_ℤ_refl : (a : ℤ) → eqb_ℤ a a ≡ true
unfolding eqb_ℤ
eqb_ℤ_refl a = ground arith

pub eqb_ℤ-false : (a b : ℤ) → eqb_ℤ a b ≡ false → a ≤ℤ b → a <ℤ b
unfolding eqb_ℤ
eqb_ℤ-false a b h k = ground arith

pub ≤ℤ_antisym : (a b : ℤ) → a ≤ℤ b → b ≤ℤ a → a ≡ b
≤ℤ_antisym (pos m) (pos n) h k = ground arith
≤ℤ_antisym (pos m) (negsuc n) h k = absurd (omega arith)
≤ℤ_antisym (negsuc m) (pos n) h k = absurd (omega arith)
≤ℤ_antisym (negsuc m) (negsuc n) h k = ground arith

-- The negative of a number.
abbrev pub neg : ℕ → ℤ
neg zero = pos 0
neg (suc n) = negsuc n

-- An int32 is kept as its bit pattern: sums and products wrap, and a pattern from 2 ^ 31 up stands
-- for a negative value, which the signed order puts first.
abbrev pub int32 : ℕ → ℕ
int32 n = n % 4294967296

unfoldable pub int32_lt : ℕ → ℕ → Bool
int32_lt a b = ltb ((a + 2147483648) % 4294967296) ((b + 2147483648) % 4294967296)

abbrev pub IsInt32 : ℕ → Type 0
IsInt32 n = n < 2147483648

pub int32_lt-of_range : (a b : ℕ) → IsInt32 a → IsInt32 b → int32_lt a b ≡ ltb a b
unfolding int32_lt
int32_lt-of_range a b ha hb = ground arith

pub int32-of_range : (n : ℕ) → IsInt32 n → int32 n ≡ n
int32-of_range n h = omega arith

-- a - b, without the wrap-around of an int64.
abbrev pub from_difference : ℕ → ℕ → ℤ
from_difference a b = if ltb a b then neg (b - a) else pos (a - b)

abbrev pub sub_ℤ : ℤ → ℤ → ℤ
sub_ℤ a b = from_difference (pos_part a + neg_part b) (pos_part b + neg_part a)

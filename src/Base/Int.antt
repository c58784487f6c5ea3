-- ===== src/Base/Int.antt =====
-- Signed integers over the native numbers, under the library's names (its ℤ stands on the unary ℕ),
-- and Go's `int64`: the two's complement pattern of an integer, and the integer of a pattern.
use Prim.Native.Nat.{ℕ, suc, ◌+◌, ◌-◌, ◌%◌, ◌^◌, ◌≤◌, ◌<◌}
use mathlib.Core.Path.{◌≡◌}
use mathlib.Core.Bool.{Bool}
use native.Mathlib.Omega.{arith}
use envisilab.Base.Tests.{ltb, leb, if◌then◌else◌}

-- `negsuc n` is -(n + 1).
pub data ℤ : Type 0 where
  pos : ℕ → ℤ
  negsuc : ℕ → ℤ

abbrev pub pos_part : ℤ → ℕ
pos_part (pos n) = n
pos_part (negsuc n) = 0

abbrev pub neg_part : ℤ → ℕ
neg_part (pos n) = 0
neg_part (negsuc n) = suc n

abbrev pub sub_ℕ : ℕ → ℕ → ℤ
sub_ℕ a b = if leb b a then pos (a - b) else negsuc (b - a - 1)

infixl 65 ◌+ℤ◌ ◌-ℤ◌
infix 50 ◌≤ℤ◌
unfoldable pub ◌+ℤ◌ : ℤ → ℤ → ℤ
a +ℤ b = sub_ℕ (pos_part a + pos_part b) (neg_part a + neg_part b)

unfoldable pub ◌-ℤ◌ : ℤ → ℤ → ℤ
a -ℤ b = sub_ℕ (pos_part a + neg_part b) (neg_part a + pos_part b)

abbrev pub ◌≤ℤ◌ : ℤ → ℤ → Type 0
a ≤ℤ b = pos_part a + neg_part b ≤ pos_part b + neg_part a

abbrev pub ltb_ℤ : ℤ → ℤ → Bool
ltb_ℤ a b = ltb (pos_part a + neg_part b) (pos_part b + neg_part a)

-- The integers that an `int64` holds.
abbrev pub IsInt64 : ℤ → Type 0
IsInt64 (pos n) = n < 2 ^ 63
IsInt64 (negsuc n) = n < 2 ^ 63

unfoldable pub bits64 : ℤ → ℕ
bits64 (pos n) = n % 2 ^ 64
bits64 (negsuc n) = 2 ^ 64 - 1 - n % 2 ^ 64

unfoldable pub int64 : ℕ → ℤ
int64 w = if ltb w (2 ^ 63) then pos w else negsuc (2 ^ 64 - 1 - w)

pub bits64-lt : (z : ℤ) → bits64 z < 2 ^ 64
unfolding bits64
bits64-lt (pos n) = omega arith
bits64-lt (negsuc n) = omega arith

-- The pattern of an `int64` stands for it.
pub int64-bits64 : (z : ℤ) → IsInt64 z → int64 (bits64 z) ≡ z
unfolding int64 bits64
int64-bits64 (pos n) h = ground arith
int64-bits64 (negsuc n) h = ground arith

pub bits64-int64 : (w : ℕ) → w < 2 ^ 64 → bits64 (int64 w) ≡ w
unfolding int64 bits64
bits64-int64 w h = ground arith

pub int64-IsInt64 : (w : ℕ) → w < 2 ^ 64 → IsInt64 (int64 w)
unfolding int64
int64-IsInt64 w h = ground arith

-- `a + b` and `a - b` on `int64`, with Go's wrap-around.
unfoldable pub add64 : ℤ → ℤ → ℤ
unfolding ◌+ℤ◌ bits64 int64
add64 a b = int64 (bits64 (a +ℤ b))

unfoldable pub sub64 : ℤ → ℤ → ℤ
unfolding ◌-ℤ◌ bits64 int64
sub64 a b = int64 (bits64 (a -ℤ b))

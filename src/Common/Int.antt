-- ===== src/Common/Int.antt =====
-- Integers over the native numbers: differences, sums, products, and indexes.
use Prim.Native.Nat.{ℕ, zero, suc, ◌+◌, ◌-◌, ◌*◌}
use mathlib.Core.Path.{◌≡◌}
use mathlib.Core.Option.{Option, none, some}
use native.Mathlib.Omega.{arith}
use tib.Common.Tests.{leb, if◌then◌else◌}

pub data ℤ : Type 0 where
  pos negsuc : ℕ → ℤ

unfoldable pub diff : ℕ → ℕ → ℤ
diff a b = if leb b a then pos (a - b) else negsuc (b - a - 1)

abbrev pub neg : ℤ → ℤ
neg (pos zero) = pos zero
neg (pos (suc n)) = negsuc n
neg (negsuc n) = pos (suc n)

abbrev pub pos_part : ℤ → ℕ
pos_part (pos n) = n
pos_part (negsuc n) = 0

abbrev pub neg_part : ℤ → ℕ
neg_part (pos n) = 0
neg_part (negsuc n) = suc n

infixl 65 ◌+ℤ◌
infixl 70 ◌*ℤ◌
unfoldable pub ◌+ℤ◌ : ℤ → ℤ → ℤ
a +ℤ b = diff (pos_part a + pos_part b) (neg_part a + neg_part b)

unfoldable pub ◌*ℤ◌ : ℤ → ℤ → ℤ
a *ℤ b =
    diff (pos_part a * pos_part b + neg_part a * neg_part b)
      (pos_part a * neg_part b + neg_part a * pos_part b)

-- The index that stands at an integer from a place, where it is not negative.
unfoldable pub index : ℕ → ℤ → Option ℕ
index from (pos n) = some (from + n)
index from (negsuc n) = if leb (n + 1) from then some (from - (n + 1)) else none

pub neg-diff : (a b : ℕ) → neg (diff a b) ≡ diff b a
unfolding diff
neg-diff a b = ground arith

pub index-diff :
    (from a b : ℕ)
    → index from (diff a b) ≡ (if leb b (from + a) then some (from + a - b) else none)
unfolding index diff
index-diff from a b = ground arith

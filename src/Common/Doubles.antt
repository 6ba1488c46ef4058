-- ===== src/Common/Doubles.antt =====
-- The doubles of the C++ library, as a parameter of what computes with them. `IsUnit d m` stands for a
-- double that differs from -1, 0 or 1 by the error of a sine or a cosine at most, and `IsProduct` for
-- one that is as close to a 32-bit integer as such a double times another integer is.
use Prim.Native.Nat.{◌<◌, ◌^◌}
use mathlib.Core.Path.{◌≡◌}
use tib.Common.Int.{ℤ, pos, negsuc, neg, ◌+ℤ◌, ◌*ℤ◌, pos_part, neg_part}

-- An integer that fits 32 bits with its sign, and its negation does.
abbrev pub IsSmall : ℤ → Type 0
IsSmall m = (pos_part m < 2 ^ 31) × (neg_part m < 2 ^ 31)

pub record Doubles : Type 1 where
  pub Double : Type 0
  pub of_int : ℤ → Double
  pub pi : Double
  pub times : Double → Double → Double
  pub divide : Double → Double → Double
  pub plus : Double → Double → Double
  pub negate : Double → Double
  pub cos : Double → Double
  pub sin : Double → Double
  pub round : Double → ℤ
  pub IsUnit : Double → ℤ → Type 0
  pub IsProduct : Double → ℤ → Type 0
  pub cos_90 : IsUnit (cos (divide (times pi (of_int (pos 90))) (of_int (pos 180)))) (pos 0)
  pub sin_90 : IsUnit (sin (divide (times pi (of_int (pos 90))) (of_int (pos 180)))) (pos 1)
  pub cos_180 : IsUnit (cos (divide (times pi (of_int (pos 180))) (of_int (pos 180)))) (negsuc 0)
  pub sin_180 : IsUnit (sin (divide (times pi (of_int (pos 180))) (of_int (pos 180)))) (pos 0)
  pub cos_270 : IsUnit (cos (divide (times pi (of_int (pos 270))) (of_int (pos 180)))) (pos 0)
  pub sin_270 : IsUnit (sin (divide (times pi (of_int (pos 270))) (of_int (pos 180)))) (negsuc 0)
  pub negate_unit : (d : Double) (m : ℤ) → IsUnit d m → IsUnit (negate d) (neg m)
  pub times_unit :
      (n m : ℤ) (d : Double) → IsSmall n → IsUnit d m → IsProduct (times (of_int n) d) (n *ℤ m)
  pub round_plus :
      (c d : Double) (m n : ℤ)
      → IsProduct c m
      → IsProduct d n
      → IsSmall (m +ℤ n)
      → round (plus c d) ≡ m +ℤ n

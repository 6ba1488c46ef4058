-- ===== src/Combat/Area/Rotation.antt =====
-- The rotation of `copyArea` turns an offset by one, two or three right angles, exactly.
use tib.Common.{ℕ, ◌<◌, ◌^◌, ◌≡◌, ◌∙◌, arith}
use tib.Common.Int.{ℤ, pos, negsuc, diff, neg, ◌+ℤ◌, ◌*ℤ◌}
use tib.Common.Doubles.{IsSmall, Doubles}
use tib.Combat.Area.{angle_rad, rotated_x, rotated_y}

pub diff-IsSmall : (a b n : ℕ) → a < n → b < n → n < 2 ^ 31 → IsSmall (diff a b)
unfolding diff
diff-IsSmall a b n h k top = ground arith

neg-IsSmall : (m : ℤ) → IsSmall m → IsSmall (neg m)
neg-IsSmall m h = ground arith

-- The sums of products with the sines and cosines of right angles.
by_zero_one : (x y : ℤ) → x *ℤ pos 0 +ℤ y *ℤ pos 1 ≡ y
unfolding ◌+ℤ◌ ◌*ℤ◌ diff
by_zero_one x y = ground arith

by_one_zero : (x y : ℤ) → x *ℤ pos 1 +ℤ y *ℤ pos 0 ≡ x
unfolding ◌+ℤ◌ ◌*ℤ◌ diff
by_one_zero x y = ground arith

by_zero_minus : (x y : ℤ) → x *ℤ pos 0 +ℤ y *ℤ negsuc 0 ≡ neg y
unfolding ◌+ℤ◌ ◌*ℤ◌ diff
by_zero_minus x y = ground arith

by_minus_zero : (x y : ℤ) → x *ℤ negsuc 0 +ℤ y *ℤ pos 0 ≡ neg x
unfolding ◌+ℤ◌ ◌*ℤ◌ diff
by_minus_zero x y = ground arith

module _ (fp : Doubles) where
  rotated_x-units :
      (angle : ℕ) (m n x y v : ℤ)
      → fp.IsUnit (fp.cos (angle_rad fp angle)) m
      → fp.IsUnit (fp.sin (angle_rad fp angle)) n
      → IsSmall x
      → IsSmall y
      → x *ℤ m +ℤ y *ℤ neg n ≡ v
      → IsSmall v
      → rotated_x fp angle x y ≡ v
  unfolding rotated_x
  rotated_x-units angle m n x y v c s hx hy sum hv =
      fp.round_plus _ _ (x *ℤ m) (y *ℤ neg n) (fp.times_unit x m _ hx c)
        (fp.times_unit y (neg n) _ hy (fp.negate_unit _ n s)) (rw sum hv)
      ∙ sum

  rotated_y-units :
      (angle : ℕ) (m n x y v : ℤ)
      → fp.IsUnit (fp.cos (angle_rad fp angle)) m
      → fp.IsUnit (fp.sin (angle_rad fp angle)) n
      → IsSmall x
      → IsSmall y
      → x *ℤ n +ℤ y *ℤ m ≡ v
      → IsSmall v
      → rotated_y fp angle x y ≡ v
  unfolding rotated_y
  rotated_y-units angle m n x y v c s hx hy sum hv =
      fp.round_plus _ _ (x *ℤ n) (y *ℤ m) (fp.times_unit x n _ hx s) (fp.times_unit y m _ hy c)
        (rw sum hv)
      ∙ sum

  pub turned_90 :
      (x y : ℤ) → IsSmall x → IsSmall y → (rotated_x fp 90 x y ≡ neg y) × (rotated_y fp 90 x y ≡ x)
  unfolding angle_rad
  turned_90 x y hx hy = (
    rotated_x-units 90 (pos 0) (pos 1) x y (neg y) fp.cos_90 fp.sin_90 hx hy (by_zero_minus x y)
        (neg-IsSmall y hy),
    rotated_y-units 90 (pos 0) (pos 1) x y x fp.cos_90 fp.sin_90 hx hy (by_one_zero x y) hx,
  )

  pub turned_180 :
      (x y : ℤ)
      → IsSmall x
      → IsSmall y
      → (rotated_x fp 180 x y ≡ neg x) × (rotated_y fp 180 x y ≡ neg y)
  unfolding angle_rad
  turned_180 x y hx hy = (
    rotated_x-units 180 (negsuc 0) (pos 0) x y (neg x) fp.cos_180 fp.sin_180 hx hy
        (by_minus_zero x y) (neg-IsSmall x hx),
    rotated_y-units 180 (negsuc 0) (pos 0) x y (neg y) fp.cos_180 fp.sin_180 hx hy
        (by_zero_minus x y) (neg-IsSmall y hy),
  )

  pub turned_270 :
      (x y : ℤ)
      → IsSmall x
      → IsSmall y
      → (rotated_x fp 270 x y ≡ y) × (rotated_y fp 270 x y ≡ neg x)
  unfolding angle_rad
  turned_270 x y hx hy = (
    rotated_x-units 270 (pos 0) (negsuc 0) x y y fp.cos_270 fp.sin_270 hx hy (by_zero_one x y) hy,
    rotated_y-units 270 (pos 0) (negsuc 0) x y (neg x) fp.cos_270 fp.sin_270 hx hy
        (by_minus_zero x y) (neg-IsSmall x hx),
  )

-- ===== src/Combat/Area/Turns.antt =====
-- The turned copies of an area.
use tib.Common.{
  ℕ, ◌+◌, ◌-◌, ◌*◌, ◌/◌, ◌^◌, ◌<◌, ◌≤◌, ◌≡◌, ◌∙◌, refl, ap, false, ◌&&◌, some, arith, ltb, ◌==◌,
  if◌then◌else◌,
}
use tib.Common.Int.{diff, index, neg-diff, index-diff}
use tib.Common.Doubles.{IsSmall, Doubles}
use tib.Combat.Area.{
  MatrixArea, matrix_area, set_value, set_index, set_center, and_then, rotated_x, rotated_y,
  write_turned, rotate, copy_area, rotate90, rotate180, rotate270,
}
use tib.Combat.Area.Rotation.{diff-IsSmall, turned_90, turned_180, turned_270}
use tib.Combat.Area.Loops.{IsPlacing, write_all-Written}

-- The larger of the two sizes.
abbrev pub side : MatrixArea → ℕ
side area = if ltb area.cols area.rows then area.rows else area.cols

-- Sizes that fit the 31 bits of the code's signed offsets.
pub record IsSized (area : MatrixArea) : Type 0 where
  pub few_rows : area.rows < 2 ^ 31
  pub few_cols : area.cols < 2 ^ 31

pub record IsCentred (area : MatrixArea) : Type 0 where
  pub in_rows : area.center_y < area.rows
  pub in_cols : area.center_x < area.cols

-- The places of the cell in column `x` and row `y` in a copy whose centre is at `m`.
abbrev pub east_row : ℕ → MatrixArea → ℕ → ℕ → ℕ
east_row m a x y = m + x - a.center_x

abbrev pub east_col : ℕ → MatrixArea → ℕ → ℕ → ℕ
east_col m a x y = m + a.center_y - y

abbrev pub south_row : ℕ → MatrixArea → ℕ → ℕ → ℕ
south_row m a x y = m + a.center_y - y

abbrev pub south_col : ℕ → MatrixArea → ℕ → ℕ → ℕ
south_col m a x y = m + a.center_x - x

abbrev pub west_row : ℕ → MatrixArea → ℕ → ℕ → ℕ
west_row m a x y = m + a.center_x - x

abbrev pub west_col : ℕ → MatrixArea → ℕ → ℕ → ℕ
west_col m a x y = m + y - a.center_y

-- A copy with each cell of an area at its place, and no other.
pub record IsCopy (area copied : MatrixArea) (row col : ℕ → MatrixArea → ℕ → ℕ → ℕ) : Type 0 where
  pub center : (copied.center_x ≡ side area - 1) × (copied.center_y ≡ side area - 1)
  pub cells :
      (x y : ℕ)
      → x < area.cols
      → y < area.rows
      → copied.data_ (row copied.center_y area x y) (col copied.center_x area x y) ≡ area.data_ y x
  pub others :
      (r c : ℕ)
      → ((x y : ℕ)
          → x < area.cols
          → y < area.rows
          → (r == row copied.center_y area x y && c == col copied.center_x area x y) ≡ false)
      → copied.data_ r c ≡ false

index-some : (from a b : ℕ) → b ≤ from + a → index from (diff a b) ≡ some (from + a - b)
index-some from a b h = index-diff from a b ∙ ground (arith, h)

module _ (fp : Doubles) (area : MatrixArea) (centred : IsCentred area) (sized : IsSized area) where
  middle : ℕ
  middle = side area - 1

  diff-IsSmall_x : (x : ℕ) → x < area.cols → IsSmall (diff x area.center_x)
  diff-IsSmall_x x h = diff-IsSmall x area.center_x area.cols h centred.in_cols sized.few_cols

  diff-IsSmall_y : (y : ℕ) → y < area.rows → IsSmall (diff y area.center_y)
  diff-IsSmall_y y h = diff-IsSmall y area.center_y area.rows h centred.in_rows sized.few_rows

  write_turned-place :
      (angle x y a b c d : ℕ) (out : MatrixArea)
      → rotated_x fp angle (diff x area.center_x) (diff y area.center_y) ≡ diff a b
      → rotated_y fp angle (diff x area.center_x) (diff y area.center_y) ≡ diff c d
      → b ≤ (side area - 1) + a
      → d ≤ (side area - 1) + c
      → write_turned fp angle area (side area - 1) (side area - 1) x y out
        ≡ set_value (side area - 1 + c - d) (side area - 1 + a - b) (area.data_ y x) out
  unfolding write_turned set_index
  write_turned-place angle x y a b c d out ex ey hx hy =
      rw (ex, ey, index-some (side area - 1) a b hx, index-some (side area - 1) c d hy) refl

  rotate-IsCopy :
      (angle : ℕ) (row col : ℕ → MatrixArea → ℕ → ℕ → ℕ)
      → IsPlacing area.cols area.rows
          (side area * 2)
          (side area * 2)
          (row (side area - 1) area)
          (col (side area - 1) area)
      → ((x y : ℕ) (out : MatrixArea)
          → x < area.cols
          → y < area.rows
          → write_turned fp angle area (side area - 1) (side area - 1) x y out
            ≡ set_value
                (row (side area - 1) area x y)
                (col (side area - 1) area x y)
                (area.data_ y x)
                out)
      → (out : MatrixArea) × (rotate fp angle area (matrix_area (side area * 2) (side area * 2))
          ≡ some out)
        × IsCopy area out row col
  unfolding rotate
  rotate-IsCopy angle row col placing writes =
      let start = matrix_area (side area * 2) (side area * 2) in
      let half : side area * 2 / 2 - 1 ≡ side area - 1 = omega arith in
      let done =
        write_all-Written area.cols area.rows (side area * 2) (side area * 2)
          (row (side area - 1) area) (col (side area - 1) area) (λ x y. area.data_ y x) placing
          (write_turned fp angle area (side area - 1) (side area - 1)) writes start refl refl in
      (
        set_center (side area - 1) (side area - 1) done.0,
        rw half (
            ap
              (λ o.
                and_then o (λ written. some (set_center (side area - 1) (side area - 1) written)))
              done.1),
        record {
          center = (refl, refl);
          cells = λ x y hx hy. done.2.cells x y hx hy (ground (arith, hx));
          others = λ r c free. done.2.others r c free;
        },
      )

  pub east-IsCopy :
      (out : MatrixArea) × (copy_area fp rotate90 area (matrix_area (side area * 2) (side area * 2))
        ≡ some out)
      × IsCopy area out east_row east_col
  unfolding copy_area
  east-IsCopy =
      rotate-IsCopy 90 east_row east_col
        (record {
          row_fits = λ i j hi hj. ground (arith, hi, hj, centred.in_rows, centred.in_cols);
          col_fits = λ i j hi hj. ground (arith, hi, hj, centred.in_rows, centred.in_cols);
          same_outer = λ i j k l hi hj hk hl er ec.
              ground (arith, hi, hj, hk, hl, er, ec, centred.in_rows, centred.in_cols);
          same_inner = λ i j k l hi hj hk hl er ec.
              ground (arith, hi, hj, hk, hl, er, ec, centred.in_rows, centred.in_cols);
        })
        (λ x y out hx hy.
          let law =
            turned_90 fp (diff x area.center_x) (diff y area.center_y) (diff-IsSmall_x x hx)
              (diff-IsSmall_y y hy) in
          write_turned-place 90 x y area.center_y y x area.center_x out
            (law.0 ∙ neg-diff y area.center_y) law.1
            (ground (arith, hx, hy, centred.in_rows, centred.in_cols))
            (ground (arith, hx, hy, centred.in_rows, centred.in_cols)))

  pub south-IsCopy :
      (out : MatrixArea) × (copy_area fp rotate180 area
          (matrix_area (side area * 2) (side area * 2))
        ≡ some out)
      × IsCopy area out south_row south_col
  unfolding copy_area
  south-IsCopy =
      rotate-IsCopy 180 south_row south_col
        (record {
          row_fits = λ i j hi hj. ground (arith, hi, hj, centred.in_rows, centred.in_cols);
          col_fits = λ i j hi hj. ground (arith, hi, hj, centred.in_rows, centred.in_cols);
          same_outer = λ i j k l hi hj hk hl er ec.
              ground (arith, hi, hj, hk, hl, er, ec, centred.in_rows, centred.in_cols);
          same_inner = λ i j k l hi hj hk hl er ec.
              ground (arith, hi, hj, hk, hl, er, ec, centred.in_rows, centred.in_cols);
        })
        (λ x y out hx hy.
          let law =
            turned_180 fp (diff x area.center_x) (diff y area.center_y) (diff-IsSmall_x x hx)
              (diff-IsSmall_y y hy) in
          write_turned-place 180 x y area.center_x x area.center_y y out
            (law.0 ∙ neg-diff x area.center_x) (law.1 ∙ neg-diff y area.center_y)
            (ground (arith, hx, hy, centred.in_rows, centred.in_cols))
            (ground (arith, hx, hy, centred.in_rows, centred.in_cols)))

  pub west-IsCopy :
      (out : MatrixArea) × (copy_area fp rotate270 area
          (matrix_area (side area * 2) (side area * 2))
        ≡ some out)
      × IsCopy area out west_row west_col
  unfolding copy_area
  west-IsCopy =
      rotate-IsCopy 270 west_row west_col
        (record {
          row_fits = λ i j hi hj. ground (arith, hi, hj, centred.in_rows, centred.in_cols);
          col_fits = λ i j hi hj. ground (arith, hi, hj, centred.in_rows, centred.in_cols);
          same_outer = λ i j k l hi hj hk hl er ec.
              ground (arith, hi, hj, hk, hl, er, ec, centred.in_rows, centred.in_cols);
          same_inner = λ i j k l hi hj hk hl er ec.
              ground (arith, hi, hj, hk, hl, er, ec, centred.in_rows, centred.in_cols);
        })
        (λ x y out hx hy.
          let law =
            turned_270 fp (diff x area.center_x) (diff y area.center_y) (diff-IsSmall_x x hx)
              (diff-IsSmall_y y hy) in
          write_turned-place 270 x y y area.center_y area.center_x x out law.0
            (law.1 ∙ neg-diff x area.center_x)
            (ground (arith, hx, hy, centred.in_rows, centred.in_cols))
            (ground (arith, hx, hy, centred.in_rows, centred.in_cols)))

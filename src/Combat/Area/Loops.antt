-- ===== src/Combat/Area/Loops.antt =====
-- What two nested loops leave in a matrix that write each cell to a place of its own.
use tib.Common.{
  ℕ, zero, suc, ◌<◌, ◌≤◌, ◌≡◌, ◌∙◌, refl, sym, ap, Bool, true, false, ◌&&◌, ◌||◌, Option, some,
  arith, ltb, ◌==◌, if◌then◌else◌, Bool-cases, inl, inr, ==_refl,
}
use tib.Combat.Area.{MatrixArea, set_value, and_then, for_each, write_all}

-- The loops run over the cells of a matrix, each of which has a place inside another, and no two the
-- same.
pub record IsPlacing (outer inner rows cols : ℕ) (row col : ℕ → ℕ → ℕ) : Type 0 where
  pub row_fits : (i j : ℕ) → i < outer → j < inner → row i j < rows
  pub col_fits : (i j : ℕ) → i < outer → j < inner → col i j < cols
  pub same_outer :
      (i j k l : ℕ)
      → i < outer
      → j < inner
      → k < outer
      → l < inner
      → row i j ≡ row k l
      → col i j ≡ col k l
      → i ≡ k
  pub same_inner :
      (i j k l : ℕ)
      → i < outer
      → j < inner
      → k < outer
      → l < inner
      → row i j ≡ row k l
      → col i j ≡ col k l
      → j ≡ l

module _ (outer inner rows cols : ℕ) (row col : ℕ → ℕ → ℕ) (value : ℕ → ℕ → Bool)
    (placing : IsPlacing outer inner rows cols row col)
    (write : ℕ → ℕ → MatrixArea → Option MatrixArea)
    (writes : (i j : ℕ) (a : MatrixArea)
      → i < outer
      → j < inner
      → write i j a ≡ set_value (row i j) (col i j) (value i j) a)
    (start : MatrixArea) where
  -- The loops have come to a cell: those before it are written, and nothing else is.
  pub record Written (i n : ℕ) (a : MatrixArea) : Type 0 where
    pub rows_kept : a.rows ≡ rows
    pub cols_kept : a.cols ≡ cols
    pub cells :
        (x y : ℕ)
        → x < outer
        → y < inner
        → (ltb x i || x == i && ltb y n) ≡ true
        → a.data_ (row x y) (col x y) ≡ value x y
    pub others :
        (r c : ℕ)
        → ((x y : ℕ) → x < outer → y < inner → (r == row x y && c == col x y) ≡ false)
        → a.data_ r c ≡ start.data_ r c

  step-Written :
      (i n : ℕ) (a : MatrixArea)
      → i < outer
      → n < inner
      → Written i n a
      → (b : MatrixArea) × (write i n a ≡ some b) × Written i (suc n) b
  step-Written i n a hi hn w = (
    after,
    writes i n a hi hn ∙ unfold set_value in rw inside refl,
    record {
      rows_kept = w.rows_kept;
      cols_kept = w.cols_kept;
      cells = cells;
      others = λ r c free. rw (free i n hi hn) (w.others r c free);
    },
  )
    where
      after : MatrixArea
      after = record a {
        data_ = λ r c. if r == row i n && c == col i n then value i n else a.data_ r c;
      }

      inside : (ltb (row i n) a.rows && ltb (col i n) a.cols) ≡ true
      inside =
          ground (
            arith,
            placing.row_fits i n hi hn,
            placing.col_fits i n hi hn,
            w.rows_kept,
            w.cols_kept,
          )

      cells :
          (x y : ℕ)
          → x < outer
          → y < inner
          → (ltb x i || x == i && ltb y (suc n)) ≡ true
          → after.data_ (row x y) (col x y) ≡ value x y
      cells x y hx hy before = elim (Bool-cases (row x y == row i n && col x y == col i n)) [
        | inl hit ↦
            let same_row : row x y ≡ row i n = ground (arith, hit) in
            let same_col : col x y ≡ col i n = ground (arith, hit) in
            let same_x = placing.same_outer x y i n hx hy hi hn same_row same_col in
            let same_y = placing.same_inner x y i n hx hy hi hn same_row same_col in
            rw hit (ap (λ k. value k n) (sym same_x) ∙ ap (value x) (sym same_y))
        | inr miss ↦
            let earlier : (ltb x i || x == i && ltb y n) ≡ true =
              elim (Bool-cases (x == i && y == n)) [
                | inl here ↦
                    let same_x : x ≡ i = ground (arith, here) in
                    let same_y : y ≡ n = ground (arith, here) in
                    absurd (
                      clash (row x y == row i n && col x y == col i n) miss
                        (rw (same_x, same_y, ==_refl (row i n)) (==_refl (col i n))))
                | inr elsewhere ↦ ground (arith, before, elsewhere)
              ] in
            rw miss (w.cells x y hx hy earlier)
      ]
        where
          clash : (b : Bool) → b ≡ false → b ≡ true → ⊥
          clash b p q = cc

  inner-Written :
      (i n : ℕ) (a : MatrixArea)
      → i < outer
      → n ≤ inner
      → Written i zero a
      → (b : MatrixArea) × (for_each n (write i) a ≡ some b) × Written i n b
  unfolding for_each
  inner-Written i zero a hi hn w = (a, refl, w)
  inner-Written i (suc n) a hi hn w =
      let before = inner-Written i n a hi (omega (arith, hn)) w in
      let after = step-Written i n before.0 hi (omega (arith, hn)) before.2 in
      (after.0, ap (λ o. and_then o (write i n)) before.1 ∙ after.1, after.2)

  next-Written : (i : ℕ) (a : MatrixArea) → Written i inner a → Written (suc i) zero a
  next-Written i a w = record {
    rows_kept = w.rows_kept;
    cols_kept = w.cols_kept;
    cells = λ x y hx hy before. w.cells x y hx hy (ground (arith, before, hy));
    others = w.others;
  }

  outer-Written :
      (m : ℕ)
      → m ≤ outer
      → Written zero zero start
      → (b : MatrixArea) × (for_each m (λ i. for_each inner (write i)) start ≡ some b)
        × Written m zero b
  unfolding for_each
  outer-Written zero hm w = (start, refl, w)
  outer-Written (suc m) hm w =
      let before = outer-Written m (omega (arith, hm)) w in
      let after = inner-Written m inner before.0 (omega (arith, hm)) (omega arith) before.2 in
      (
        after.0,
        ap (λ o. and_then o (for_each inner (write m))) before.1 ∙ after.1,
        next-Written m after.0 after.2,
      )

  pub write_all-Written :
      start.rows ≡ rows
      → start.cols ≡ cols
      → (b : MatrixArea) × (write_all outer inner write start ≡ some b) × Written outer zero b
  unfolding write_all
  write_all-Written same_rows same_cols = outer-Written outer (omega arith) (record {
    rows_kept = same_rows;
    cols_kept = same_cols;
    cells = λ x y hx hy before. absurd (none_before x y before);
    others = λ r c free. refl;
  })
    where
      none_before : (x y : ℕ) → (ltb x zero || x == zero && ltb y zero) ≡ true → ⊥
      none_before x y h = ground (arith, h)

-- ===== src/Combat/Area/Spread.antt =====
-- The shape that `setupArea` makes for a length and a spread.
use tib.Common.{
  ℕ, zero, suc, ◌+◌, ◌-◌, ◌*◌, ◌/◌, ◌%◌, ◌^◌, ◌<◌, ◌≤◌, ◌≡◌, ◌∙◌, refl, sym, ap, Bool, true, false,
  ◌&&◌, some, arith, ltb, leb, ◌==◌, if◌then◌else◌, length, Bool-cases, inl, inr,
}
use native.Mathlib.Nat.{
  div-zero, zero-div, div_self, div-eq_of_lt, div-add-mod', mul-add-div_right, mul-div_cancel,
  mod-lt, mod_self, mod-eq_of_lt, suc-mod, le-div_iff_mul-le, div-mul-le_self,
}
use tib.Common.Doubles.{Doubles}
use tib.Combat.Area.{
  MatrixArea, matrix_area, and_then, put_values, create_area, AreaCombat, setup_area, setup_turned,
}
use tib.Combat.Area.Setup.{IsTurned, setup_turned-IsTurned}
use tib.Combat.Area.Rows.{is_cell, cell_at}
use tib.Combat.Area.Tables.{cell_in, flatten, IsMade, create_area-put_values, create_area-IsMade}
use tib.Combat.Area.Centre.{HasCenter, last_center, put_values-HasCenter, last_center-spread_rows}
use tib.Combat.Area.Shapes.{
  spread_cols, spread_cell, spread_row, spread_rows, spread_table, setup_spread, spread_rows-sized,
}

div_step : (k s : ℕ) → 0 < s → (suc k / s ≡ (if suc k % s == 0 then k / s + 1 else k / s))
div_step k s h = elim (Bool-cases (k % s + 1 == s)) [
  | inl full ↦
      let whole : suc (k % s) ≡ s = ground (arith, full) in
      let none_left : suc k % s ≡ 0 = suc-mod k s ∙ ap (λ n. n % s) whole ∙ mod_self s in
      rw none_left (split ∙ ap (λ n. k / s + n / s) whole ∙ ap (λ n. k / s + n) (div_self h))
  | inr more ↦
      let small : suc (k % s) < s = ground (arith, more, mod-lt k h) in
      let some_left : (suc k % s == 0) ≡ false = ground (arith, suc-mod k s, mod-eq_of_lt small) in
      rw some_left (split ∙ ap (λ n. k / s + n) (div-eq_of_lt small) ∙ omega arith)
]
  where
    split : suc k / s ≡ k / s + suc (k % s) / s
    split =
        ap (λ n. n / s) (ap suc (sym (div-add-mod' k s)) ∙ omega arith)
        ∙ mul-add-div_right h (k / s) (suc (k % s))

div_mono : (a b s : ℕ) → a ≤ b → a / s ≤ b / s
div_mono a b zero h = omega (arith, div-zero a)
div_mono a b (suc s) h =
    let below : a / suc s * suc s ≤ b = omega (arith, div-mul-le_self a (suc s)) in
    (le-div_iff_mul-le {x = a / suc s} {y = b} (omega arith)).1 below

-- The columns of the code are twice a quotient and one.
spread_cols-quotient : (rows spread : ℕ) → spread_cols rows spread ≡ rows / spread * 2 + 1
spread_cols-quotient rows zero = ap (λ q. q * 2 + 1) (sym (div-zero rows))
spread_cols-quotient rows (suc s) =
    let whole : rows - rows % suc s ≡ rows / suc s * suc s =
      omega (arith, div-add-mod' rows (suc s)) in
    let divides : (suc s == 0) ≡ false = ground arith in
    rw (divides, whole, mul-div_cancel (rows / suc s) {n = suc s} (omega arith)) refl

-- A row whose cells begin `d` columns from the left and end as many from the right. The caster's own
-- cell is one of them.
spread_cell-middle :
    (cols q d c : ℕ) (is_last : Bool)
    → cols ≡ q * 2 + 1
    → d ≤ q
    → is_cell (spread_cell cols (cols - d) is_last (1 + c)) ≡ leb d c && ltb (c + d) cols
unfolding spread_cell
spread_cell-middle cols q d c is_last odd le = ground (arith, odd, le)

cell_at-spread_row :
    (cols col_spread : ℕ) (is_last : Bool) (x left c : ℕ)
    → cell_at (spread_row cols col_spread is_last x left) c
      ≡ ltb c left && is_cell (spread_cell cols col_spread is_last (x + c))
unfolding spread_row
cell_at-spread_row cols col_spread is_last x zero c = ground arith
cell_at-spread_row cols col_spread is_last x (suc left) zero =
    let inside : ltb 0 (suc left) ≡ true = ground arith in
    let first : x + 0 ≡ x = omega arith in rw (inside, first) refl
cell_at-spread_row cols col_spread is_last x (suc left) (suc c) =
    cell_at-spread_row cols col_spread is_last (x + 1) left c
    ∙ ap (λ n. ltb c left && is_cell (spread_cell cols col_spread is_last n)) (omega arith)
    ∙ ap (λ b. b && is_cell (spread_cell cols col_spread is_last (x + suc c))) (ground arith)

cell_at-middle :
    (cols q d c : ℕ) (is_last : Bool)
    → cols ≡ q * 2 + 1
    → d ≤ q
    → cell_at (spread_row cols (cols - d) is_last 1 cols) c ≡ leb d c && ltb (c + d) cols
cell_at-middle cols q d c is_last odd le =
    cell_at-spread_row cols (cols - d) is_last 1 cols c
    ∙ ap (λ b. ltb c cols && b) (spread_cell-middle cols q d c is_last odd le)
    ∙ ground arith

-- The columns lost after one row more.
col_spread-step :
    (cols spread k : ℕ)
    → (if ltb 0 spread && (k + 1) % spread == 0 then cols - k / spread - 1 else cols - k / spread)
      ≡ cols - (k + 1) / spread
col_spread-step cols zero k = ap (λ q. cols - q) (div-zero k ∙ sym (div-zero (k + 1)))
col_spread-step cols (suc s) k = ground (arith, div_step k (suc s) (omega arith))

module _ (rows cols spread : ℕ) (odd : cols ≡ rows / spread * 2 + 1) where
  cell_in-spread_rows :
      (k left r c : ℕ)
      → k + left ≤ rows
      → cell_in (spread_rows rows cols spread (cols - k / spread) (k + 1) left) r c
        ≡ ltb r left && (leb ((k + r) / spread) c && ltb (c + (k + r) / spread) cols)
  unfolding spread_rows
  cell_in-spread_rows k zero r c h = ground arith
  cell_in-spread_rows k (suc left) zero c h =
      let inside : ltb 0 (suc left) ≡ true = ground arith in
      let first : k + 0 ≡ k = omega arith in
      rw (inside, first)
        (cell_at-middle cols (rows / spread) (k / spread) c (k + 1 == rows) odd
          (div_mono k rows spread (omega (arith, h))))
  cell_in-spread_rows k (suc left) (suc r) c h =
      ap (λ n. cell_in (spread_rows rows cols spread n (k + 1 + 1) left) r c)
        (col_spread-step cols spread k)
      ∙ cell_in-spread_rows (k + 1) left r c (omega (arith, h))
      ∙ ap (λ n. ltb r left && (leb (n / spread) c && ltb (c + n / spread) cols)) (omega arith)
      ∙ ap (λ b. b && (leb ((k + suc r) / spread) c && ltb (c + (k + suc r) / spread) cols))
          (ground arith)

-- A trapezium that grows away from the caster, who stands at the last row: the row that is `r` from the top lacks
-- `r / spread` cells at each side; without a spread it is one column.
pub record IsSpread (rows spread : ℕ) (area : MatrixArea) : Type 0 where
  pub has_rows : area.rows ≡ rows
  pub has_cols : area.cols ≡ rows / spread * 2 + 1
  pub centre : (area.center_y ≡ rows - 1) × (area.center_x ≡ rows / spread)
  pub has_cells :
      (r c : ℕ)
      → area.data_ r c
        ≡ ltb r rows && (leb (r / spread) c && ltb (c + r / spread) (rows / spread * 2 + 1))

spread_table-cells :
    (rows spread r c : ℕ)
    → cell_in (spread_table rows spread) r c
      ≡ ltb r rows && (leb (r / spread) c && ltb (c + r / spread) (rows / spread * 2 + 1))
spread_table-cells rows spread r c =
    let cols = spread_cols rows spread in
    let odd = spread_cols-quotient rows spread in
    ap (λ n. cell_in (spread_rows rows cols spread n 1 rows) r c)
      (sym (ap (λ q. cols - q) (zero-div spread) ∙ omega arith))
    ∙ cell_in-spread_rows rows cols spread odd 0 rows r c (omega arith)
    ∙ ap (λ k. ltb r rows && (leb (k / spread) c && ltb (c + k / spread) cols)) (omega arith)
    ∙ ap (λ n. ltb r rows && (leb (r / spread) c && ltb (c + r / spread) n)) odd

spread_area-IsMade :
    (rows spread : ℕ)
    → 0 < rows
    → (area : MatrixArea) × (create_area (flatten (spread_table rows spread)) rows ≡ some area)
      × IsMade (spread_table rows spread) (spread_cols rows spread) area
spread_area-IsMade rows spread some_rows =
    let table = spread_table rows spread in
    let cols = spread_cols rows spread in
    let sized = spread_rows-sized rows cols spread cols 1 rows in
    let made =
      create_area-IsMade table cols (omega (arith, spread_cols-quotient rows spread))
        (omega (arith, sized.0, some_rows)) sized.1 in
    (made.0, ap (λ n. create_area (flatten table) n) (sym sized.0) ∙ made.1, made.2)

spread_area-centre :
    (rows spread : ℕ) (area : MatrixArea)
    → 0 < rows
    → create_area (flatten (spread_table rows spread)) rows ≡ some area
    → (area.center_y ≡ rows - 1) × (area.center_x ≡ rows / spread)
spread_area-centre zero spread area some_rows e = absurd (omega (arith, some_rows))
spread_area-centre (suc left) spread area some_rows e =
    let rows = suc left in
    let table = spread_table rows spread in
    let cols = spread_cols rows spread in
    let odd = spread_cols-quotient rows spread in
    let sized = spread_rows-sized rows cols spread cols 1 rows in
    let values : create_area (flatten table) rows
        ≡ put_values (flatten table) cols 0 0 (matrix_area (length table) cols) =
      ap (λ n. create_area (flatten table) n) (sym sized.0)
      ∙ create_area-put_values table cols (omega (arith, sized.0)) sized.1 in
    let there : HasCenter (some area) (last_center (flatten table) cols 0 0 (0, 0)) =
      rw (sym values ∙ e) at
        (put_values-HasCenter (flatten table) cols 0 0 (matrix_area (length table) cols)) in
    let placed : (area.center_y, area.center_x) ≡ (rows - 1, (cols - cols % 2) / 2) =
      there
      ∙ last_center-spread_rows rows cols spread cols 0 left (0, 0) (omega (arith, odd))
          (omega arith) in
    (ap (λ (c : ℕ × ℕ). c.0) placed, ap (λ (c : ℕ × ℕ). c.1) placed ∙ omega (arith, odd))

-- For every length above 0 and every spread, where the rows and the columns are fewer than 2 ^ 31, the
-- code makes the areas of the four directions without a write outside a matrix. The one to the north
-- has a row for each step of the length and twice the length over the spread and one columns, and its
-- centre in the middle of the last row; the row
-- that is `r` from the top has the cells of all columns but the `r / spread` first and last ones, where
-- a quotient by a spread of 0 counts as 0; and the others are its copies, turned about its centre.
pub setup_spread-IsTurned :
    (fp : Doubles) (rows spread : ℕ) (c : AreaCombat)
    → 0 < rows
    → rows < 2 ^ 31
    → rows / spread * 2 + 1 < 2 ^ 31
    → (area : MatrixArea) × IsSpread rows spread area
      × ((c' : AreaCombat) × (setup_spread fp rows spread c ≡ some c') × IsTurned area c')
unfolding setup_spread setup_area
setup_spread-IsTurned fp rows spread c some_rows few_rows few_cols =
    let odd = spread_cols-quotient rows spread in
    let sized =
      spread_rows-sized rows (spread_cols rows spread) spread (spread_cols rows spread) 1 rows in
    let made = spread_area-IsMade rows spread some_rows in
    let high : made.0.rows ≡ rows = made.2.has_rows ∙ sized.0 in
    let wide : made.0.cols ≡ rows / spread * 2 + 1 = made.2.has_cols ∙ odd in
    let turned =
      setup_turned-IsTurned fp made.0 c made.2.has_centre
        (record { few_rows = rw high few_rows; few_cols = rw wide few_cols }) in
    (
      made.0,
      record {
        has_rows = high;
        has_cols = wide;
        centre = spread_area-centre rows spread made.0 some_rows made.1;
        has_cells = λ r k. made.2.has_cells r k ∙ spread_table-cells rows spread r k;
      },
      (turned.0, ap (λ o. and_then o (λ area. setup_turned fp area c)) made.1 ∙ turned.1, turned.2),
    )

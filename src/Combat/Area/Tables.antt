-- ===== src/Combat/Area/Tables.antt =====
-- A matrix that is made of the values of a list, row by row, and the areas that are made of it.
use tib.Common.{
  ℕ, zero, suc, ◌+◌, ◌-◌, ◌*◌, ◌/◌, ◌^◌, ◌<◌, ◌≡◌, ◌∙◌, refl, sym, ap, Bool, true, false, ◌&&◌,
  ◌||◌, List, [], ◌∷◌, ◌++◌, some, arith, leb, ◌==◌, Bool-cases, inl, inr, length, All,
  length-append, length-append,
}
use tib.Common.Doubles.{Doubles}
use tib.Combat.Area.{MatrixArea, matrix_area, and_then, put_values, create_area}
use tib.Combat.Area.Turns.{IsCentred}
use native.Mathlib.Nat.{mul-div_cancel_left}
use tib.Combat.Area.{AreaCombat, setup_area, setup_turned}
use tib.Combat.Area.Setup.{IsTurned, setup_turned-IsTurned}
use tib.Combat.Area.Rows.{cell_at, Painted, put_row-Painted}

-- The cell in a row and a column of a table.
abbrev pub cell_in : List (List ℕ) → ℕ → ℕ → Bool
cell_in [] r c = false
cell_in (row ∷ table) zero c = cell_at row c
cell_in (row ∷ table) (suc r) c = cell_in table r c

abbrev pub flatten : List (List ℕ) → List ℕ
flatten [] = []
flatten (row ∷ table) = row ++ flatten table

-- One row more at the top of a table.
cell_in-step :
    (row : List ℕ) (table : List (List ℕ)) (y r c : ℕ)
    → (leb (y + 1) r && cell_in table (r - (y + 1)) c || r == y && cell_at row c)
      ≡ (leb y r && cell_in (row ∷ table) (r - y) c)
cell_in-step row table y r c = elim (Bool-cases (leb (y + 1) r)) [
  | inl below ↦
      let next : r - y ≡ suc (r - (y + 1)) = ground (arith, below) in
      let reached : leb y r ≡ true = ground (arith, below) in
      let past : (r == y) ≡ false = ground (arith, below) in
      rw (below, next, reached, past) (ground arith)
  | inr above ↦ elim (Bool-cases (r == y)) [
    | inl here ↦
        let zeroth : r - y ≡ zero = ground (arith, here) in
        let reached : leb y r ≡ true = ground (arith, here) in
        rw (above, here, zeroth, reached) refl
    | inr before ↦
        let unreached : leb y r ≡ false = ground (arith, above, before) in
        rw (above, before, unreached) refl
  ]
]

put_table-Painted :
    (table : List (List ℕ)) (cols y : ℕ) (a : MatrixArea)
    → 0 < cols
    → All (λ row. length row ≡ cols) table
    → y + length table ≡ a.rows
    → cols ≡ a.cols
    → (b : MatrixArea) × (put_values (flatten table) cols y 0 a ≡ some b)
      × Painted a b (λ r c. leb y r && cell_in table (r - y) c || a.data_ r c)
put_table-Painted [] cols y a some_cols sized ends same = (
  a,
  unfold put_values in refl,
  record { rows_kept = refl; cols_kept = refl; centred = λ h. h; painted = λ r c. ground arith },
)
put_table-Painted ([] ∷ table) cols y a some_cols sized ends same = absurd (empty some_cols sized.0)
  where
    empty : 0 < cols → 0 ≡ cols → ⊥
    empty h e = ground (arith, h, e)
put_table-Painted ((v ∷ vs) ∷ table) cols y a some_cols sized ends same =
    let put =
      put_row-Painted v vs (flatten table) cols y 0 a (ground (arith, ends)) same
        (ground (arith, sized.0)) in
    let later =
      put_table-Painted table cols (y + 1) put.0 some_cols sized.1
        (ground (arith, ends, put.2.rows_kept)) (same ∙ sym put.2.cols_kept) in
    (
      later.0,
      put.1 ∙ later.1,
      record {
        rows_kept = later.2.rows_kept ∙ put.2.rows_kept;
        cols_kept = later.2.cols_kept ∙ put.2.cols_kept;
        centred = λ h. later.2.centred (put.2.centred h);
        painted = λ r c.
            later.2.painted r c
            ∙ ap (λ o. leb (y + 1) r && cell_in table (r - (y + 1)) c || o)
                (put.2.painted r c
                  ∙ ap (λ k. r == y && (leb 0 c && cell_at (v ∷ vs) k) || a.data_ r c)
                      (from_zero c))
            ∙ ground (arith, cell_in-step (v ∷ vs) table y r c, all_columns c);
      },
    )
  where
    from_zero : (c : ℕ) → c - 0 ≡ c
    from_zero c = omega arith

    all_columns : (c : ℕ) → leb 0 c ≡ true
    all_columns c = ground arith

length-flatten :
    (cols : ℕ) (table : List (List ℕ))
    → All (λ row. length row ≡ cols) table
    → length (flatten table) ≡ length table * cols
length-flatten cols [] sized = omega arith
length-flatten cols (row ∷ table) sized =
    length-append row (flatten table) ∙ omega (arith, sized.0, length-flatten cols table sized.1)

-- An area that has the cells of a table, and a centre in it.
pub record IsMade (table : List (List ℕ)) (cols : ℕ) (area : MatrixArea) : Type 0 where
  pub has_rows : area.rows ≡ length table
  pub has_cols : area.cols ≡ cols
  pub has_centre : IsCentred area
  pub has_cells : (r c : ℕ) → area.data_ r c ≡ cell_in table r c

-- The columns that the code counts are those of the table.
pub create_area-put_values :
    (table : List (List ℕ)) (cols : ℕ)
    → 0 < length table
    → All (λ row. length row ≡ cols) table
    → create_area (flatten table) (length table)
      ≡ put_values (flatten table) cols 0 0 (matrix_area (length table) cols)
unfolding create_area
create_area-put_values table cols some_rows sized =
    let not_empty : (length table == 0) ≡ false = ground (arith, some_rows) in
    let columns : length (flatten table) / length table ≡ cols =
      ap (λ n. n / length table) (length-flatten cols table sized)
      ∙ mul-div_cancel_left cols some_rows in
    rw (not_empty, columns) refl

-- A list that has the rows of a table one behind the other, all of one length that is not 0, becomes a
-- matrix without a write outside it: the matrix has the table's size, its cells are the places of the
-- values 1 and 3, and its centre is a place in it.
pub create_area-IsMade :
    (table : List (List ℕ)) (cols : ℕ)
    → 0 < cols
    → 0 < length table
    → All (λ row. length row ≡ cols) table
    → (area : MatrixArea) × (create_area (flatten table) (length table) ≡ some area)
      × IsMade table cols area
create_area-IsMade table cols some_cols some_rows sized = (
  made.0,
  create_area-put_values table cols some_rows sized ∙ made.1,
  record {
    has_rows = made.2.rows_kept;
    has_cols = made.2.cols_kept;
    has_centre = made.2.centred (record { in_rows = some_rows; in_cols = some_cols });
    has_cells = λ r c. made.2.painted r c ∙ ground (arith, from_top r);
  },
)
  where
    made :
        (b : MatrixArea) × (put_values (flatten table) cols 0 0 (matrix_area (length table) cols)
          ≡ some b)
        × Painted
            (matrix_area (length table) cols)
            b
            (λ r c. leb 0 r && cell_in table (r - 0) c || false)
    made =
        put_table-Painted table cols 0 (matrix_area (length table) cols) some_cols sized
          (omega arith) refl

    from_top : (r : ℕ) → r - 0 ≡ r
    from_top r = omega arith

-- From a list that has the rows of a table one behind the other, all of one length that is not 0, and
-- where rows and columns are fewer than 2 ^ 31, the code makes the areas of the four directions, and nothing is written outside a matrix: the area to
-- the north has the table's size and cells and a centre in it, and the areas to the east, to the south
-- and to the west are its copies, turned about its centre by one, two and three right angles.
pub setup_area-IsTurned :
    (fp : Doubles) (table : List (List ℕ)) (cols : ℕ) (c : AreaCombat)
    → 0 < cols
    → 0 < length table
    → All (λ row. length row ≡ cols) table
    → length table < 2 ^ 31
    → cols < 2 ^ 31
    → (area : MatrixArea) × IsMade table cols area
      × ((c' : AreaCombat) × (setup_area fp (flatten table) (length table) c ≡ some c')
          × IsTurned area c')
unfolding setup_area
setup_area-IsTurned fp table cols c some_cols some_rows sized few_rows few_cols =
    let made = create_area-IsMade table cols some_cols some_rows sized in
    let turned =
      setup_turned-IsTurned fp made.0 c made.2.has_centre (record {
        few_rows = rw made.2.has_rows few_rows;
        few_cols = rw made.2.has_cols few_cols;
      }) in
    (
      made.0,
      made.2,
      (turned.0, ap (λ o. and_then o (λ area. setup_turned fp area c)) made.1 ∙ turned.1, turned.2),
    )

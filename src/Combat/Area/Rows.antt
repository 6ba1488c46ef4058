-- ===== src/Combat/Area/Rows.antt =====
-- What the values of one row leave in a matrix.
use tib.Common.{
  ℕ, zero, suc, ◌+◌, ◌-◌, ◌<◌, ◌≡◌, ◌∙◌, refl, sym, ap, Bool, true, false, ◌&&◌, ◌||◌, List, [],
  ◌∷◌, ◌++◌, some, arith, ltb, leb, ◌==◌, if◌then◌else◌, Bool-cases, inl, inr, length,
}
use tib.Combat.Area.{MatrixArea, set_value, set_center, put_value, put_values}
use tib.Combat.Area.Turns.{IsCentred}

abbrev pub is_cell : ℕ → Bool
is_cell v = v == 1 || v == 3

abbrev pub cell_at : List ℕ → ℕ → Bool
cell_at [] k = false
cell_at (v ∷ vs) zero = is_cell v
cell_at (v ∷ vs) (suc k) = cell_at vs k

-- What writing leaves: the sizes, a centre inside, and the cells.
pub record Painted (a b : MatrixArea) (data_ : ℕ → ℕ → Bool) : Type 0 where
  pub rows_kept : b.rows ≡ a.rows
  pub cols_kept : b.cols ≡ a.cols
  pub centred : IsCentred a → IsCentred b
  pub painted : (r c : ℕ) → b.data_ r c ≡ data_ r c

put_value-Painted :
    (value y x : ℕ) (a : MatrixArea)
    → y < a.rows
    → x < a.cols
    → (b : MatrixArea) × (put_value value y x a ≡ some b)
      × Painted a b (λ r c. r == y && c == x && is_cell value || a.data_ r c)
put_value-Painted value y x a hy hx = elim (Bool-cases (is_cell value)) [
  | inl cell ↦ (
    centre (record a { data_ = λ r c. if r == y && c == x then true else a.data_ r c }),
    unfold put_value in unfold set_value in rw (cell, inside) refl,
    paint (record a { data_ = λ r c. if r == y && c == x then true else a.data_ r c }) refl refl
        (λ h. record { in_rows = h.in_rows; in_cols = h.in_cols }) (λ r c. rw cell (ground arith)),
  )
  | inr blank ↦ (
    centre a,
    unfold put_value in rw blank refl,
    paint a refl refl (λ h. h) (λ r c. rw blank (ground arith)),
  )
]
  where
    inside : (ltb y a.rows && ltb x a.cols) ≡ true
    inside = ground (arith, hy, hx)

    centre : MatrixArea → MatrixArea
    centre m = if value == 2 || value == 3 then set_center y x m else m

    paint :
        (m : MatrixArea)
        → m.rows ≡ a.rows
        → m.cols ≡ a.cols
        → (IsCentred a → IsCentred m)
        → ((r c : ℕ) → m.data_ r c ≡ (r == y && c == x && is_cell value || a.data_ r c))
        → Painted a (centre m) (λ r c. r == y && c == x && is_cell value || a.data_ r c)
    paint m same_rows same_cols kept cells = elim (Bool-cases (value == 2 || value == 3)) [
      | inl here ↦ rw here (record {
        rows_kept = same_rows;
        cols_kept = same_cols;
        centred = λ h. record {
          in_rows = ground (arith, hy, same_rows);
          in_cols = ground (arith, hx, same_cols);
        };
        painted = cells;
      })
      | inr elsewhere ↦
          rw elsewhere (record {
            rows_kept = same_rows;
            cols_kept = same_cols;
            centred = kept;
            painted = cells;
          })
    ]

-- One cell more to the left of a row.
cell_at-step :
    (v : ℕ) (vs : List ℕ) (x c : ℕ)
    → (leb (x + 1) c && cell_at vs (c - (x + 1)) || c == x && is_cell v)
      ≡ (leb x c && cell_at (v ∷ vs) (c - x))
cell_at-step v vs x c = elim (Bool-cases (leb (x + 1) c)) [
  | inl right ↦
      let next : c - x ≡ suc (c - (x + 1)) = ground (arith, right) in
      let reached : leb x c ≡ true = ground (arith, right) in
      let past : (c == x) ≡ false = ground (arith, right) in
      rw (right, next, reached, past) (ground arith)
  | inr left ↦ elim (Bool-cases (c == x)) [
    | inl here ↦
        let zeroth : c - x ≡ zero = ground (arith, here) in
        let reached : leb x c ≡ true = ground (arith, here) in rw (left, here, zeroth, reached) refl
    | inr before ↦
        let unreached : leb x c ≡ false = ground (arith, left, before) in
        rw (left, before, unreached) refl
  ]
]

-- The rest of a row, which is not empty.
pub put_row-Painted :
    (v : ℕ) (vs rest : List ℕ) (cols y x : ℕ) (a : MatrixArea)
    → y < a.rows
    → cols ≡ a.cols
    → x + length (v ∷ vs) ≡ cols
    → (b : MatrixArea) × (put_values (v ∷ vs ++ rest) cols y x a ≡ put_values rest cols (y + 1) 0 b)
      × Painted a b (λ r c. r == y && (leb x c && cell_at (v ∷ vs) (c - x)) || a.data_ r c)
unfolding put_values
put_row-Painted v [] rest cols y x a hy same ends =
    let wide : x < a.cols = ground (arith, same, ends) in
    let last : (cols == x + 1) ≡ true = ground (arith, ends) in
    let put = put_value-Painted v y x a hy wide in
    (
      put.0,
      rw (put.1, last) refl,
      record {
        rows_kept = put.2.rows_kept;
        cols_kept = put.2.cols_kept;
        centred = put.2.centred;
        painted = λ r c. put.2.painted r c ∙ ground (arith, cell_at-step v [] x c);
      },
    )
put_row-Painted v (w ∷ ws) rest cols y x a hy same ends =
    let wide : x < a.cols = ground (arith, same, ends) in
    let more : (cols == x + 1) ≡ false = ground (arith, ends) in
    let put = put_value-Painted v y x a hy wide in
    let high : y < put.0.rows = ground (arith, hy, put.2.rows_kept) in
    let later =
      put_row-Painted w ws rest cols y (x + 1) put.0 high (same ∙ sym put.2.cols_kept)
        (ground (arith, ends)) in
    (
      later.0,
      rw (put.1, more) later.1,
      record {
        rows_kept = later.2.rows_kept ∙ put.2.rows_kept;
        cols_kept = later.2.cols_kept ∙ put.2.cols_kept;
        centred = λ h. later.2.centred (put.2.centred h);
        painted = λ r c.
            later.2.painted r c
            ∙ ap (λ o. r == y && (leb (x + 1) c && cell_at (w ∷ ws) (c - (x + 1))) || o)
                (put.2.painted r c)
            ∙ ground (arith, cell_at-step v (w ∷ ws) x c);
      },
    )

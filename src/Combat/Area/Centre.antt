-- ===== src/Combat/Area/Centre.antt =====
-- Where `createArea` leaves the centre, and where it is for a length and a spread.
use tib.Common.{
  ℕ, zero, suc, ◌+◌, ◌-◌, ◌/◌, ◌%◌, ◌<◌, ◌≤◌, ◌≡◌, ◌∙◌, refl, sym, ap, Bool, true, false, ◌&&◌,
  ◌||◌, List, [], ◌∷◌, ◌++◌, Option, none, some, arith, ltb, leb, ◌==◌, if◌then◌else◌, Bool-cases,
  inl, inr,
}
use tib.Combat.Area.{MatrixArea, set_value, set_center, and_then, put_value, put_values}
use tib.Combat.Area.Tables.{flatten}
use tib.Combat.Area.Shapes.{spread_cell, spread_row, spread_rows}

abbrev pub is_center : ℕ → Bool
is_center v = v == 2 || v == 3

-- The row and the column of the last centre in a list of rows, or the place that stood there before.
abbrev pub last_center : List ℕ → ℕ → ℕ → ℕ → ℕ × ℕ → ℕ × ℕ
last_center [] cols y x c = c
last_center (v ∷ vs) cols y x c =
    if cols == x + 1
    then last_center vs cols (y + 1) 0 (if is_center v then (y, x) else c)
    else last_center vs cols y (x + 1) (if is_center v then (y, x) else c)

abbrev pub HasCenter : Option MatrixArea → ℕ × ℕ → Type 0
HasCenter none c = Unit {0}
HasCenter (some a) c = (a.center_y, a.center_x) ≡ c

marked :
    (mark : Bool) (y x : ℕ) (a : MatrixArea) (f : MatrixArea → Option MatrixArea)
    (g : ℕ × ℕ → ℕ × ℕ)
    → ((b : MatrixArea) → HasCenter (f b) (g (b.center_y, b.center_x)))
    → HasCenter
        (f (if mark then set_center y x a else a))
        (g (if mark then (y, x) else (a.center_y, a.center_x)))
marked true y x a f g h = h (set_center y x a)
marked false y x a f g h = h a

put_value-HasCenter :
    (v y x : ℕ) (a : MatrixArea) (f : MatrixArea → Option MatrixArea) (g : ℕ × ℕ → ℕ × ℕ)
    → ((b : MatrixArea) → HasCenter (f b) (g (b.center_y, b.center_x)))
    → HasCenter
        (and_then (put_value v y x a) f)
        (g (if is_center v then (y, x) else (a.center_y, a.center_x)))
unfolding put_value set_value
put_value-HasCenter v y x a f g h = elim (Bool-cases (v == 1 || v == 3)) [
  | inl cell ↦ elim (Bool-cases (ltb y a.rows && ltb x a.cols)) [
    | inl inside ↦
        rw (cell, inside)
          (marked (is_center v) y x
            (record a { data_ = λ r c. if r == y && c == x then true else a.data_ r c }) f g h)
    | inr outside ↦ rw (cell, outside) tt
  ]
  | inr free ↦ rw free (marked (is_center v) y x a f g h)
]

if-HasCenter :
    (b : Bool) (o p : Option MatrixArea) (c d : ℕ × ℕ)
    → HasCenter o c
    → HasCenter p d
    → HasCenter (if b then o else p) (if b then c else d)
if-HasCenter true o p c d h k = h
if-HasCenter false o p c d h k = k

pub put_values-HasCenter :
    (vs : List ℕ) (cols y x : ℕ) (a : MatrixArea)
    → HasCenter (put_values vs cols y x a) (last_center vs cols y x (a.center_y, a.center_x))
unfolding put_values
put_values-HasCenter [] cols y x a = refl
put_values-HasCenter (v ∷ vs) cols y x a =
    put_value-HasCenter v y x a
      (λ b.
        if cols == x + 1 then put_values vs cols (y + 1) 0 b else put_values vs cols y (x + 1) b)
      (λ c.
        if cols == x + 1 then last_center vs cols (y + 1) 0 c else last_center vs cols y (x + 1) c)
      (λ b.
        if-HasCenter (cols == x + 1) _ _ _ _ (put_values-HasCenter vs cols (y + 1) 0 b)
          (put_values-HasCenter vs cols y (x + 1) b))

-- The middle column of the code.
abbrev middle_of : ℕ → ℕ
middle_of cols = (cols - cols % 2) / 2

is_center-spread_cell :
    (cols col_spread k : ℕ) (is_last : Bool)
    → is_center (spread_cell cols col_spread is_last (k + 1)) ≡ is_last && k == middle_of cols
unfolding spread_cell
is_center-spread_cell cols col_spread k is_last = ground arith

-- A later place in the row is the last one.
later_center :
    (is_last : Bool) (k q y : ℕ) (c : ℕ × ℕ)
    → (if is_last && leb (k + 1) q then (y, q) else if is_last && k == q then (y, k) else c)
      ≡ (if is_last && leb k q then (y, q) else c)
later_center false k q y c = refl
later_center true k q y c = elim (Bool-cases (k == q)) [
  | inl here ↦
      let same : k ≡ q = ground (arith, here) in
      let past : leb (q + 1) q ≡ false = ground arith in
      let reached : leb q q ≡ true = ground arith in
      let itself : (q == q) ≡ true = ground arith in rw (same, past, reached, itself) refl
  | inr other ↦
      let beyond : leb (k + 1) q ≡ leb k q = ground (arith, other) in rw (other, beyond) refl
]

last_place :
    (is_last : Bool) (k q y : ℕ) (c : ℕ × ℕ)
    → q ≤ k
    → (if is_last && k == q then (y, k) else c) ≡ (if is_last && leb k q then (y, q) else c)
last_place is_last k q y c h =
    let past : leb (k + 1) q ≡ false = ground (arith, h) in
    sym (
      ap (λ b. if is_last && b then (y, q) else if is_last && k == q then (y, k) else c) past
      ∙ no_more is_last (if is_last && k == q then (y, k) else c))
    ∙ later_center is_last k q y c
  where
    no_more : (b : Bool) (d : ℕ × ℕ) → (if b && false then (y, q) else d) ≡ d
    no_more true d = refl
    no_more false d = refl

last_center-spread_row :
    (cols col_spread k left y : ℕ) (is_last : Bool) (rest : List ℕ) (c : ℕ × ℕ)
    → k + suc left ≡ cols
    → last_center (spread_row cols col_spread is_last (k + 1) (suc left) ++ rest) cols y k c
      ≡ last_center rest cols
          (y + 1)
          0
          (if is_last && leb k (middle_of cols) then (y, middle_of cols) else c)
unfolding spread_row
last_center-spread_row cols col_spread k zero y is_last rest c h =
    let ends : (cols == k + 1) ≡ true = ground (arith, h) in
    let low : middle_of cols ≤ k = omega (arith, h) in
    rw (ends, is_center-spread_cell cols col_spread k is_last)
      (ap (λ d. last_center rest cols (y + 1) 0 d) (last_place is_last k (middle_of cols) y c low))
last_center-spread_row cols col_spread k (suc left) y is_last rest c h =
    let goes_on : (cols == k + 1) ≡ false = ground (arith, h) in
    rw (goes_on, is_center-spread_cell cols col_spread k is_last)
      (last_center-spread_row cols col_spread (k + 1) left y is_last rest _ (omega (arith, h))
        ∙ ap (λ d. last_center rest cols (y + 1) 0 d) (later_center is_last k (middle_of cols) y c))

-- The last row has the centre at its middle.
pub last_center-spread_rows :
    (rows cols spread col_spread y left : ℕ) (c : ℕ × ℕ)
    → 0 < cols
    → y + suc left ≡ rows
    → last_center (flatten (spread_rows rows cols spread col_spread (y + 1) (suc left))) cols y 0 c
      ≡ (rows - 1, (cols - cols % 2) / 2)
unfolding spread_rows
last_center-spread_rows rows zero spread col_spread y left c wide h = absurd (omega (arith, wide))
last_center-spread_rows rows (suc n) spread col_spread y zero c wide h =
    let ends : (y + 1 == rows) ≡ true = ground (arith, h) in
    let reached : leb 0 (middle_of (suc n)) ≡ true = ground arith in
    let last : y ≡ rows - 1 = omega (arith, h) in
    last_center-spread_row (suc n) col_spread 0 n y (y + 1 == rows) [] c (omega arith)
    ∙ rw (ends, reached) (ap (λ r. (r, middle_of (suc n))) last)
last_center-spread_rows rows (suc n) spread col_spread y (suc left) c wide h =
    last_center-spread_row (suc n) col_spread 0 n y (y + 1 == rows) _ c (omega arith)
    ∙ last_center-spread_rows rows (suc n) spread
        (if ltb 0 spread && (y + 1) % spread == 0 then col_spread - 1 else col_spread) (y + 1) left
        _ wide (omega (arith, h))

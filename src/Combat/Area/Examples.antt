-- ===== src/Combat/Area/Examples.antt =====
-- Areas of spells, and the areas' theorems there.
use tib.Common.{
  ℕ, ◌/◌, ◌≡◌, ◌∙◌, ap, refl, Bool, ◌==◌, if◌then◌else◌, true, false, List, [], ◌∷◌, some, arith,
}
use tib.Common.Int.{ℤ, pos, negsuc, pos_part, diff, neg, ◌+ℤ◌, ◌*ℤ◌}
use tib.Common.Doubles.{Doubles}
use tib.Combat.Area.{
  MatrixArea, matrix_area, set_value, and_then, for_each, write_all, copy_area, mirror, create_area,
  AreaCombat, setup_area,
}
use tib.Combat.Area.Setup.{IsTurned}
use tib.Combat.Area.Shapes.{spread_table, spread_rows, spread_row, spread_cell, setup_spread}
use tib.Combat.Area.Spread.{IsSpread, setup_spread-IsTurned}
use tib.Combat.Area.Tables.{IsMade, create_area-IsMade, setup_area-IsTurned}

-- Integers in place of doubles, with angles in degrees.
abbrev quotient : ℤ → ℤ → ℤ
quotient m n = pos (pos_part m / pos_part n)

abbrev cosine : ℤ → ℤ
cosine m = if pos_part m == 0 then pos 1 else if pos_part m == 180 then negsuc 0 else pos 0

abbrev sine : ℤ → ℤ
sine m = if pos_part m == 90 then pos 1 else if pos_part m == 270 then negsuc 0 else pos 0

degrees : Doubles
unfolding ◌*ℤ◌ diff
degrees = record {
  Double = ℤ;
  of_int = λ n. n;
  pi = pos 180;
  times = λ m n. m *ℤ n;
  divide = quotient;
  plus = λ m n. m +ℤ n;
  negate = neg;
  cos = cosine;
  sin = sine;
  round = λ m. m;
  IsUnit = λ d m. d ≡ m;
  IsProduct = λ d m. d ≡ m;
  cos_90 = refl;
  sin_90 = refl;
  cos_180 = refl;
  sin_180 = refl;
  cos_270 = refl;
  sin_270 = refl;
  negate_unit = λ d m e. ap neg e;
  times_unit = λ n m d small e. ap (λ k. n *ℤ k) e;
  round_plus = λ c d m n e f small. ap (λ k. k +ℤ d) e ∙ ap (λ k. m +ℤ k) f;
}

-- Two rows of three values: three cells in front of the caster, and its own.
abbrev wave : List (List ℕ)
wave = (1 ∷ 1 ∷ 1 ∷ []) ∷ (0 ∷ 3 ∷ 0 ∷ []) ∷ []

abbrev no_areas : AreaCombat
no_areas = record { areas = []; has_ext_area = false }

create_area-IsMade_example :
    (area : MatrixArea) × (create_area (1 ∷ 1 ∷ 1 ∷ 0 ∷ 3 ∷ 0 ∷ []) 2 ≡ some area)
    × IsMade wave 3 area
create_area-IsMade_example =
    create_area-IsMade wave 3 (omega arith) (omega arith) (refl, (refl, tt))

setup_area-IsTurned_example :
    (area : MatrixArea) × IsMade wave 3 area
    × ((c' : AreaCombat) × (setup_area degrees (1 ∷ 1 ∷ 1 ∷ 0 ∷ 3 ∷ 0 ∷ []) 2 no_areas ≡ some c')
        × IsTurned area c')
setup_area-IsTurned_example =
    setup_area-IsTurned degrees wave 3 no_areas (omega arith) (omega arith) (refl, (refl, tt))
      (omega arith) (omega arith)

-- A line of three cells with its centre at the left end.
abbrev line : MatrixArea
line = record { center_x = 0; center_y = 0; rows = 1; cols = 3; data_ = λ r c. c == 0 }

-- Mirrored, the centre stays at the left end, and its cell is at the right end.
mirrored_line_run :
    and_then {B = ℕ × (Bool × Bool)}
      (copy_area degrees mirror line (matrix_area 6 6))
      (λ a. some (a.center_x, (a.data_ 0 0, a.data_ 0 2)))
    ≡ some (0, (false, true))
unfolding copy_area write_all for_each set_value
mirrored_line_run = refl

setup_spread-IsTurned_example :
    (area : MatrixArea) × IsSpread 4 2 area
    × ((c' : AreaCombat) × (setup_spread degrees 4 2 no_areas ≡ some c') × IsTurned area c')
setup_spread-IsTurned_example =
    setup_spread-IsTurned degrees 4 2 no_areas (omega arith) (omega arith) (omega arith)

spread_run :
    spread_table 4 2
    ≡ (1 ∷ 1 ∷ 1 ∷ 1 ∷ 1 ∷ [])
      ∷ (1 ∷ 1 ∷ 1 ∷ 1 ∷ 1 ∷ [])
      ∷ (0 ∷ 1 ∷ 1 ∷ 1 ∷ 0 ∷ [])
      ∷ (0 ∷ 1 ∷ 3 ∷ 1 ∷ 0 ∷ [])
      ∷ []
unfolding spread_rows spread_row spread_cell
spread_run = refl

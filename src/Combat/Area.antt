-- ===== src/Combat/Area.antt =====
-- The areas of spells in src/combat.h and src/combat.cpp: matrices, their turned copies, and the area of
-- a direction. Access outside a matrix is undefined in the code and is `none` here. Sizes are taken to
-- fit the 31 bits of the code's signed loops.
pub mod Loops
pub mod Rotation
pub mod Turns
pub mod Setup
pub mod Rows
pub mod Tables
pub mod Shapes
pub mod Centre
pub mod Spread
mod Examples
use tib.Common.{
  ℕ, zero, suc, ◌+◌, ◌-◌, ◌*◌, ◌/◌, ◌≡◌, Bool, true, false, not, ◌&&◌, ◌||◌, List, [], ◌∷◌, Option,
  none, some, ltb, leb, ◌==◌, if◌then◌else◌, length,
}
use tib.Common.Word.{sub_u32, add_u32}
use tib.Common.Int.{ℤ, pos, negsuc, diff, neg, index}
use tib.Common.Doubles.{Doubles}
use tib.Common.Assoc.{lookup, insert}

pub record MatrixArea : Type 0 where
  pub center_x : ℕ
  pub center_y : ℕ
  pub rows : ℕ
  pub cols : ℕ
  pub data_ : ℕ → ℕ → Bool

-- The constructor.
abbrev pub matrix_area : ℕ → ℕ → MatrixArea
matrix_area rows cols = record {
  center_x = 0;
  center_y = 0;
  rows = rows;
  cols = cols;
  data_ = λ row col. false;
}

unfoldable pub set_value : ℕ → ℕ → Bool → MatrixArea → Option MatrixArea
set_value row col value area =
    if ltb row area.rows && ltb col area.cols
    then some
        (record area { data_ = λ r c. if r == row && c == col then value else area.data_ r c })
    else none

abbrev pub set_center : ℕ → ℕ → MatrixArea → MatrixArea
set_center y x area = record area { center_x = x; center_y = y }

abbrev pub and_then {ℓ κ} : {A : Type ℓ} {B : Type κ} → Option A → (A → Option B) → Option B
and_then none f = none
and_then (some a) f = f a

-- A loop from 0 up to a bound.
unfoldable pub for_each {ℓ} : {A : Type ℓ} → ℕ → (ℕ → A → Option A) → A → Option A
for_each zero body s = some s
for_each (suc n) body s = let before = for_each n body s in and_then before (body n)

-- Two loops, one in the other, that write to a matrix.
unfoldable pub write_all :
    ℕ → ℕ → (ℕ → ℕ → MatrixArea → Option MatrixArea) → MatrixArea → Option MatrixArea
write_all outer inner write area = for_each outer (λ i. for_each inner (write i)) area

-- The cell at two integers from a place.
unfoldable pub set_index : Option ℕ → Option ℕ → Bool → MatrixArea → Option MatrixArea
set_index none col value area = none
set_index (some row) none value area = none
set_index (some row) (some col) value area = set_value row col value area

pub data MatrixOperation : Type 0 where
  copy mirror flip rotate90 rotate180 rotate270 : MatrixOperation

abbrev pub angle_of : MatrixOperation → ℕ
angle_of copy = 0
angle_of mirror = 0
angle_of flip = 0
angle_of rotate90 = 90
angle_of rotate180 = 180
angle_of rotate270 = 270

module _ (fp : Doubles) where
  unfoldable pub angle_rad : ℕ → fp.Double
  angle_rad angle = fp.divide (fp.times fp.pi (fp.of_int (pos angle))) (fp.of_int (pos 180))

  unfoldable pub rotated_x : ℕ → ℤ → ℤ → ℤ
  rotated_x angle new_x new_y =
      let a = fp.cos (angle_rad angle) in
      let b = fp.negate (fp.sin (angle_rad angle)) in
      fp.round (fp.plus (fp.times (fp.of_int new_x) a) (fp.times (fp.of_int new_y) b))

  unfoldable pub rotated_y : ℕ → ℤ → ℤ → ℤ
  rotated_y angle new_x new_y =
      let c = fp.sin (angle_rad angle) in
      let d = fp.cos (angle_rad angle) in
      fp.round (fp.plus (fp.times (fp.of_int new_x) c) (fp.times (fp.of_int new_y) d))

  -- The body of the loops of a rotation.
  unfoldable pub write_turned : ℕ → MatrixArea → ℕ → ℕ → ℕ → ℕ → MatrixArea → Option MatrixArea
  write_turned angle input rotate_x rotate_y x y output =
      let new_x = diff x input.center_x in
      let new_y = diff y input.center_y in
      set_index (index rotate_y (rotated_y angle new_x new_y))
        (index rotate_x (rotated_x angle new_x new_y)) (input.data_ y x) output

  unfoldable pub rotate : ℕ → MatrixArea → MatrixArea → Option MatrixArea
  rotate angle input output =
      let rotate_x = output.cols / 2 - 1 in
      let rotate_y = output.rows / 2 - 1 in
      and_then (write_all input.cols input.rows (write_turned angle input rotate_x rotate_y) output)
        (λ written. some (set_center rotate_y rotate_x written))

  unfoldable pub copy_area : MatrixOperation → MatrixArea → MatrixArea → Option MatrixArea
  copy_area copy input output =
      and_then (write_all input.rows input.cols (λ y x. set_value y x (input.data_ y x)) output)
        (λ written. some (set_center input.center_y input.center_x written))
  copy_area mirror input output =
      and_then
        (write_all input.rows input.cols
          (λ y rx. set_value y rx (input.data_ y (input.cols - 1 - rx))) output)
        (λ written.
          some (set_center input.center_y (sub_u32 (sub_u32 input.rows 1) input.center_x) written))
  copy_area flip input output =
      and_then
        (write_all input.cols input.rows
          (λ x ry. set_value ry x (input.data_ (input.rows - 1 - ry) x)) output)
        (λ written.
          some (set_center (sub_u32 (sub_u32 input.cols 1) input.center_y) input.center_x written))
  copy_area rotate90 input output = rotate (angle_of rotate90) input output
  copy_area rotate180 input output = rotate (angle_of rotate180) input output
  copy_area rotate270 input output = rotate (angle_of rotate270) input output

-- One value of the list: 1 and 3 are cells of the area, 2 and 3 its centre.
unfoldable pub put_value : ℕ → ℕ → ℕ → MatrixArea → Option MatrixArea
put_value value y x area =
    let written = if value == 1 || value == 3 then set_value y x true area else some area in
    and_then written (λ a. some (if value == 2 || value == 3 then set_center y x a else a))

unfoldable pub put_values : List ℕ → ℕ → ℕ → ℕ → MatrixArea → Option MatrixArea
put_values [] cols y x area = some area
put_values (value ∷ values) cols y x area = and_then (put_value value y x area) (λ a.
    if cols == x + 1
    then put_values values cols (y + 1) 0 a
    else put_values values cols y (x + 1) a)

unfoldable pub create_area : List ℕ → ℕ → Option MatrixArea
create_area list rows =
    let cols = if rows == 0 then 0 else length list / rows in
    put_values list cols 0 0 (matrix_area rows cols)

pub data Direction : Type 0 where
  north east south west southwest southeast northwest northeast : Direction

abbrev pub number_of : Direction → ℕ
number_of north = 0
number_of east = 1
number_of south = 2
number_of west = 3
number_of southwest = 4
number_of southeast = 5
number_of northwest = 6
number_of northeast = 7

pub record AreaCombat : Type 0 where
  pub areas : List (ℕ × MatrixArea)
  pub has_ext_area : Bool

abbrev pub put_area : Direction → MatrixArea → AreaCombat → AreaCombat
put_area d area c = record c { areas = insert (number_of d) area c.areas }

abbrev pub max_output : MatrixArea → ℕ
max_output area = (if ltb area.cols area.rows then area.rows else area.cols) * 2

-- A copy in a fresh matrix, for a direction.
unfoldable pub put_copy :
    Doubles → MatrixOperation → Direction → ℕ → MatrixArea → AreaCombat → Option AreaCombat
put_copy fp op d size input c =
    and_then (copy_area fp op input (matrix_area size size)) (λ area. some (put_area d area c))

unfoldable pub setup_turned : Doubles → MatrixArea → AreaCombat → Option AreaCombat
setup_turned fp area c =
    let size = max_output area in
    let south_put = put_copy fp rotate180 south size area (put_area north area c) in
    let east_put = and_then south_put (put_copy fp rotate90 east size area) in
    and_then east_put (put_copy fp rotate270 west size area)

unfoldable pub setup_area : Doubles → List ℕ → ℕ → AreaCombat → Option AreaCombat
setup_area fp list rows c = and_then (create_area list rows) (λ area. setup_turned fp area c)

-- The mirrored copy of the flipped one is taken from the flipped copy, with its size.
unfoldable pub setup_mirrored : Doubles → MatrixArea → AreaCombat → Option AreaCombat
setup_mirrored fp area c =
    let size = max_output area in
    let ne = put_copy fp mirror northeast size area (put_area northwest area c) in
    and_then (copy_area fp flip area (matrix_area size size))
      (λ sw. and_then ne (λ c'. put_copy fp mirror southeast size sw (put_area southwest sw c')))

unfoldable pub setup_ext_area : Doubles → List ℕ → ℕ → AreaCombat → Option AreaCombat
setup_ext_area fp [] rows c = some c
setup_ext_area fp (value ∷ values) rows c =
    and_then (create_area (value ∷ values) rows)
      (λ area. setup_mirrored fp area (record c { has_ext_area = true }))

-- The direction of a target from the centre, by the signs of the two offsets.
abbrev pub is_negative : ℤ → Bool
is_negative (pos n) = false
is_negative (negsuc n) = true

abbrev pub is_positive : ℤ → Bool
is_positive (pos n) = ltb 0 n
is_positive (negsuc n) = false

unfoldable pub direction_of : Bool → ℤ → ℤ → Direction
direction_of has_ext_area dx dy =
    if has_ext_area && is_negative dx && is_negative dy
    then northwest
    else if has_ext_area && is_positive dx && is_negative dy
    then northeast
    else if has_ext_area && is_negative dx && is_positive dy
    then southwest
    else if has_ext_area && is_positive dx && is_positive dy
    then southeast
    else if is_negative dx
    then west
    else if is_positive dx
    then east
    else if is_negative dy
    then north
    else south

unfoldable pub get_area : AreaCombat → ℤ → ℤ → Option MatrixArea
get_area c dx dy = lookup (number_of (direction_of c.has_ext_area dx dy)) c.areas

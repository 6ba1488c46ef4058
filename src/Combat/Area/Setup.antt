-- ===== src/Combat/Area/Setup.antt =====
-- The four areas that are made of one.
use tib.Common.{◌*◌, ◌≡◌, ◌∙◌, ap, some, arith}
use tib.Common.Assoc.{lookup, lookup-insert_self, lookup-insert_ne}
use tib.Common.Doubles.{Doubles}
use tib.Combat.Area.{
  MatrixArea, matrix_area, and_then, copy_area, rotate90, rotate180, rotate270, AreaCombat,
  put_area, put_copy, setup_turned, north, east, south, west, number_of,
}
use tib.Combat.Area.Turns.{
  side, IsSized, IsCentred, IsCopy, east_row, east_col, south_row, south_col, west_row, west_col,
  east-IsCopy, south-IsCopy, west-IsCopy,
}

-- The areas of a combat: the area to the north, and its copies.
pub record IsTurned (area : MatrixArea) (c : AreaCombat) : Type 0 where
  pub to_north : lookup (number_of north) c.areas ≡ some area
  pub to_east :
      (out : MatrixArea) × (lookup (number_of east) c.areas ≡ some out)
      × IsCopy area out east_row east_col
  pub to_south :
      (out : MatrixArea) × (lookup (number_of south) c.areas ≡ some out)
      × IsCopy area out south_row south_col
  pub to_west :
      (out : MatrixArea) × (lookup (number_of west) c.areas ≡ some out)
      × IsCopy area out west_row west_col

-- From an area whose centre is one of its places, the code makes the areas of the four directions and
-- never writes outside a matrix. The area to the north is the area itself. The others have the centre
-- at their middle, and around it the cells of the area, each turned by a right angle to the east, by
-- two to the south and by three to the west, and no other cell.
pub setup_turned-IsTurned :
    (fp : Doubles) (area : MatrixArea) (c : AreaCombat)
    → IsCentred area
    → IsSized area
    → (c' : AreaCombat) × (setup_turned fp area c ≡ some c') × IsTurned area c'
unfolding setup_turned put_copy
setup_turned-IsTurned fp area c centred sized = (
  last,
  ap
        (λ o.
          and_then (and_then o (put_copy fp rotate90 east (side area * 2) area))
            (put_copy fp rotate270 west (side area * 2) area))
        (ap (λ o. and_then o (λ a. some (put_area south a first))) to_south.1)
      ∙ ap (λ o. and_then o (put_copy fp rotate270 west (side area * 2) area))
          (ap (λ o. and_then o (λ a. some (put_area east a second))) to_east.1)
      ∙ ap (λ o. and_then o (λ a. some (put_area west a third))) to_west.1,
  record {
    to_north =
        lookup-insert_ne 3 0 to_west.0 third.areas (omega arith)
        ∙ lookup-insert_ne 1 0 to_east.0 second.areas (omega arith)
        ∙ lookup-insert_ne 2 0 to_south.0 first.areas (omega arith)
        ∙ lookup-insert_self 0 area c.areas;
    to_east = (
      to_east.0,
      lookup-insert_ne 3 1 to_west.0 third.areas (omega arith)
          ∙ lookup-insert_self 1 to_east.0 second.areas,
      to_east.2,
    );
    to_south = (
      to_south.0,
      lookup-insert_ne 3 2 to_west.0 third.areas (omega arith)
          ∙ lookup-insert_ne 1 2 to_east.0 second.areas (omega arith)
          ∙ lookup-insert_self 2 to_south.0 first.areas,
      to_south.2,
    );
    to_west = (to_west.0, lookup-insert_self 3 to_west.0 third.areas, to_west.2);
  },
)
  where
    to_south :
        (out : MatrixArea) × (copy_area fp rotate180 area
            (matrix_area (side area * 2) (side area * 2))
          ≡ some out)
        × IsCopy area out south_row south_col
    to_south = south-IsCopy fp area centred sized

    to_east :
        (out : MatrixArea) × (copy_area fp rotate90 area
            (matrix_area (side area * 2) (side area * 2))
          ≡ some out)
        × IsCopy area out east_row east_col
    to_east = east-IsCopy fp area centred sized

    to_west :
        (out : MatrixArea) × (copy_area fp rotate270 area
            (matrix_area (side area * 2) (side area * 2))
          ≡ some out)
        × IsCopy area out west_row west_col
    to_west = west-IsCopy fp area centred sized

    first : AreaCombat
    first = put_area north area c

    second : AreaCombat
    second = put_area south to_south.0 first

    third : AreaCombat
    third = put_area east to_east.0 second

    last : AreaCombat
    last = put_area west to_west.0 third

-- ===== src/Combat/Area/Shapes.antt =====
-- The lists that `setupArea` of src/combat.cpp makes for a length and a spread, and for a radius, which
-- are not negative. A list is made of its rows.
use tib.Common.{
  ℕ, zero, suc, ◌+◌, ◌-◌, ◌*◌, ◌/◌, ◌%◌, ◌≡◌, refl, ap, Bool, ◌&&◌, List, [], ◌∷◌, map, Option, ltb,
  leb, ◌==◌, if◌then◌else◌, length, All,
}
use tib.Common.Doubles.{Doubles}
use tib.Combat.Area.{AreaCombat, setup_area}
use tib.Combat.Area.Tables.{flatten}

abbrev pub spread_cols : ℕ → ℕ → ℕ
spread_cols length spread = if spread == 0 then 1 else (length - length % spread) / spread * 2 + 1

-- The caster stands in the middle of the last row; a row's cells are the middle ones.
unfoldable pub spread_cell : ℕ → ℕ → Bool → ℕ → ℕ
spread_cell cols col_spread is_last x =
    if is_last && x == (cols - cols % 2) / 2 + 1
    then 3
    else if leb (cols - col_spread + 1) x && leb x (cols - (cols - col_spread))
    then 1
    else 0

unfoldable pub spread_row : ℕ → ℕ → Bool → ℕ → ℕ → List ℕ
spread_row cols col_spread is_last x zero = []
spread_row cols col_spread is_last x (suc left) =
    spread_cell cols col_spread is_last x ∷ spread_row cols col_spread is_last (x + 1) left

unfoldable pub spread_rows : ℕ → ℕ → ℕ → ℕ → ℕ → ℕ → List (List ℕ)
spread_rows rows cols spread col_spread y zero = []
spread_rows rows cols spread col_spread y (suc left) =
    spread_row cols col_spread (y == rows) 1 cols
    ∷ spread_rows rows cols spread
        (if ltb 0 spread && y % spread == 0 then col_spread - 1 else col_spread) (y + 1) left

abbrev pub spread_table : ℕ → ℕ → List (List ℕ)
spread_table rows spread =
    spread_rows rows (spread_cols rows spread) spread (spread_cols rows spread) 1 rows

unfoldable pub setup_spread : Doubles → ℕ → ℕ → AreaCombat → Option AreaCombat
setup_spread fp length spread c = setup_area fp (flatten (spread_table length spread)) length c

abbrev pub radius_cell : ℕ → ℕ → ℕ
radius_cell radius cell = if cell == 1 then 3 else if ltb 0 cell && leb cell radius then 1 else 0

abbrev pub distances : List (List ℕ)
distances =
    (0 ∷ 0 ∷ 0 ∷ 0 ∷ 0 ∷ 0 ∷ 8 ∷ 0 ∷ 0 ∷ 0 ∷ 0 ∷ 0 ∷ 0 ∷ [])
    ∷ (0 ∷ 0 ∷ 0 ∷ 0 ∷ 8 ∷ 8 ∷ 7 ∷ 8 ∷ 8 ∷ 0 ∷ 0 ∷ 0 ∷ 0 ∷ [])
    ∷ (0 ∷ 0 ∷ 0 ∷ 8 ∷ 7 ∷ 6 ∷ 6 ∷ 6 ∷ 7 ∷ 8 ∷ 0 ∷ 0 ∷ 0 ∷ [])
    ∷ (0 ∷ 0 ∷ 8 ∷ 7 ∷ 6 ∷ 5 ∷ 5 ∷ 5 ∷ 6 ∷ 7 ∷ 8 ∷ 0 ∷ 0 ∷ [])
    ∷ (0 ∷ 8 ∷ 7 ∷ 6 ∷ 5 ∷ 4 ∷ 4 ∷ 4 ∷ 5 ∷ 6 ∷ 7 ∷ 8 ∷ 0 ∷ [])
    ∷ (0 ∷ 8 ∷ 6 ∷ 5 ∷ 4 ∷ 3 ∷ 2 ∷ 3 ∷ 4 ∷ 5 ∷ 6 ∷ 8 ∷ 0 ∷ [])
    ∷ (8 ∷ 7 ∷ 6 ∷ 5 ∷ 4 ∷ 2 ∷ 1 ∷ 2 ∷ 4 ∷ 5 ∷ 6 ∷ 7 ∷ 8 ∷ [])
    ∷ (0 ∷ 8 ∷ 6 ∷ 5 ∷ 4 ∷ 3 ∷ 2 ∷ 3 ∷ 4 ∷ 5 ∷ 6 ∷ 8 ∷ 0 ∷ [])
    ∷ (0 ∷ 8 ∷ 7 ∷ 6 ∷ 5 ∷ 4 ∷ 4 ∷ 4 ∷ 5 ∷ 6 ∷ 7 ∷ 8 ∷ 0 ∷ [])
    ∷ (0 ∷ 0 ∷ 8 ∷ 7 ∷ 6 ∷ 5 ∷ 5 ∷ 5 ∷ 6 ∷ 7 ∷ 8 ∷ 0 ∷ 0 ∷ [])
    ∷ (0 ∷ 0 ∷ 0 ∷ 8 ∷ 7 ∷ 6 ∷ 6 ∷ 6 ∷ 7 ∷ 8 ∷ 0 ∷ 0 ∷ 0 ∷ [])
    ∷ (0 ∷ 0 ∷ 0 ∷ 0 ∷ 8 ∷ 8 ∷ 7 ∷ 8 ∷ 8 ∷ 0 ∷ 0 ∷ 0 ∷ 0 ∷ [])
    ∷ (0 ∷ 0 ∷ 0 ∷ 0 ∷ 0 ∷ 0 ∷ 8 ∷ 0 ∷ 0 ∷ 0 ∷ 0 ∷ 0 ∷ 0 ∷ [])
    ∷ []

abbrev pub radius_table : ℕ → List (List ℕ)
radius_table radius = map (map (radius_cell radius)) distances

unfoldable pub setup_radius : Doubles → ℕ → AreaCombat → Option AreaCombat
setup_radius fp radius c = setup_area fp (flatten (radius_table radius)) 13 c

length-spread_row :
    (cols col_spread : ℕ) (is_last : Bool) (x left : ℕ)
    → length (spread_row cols col_spread is_last x left) ≡ left
unfolding spread_row
length-spread_row cols col_spread is_last x zero = refl
length-spread_row cols col_spread is_last x (suc left) =
    ap suc (length-spread_row cols col_spread is_last (x + 1) left)

pub spread_rows-sized :
    (rows cols spread col_spread y left : ℕ)
    → (length (spread_rows rows cols spread col_spread y left) ≡ left)
      × All (λ row. length row ≡ cols) (spread_rows rows cols spread col_spread y left)
unfolding spread_rows
spread_rows-sized rows cols spread col_spread y zero = (refl, tt)
spread_rows-sized rows cols spread col_spread y (suc left) =
    let later =
      spread_rows-sized rows cols spread
        (if ltb 0 spread && y % spread == 0 then col_spread - 1 else col_spread) (y + 1) left in
    (ap suc later.0, (length-spread_row cols col_spread (y == rows) 1 cols, later.1))

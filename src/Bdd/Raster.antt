-- ===== src/Bdd/Raster.antt =====
-- Rasters and diagrams: bdd_min_level, bdd_from_raster and bdd_to_raster of hw1/src/bdd.c, and
-- split_raster_data of hw1/src/custom_functions.c.
use cse320_spring.Base.{
  ℕ, zero, suc, ◌+◌, ◌-◌, ◌*◌, ◌/◌, ◌%◌, ◌^◌, true, false, ◌&&◌, Option, none, some, List, [], ◌∷◌,
  ◌++◌, ltb, leb, ◌==◌, if◌then◌else◌,
}
use cse320_spring.Base.Maybe.{◌>>=◌}
use cse320_spring.Bdd.Store.{Node, Index, returned, diverged, M}
use cse320_spring.Bdd.Image.{bdd_apply}
use cse320_spring.Bdd.Combine.{both}

-- The rounds before `1 << level` would pass the sign of an `int`.
abbrev pub int_shifts : ℕ
int_shifts = 31

-- while (w > 1<<level) level++; `none` is a shift that C leaves undefined.
unfoldable pub cover : ℕ → ℕ → ℕ → Option ℕ
cover zero w level = none
cover (suc rounds) w level =
    let rest = cover rounds w (level + 1) in if ltb (2 ^ level) w then rest else some level

unfoldable pub bdd_min_level : ℕ → ℕ → Option ℕ
bdd_min_level w h = do
  width_level ← cover int_shifts w 0
  height_level ← cover int_shifts h 0
  some (width_level + height_level)

-- while (!(w <= 1<<square && h <= 1<<square)) square++;
unfoldable pub square_level : ℕ → ℕ → ℕ → ℕ → Option ℕ
square_level w h zero square = none
square_level w h (suc rounds) square =
    let rest = square_level w h rounds (square + 1) in
    if leb w (2 ^ square) && leb h (2 ^ square) then some square else rest

-- From here on a product or a sum does not fit an `int`.
abbrev pub int_max : ℕ
int_max = 2147483648

-- The raster is a function of the offset. Fuel is for the depth of the calls. An `int` that overflows,
-- which C leaves undefined, is a run that diverged.
module _ (w h : ℕ) (raster : ℕ → ℕ) where
  unfoldable pub raster_byte : ℕ → ℕ → M Index
  raster_byte start_height start_width s =
      let offset = start_height * w + start_width in
      if ltb start_height h && ltb start_width w
      then if ltb offset int_max then returned (some (raster offset)) s else diverged
      else returned (some 0) s

  unfoldable pub split_raster_data : ℕ → ℕ → ℕ → ℕ → ℕ → M Index
  split_raster_data zero start_width end_width start_height end_height s = diverged
  split_raster_data (suc fuel) start_width end_width start_height end_height s =
      let width = end_width - start_width in
      let height = end_height - start_height in
      let mid_width = start_width + width / 2 in
      let mid_height = start_height + height / 2 in
      elim (bdd_min_level width height) [
        | none ↦ diverged
        | some level ↦ elim (ltb (width * height) int_max) [
          | false ↦ diverged
          | true ↦ elim (width * height == 1) [
            | true ↦ raster_byte start_height start_width s
            | false ↦ elim (ltb height width) [
              | true ↦
                  both (split_raster_data fuel start_width mid_width start_height end_height)
                    (split_raster_data fuel mid_width end_width start_height end_height) level s
              | false ↦
                  both (split_raster_data fuel start_width end_width start_height mid_height)
                    (split_raster_data fuel start_width end_width mid_height end_height) level s
            ]
          ]
        ]
      ]

  -- The guard tests the width alone. NULL and the index -1 are both `none`. One call for each level
  -- of the square, and one for a pixel, is the depth.
  unfoldable pub bdd_from_raster : M Index
  bdd_from_raster s = if w == 0 then returned none s else elim (square_level w h int_shifts 0) [
    | none ↦ diverged
    | some square ↦ split_raster_data (square + square + 1) 0 (2 ^ square) 0 (2 ^ square) s
  ]

-- The loops of bdd_to_raster, which write the raster from its start.
module _ (nodes : ℕ → Node) (i : ℕ) where
  abbrev pub width_bound : ℕ
  width_bound = 2 ^ ((nodes i).level - (nodes i).level / 2)

  abbrev pub height_bound : ℕ
  height_bound = 2 ^ ((nodes i).level / 2)

  unfoldable pub raster_row : ℕ → ℕ → ℕ → Option (List ℕ)
  raster_row row zero col = some []
  raster_row row (suc cols) col = do
    x ← bdd_apply nodes i (row % height_bound) (col % width_bound)
    xs ← raster_row row cols (col + 1)
    some (x ∷ xs)

  unfoldable pub raster_rows : ℕ → ℕ → ℕ → Option (List ℕ)
  raster_rows w zero row = some []
  raster_rows w (suc rows) row = do
    xs ← raster_row row w 0
    ys ← raster_rows w rows (row + 1)
    some (xs ++ ys)

  unfoldable pub bdd_to_raster : ℕ → ℕ → Option (List ℕ)
  bdd_to_raster w h = raster_rows w h 0

-- ===== src/Bdd/Window.antt =====
-- One call of split_raster_data in hw1/src/custom_functions.c, and the coordinates of a window.
use cse320_spring.Base.{
  ℕ, suc, ◌+◌, ◌-◌, ◌*◌, ◌/◌, ◌%◌, ◌≤◌, ◌<◌, ◌≡◌, ◌≢◌, ◌∙◌, ap₂, Bool, ◌&&◌, some, arith, List, [],
  ◌∷◌, length, ltb, if◌then◌else◌, ==-eq-true, ==-eq-false, lt→ltb, ltb_of_le, lt_cases, inl, inr,
  weight,
}
use cse320_spring.Bdd.Store.{Store, returned}
use cse320_spring.Bdd.Image.{is_odd}
use cse320_spring.Bdd.Combine.{both}
use cse320_spring.Bdd.Raster.{int_max, raster_byte, bdd_min_level, split_raster_data}

-- The row and the column that a path leads to.
abbrev pub row_of : List Bool → ℕ
row_of [] = 0
row_of (b ∷ p) = (if is_odd (suc (length p)) then 0 else weight b (length p / 2)) + row_of p

abbrev pub col_of : List Bool → ℕ
col_of [] = 0
col_of (b ∷ p) = (if is_odd (suc (length p)) then weight b (length p / 2) else 0) + col_of p

module _ (b : Bool) (p : List Bool) where
  pub row_odd : suc (length p) % 2 ≡ 1 → row_of (b ∷ p) ≡ row_of p
  row_odd o = rw (==-eq-true (suc (length p) % 2) 1 o) (omega arith)

  pub row_even : suc (length p) % 2 ≢ 1 → row_of (b ∷ p) ≡ weight b (length p / 2) + row_of p
  row_even o = rw (==-eq-false (suc (length p) % 2) 1 o)

  pub col_odd : suc (length p) % 2 ≡ 1 → col_of (b ∷ p) ≡ weight b (length p / 2) + col_of p
  col_odd o = rw (==-eq-true (suc (length p) % 2) 1 o)

  pub col_even : suc (length p) % 2 ≢ 1 → col_of (b ∷ p) ≡ col_of p
  col_even o = rw (==-eq-false (suc (length p) % 2) 1 o) (omega arith)

module _ (w h : ℕ) (raster : ℕ → ℕ) where
  -- The pixel at a row and a column: black outside of the raster.
  abbrev pub pixel : ℕ → ℕ → ℕ
  pixel r c = if ltb r h && ltb c w then raster (r * w + c) else 0

  raster_byte-pixel :
      (r c : ℕ) (s : Store)
      → ((r c : ℕ) → r < h → c < w → r * w + c < int_max)
      → raster_byte w h raster r c s ≡ returned (some (pixel r c)) s
  unfolding raster_byte
  raster_byte-pixel r c s fits = elim (lt_cases r h) [
    | inl row ↦ elim (lt_cases c w) [
      | inl col ↦ rw (lt→ltb r h row, lt→ltb c w col, lt→ltb (r * w + c) int_max (fits r c row col))
      | inr col ↦ rw (lt→ltb r h row, ltb_of_le c w col)
    ]
    | inr row ↦ rw (ltb_of_le r h row)
  ]

  -- The image of the window with its corner at a row and a column.
  abbrev pub window_at : ℕ → ℕ → List Bool → ℕ
  window_at sh sw p = pixel (sh + row_of p) (sw + col_of p)

  module _ (fuel sw ew sh eh level : ℕ) (s : Store)
      (e : bdd_min_level (ew - sw) (eh - sh) ≡ some level) where
    pub split_pixel :
        ((r c : ℕ) → r < h → c < w → r * w + c < int_max)
        → (ew - sw) * (eh - sh) ≡ 1
        → split_raster_data w h raster (suc fuel) sw ew sh eh s ≡ returned (some (pixel sh sw)) s
    unfolding split_raster_data
    split_pixel fits one =
        let small : (ew - sw) * (eh - sh) < int_max = omega (arith, one) in
        rw (e, split_raster_data, lt→ltb _ _ small, ==-eq-true _ 1 one)
          (raster_byte-pixel sh sw s fits)

    split_wide :
        (ew - sw) * (eh - sh) < int_max
        → (ew - sw) * (eh - sh) ≢ 1
        → eh - sh < ew - sw
        → split_raster_data w h raster (suc fuel) sw ew sh eh s
          ≡ both
              (split_raster_data w h raster fuel sw (sw + (ew - sw) / 2) sh eh)
              (split_raster_data w h raster fuel (sw + (ew - sw) / 2) ew sh eh)
              level
              s
    unfolding split_raster_data
    split_wide small more wide =
        rw (e, split_raster_data, lt→ltb _ _ small, ==-eq-false _ 1 more, lt→ltb _ _ wide)

    split_tall :
        (ew - sw) * (eh - sh) < int_max
        → (ew - sw) * (eh - sh) ≢ 1
        → ew - sw ≤ eh - sh
        → split_raster_data w h raster (suc fuel) sw ew sh eh s
          ≡ both
              (split_raster_data w h raster fuel sw ew sh (sh + (eh - sh) / 2))
              (split_raster_data w h raster fuel sw ew (sh + (eh - sh) / 2) eh)
              level
              s
    unfolding split_raster_data
    split_tall small more tall =
        rw (e, split_raster_data, lt→ltb _ _ small, ==-eq-false _ 1 more, ltb_of_le _ _ tall)

  module _ (fuel sw sh a level : ℕ) (s : Store) (pos : 0 < a) where
    pub wide_at :
        2 * a * a < int_max
        → bdd_min_level (2 * a) a ≡ some level
        → split_raster_data w h raster (suc fuel) sw (sw + 2 * a) sh (sh + a) s
          ≡ both
              (split_raster_data w h raster fuel sw (sw + a) sh (sh + a))
              (split_raster_data w h raster fuel (sw + a) (sw + a + a) sh (sh + a))
              level
              s
    wide_at small e =
        split_wide fuel sw (sw + 2 * a) sh (sh + a) level s (rw (width, height) e)
          (rw (width, height) small) (rw (width, height) (grind arith)) (omega arith)
        ∙ ap₂
            (λ m d.
              both (split_raster_data w h raster fuel sw m sh (sh + a))
                (split_raster_data w h raster fuel m d sh (sh + a)) level s)
            (omega arith) (omega arith)
      where
        width : sw + 2 * a - sw ≡ 2 * a
        width = omega arith

        height : sh + a - sh ≡ a
        height = omega arith

    pub tall_at :
        2 * a * (2 * a) < int_max
        → bdd_min_level (2 * a) (2 * a) ≡ some level
        → split_raster_data w h raster (suc fuel) sw (sw + 2 * a) sh (sh + 2 * a) s
          ≡ both
              (split_raster_data w h raster fuel sw (sw + 2 * a) sh (sh + a))
              (split_raster_data w h raster fuel sw (sw + 2 * a) (sh + a) (sh + a + a))
              level
              s
    tall_at small e =
        split_tall fuel sw (sw + 2 * a) sh (sh + 2 * a) level s (rw (width, height) e)
          (rw (width, height) small) (rw (width, height) (grind arith)) (omega arith)
        ∙ ap₂
            (λ m d.
              both (split_raster_data w h raster fuel sw (sw + 2 * a) sh m)
                (split_raster_data w h raster fuel sw (sw + 2 * a) m d) level s)
            (omega arith) (omega arith)
      where
        width : sw + 2 * a - sw ≡ 2 * a
        width = omega arith

        height : sh + 2 * a - sh ≡ 2 * a
        height = omega arith

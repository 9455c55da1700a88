-- ===== src/Bdd/Split.antt =====
-- split_raster_data of hw1/src/custom_functions.c draws the part of the raster in its window.
use cse320_spring.Base.{
  ℕ, zero, suc, ◌+◌, ◌-◌, ◌*◌, ◌/◌, ◌%◌, ◌^◌, ◌≤◌, ◌<◌, ◌≡◌, ◌≢◌, refl, sym, ◌∙◌, ap, ap₂, Bool,
  true, false, some, inl, inr, arith, List, [], ◌∷◌, length, if◌then◌else◌, eq_cases, weight,
  pow_suc, pow_pos,
}
use native.Mathlib.Nat.{mul-le-mul, mul-le-mul_left, pow-le-pow_right}
use cse320_spring.Bdd.Store.{Store, num_leaves}
use cse320_spring.Bdd.Invariant.{IsValid, Extends-refl, Ensures}
use cse320_spring.Bdd.Lookup.{Finds}
use cse320_spring.Bdd.Denote.{denote-leaf, level-leaf}
use cse320_spring.Bdd.Combine.{Draws, beside, both-Draws, repaint}
use cse320_spring.Bdd.Raster.{int_max, bdd_min_level, split_raster_data}
use cse320_spring.Bdd.Cover.{bdd_min_level-pow}
use cse320_spring.Bdd.Window.{
  row_of, col_of, row_odd, row_even, col_odd, col_even, pixel, window_at, wide_at, tall_at,
  split_pixel,
}

module _ (w h : ℕ) (raster : ℕ → ℕ) where
  module _ (bytes : (k : ℕ) → raster k < num_leaves)
      (fits : (r c : ℕ) → r < h → c < w → r * w + c < int_max) where
    pixel-lt : (r c : ℕ) → pixel w h raster r c < num_leaves
    pixel-lt r c = ground (arith, bytes (r * w + c))

    -- What split_raster_data promises for every window of `n` halvings.
    abbrev pub Splits : ℕ → ℕ → Type 0
    Splits fuel n =
        (sw sh : ℕ) (s : Store)
        → IsValid s
        → Ensures
            (split_raster_data w h raster fuel sw (sw + 2 ^ (n - n / 2)) sh (sh + 2 ^ (n / 2)) s)
            (Finds (Draws s n (window_at w h raster sh sw)))

    split_one : (fuel : ℕ) → Splits (suc fuel) 0
    split_one fuel sw sh s v =
        rw
          (split_pixel w h raster fuel sw (sw + 1) sh (sh + 1) 0 s
            (rw (width, height) (bdd_min_level-pow 0 0 (omega arith) (omega arith))) fits
            (rw (width, height) refl))
          (record {
            valid = v;
            extends = Extends-refl s;
            stands = (
              omega (arith, pixel-lt sh sw, v.low),
              omega (arith, level-leaf s v (pixel w h raster sh sw) (pixel-lt sh sw)),
            );
            image = λ p e. denote-leaf s v p (pixel w h raster sh sw) (pixel-lt sh sw) ∙ corner p e;
          })
      where
        width : sw + 1 - sw ≡ 1
        width = omega arith

        height : sh + 1 - sh ≡ 1
        height = omega arith

        corner :
            (p : List Bool) → length p ≡ 0 → pixel w h raster sh sw ≡ window_at w h raster sh sw p
        corner [] e = ap₂ (pixel w h raster) (omega arith) (omega arith)
        corner (b ∷ p) e = absurd (omega arith)

    split_odd :
        (fuel n k : ℕ) → suc n ≤ 30 → suc n ≡ suc k + k → Splits fuel n → Splits (suc fuel) (suc n)
    split_odd fuel n k hn odd ih sw sh s v =
        rw
          (
            up,
            across,
            pow_suc k,
            wide_at w h raster fuel sw sh (2 ^ k) (suc n) s (pow_pos k) area level,
          )
          (repaint _ s (suc n) (beside sides) (window_at w h raster sh sw) halves (
            both-Draws (split_raster_data w h raster fuel sw (sw + 2 ^ k) sh (sh + 2 ^ k))
              (split_raster_data w h raster fuel (sw + 2 ^ k) (sw + 2 ^ k + 2 ^ k) sh (sh + 2 ^ k))
              s n sides (omega arith) (rw (down, half) at (ih sw sh s v))
              (λ t u x. rw (down, half) at (ih (sw + 2 ^ k) sh t u))))
      where
        up : suc n - suc n / 2 ≡ suc k
        up = omega arith

        across : suc n / 2 ≡ k
        across = omega arith

        down : n - n / 2 ≡ k
        down = omega arith

        half : n / 2 ≡ k
        half = omega arith

        area : 2 * 2 ^ k * 2 ^ k < int_max
        area =
            let x : 2 ^ k ≤ 2 ^ 14 = pow-le-pow_right (omega arith) {j = 14} (omega arith) in
            omega (arith, mul-le-mul (mul-le-mul_left 2 x) x)

        level : bdd_min_level (2 * 2 ^ k) (2 ^ k) ≡ some (suc n)
        level = rw (← pow_suc k, bdd_min_level-pow (suc k) k (omega arith) (omega arith), odd)

        sides : Bool → List Bool → ℕ
        sides b = window_at w h raster sh (if b then sw + 2 ^ k else sw)

        halves : (p : List Bool) → length p ≡ suc n → beside sides p ≡ window_at w h raster sh sw p
        halves [] e = absurd (omega arith)
        halves (b ∷ p) e =
            ap₂ (pixel w h raster) (ap (λ x. sh + x) (sym (row_odd b p o)))
              (shift b ∙ ap (λ x. sw + x) (sym (cols b)))
          where
            o : suc (length p) % 2 ≡ 1
            o = omega arith

            cols : (b : Bool) → col_of (b ∷ p) ≡ weight b k + col_of p
            cols b = col_odd b p o ∙ ap (λ x. weight b x + col_of p) (omega arith)

            shift :
                (b : Bool)
                → (if b then sw + 2 ^ k else sw) + col_of p ≡ sw + (weight b k + col_of p)
            shift true = omega arith
            shift false = omega arith

    split_even :
        (fuel n k : ℕ)
        → suc n ≤ 30
        → suc n ≡ suc k + suc k
        → Splits fuel n
        → Splits (suc fuel) (suc n)
    split_even fuel n k hn even ih sw sh s v =
        rw
          (
            up,
            across,
            pow_suc k,
            tall_at w h raster fuel sw sh (2 ^ k) (suc n) s (pow_pos k) area level,
          )
          (repaint _ s (suc n) (beside sides) (window_at w h raster sh sw) halves (
            both-Draws (split_raster_data w h raster fuel sw (sw + 2 * 2 ^ k) sh (sh + 2 ^ k))
              (split_raster_data w h raster fuel sw (sw + 2 * 2 ^ k) (sh + 2 ^ k)
                (sh + 2 ^ k + 2 ^ k))
              s n sides (omega arith) (rw (down, half, pow_suc k) at (ih sw sh s v))
              (λ t u x. rw (down, half, pow_suc k) at (ih sw (sh + 2 ^ k) t u))))
      where
        up : suc n - suc n / 2 ≡ suc k
        up = omega arith

        across : suc n / 2 ≡ suc k
        across = omega arith

        down : n - n / 2 ≡ suc k
        down = omega arith

        half : n / 2 ≡ k
        half = omega arith

        area : 2 * 2 ^ k * (2 * 2 ^ k) < int_max
        area =
            let x : 2 ^ k ≤ 2 ^ 14 = pow-le-pow_right (omega arith) {j = 14} (omega arith) in
            omega (arith, mul-le-mul (mul-le-mul_left 2 x) (mul-le-mul_left 2 x))

        level : bdd_min_level (2 * 2 ^ k) (2 * 2 ^ k) ≡ some (suc n)
        level =
            rw (← pow_suc k, bdd_min_level-pow (suc k) (suc k) (omega arith) (omega arith), even)

        sides : Bool → List Bool → ℕ
        sides b = window_at w h raster (if b then sh + 2 ^ k else sh) sw

        halves : (p : List Bool) → length p ≡ suc n → beside sides p ≡ window_at w h raster sh sw p
        halves [] e = absurd (omega arith)
        halves (b ∷ p) e =
            ap₂ (pixel w h raster) (shift b ∙ ap (λ x. sh + x) (sym (rows b)))
              (ap (λ x. sw + x) (sym (col_even b p o)))
          where
            o : suc (length p) % 2 ≢ 1
            o = omega arith

            rows : (b : Bool) → row_of (b ∷ p) ≡ weight b k + row_of p
            rows b = row_even b p o ∙ ap (λ x. weight b x + row_of p) (omega arith)

            shift :
                (b : Bool)
                → (if b then sh + 2 ^ k else sh) + row_of p ≡ sh + (weight b k + row_of p)
            shift true = omega arith
            shift false = omega arith

    -- A window of `n` halvings, at most 30, is drawn by at most n + 1 nested calls, unless the node table fills
    -- up: the node's image is the raster's pixels in the window, black outside of the raster.
    pub split_raster_data-Draws : (fuel n : ℕ) → n ≤ 30 → n < fuel → Splits fuel n
    split_raster_data-Draws zero n hn hf = λ sw sh s v. absurd (omega arith)
    split_raster_data-Draws (suc fuel) zero hn hf = split_one fuel
    split_raster_data-Draws (suc fuel) (suc n) hn hf =
        let ih = split_raster_data-Draws fuel n (omega arith) (omega arith) in
        elim (eq_cases (suc n % 2) 1) [
          | inl o ↦ split_odd fuel n (n / 2) hn (omega arith) ih
          | inr o ↦ split_even fuel n (n / 2) hn (omega arith) ih
        ]

-- ===== src/Bdd/RoundTrip.antt =====
-- bdd_from_raster and bdd_to_raster of hw1/src/bdd.c: a raster is read back as it was.
use cse320_spring.Base.{
  ℕ, zero, suc, ◌+◌, ◌-◌, ◌*◌, ◌/◌, ◌%◌, ◌^◌, ◌≤◌, ◌<◌, ◌≡◌, refl, sym, ◌∙◌, ap, ap₂, some, arith,
  List, [], ◌∷◌, ◌++◌, ==-eq-false, lt→ltb, pow_pos,
}
use native.Mathlib.Nat.{mod-lt, mod-eq_of_lt}
use cse320_spring.Bdd.Store.{Store, num_leaves}
use cse320_spring.Bdd.Invariant.{IsValid, Ensures}
use cse320_spring.Bdd.Image.{bdd_apply}
use cse320_spring.Bdd.Lookup.{Stands, Finds}
use cse320_spring.Bdd.Denote.{denote, path, length-path}
use cse320_spring.Bdd.Apply.{bdd_apply-denote}
use cse320_spring.Bdd.Combine.{Draws, Ensures-mono, Finds-mono}
use cse320_spring.Bdd.Skip.{skip, denote-skip}
use cse320_spring.Bdd.Raster.{
  int_max, split_raster_data, bdd_from_raster, raster_row, raster_rows, bdd_to_raster, width_bound,
  height_bound,
}
use cse320_spring.Bdd.Cover.{square_level-covers}
use cse320_spring.Bdd.Window.{pixel, window_at}
use native.Mathlib.Nat.{mul-le-mul}
use cse320_spring.Bdd.Split.{split_raster_data-Draws}
use cse320_spring.Bdd.Coordinates.{row_of-path, col_of-path, skip-path, path-mod}

-- The pixels of some rows, left to right and from the top.
abbrev pub scan_row : (ℕ → ℕ → ℕ) → ℕ → ℕ → ℕ → List ℕ
scan_row g row zero col = []
scan_row g row (suc cols) col = g row col ∷ scan_row g row cols (col + 1)

abbrev pub scan_rows : (ℕ → ℕ → ℕ) → ℕ → ℕ → ℕ → List ℕ
scan_rows g w zero row = []
scan_rows g w (suc rows) row = scan_row g row w 0 ++ scan_rows g w rows (row + 1)

module _ (s : Store) (v : IsValid s) (i d : ℕ) (st : Stands s i (d + d)) where
  abbrev spot : ℕ → ℕ → ℕ
  spot r c = denote s.nodes i (path (d + d) r c)

  -- bdd_to_raster folds a coordinate into the square that the node's own level spans.
  apply_spot :
      (r c : ℕ)
      → bdd_apply s.nodes i (r % height_bound s.nodes i) (c % width_bound s.nodes i)
        ≡ some (spot r c)
  apply_spot r c =
      bdd_apply-denote s v (r % height_bound s.nodes i) (c % width_bound s.nodes i) i st.0
        (mod-lt r (pow_pos _)) (mod-lt c (pow_pos _))
      ∙ ap some
          (ap (denote s.nodes i) (path-mod l r c _ _ (omega arith) (omega arith)) ∙ sym skipped)
    where
      l : ℕ
      l = (s.nodes i).level

      skipped : denote s.nodes i (path (d + d) r c) ≡ denote s.nodes i (path l r c)
      skipped =
          let e : d + d ≡ d + d - l + l = omega (arith, st.1) in
          denote-skip s i l (d + d - l) (path (d + d) r c) (omega arith)
            (rw (length-path (d + d) r c) e)
          ∙ ap (denote s.nodes i)
              (ap (λ x. skip (d + d - l) (path x r c)) e ∙ skip-path (d + d - l) l r c)

  row_scan :
      (row cols col : ℕ) → raster_row s.nodes i row cols col ≡ some (scan_row spot row cols col)
  unfolding raster_row
  row_scan row zero col = refl
  row_scan row (suc cols) col = rw (apply_spot row col, row_scan row cols (col + 1))

  rows_scan : (w rows row : ℕ) → raster_rows s.nodes i w rows row ≡ some (scan_rows spot w rows row)
  unfolding raster_rows
  rows_scan w zero row = refl
  rows_scan w (suc rows) row = rw (row_scan row w 0, rows_scan w rows (row + 1))

  -- bdd_to_raster always ends on a well-formed store. It writes the pixels of the node's image, row
  -- by row, for a node of any level up to that of the square.
  pub bdd_to_raster-scan : (w h : ℕ) → bdd_to_raster s.nodes i w h ≡ some (scan_rows spot w h 0)
  unfolding bdd_to_raster
  bdd_to_raster-scan w h = rows_scan w h 0

shift : (x : ℕ) → 0 + x ≡ x
shift x = omega arith

half : (d : ℕ) → (d + d) / 2 ≡ d
half d = omega arith

rest : (d : ℕ) → d + d - (d + d) / 2 ≡ d
rest d = omega arith

-- The entries of a raster from an offset on.
abbrev pub entries_from : (ℕ → ℕ) → ℕ → ℕ → List ℕ
entries_from raster zero k = []
entries_from raster (suc n) k = raster k ∷ entries_from raster n (k + 1)

entries-append :
    (raster : ℕ → ℕ) (n m k : ℕ)
    → entries_from raster n k ++ entries_from raster m (k + n) ≡ entries_from raster (n + m) k
entries-append raster zero m k = ap₂ (entries_from raster) (omega arith) (omega arith)
entries-append raster (suc n) m k =
    let e : suc n + m ≡ suc (n + m) = omega arith in
    let f : k + suc n ≡ k + 1 + n = omega arith in
    rw (e, f) (ap (λ xs. raster k ∷ xs) (entries-append raster n m (k + 1)))

module _ (w h : ℕ) (raster : ℕ → ℕ) (g : ℕ → ℕ → ℕ)
    (agree : (r c : ℕ) → r < h → c < w → g r c ≡ raster (r * w + c)) where
  scan_row-entries :
      (row cols col : ℕ)
      → row < h
      → col + cols ≤ w
      → scan_row g row cols col ≡ entries_from raster cols (row * w + col)
  scan_row-entries row zero col hr hc = refl
  scan_row-entries row (suc cols) col hr hc = ap₂ ◌∷◌ (agree row col hr (omega arith)) (
      scan_row-entries row cols (col + 1) hr (omega arith)
      ∙ ap (entries_from raster cols) (omega arith))

  scan_rows-entries :
      (rows row : ℕ)
      → row + rows ≤ h
      → scan_rows g w rows row ≡ entries_from raster (rows * w) (row * w)
  scan_rows-entries zero row hr = let e : zero * w ≡ zero = omega arith in rw e
  scan_rows-entries (suc rows) row hr =
      ap₂ ◌++◌
        (scan_row-entries row w 0 (omega arith) (omega arith)
          ∙ ap (entries_from raster w) (omega arith))
        (scan_rows-entries rows (row + 1) (omega arith)
          ∙ ap (entries_from raster (rows * w)) (omega arith))
      ∙ entries-append raster w (rows * w) (row * w)
      ∙ ap (λ n. entries_from raster n (row * w)) (omega arith)

module _ (w h : ℕ) (raster : ℕ → ℕ) (bytes : (k : ℕ) → raster k < num_leaves) where
  inside : (r c : ℕ) → r < h → c < w → pixel w h raster r c ≡ raster (r * w + c)
  inside r c hr hc = rw (lt→ltb r h hr, lt→ltb c w hc)

  -- For a raster of bytes with a width from 1, and a width and a height up to 2 ^ 15: bdd_from_raster
  -- ends in a node, or because the node table is full, and no `int` overflows. The node's image is a
  -- square that covers the raster, with the raster in its corner and black elsewhere.
  pub bdd_from_raster-Draws :
      (s : Store)
      → IsValid s
      → 0 < w
      → w ≤ 2 ^ 15
      → h ≤ 2 ^ 15
      → (d : ℕ) × (w ≤ 2 ^ d)
        × (h ≤ 2 ^ d)
        × Ensures
            (bdd_from_raster w h raster s)
            (Finds (Draws s (d + d) (window_at w h raster 0 0)))
  unfolding bdd_from_raster
  bdd_from_raster-Draws s v pos hw hh =
      let (d, e, cw, ch, hd) = square_level-covers w h 15 hw hh (omega arith) in
      (d, cw, ch, rw (==-eq-false w 0 (omega arith), e) (split d hd))
    where
      fits : (r c : ℕ) → r < h → c < w → r * w + c < int_max
      fits r c row col = let low : r ≤ 32767 = omega arith in omega (arith, mul-le-mul low hw)

      split :
          (d : ℕ)
          → d ≤ 15
          → Ensures
              (split_raster_data w h raster (d + d + 1) 0 (2 ^ d) 0 (2 ^ d) s)
              (Finds (Draws s (d + d) (window_at w h raster 0 0)))
      split d hd =
          let e : d + d - (d + d) / 2 ≡ d = omega arith in
          let f : (d + d) / 2 ≡ d = omega arith in
          let z : 0 + 2 ^ d ≡ 2 ^ d = omega arith in
          rw (e, f, z) at
            (split_raster_data-Draws w h raster bytes fits (d + d + 1) (d + d) (omega arith)
              (omega arith) 0 0 s v)

  -- For a raster of bytes with a width from 1, and a width and a height up to 2 ^ 15: bdd_from_raster
  -- ends, and exits only where the node table is full. A node that it returns is written back by
  -- bdd_to_raster as the same bytes in the same order.
  pub bdd_to_raster-bdd_from_raster :
      (s : Store)
      → IsValid s
      → 0 < w
      → w ≤ 2 ^ 15
      → h ≤ 2 ^ 15
      → Ensures
          (bdd_from_raster w h raster s)
          (Finds (λ i t. bdd_to_raster t.nodes i w h ≡ some (entries_from raster (h * w) 0)))
  bdd_to_raster-bdd_from_raster s v pos hw hh =
      let (d, cw, ch, run) = bdd_from_raster-Draws s v pos hw hh in
      Ensures-mono (bdd_from_raster w h raster s) _ _ run
        (Finds-mono _ _ (λ i t x. written d cw ch i t x))
    where
      written :
          (d : ℕ)
          → w ≤ 2 ^ d
          → h ≤ 2 ^ d
          → (i : ℕ) (t : Store) → Draws s (d + d) (window_at w h raster 0 0) i t
          → bdd_to_raster t.nodes i w h ≡ some (entries_from raster (h * w) 0)
      written d cw ch i t x =
          bdd_to_raster-scan t x.valid i d x.stands w h
          ∙ ap some (
              scan_rows-entries w h raster (λ r c. denote t.nodes i (path (d + d) r c)) agree h 0
                (omega arith)
              ∙ ap (entries_from raster (h * w)) (omega arith))
        where
          agree :
              (r c : ℕ) → r < h → c < w → denote t.nodes i (path (d + d) r c) ≡ raster (r * w + c)
          agree r c hr hc =
              x.image (path (d + d) r c) (length-path (d + d) r c)
              ∙ ap₂ (pixel w h raster)
                  (shift _
                    ∙ row_of-path (d + d) r c
                    ∙ ap (λ k. r % 2 ^ k) (half d)
                    ∙ mod-eq_of_lt (omega arith))
                  (shift _
                    ∙ col_of-path (d + d) r c
                    ∙ ap (λ k. c % 2 ^ k) (rest d)
                    ∙ mod-eq_of_lt (omega arith))
              ∙ inside r c hr hc

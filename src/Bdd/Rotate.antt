-- ===== src/Bdd/Rotate.antt =====
-- bdd_rotate of hw1/src/bdd.c: a quarter turn counterclockwise.
use cse320_spring.Base.{
  ℕ, zero, suc, ◌-◌, ◌≤◌, ◌<◌, ◌≡◌, refl, sym, ◌∙◌, ap, Bool, not, true, false, inl, inr, arith,
  List, [], ◌∷◌, length, ltb, if◌then◌else◌, ==-eq-true, ==-eq-false, eq_cases, ltb_of_le,
}
use cse320_spring.Bdd.Store.{Store, Index, M, num_leaves, levels_max}
use cse320_spring.Bdd.Invariant.{IsValid, IsInner, Extends, Extends-refl, Extends-trans, Ensures}
use cse320_spring.Bdd.Image.{
  child, node_at, rotate_quarter, rotate_square, rotate_halves, bdd_rotate,
}
use cse320_spring.Bdd.Lookup.{Stands, Finds}
use cse320_spring.Bdd.Denote.{
  descend, denote, denote-leaf, denote-Extends, descend-Stands, level-leaf, leaf_of_level,
  IsInner-of_level,
}
use cse320_spring.Bdd.Combine.{Draws, beside, both, both-Draws, repaint}
use cse320_spring.Bdd.Skip.{skip, raise}

-- Where the pixel at the end of a path stood before the turn: at each pair of halvings its row was
-- the column, and its column the row from the other side.
abbrev pub turned : List Bool → List Bool
turned [] = []
turned (a ∷ []) = a ∷ []
turned (a ∷ b ∷ p) = b ∷ not a ∷ turned p

pub length-turned : (p : List Bool) → length (turned p) ≡ length p
length-turned [] = refl
length-turned (a ∷ []) = refl
length-turned (a ∷ b ∷ p) = ap (λ n. suc (suc n)) (length-turned p)

-- The level of a square of 2 ^ d by 2 ^ d.
abbrev pub twice : ℕ → ℕ
twice zero = zero
twice (suc d) = suc (suc (twice d))

-- What bdd_rotate promises at a level.
abbrev Rotates : (ℕ → ℕ → M Index) → ℕ → Type 0
Rotates rec m =
    (t : Store) (j : ℕ)
    → IsValid t
    → Stands t j m
    → Ensures (rec j m t) (Finds (Draws t m (λ p. denote t.nodes j (turned p))))

-- The call of a later store, told in an earlier one.
Rotates-from :
    (rec : ℕ → ℕ → M Index) (m : ℕ) (s t : Store) (j : ℕ)
    → Rotates rec m
    → IsValid s
    → IsValid t
    → Extends s t
    → Stands s j m
    → Ensures (rec j m t) (Finds (Draws t m (λ p. denote s.nodes j (turned p))))
Rotates-from rec m s t j ih v w x st =
    repaint (rec j m t) t m (λ p. denote t.nodes j (turned p)) (λ p. denote s.nodes j (turned p))
      (λ p e. denote-Extends s v t x (turned p) j (st.0, rw (length-turned p, e) st.1))
      (ih t j w (omega (arith, x.grown), rw (x.kept j st.0) st.1))

module _ (rec : ℕ → ℕ → M Index) (m : ℕ) (s : Store) (v : IsValid s) (i : ℕ) (hi : i < s.next) where
  abbrev level : ℕ
  level = suc (suc m)

  -- The grandchild that bdd_rotate has read, for a child that may skip a level.
  abbrev sub : Bool → ℕ → ℕ
  sub b c = if ltb c num_leaves then c else child b (s.nodes c)

  quarter-descend :
      (t : Store) (c : ℕ) (b : Bool)
      → Extends s t
      → c < s.next
      → rotate_quarter rec c (sub b c) level t ≡ rec (descend s.nodes (suc m) b c) m t
  unfolding rotate_quarter node_at
  quarter-descend t c b x hc =
      rw (x.kept c hc, one, two)
        (elim (eq_cases (s.nodes c).level (suc m)) [
          | inl e ↦
              rw (
                ==-eq-true _ _ e,
                ltb_of_le c num_leaves (IsInner-of_level s v c hc (omega arith)).0,
              )
          | inr e ↦ rw (==-eq-false _ _ e)
        ])
    where
      one : level - 1 ≡ suc m
      one = omega arith

      two : level - 2 ≡ m
      two = omega arith

  -- Before the turn: the image that a node at the level has at the end of a path.
  abbrev before : List Bool → ℕ
  before p = denote s.nodes i (turned p)

  -- The call for the smaller square that the turn puts at the half `a` and, in it, at `b`.
  quarter : Bool → Bool → M Index
  quarter a b = rotate_quarter rec (child b (s.nodes i)) (sub (not a) (child b (s.nodes i))) level

  half : Bool → ℕ → M Index
  half a = both (quarter a false) (quarter a true)

  square_both :
      rotate_square rec (s.nodes i) level s ≡ both (half false (suc m)) (half true (suc m)) level s
  unfolding rotate_square node_at half quarter
  square_both =
      ap (λ k. both (half false k) (half true k) level s)
        (let e : level - 1 ≡ suc m = omega arith in e)

  module _ (at_level : (s.nodes i).level ≡ level) (hl : level ≤ levels_max)
      (ih : Rotates rec m) where
    inner : IsInner s (s.nodes i)
    inner = (IsInner-of_level s v i hi (omega arith)).1

    child-Stands : (b : Bool) → Stands s (child b (s.nodes i)) (suc m)
    child-Stands true = (inner.right_in, omega (arith, inner.right_below))
    child-Stands false = (inner.left_in, omega (arith, inner.left_below))

    abbrev source : Bool → Bool → ℕ
    source a b = descend s.nodes (suc m) (not a) (child b (s.nodes i))

    quarter-Draws :
        (a b : Bool) (t : Store)
        → IsValid t
        → Extends s t
        → Ensures (quarter a b t) (Finds (Draws t m (λ p. denote s.nodes (source a b) (turned p))))
    unfolding quarter
    quarter-Draws a b t w x =
        rw (quarter-descend t (child b (s.nodes i)) (not a) x (child-Stands b).0) (
          Rotates-from rec m s t (source a b) ih v w x
            (descend-Stands s v (not a) m (child b (s.nodes i)) (child-Stands b)))

    half-Draws :
        (a : Bool) (t : Store)
        → IsValid t
        → Extends s t
        → Ensures
            (half a (suc m) t)
            (Finds (Draws t (suc m) (beside (λ b p. denote s.nodes (source a b) (turned p)))))
    unfolding half
    half-Draws a t w x =
        both-Draws (quarter a false) (quarter a true) t m
          (λ b p. denote s.nodes (source a b) (turned p)) (omega arith)
          (quarter-Draws a false t w x) (λ u w' y. quarter-Draws a true u w' (Extends-trans x y))

    before_beside :
        (p : List Bool)
        → length p ≡ level
        → beside (λ a. beside (λ b q. denote s.nodes (source a b) (turned q))) p ≡ before p
    before_beside [] e = absurd (omega arith)
    before_beside (a ∷ []) e = absurd (omega arith)
    before_beside (a ∷ b ∷ p) e =
        let k : length (turned p) ≡ m = rw (length-turned p) (omega arith) in
        rw (k, ==-eq-true (s.nodes i).level (suc (suc m)) at_level)

    square-Draws : Ensures (rotate_square rec (s.nodes i) level s) (Finds (Draws s level before))
    square-Draws = rw square_both (
        repaint (both (half false (suc m)) (half true (suc m)) level s) s level
          (beside (λ a. beside (λ b q. denote s.nodes (source a b) (turned q)))) before
          before_beside
          (both-Draws (half false (suc m)) (half true (suc m)) s (suc m)
            (λ a. beside (λ b q. denote s.nodes (source a b) (turned q))) hl
            (half-Draws false s v (Extends-refl s)) (λ t w x. half-Draws true t w x)))

  halves_both :
      rotate_halves rec (s.nodes i) level s
      ≡ both (rec (child true (s.nodes i)) m) (rec (child false (s.nodes i)) m) level s
  unfolding rotate_halves
  halves_both =
      ap (λ k. both (rec (child true (s.nodes i)) k) (rec (child false (s.nodes i)) k) level s)
        (let e : level - 2 ≡ m = omega arith in e)

  module _ (below : (s.nodes i).level ≡ suc m) (hl : level ≤ levels_max) (ih : Rotates rec m) where
    flat-Stands : (b : Bool) → Stands s (child b (s.nodes i)) m
    flat-Stands b = rw (==-eq-true _ _ below) at (descend-Stands s v b m i (hi, omega arith))

    abbrev flat : Bool → List Bool → ℕ
    flat a p = denote s.nodes (child (not a) (s.nodes i)) (turned (skip (suc m - m) p))

    flat-Draws :
        (a : Bool) (t : Store)
        → IsValid t
        → Extends s t
        → Ensures (rec (child (not a) (s.nodes i)) m t) (Finds (Draws t (suc m) (flat a)))
    flat-Draws a t w x =
        raise (rec (child (not a) (s.nodes i)) m t) t m (suc m)
          (λ p. denote s.nodes (child (not a) (s.nodes i)) (turned p)) (flat a) (omega arith)
          (λ p e. refl)
          (Rotates-from rec m s t (child (not a) (s.nodes i)) ih v w x (flat-Stands (not a)))

    before_flat : (p : List Bool) → length p ≡ level → beside flat p ≡ before p
    before_flat [] e = absurd (omega arith)
    before_flat (a ∷ []) e = absurd (omega arith)
    before_flat (a ∷ b ∷ p) e =
        let k : length (turned p) ≡ m = rw (length-turned p) (omega arith) in
        let one : suc m - m ≡ suc zero = omega arith in
        rw (
          k,
          one,
          ==-eq-false (s.nodes i).level (suc (suc m)) (omega arith),
          ==-eq-true (s.nodes i).level (suc m) below,
        )

    halves-Draws : Ensures (rotate_halves rec (s.nodes i) level s) (Finds (Draws s level before))
    halves-Draws = rw halves_both (
        repaint _ s level (beside flat) before before_flat (
          both-Draws (rec (child true (s.nodes i)) m) (rec (child false (s.nodes i)) m) s (suc m)
            flat hl (flat-Draws false s v (Extends-refl s)) (λ t w x. flat-Draws true t w x)))

  skip-Draws :
      (s.nodes i).level ≤ m → Rotates rec m → Ensures (rec i m s) (Finds (Draws s level before))
  skip-Draws h ih = raise (rec i m s) s m level before before (omega arith) two (ih s i v (hi, h))
    where
      two : (p : List Bool) → length p ≡ level → before (skip (level - m) p) ≡ before p
      two [] e = absurd (omega arith)
      two (a ∷ []) e = absurd (omega arith)
      two (a ∷ b ∷ p) e =
          let k : length (turned p) ≡ m = rw (length-turned p) (omega arith) in
          let d : level - m ≡ suc (suc zero) = omega arith in
          rw (
            d,
            k,
            ==-eq-false (s.nodes i).level (suc (suc m)) (omega arith),
            ==-eq-false (s.nodes i).level (suc m) (omega arith),
          )

rotate_leaf :
    (fuel l : ℕ) (s : Store) (v : IsValid s) (i : ℕ)
    → i < num_leaves
    → Ensures (bdd_rotate (suc fuel) i l s) (Finds (Draws s l (λ p. denote s.nodes i (turned p))))
unfolding bdd_rotate
rotate_leaf fuel l s v i h = rw (==-eq-true _ _ (level-leaf s v i h)) (record {
  valid = v;
  extends = Extends-refl s;
  stands = (omega (arith, v.low), omega (arith, level-leaf s v i h));
  image = λ p e. denote-leaf s v p i h ∙ sym (denote-leaf s v (turned p) i h);
})

-- bdd_rotate ends for a square of 2 ^ d by 2 ^ d after d nested calls. It returns a node, unless the
-- node table is full, and the node's image is the old one turned.
pub bdd_rotate-Draws :
    (fuel d : ℕ) → d < fuel → twice d ≤ levels_max → Rotates (bdd_rotate fuel) (twice d)
unfolding bdd_rotate
bdd_rotate-Draws zero d hf hl s i v st = absurd (omega arith)
bdd_rotate-Draws (suc fuel) zero hf hl s i v st = rotate_leaf fuel 0 s v i (leaf_of_level s v i st)
bdd_rotate-Draws (suc fuel) (suc d) hf hl s i v st =
    let m = twice d in
    let ih = bdd_rotate-Draws fuel d (omega arith) (omega arith) in
    let one : suc (suc (twice d)) - 1 ≡ suc (twice d) = omega arith in
    let two : suc (suc (twice d)) - 2 ≡ twice d = omega arith in
    elim (eq_cases (s.nodes i).level 0) [
      | inl e ↦ rotate_leaf fuel (suc (suc m)) s v i (leaf_of_level s v i (st.0, omega arith))
      | inr ne ↦ elim (eq_cases (s.nodes i).level (suc (suc m))) [
        | inl e ↦
            rw (==-eq-false _ _ ne, ==-eq-true _ _ e)
              (square-Draws (bdd_rotate fuel) m s v i st.0 e hl ih)
        | inr ne' ↦ elim (eq_cases (s.nodes i).level (suc m)) [
          | inl e ↦
              rw (==-eq-false _ _ ne, ==-eq-false _ _ ne', one, ==-eq-true _ _ e)
                (halves-Draws (bdd_rotate fuel) m s v i st.0 e hl ih)
          | inr ne'' ↦
              rw (==-eq-false _ _ ne, ==-eq-false _ _ ne', one, ==-eq-false _ _ ne'', two)
                (skip-Draws (bdd_rotate fuel) m s v i st.0 (omega (arith, st.1)) ih)
        ]
      ]
    ]

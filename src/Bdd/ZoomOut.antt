-- ===== src/Bdd/ZoomOut.antt =====
-- bdd_zoom of hw1/src/bdd.c with a negative factor: each square becomes a pixel.
use cse320_spring.Base.{
  ℕ, zero, suc, ◌+◌, ◌-◌, ◌*◌, ◌≤◌, ◌<◌, ◌≡◌, refl, sym, ◌∙◌, ap, Bool, true, false, inl, inr,
  arith, List, [], ◌∷◌, length, ltb, leb, if◌then◌else◌, ==-eq-true, ==-eq-false, eq_cases,
  lt_cases, le→leb, leb_of_lt, lt→ltb, ltb_of_le,
}
use cse320_spring.Base.Int.{pos, negsuc, pos_part, is_neg, ◌+ℤ◌, ◌*ℤ◌}
use cse320_spring.Bdd.Store.{Node, Store, num_leaves, levels_max}
use cse320_spring.Bdd.Invariant.{IsValid, Extends, Extends-refl, Ensures}
use cse320_spring.Bdd.Image.{child, bdd_zoom}
use cse320_spring.Bdd.Lookup.{Stands, Finds}
use cse320_spring.Bdd.Denote.{
  descend, denote-leaf, descend-Stands, level-leaf, leaf_of_level, IsInner-of_level,
}
use cse320_spring.Bdd.Combine.{Draws, beside, both, both-Draws, repaint}
use cse320_spring.Bdd.Skip.{skip, raise}

-- The node that a path of halvings from a level leads to, which need not be a leaf.
abbrev pub reach : (ℕ → Node) → ℕ → ℕ → List Bool → ℕ
reach nodes n i [] = i
reach nodes zero i (b ∷ p) = i
reach nodes (suc n) i (b ∷ p) = reach nodes n (descend nodes (suc n) b i) p

-- A square of one value keeps it, and any other is white.
abbrev pub shrunk : (ℕ → Node) → ℕ → ℕ → List Bool → ℕ
shrunk nodes n i p = let j = reach nodes n i p in if ltb j num_leaves then j else 255

module _ (s : Store) where
  reach_below :
      (d m i : ℕ) (p : List Bool)
      → (s.nodes i).level ≤ m
      → d ≤ length p
      → reach s.nodes (d + m) i p ≡ reach s.nodes m i (skip d p)
  reach_below zero m i p h e = let z : zero + m ≡ m = omega arith in rw z
  reach_below (suc d) m i [] h e = absurd (omega arith)
  reach_below (suc d) m i (b ∷ p) h e =
      let z : suc d + m ≡ suc (d + m) = omega arith in
      rw (z, ==-eq-false (s.nodes i).level (suc (d + m)) (omega arith))
        (reach_below d m i p h (omega arith))

  module _ (v : IsValid s) where
    reach-leaf : (n i : ℕ) (p : List Bool) → i < num_leaves → reach s.nodes n i p ≡ i
    reach-leaf n i [] h = refl
    reach-leaf zero i (b ∷ p) h = refl
    reach-leaf (suc n) i (b ∷ p) h =
        rw (==-eq-false (s.nodes i).level (suc n) (omega (arith, level-leaf s v i h)))
          (reach-leaf n i p h)

    reach-Extends :
        (t : Store)
        → Extends s t
        → (n i : ℕ) (p : List Bool) → Stands s i n
        → reach t.nodes n i p ≡ reach s.nodes n i p
    reach-Extends t x n i [] st = refl
    reach-Extends t x zero i (b ∷ p) st = refl
    reach-Extends t x (suc n) i (b ∷ p) st =
        rw (x.kept i st.0) (reach-Extends t x n _ p (descend-Stands s v b n i st))

    pub reach-Stands :
        (n m i : ℕ) (p : List Bool)
        → Stands s i n
        → n ≡ length p + m
        → Stands s (reach s.nodes n i p) m
    reach-Stands n m i [] st e = (st.0, omega (arith, st.1))
    reach-Stands zero m i (b ∷ p) st e = absurd (omega arith)
    reach-Stands (suc n) m i (b ∷ p) st e =
        reach-Stands n m _ p (descend-Stands s v b n i st) (omega arith)

skip_all : (d : ℕ) (p : List Bool) → length p ≡ d → skip d p ≡ []
skip_all zero [] e = refl
skip_all zero (b ∷ p) e = absurd (omega arith)
skip_all (suc d) [] e = refl
skip_all (suc d) (b ∷ p) e = skip_all d p (omega arith)

-- `z` is one less than the number of times that the sides are halved.
module _ (z : ℕ) where
  abbrev pub off : ℕ
  off = 2 * suc z

  neg : is_neg (pos 2 *ℤ negsuc z) ≡ true
  neg = ground arith

  lowered : (n : ℕ) → pos_part (pos n +ℤ pos 2 *ℤ negsuc z) ≡ n - off
  lowered n = ground arith

  zoom_inner :
      (s : Store) (fuel m i : ℕ)
      → (s.nodes i).level ≡ suc m
      → off ≤ m
      → bdd_zoom (suc fuel) (negsuc z) i s
        ≡ both
            (bdd_zoom fuel (negsuc z) (child false (s.nodes i)))
            (bdd_zoom fuel (negsuc z) (child true (s.nodes i)))
            (suc (m - off))
            s
  unfolding bdd_zoom
  zoom_inner s fuel m i e h =
      rw (==-eq-false (s.nodes i).level 0 (omega arith), neg, stays)
        (ap
          (λ l.
            both (bdd_zoom fuel (negsuc z) (child false (s.nodes i)))
              (bdd_zoom fuel (negsuc z) (child true (s.nodes i))) l s)
          (lowered (s.nodes i).level ∙ down))
    where
      down : (s.nodes i).level - off ≡ suc (m - off)
      down = omega arith

      stays : leb (pos_part (pos (s.nodes i).level +ℤ pos 2 *ℤ negsuc z)) 0 ≡ false
      stays = leb_of_lt _ 0 (omega (arith, lowered (s.nodes i).level))

  zoom_leaf :
      (s : Store) (fuel n i : ℕ)
      → IsValid s
      → i < num_leaves
      → Ensures
          (bdd_zoom (suc fuel) (negsuc z) i s)
          (Finds (Draws s (n - off) (shrunk s.nodes n i)))
  unfolding bdd_zoom
  zoom_leaf s fuel n i v h = rw (==-eq-true _ _ (level-leaf s v i h)) (record {
    valid = v;
    extends = Extends-refl s;
    stands = (omega (arith, v.low), omega (arith, level-leaf s v i h));
    image = λ p e. denote-leaf s v p i h ∙ sym (stays p);
  })
    where
      stays : (p : List Bool) → shrunk s.nodes n i p ≡ i
      stays p = rw (reach-leaf s v n i p h, lt→ltb i num_leaves h)

  zoom_white :
      (s : Store) (fuel n i : ℕ)
      → IsValid s
      → Stands s i n
      → off ≤ n
      → 0 < (s.nodes i).level
      → (s.nodes i).level ≤ off
      → Ensures
          (bdd_zoom (suc fuel) (negsuc z) i s)
          (Finds (Draws s (n - off) (shrunk s.nodes n i)))
  unfolding bdd_zoom
  zoom_white s fuel n i v st hn inside low =
      rw
        (
          ==-eq-false (s.nodes i).level 0 (omega arith),
          neg,
          gone,
          ==-eq-false i 0 (omega (arith, big)),
        )
        (record {
          valid = v;
          extends = Extends-refl s;
          stands = (omega (arith, v.low), omega (arith, level-leaf s v 255 (omega arith)));
          image = λ p e. denote-leaf s v p 255 (omega arith) ∙ sym (white p e);
        })
    where
      big : num_leaves ≤ i
      big = (IsInner-of_level s v i st.0 inside).0

      gone : leb (pos_part (pos (s.nodes i).level +ℤ pos 2 *ℤ negsuc z)) 0 ≡ true
      gone = le→leb _ 0 (omega (arith, lowered (s.nodes i).level))

      same : (p : List Bool) → length p ≡ n - off → reach s.nodes n i p ≡ i
      same p e =
          let up : n ≡ n - off + off = omega arith in
          ap (λ x. reach s.nodes x i p) up
          ∙ reach_below s (n - off) off i p low (omega arith)
          ∙ ap (reach s.nodes off i) (skip_all (n - off) p e)

      white : (p : List Bool) → length p ≡ n - off → shrunk s.nodes n i p ≡ 255
      white p e = rw (same p e, ltb_of_le i num_leaves big)

  abbrev Shrinks : ℕ → ℕ → Type 0
  Shrinks fuel n =
      (s : Store) (i : ℕ)
      → IsValid s
      → Stands s i n
      → off ≤ n
      → Ensures (bdd_zoom fuel (negsuc z) i s) (Finds (Draws s (n - off) (shrunk s.nodes n i)))

  module _ (s : Store) (v : IsValid s) (i : ℕ) (hi : i < s.next) (fuel m : ℕ)
      (e : (s.nodes i).level ≡ suc m) (h : off ≤ m) (hm : suc m ≤ levels_max)
      (ih : Shrinks fuel m) where
    half-Stands : (b : Bool) → Stands s (child b (s.nodes i)) m
    half-Stands b = rw (==-eq-true _ _ e) at (descend-Stands s v b m i (hi, omega arith))

    half-Draws :
        (b : Bool) (t : Store)
        → IsValid t
        → Extends s t
        → Ensures
            (bdd_zoom fuel (negsuc z) (child b (s.nodes i)) t)
            (Finds (Draws t (m - off) (shrunk s.nodes m (child b (s.nodes i)))))
    half-Draws b t w x =
        let c = child b (s.nodes i) in
        let (hc, hl) = half-Stands b in
        repaint (bdd_zoom fuel (negsuc z) c t) t (m - off) (shrunk t.nodes m c) (shrunk s.nodes m c)
          (λ p q.
            ap (λ j. if ltb j num_leaves then j else 255) (reach-Extends s v t x m c p (hc, hl)))
          (ih t c w (omega (arith, x.grown), rw (x.kept c hc) hl) h)

    halves :
        (p : List Bool)
        → length p ≡ suc (m - off)
        → beside (λ b. shrunk s.nodes m (child b (s.nodes i))) p ≡ shrunk s.nodes (suc m) i p
    halves [] q = absurd (omega arith)
    halves (b ∷ p) q = rw (==-eq-true (s.nodes i).level (suc m) e)

    halves-Draws :
        Ensures
          (bdd_zoom (suc fuel) (negsuc z) i s)
          (Finds (Draws s (suc (m - off)) (shrunk s.nodes (suc m) i)))
    halves-Draws = rw (zoom_inner s fuel m i e h) (
        repaint _ s (suc (m - off)) (beside (λ b. shrunk s.nodes m (child b (s.nodes i))))
          (shrunk s.nodes (suc m) i) halves
          (both-Draws (bdd_zoom fuel (negsuc z) (child false (s.nodes i)))
            (bdd_zoom fuel (negsuc z) (child true (s.nodes i))) s (m - off)
            (λ b. shrunk s.nodes m (child b (s.nodes i))) (omega arith)
            (half-Draws false s v (Extends-refl s)) (λ t w x. half-Draws true t w x)))

  -- With a factor of minus k for a k above 0, and an image of at least 2 k levels, bdd_zoom ends. It
  -- returns a node, or exits because the node table is full. The node stands 2 k levels lower. Its
  -- pixel at a path is the old value, where the square of 2 ^ k by 2 ^ k that the path leads to is a
  -- single leaf, whatever that value is, and white where it is not.
  pub bdd_zoom-shrunk :
      (fuel n : ℕ)
      → n < fuel
      → n ≤ levels_max
      → (s : Store) (i : ℕ) → IsValid s
      → Stands s i n
      → 2 * suc z ≤ n
      → Ensures
          (bdd_zoom fuel (negsuc z) i s)
          (Finds (Draws s (n - 2 * suc z) (shrunk s.nodes n i)))
  bdd_zoom-shrunk zero n hf hn s i v st h = absurd (omega arith)
  bdd_zoom-shrunk (suc fuel) n hf hn s i v st h = elim (eq_cases (s.nodes i).level 0) [
    | inl e ↦ zoom_leaf s fuel n i v (leaf_of_level s v i (st.0, omega arith))
    | inr ne ↦ elim (lt_cases off (s.nodes i).level) [
      | inr low ↦ zoom_white s fuel n i v st h (omega arith) low
      | inl high ↦
          let m = (s.nodes i).level - 1 in
          raise (bdd_zoom (suc fuel) (negsuc z) i s) s (suc (m - off)) (n - off)
            (shrunk s.nodes (suc m) i) (shrunk s.nodes n i) (omega (arith, st.1))
            (top m (omega arith) high)
            (halves-Draws s v i st.0 fuel m (omega arith) (omega arith) (omega (arith, st.1))
              (bdd_zoom-shrunk fuel m (omega (arith, st.1)) (omega (arith, st.1))))
    ]
  ]
    where
      top :
          (m : ℕ)
          → (s.nodes i).level ≡ suc m
          → off < (s.nodes i).level
          → (p : List Bool) → length p ≡ n - off
          → shrunk s.nodes (suc m) i (skip (n - off - suc (m - off)) p) ≡ shrunk s.nodes n i p
      top m e high p q =
          ap (λ j. if ltb j num_leaves then j else 255)
            (ap (λ d. reach s.nodes (suc m) i (skip d p)) (omega (arith, st.1))
              ∙ sym (reach_below s (n - suc m) (suc m) i p (omega arith) (omega (arith, st.1)))
              ∙ ap (λ x. reach s.nodes x i p) (omega (arith, st.1)))

-- ===== src/Bdd/Map.antt =====
-- bdd_map of hw1/src/bdd.c: a function applied to every pixel.
use cse320_spring.Base.{
  ℕ, zero, suc, ◌-◌, ◌≤◌, ◌<◌, ◌≡◌, sym, ◌∙◌, ap, Bool, true, false, inl, inr, arith, List, [], ◌∷◌,
  length, ==-eq-true, ==-eq-false, eq_cases,
}
use cse320_spring.Bdd.Store.{Store, num_leaves, levels_max}
use cse320_spring.Bdd.Invariant.{IsValid, IsInner, Extends, Extends-refl, Ensures}
use cse320_spring.Bdd.Image.{child, bdd_map}
use cse320_spring.Bdd.Lookup.{Stands, Finds}
use cse320_spring.Bdd.Denote.{
  denote, denote-leaf, denote-Extends, level-leaf, leaf_of_level, IsInner-of_level,
}
use cse320_spring.Bdd.Skip.{denote-skip, raise}
use cse320_spring.Bdd.Combine.{Draws, beside, both, both-Draws, repaint}

module _ (func : ℕ → ℕ) (pixels : (x : ℕ) → x < num_leaves → func x < num_leaves) where
  abbrev mapped : Store → ℕ → List Bool → ℕ
  mapped s i p = func (denote s.nodes i p)

  map_leaf :
      (s : Store) (fuel n i : ℕ)
      → IsValid s
      → i < num_leaves
      → Ensures (bdd_map (suc fuel) func i s) (Finds (Draws s n (mapped s i)))
  unfolding bdd_map
  map_leaf s fuel n i v h = rw (==-eq-true _ _ (level-leaf s v i h)) (record {
    valid = v;
    extends = Extends-refl s;
    stands =
        (omega (arith, pixels i h, v.low), omega (arith, level-leaf s v (func i) (pixels i h)));
    image = λ p e. denote-leaf s v p (func i) (pixels i h) ∙ sym (ap func (denote-leaf s v p i h));
  })

  map_inner :
      (s : Store) (fuel m i : ℕ)
      → (s.nodes i).level ≡ suc m
      → bdd_map (suc fuel) func i s
        ≡ both
            (bdd_map fuel func (child false (s.nodes i)))
            (bdd_map fuel func (child true (s.nodes i)))
            (suc m)
            s
  unfolding bdd_map
  map_inner s fuel m i e = rw (==-eq-false (s.nodes i).level 0 (omega arith)) (
      ap
        (λ k.
          both (bdd_map fuel func (child false (s.nodes i)))
            (bdd_map fuel func (child true (s.nodes i))) k s)
        e)

  -- The two halves of an inner node of level `suc m`, mapped and put side by side.
  map_halves :
      (s : Store) (fuel m i : ℕ)
      → IsValid s
      → i < s.next
      → (s.nodes i).level ≡ suc m
      → suc m ≤ levels_max
      → ((t : Store) (j : ℕ)
          → IsValid t
          → Stands t j m
          → Ensures (bdd_map fuel func j t) (Finds (Draws t m (mapped t j))))
      → Ensures (bdd_map (suc fuel) func i s) (Finds (Draws s (suc m) (mapped s i)))
  map_halves s fuel m i v hi e hm ih = rw (map_inner s fuel m i e) (
      repaint (both (bdd_map fuel func left) (bdd_map fuel func right) (suc m) s) s (suc m)
        (beside (λ b. mapped s (child b (s.nodes i)))) (mapped s i) halves
        (both-Draws (bdd_map fuel func left) (bdd_map fuel func right) s m
          (λ b. mapped s (child b (s.nodes i))) hm (ih s left v at_left) second))
    where
      left : ℕ
      left = child false (s.nodes i)

      right : ℕ
      right = child true (s.nodes i)

      inner : IsInner s (s.nodes i)
      inner = (IsInner-of_level s v i hi (omega arith)).1

      at_left : Stands s left m
      at_left = (inner.left_in, omega (arith, inner.left_below))

      at_right : (t : Store) → Extends s t → Stands t right m
      at_right t x = (
        omega (arith, inner.right_in, x.grown),
        rw (x.kept right inner.right_in) (omega (arith, inner.right_below)),
      )

      second :
          (t : Store)
          → IsValid t
          → Extends s t
          → Ensures (bdd_map fuel func right t) (Finds (Draws t m (mapped s right)))
      second t w x =
          repaint (bdd_map fuel func right t) t m (mapped t right) (mapped s right)
            (λ p q.
              ap func
                (denote-Extends s v t x p right (inner.right_in, omega (arith, inner.right_below))))
            (ih t right w (at_right t x))

      halves :
          (p : List Bool)
          → length p ≡ suc m
          → beside (λ b. mapped s (child b (s.nodes i))) p ≡ mapped s i p
      halves [] q = absurd (omega arith)
      halves (b ∷ p) q = rw (==-eq-true (s.nodes i).level (suc (length p)) (omega arith))

  -- bdd_map ends within as many calls as there are levels. It returns a node, unless the node table
  -- is full, and the node's image is the old one with the function applied to every pixel.
  pub bdd_map-Draws :
      (fuel : ℕ) (s : Store) (n i : ℕ)
      → IsValid s
      → Stands s i n
      → n ≤ levels_max
      → n < fuel
      → Ensures (bdd_map fuel func i s) (Finds (Draws s n (λ p. func (denote s.nodes i p))))
  bdd_map-Draws zero s n i v st hn hf = absurd (omega arith)
  bdd_map-Draws (suc fuel) s n i v st hn hf = elim (eq_cases (s.nodes i).level 0) [
    | inl e ↦ map_leaf s fuel n i v (leaf_of_level s v i (st.0, omega arith))
    | inr e ↦
        let m = (s.nodes i).level - 1 in
        raise (bdd_map (suc fuel) func i s) s (suc m) n (mapped s i) (mapped s i)
          (omega (arith, st.1))
          (λ p q.
            ap func
              (sym (denote-skip s i (suc m) (n - suc m) p (omega arith) (omega (arith, st.1)))))
          (map_halves s fuel m i v st.0 (omega arith) (omega (arith, st.1))
            (λ t j w hj. bdd_map-Draws fuel t m j w hj (omega (arith, st.1)) (omega (arith, st.1))))
  ]

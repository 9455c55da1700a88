-- ===== src/Bdd/ZoomIn.antt =====
-- bdd_zoom of hw1/src/bdd.c with a factor that is not negative: each pixel becomes a square.
use cse320_spring.Base.{
  ℕ, zero, suc, ◌+◌, ◌-◌, ◌*◌, ◌≤◌, ◌<◌, ◌≡◌, sym, ◌∙◌, ap, Bool, true, false, inl, inr, arith,
  List, [], ◌∷◌, length, take, take-nil, length-take, ==-eq-true, ==-eq-false, eq_cases,
}
use cse320_spring.Base.Int.{pos, pos_part, is_neg, ◌+ℤ◌, ◌*ℤ◌}
use cse320_spring.Bdd.Store.{Store, num_leaves, levels_max}
use cse320_spring.Bdd.Invariant.{IsValid, Extends, Extends-refl, Ensures}
use cse320_spring.Bdd.Image.{child, bdd_zoom}
use cse320_spring.Bdd.Lookup.{Stands, Finds}
use cse320_spring.Bdd.Denote.{
  descend, denote, denote-leaf, denote-Extends, descend-Stands, level-leaf, leaf_of_level,
}
use cse320_spring.Bdd.Combine.{Draws, beside, both, both-Draws, repaint}
use cse320_spring.Bdd.Skip.{skip, denote-skip, raise}

pub skip-take : (d m : ℕ) (p : List Bool) → skip d (take (d + m) p) ≡ take m (skip d p)
skip-take zero m p = let e : zero + m ≡ m = omega arith in rw e
skip-take (suc d) m [] = let e : suc d + m ≡ suc (d + m) = omega arith in rw e (sym (take-nil m))
skip-take (suc d) m (b ∷ p) =
    let e : suc d + m ≡ suc (d + m) = omega arith in rw e (skip-take d m p)

module _ (k : ℕ) where
  not_neg : is_neg (pos 2 *ℤ pos k) ≡ false
  not_neg = ground arith

  raised : (n m : ℕ) → n ≡ suc m → pos_part (pos n +ℤ pos 2 *ℤ pos k) ≡ suc (m + 2 * k)
  raised n m e = ground arith

  -- The image whose pixel at a path is the old one at the path's first halvings.
  abbrev magnified : Store → ℕ → ℕ → List Bool → ℕ
  magnified s n i p = denote s.nodes i (take n p)

  zoom_inner :
      (s : Store) (fuel m i : ℕ)
      → (s.nodes i).level ≡ suc m
      → bdd_zoom (suc fuel) (pos k) i s
        ≡ both
            (bdd_zoom fuel (pos k) (child false (s.nodes i)))
            (bdd_zoom fuel (pos k) (child true (s.nodes i)))
            (suc (m + 2 * k))
            s
  unfolding bdd_zoom
  zoom_inner s fuel m i e =
      rw (==-eq-false (s.nodes i).level 0 (omega arith), not_neg)
        (ap
          (λ l.
            both (bdd_zoom fuel (pos k) (child false (s.nodes i)))
              (bdd_zoom fuel (pos k) (child true (s.nodes i))) l s)
          (raised (s.nodes i).level m e))

  zoom_leaf :
      (s : Store) (fuel n i : ℕ)
      → IsValid s
      → i < num_leaves
      → Ensures (bdd_zoom (suc fuel) (pos k) i s) (Finds (Draws s (n + 2 * k) (magnified s n i)))
  unfolding bdd_zoom
  zoom_leaf s fuel n i v h = rw (==-eq-true _ _ (level-leaf s v i h)) (record {
    valid = v;
    extends = Extends-refl s;
    stands = (omega (arith, v.low), omega (arith, level-leaf s v i h));
    image = λ p e. denote-leaf s v p i h ∙ sym (denote-leaf s v (take n p) i h);
  })

  -- What bdd_zoom promises at a level.
  abbrev Zooms : ℕ → ℕ → Type 0
  Zooms fuel n =
      (s : Store) (i : ℕ)
      → IsValid s
      → Stands s i n
      → Ensures (bdd_zoom fuel (pos k) i s) (Finds (Draws s (n + 2 * k) (magnified s n i)))

  module _ (s : Store) (v : IsValid s) (i : ℕ) (hi : i < s.next) (fuel m : ℕ)
      (e : (s.nodes i).level ≡ suc m) (hm : suc m + 2 * k ≤ levels_max) (ih : Zooms fuel m) where
    half-Stands : (b : Bool) → Stands s (child b (s.nodes i)) m
    half-Stands b = rw (==-eq-true _ _ e) at (descend-Stands s v b m i (hi, omega arith))

    half-Draws :
        (b : Bool) (t : Store)
        → IsValid t
        → Extends s t
        → Ensures
            (bdd_zoom fuel (pos k) (child b (s.nodes i)) t)
            (Finds (Draws t (m + 2 * k) (magnified s m (child b (s.nodes i)))))
    half-Draws b t w x =
        let c = child b (s.nodes i) in
        let (hc, hl) = half-Stands b in
        repaint (bdd_zoom fuel (pos k) c t) t (m + 2 * k) (magnified t m c) (magnified s m c)
          (λ p q. denote-Extends s v t x (take m p) c (hc, rw (length-take m p (omega arith)) hl))
          (ih t c w (omega (arith, x.grown), rw (x.kept c hc) hl))

    halves :
        (p : List Bool)
        → length p ≡ suc (m + 2 * k)
        → beside (λ b. magnified s m (child b (s.nodes i))) p ≡ magnified s (suc m) i p
    halves [] q = absurd (omega arith)
    halves (b ∷ p) q = sym (
        ap (λ l. denote s.nodes (descend s.nodes (suc l) b i) (take m p))
          (length-take m p (omega arith))
        ∙ ap (λ j. denote s.nodes j (take m p)) (rw (==-eq-true (s.nodes i).level (suc m) e)))

    halves-Draws :
        Ensures
          (bdd_zoom (suc fuel) (pos k) i s)
          (Finds (Draws s (suc (m + 2 * k)) (magnified s (suc m) i)))
    halves-Draws = rw (zoom_inner s fuel m i e) (
        repaint _ s (suc (m + 2 * k)) (beside (λ b. magnified s m (child b (s.nodes i))))
          (magnified s (suc m) i) halves
          (both-Draws (bdd_zoom fuel (pos k) (child false (s.nodes i)))
            (bdd_zoom fuel (pos k) (child true (s.nodes i))) s (m + 2 * k)
            (λ b. magnified s m (child b (s.nodes i))) (omega arith)
            (half-Draws false s v (Extends-refl s)) (λ t w x. half-Draws true t w x)))

  -- With a factor k that is not negative bdd_zoom ends. It returns a node, or exits because the node
  -- table is full. The node stands 2 k levels higher, and its pixel at a path is the old pixel at the
  -- path without its last 2 k halvings: each pixel has become a square of 2 ^ k by 2 ^ k equal ones.
  pub bdd_zoom-magnified :
      (fuel n : ℕ)
      → n < fuel
      → n + 2 * k ≤ levels_max
      → (s : Store) (i : ℕ) → IsValid s
      → Stands s i n
      → Ensures
          (bdd_zoom fuel (pos k) i s)
          (Finds (Draws s (n + 2 * k) (λ p. denote s.nodes i (take n p))))
  bdd_zoom-magnified zero n hf hn s i v st = absurd (omega arith)
  bdd_zoom-magnified (suc fuel) n hf hn s i v st = elim (eq_cases (s.nodes i).level 0) [
    | inl e ↦ zoom_leaf s fuel n i v (leaf_of_level s v i (st.0, omega arith))
    | inr ne ↦
        let m = (s.nodes i).level - 1 in
        raise (bdd_zoom (suc fuel) (pos k) i s) s (suc (m + 2 * k)) (n + 2 * k)
          (magnified s (suc m) i) (magnified s n i) (omega (arith, st.1)) (prefix m (omega arith))
          (halves-Draws s v i st.0 fuel m (omega arith) (omega (arith, st.1))
            (bdd_zoom-magnified fuel m (omega (arith, st.1)) (omega (arith, st.1))))
  ]
    where
      prefix :
          (m : ℕ)
          → (s.nodes i).level ≡ suc m
          → (p : List Bool) → length p ≡ n + 2 * k
          → magnified s (suc m) i (skip (n + 2 * k - suc (m + 2 * k)) p) ≡ magnified s n i p
      prefix m e p q =
          let up : n - suc m + suc m ≡ n = omega (arith, st.1) in
          ap (λ d. denote s.nodes i (take (suc m) (skip d p))) (omega (arith, st.1))
          ∙ ap (denote s.nodes i) (sym (skip-take (n - suc m) (suc m) p))
          ∙ sym (
              denote-skip s i (suc m) (n - suc m) (take (n - suc m + suc m) p) (omega arith)
                (length-take (n - suc m + suc m) p (omega (arith, st.1))))
          ∙ ap (λ x. denote s.nodes i (take x p)) up

-- ===== src/Bdd/Unique.antt =====
-- bdd_lookup of hw1/src/bdd.c where a node of the table stands for the image already.
use cse320_spring.Base.{
  ℕ, suc, ◌≤◌, ◌≡◌, sym, ap, ◌∙◌, subst, Bool, true, false, some, inl, inr, arith, List, ◌∷◌,
  length, eq_cases, if◌then◌else◌,
}
use cse320_spring.Bdd.Store.{Store, returned, levels_max, bdd_lookup}
use cse320_spring.Bdd.Invariant.{IsValid}
use cse320_spring.Bdd.Lookup.{Stands, Fits, lookup_equal}
use cse320_spring.Bdd.Denote.{descend, denote, descend-Stands, IsInner-of_level}
use cse320_spring.Bdd.Canonical.{canonical, descend_at, descend_below}
use cse320_spring.Bdd.Existing.{bdd_lookup_again}

module _ (s : Store) (v : IsValid s) (level l r : ℕ) (high : suc level ≤ levels_max) where
  abbrev side : Bool → ℕ
  side b = if b then r else l

  module _ (st : (b : Bool) → Stands s (side b) level) (j : ℕ) (at : Stands s j (suc level))
      (image : (b : Bool) (p : List Bool)
        → length p ≡ level
        → denote s.nodes j (b ∷ p) ≡ denote s.nodes (side b) p) where
    half : (b : Bool) → descend s.nodes (suc level) b j ≡ side b
    half b =
        canonical s v level (descend s.nodes (suc level) b j) (side b)
          (descend-Stands s v b level j at) (st b) (λ p e. rw (ap suc e) at (image b p e))

    fits : Fits s (suc level) l r
    fits = record {
      level_pos = omega arith;
      level_max = high;
      left_in = (st false).0;
      right_in = (st true).0;
      left_below = omega (arith, (st false).1);
      right_below = omega (arith, (st true).1);
    }

    -- In a well-formed store, for two children that stand at a level below 32, and a node of the store
    -- that stands at the next level for the image made of the children's images: bdd_lookup with the
    -- children returns just this node, and leaves the store as it is. So no image gets two nodes.
    pub bdd_lookup-canonical : bdd_lookup (suc level) (some l) (some r) s ≡ returned (some j) s
    bdd_lookup-canonical = elim (eq_cases (s.nodes j).level (suc level)) [
      | inl e ↦
          let left : (s.nodes j).left ≡ l = sym (descend_at s v level false j e) ∙ half false in
          let right : (s.nodes j).right ≡ r = sym (descend_at s v level true j e) ∙ half true in
          let low = (IsInner-of_level s v j at.0 (omega arith)).0 in
          subst (λ x. bdd_lookup x (some l) (some r) s ≡ returned (some j) s) e
            (subst (λ x. bdd_lookup (s.nodes j).level (some x) (some r) s ≡ returned (some j) s)
              left
              (subst
                (λ x.
                  bdd_lookup (s.nodes j).level (some (s.nodes j).left) (some x) s
                  ≡ returned (some j) s)
                right (bdd_lookup_again s v j low at.0)))
      | inr ne ↦
          let left : j ≡ l = sym (descend_below s v level false j ne) ∙ half false in
          let right : j ≡ r = sym (descend_below s v level true j ne) ∙ half true in
          lookup_equal s v (suc level) l r fits (sym left ∙ right)
          ∙ ap (λ x. returned (some x) s) (sym left)
    ]

-- ===== src/Bdd/Canonical.antt =====
-- The diagrams of hw1/src/bdd.c are canonical: two nodes for one image are one node.
use cse320_spring.Base.{
  ℕ, zero, suc, ◌≡◌, ◌≢◌, refl, sym, ◌∙◌, ap, Bool, true, false, inl, inr, arith, List, [], ◌∷◌,
  length, eq_cases, ==-eq-true, ==-eq-false,
}
use cse320_spring.Bdd.Store.{Node, Store}
use cse320_spring.Bdd.Invariant.{IsValid}
use cse320_spring.Bdd.Image.{child}
use cse320_spring.Bdd.Lookup.{Stands}
use cse320_spring.Bdd.Denote.{descend, denote, descend-Stands, IsInner-of_level}

-- Two indices stand for the same image at a level.
abbrev pub SameImage : Store → ℕ → ℕ → ℕ → Type 0
SameImage s n i j = (p : List Bool) → length p ≡ n → denote s.nodes i p ≡ denote s.nodes j p

module _ (s : Store) (v : IsValid s) where
  pub descend_at :
      (n : ℕ) (b : Bool) (i : ℕ)
      → (s.nodes i).level ≡ suc n
      → descend s.nodes (suc n) b i ≡ child b (s.nodes i)
  descend_at n b i e = rw (==-eq-true _ _ e)

  pub descend_below :
      (n : ℕ) (b : Bool) (i : ℕ) → (s.nodes i).level ≢ suc n → descend s.nodes (suc n) b i ≡ i
  descend_below n b i e = rw (==-eq-false _ _ e)

  SameImage-descend :
      (n i j : ℕ) (b : Bool)
      → SameImage s (suc n) i j
      → SameImage s n (descend s.nodes (suc n) b i) (descend s.nodes (suc n) b j)
  SameImage-descend n i j b same p e = rw (ap suc e) at (same (b ∷ p) (ap suc e))

  node_eq : (a b : Node) → a.level ≡ b.level → a.left ≡ b.left → a.right ≡ b.right → a ≡ b
  node_eq a b p q r = ground arith

  -- A node that really splits at the level has no equal below it.
  apart :
      (n i j : ℕ)
      → Stands s i (suc n)
      → (s.nodes i).level ≡ suc n
      → (s.nodes j).level ≢ suc n
      → ((b : Bool) → descend s.nodes (suc n) b i ≡ descend s.nodes (suc n) b j)
      → ⊥
  apart n i j (hi, _) e ne same =
      let (_, inner) = IsInner-of_level s v i hi (omega arith) in
      inner.reduced (
        sym (descend_at n false i e)
        ∙ same false
        ∙ descend_below n false j ne
        ∙ sym (descend_below n true j ne)
        ∙ sym (same true)
        ∙ descend_at n true i e)

  same_node :
      (n i j : ℕ)
      → Stands s i (suc n)
      → Stands s j (suc n)
      → ((b : Bool) → descend s.nodes (suc n) b i ≡ descend s.nodes (suc n) b j)
      → i ≡ j
  same_node n i j hi hj same = elim (eq_cases (s.nodes i).level (suc n)) [
    | inl e ↦ elim (eq_cases (s.nodes j).level (suc n)) [
      | inl e' ↦
          let (li, _) = IsInner-of_level s v i hi.0 (omega arith) in
          let (lj, _) = IsInner-of_level s v j hj.0 (omega arith) in
          v.unique i j li hi.0 lj hj.0 (
            node_eq _ _ (e ∙ sym e')
              (sym (descend_at n false i e) ∙ same false ∙ descend_at n false j e')
              (sym (descend_at n true i e) ∙ same true ∙ descend_at n true j e'))
      | inr ne ↦ absurd (apart n i j hi e ne same)
    ]
    | inr ne ↦ elim (eq_cases (s.nodes j).level (suc n)) [
      | inl e' ↦ absurd (apart n j i hj e' ne (λ b. sym (same b)))
      | inr ne' ↦ sym (descend_below n true i ne) ∙ same true ∙ descend_below n true j ne'
    ]
  ]

  -- In a well-formed store two indices that stand for the same image at some level are the same
  -- index, so images are compared by comparing indices.
  pub canonical : (n i j : ℕ) → Stands s i n → Stands s j n → SameImage s n i j → i ≡ j
  canonical zero i j hi hj same = same [] refl
  canonical (suc n) i j hi hj same = same_node n i j hi hj (λ b.
      canonical n _ _ (descend-Stands s v b n i hi) (descend-Stands s v b n j hj)
        (SameImage-descend n i j b same))

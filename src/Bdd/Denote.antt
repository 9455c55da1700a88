-- ===== src/Bdd/Denote.antt =====
-- What a node of hw1 stands for: an image, read by a path of halvings from the top level down.
use cse320_spring.Base.{
  ℕ, zero, suc, ◌/◌, ◌≤◌, ◌<◌, ◌≡◌, ◌≢◌, refl, ap, Bool, true, false, inl, inr, arith, List, [],
  ◌∷◌, length, ◌==◌, if◌then◌else◌, eq_cases, lt_cases, ==-eq-true, ==-eq-false, digit,
}
use cse320_spring.Bdd.Store.{Node, Store, num_leaves}
use cse320_spring.Bdd.Invariant.{IsInner, IsValid, Extends}
use cse320_spring.Bdd.Image.{child, is_odd}
use cse320_spring.Bdd.Lookup.{Stands}

-- One halving at `level`: a node of a lower level stands for an image whose halves are equal.
abbrev pub descend : (ℕ → Node) → ℕ → Bool → ℕ → ℕ
descend nodes level b i = if (nodes i).level == level then child b (nodes i) else i

-- The leaf that a path of halvings ends at; the length of the path is the level.
abbrev pub denote : (ℕ → Node) → ℕ → List Bool → ℕ
denote nodes i [] = i
denote nodes i (b ∷ p) = denote nodes (descend nodes (suc (length p)) b i) p

-- The path to a pixel: the digits of its row and column, the highest first.
abbrev pub path : ℕ → ℕ → ℕ → List Bool
path zero r c = []
path (suc n) r c = digit (if is_odd (suc n) then c else r) (n / 2) ∷ path n r c

pub length-path : (n r c : ℕ) → length (path n r c) ≡ n
length-path zero r c = refl
length-path (suc n) r c = ap suc (length-path n r c)

module _ (s : Store) (v : IsValid s) where
  pub level-leaf : (i : ℕ) → i < num_leaves → (s.nodes i).level ≡ 0
  level-leaf i h = ap (λ (n : Node). n.level) (v.leaves i h)

  pub IsInner-of_level :
      (i : ℕ) → i < s.next → 0 < (s.nodes i).level → (num_leaves ≤ i) × IsInner s (s.nodes i)
  IsInner-of_level i hi h = elim (lt_cases i num_leaves) [
    | inl p ↦ absurd (omega (arith, level-leaf i p))
    | inr p ↦ (p, v.inner i p hi)
  ]

  pub leaf_of_level : (i : ℕ) → Stands s i 0 → i < num_leaves
  leaf_of_level i (hi, h) = elim (lt_cases i num_leaves) [
    | inl p ↦ p
    | inr p ↦ absurd (omega (arith, (v.inner i p hi).level_pos))
  ]

  pub descend-Stands :
      (b : Bool) (level i : ℕ)
      → Stands s i (suc level)
      → Stands s (descend s.nodes (suc level) b i) level
  descend-Stands b level i (hi, h) = elim (eq_cases (s.nodes i).level (suc level)) [
    | inl e ↦ rw (==-eq-true _ _ e) (half b e)
    | inr e ↦ rw (==-eq-false _ _ e) (hi, omega arith)
  ]
    where
      half : (d : Bool) → (s.nodes i).level ≡ suc level → Stands s (child d (s.nodes i)) level
      half true e =
          let (_, n) = IsInner-of_level i hi (omega arith) in
          (n.right_in, omega (arith, n.right_below))
      half false e =
          let (_, n) = IsInner-of_level i hi (omega arith) in
          (n.left_in, omega (arith, n.left_below))

  -- A path ends at a leaf.
  pub denote-lt : (p : List Bool) (i : ℕ) → Stands s i (length p) → denote s.nodes i p < num_leaves
  denote-lt [] i h = leaf_of_level i h
  denote-lt (b ∷ p) i h = denote-lt p _ (descend-Stands b (length p) i h)

  -- A store with more nodes gives a node the same image.
  pub denote-Extends :
      (s' : Store)
      → Extends s s'
      → (p : List Bool) (i : ℕ) → Stands s i (length p)
      → denote s'.nodes i p ≡ denote s.nodes i p
  denote-Extends s' x [] i h = refl
  denote-Extends s' x (b ∷ p) i h =
      rw (x.kept i h.0) (denote-Extends s' x p _ (descend-Stands b (length p) i h))

  level_ne : (p : List Bool) (i : ℕ) → i < num_leaves → (s.nodes i).level ≢ suc (length p)
  level_ne p i h = omega (arith, level-leaf i h)

  -- A leaf stands for an image of one value.
  pub denote-leaf : (p : List Bool) (i : ℕ) → i < num_leaves → denote s.nodes i p ≡ i
  denote-leaf [] i h = refl
  denote-leaf (b ∷ p) i h = rw (==-eq-false _ _ (level_ne p i h)) (denote-leaf p i h)

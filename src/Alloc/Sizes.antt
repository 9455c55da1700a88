-- ===== src/Alloc/Sizes.antt =====
-- The sizes of the free blocks of hw3, and which block sf_add_to_free_list makes.
use native.Mathlib.Nat.{add_assoc}
use cse320_spring.Base.{
  ℕ, ◌+◌, ◌≤◌, ◌<◌, ◌≡◌, ◌≢◌, ◌⊎◌, inl, inr, refl, sym, ap, ◌∙◌, subst, Bool, true, false, List, [],
  ◌∷◌, ◌++◌, arith,
}
use cse320_spring.Alloc.Blocks.{Tiles, block, IsFree, IsFree-le}
use cse320_spring.Alloc.Coalesce.{freed_first, freed_size, freed_size_add}
use cse320_spring.Alloc.Among.{freed}

-- A free block of `n` bytes stands at `y`.
unfoldable pub IsFreeOf : ℕ → ℕ → List (ℕ × Bool) → ℕ → Type 0
IsFreeOf n a [] y = n < 0
IsFreeOf n a ((k, true) ∷ bs) y = IsFreeOf n (a + k) bs y
IsFreeOf n a ((k, false) ∷ bs) y = ((y ≡ a) × (n ≡ k)) ⊎ IsFreeOf n (a + k) bs y

pub IsFreeOf-IsFree : (n a : ℕ) (bs : List (ℕ × Bool)) (y : ℕ) → IsFreeOf n a bs y → IsFree a bs y
unfolding IsFreeOf
IsFreeOf-IsFree n a [] y k = omega arith
IsFreeOf-IsFree n a ((k, true) ∷ bs) y j = IsFreeOf-IsFree n (a + k) bs y j
IsFreeOf-IsFree n a ((k, false) ∷ bs) y (inl j) = inl j.0
IsFreeOf-IsFree n a ((k, false) ∷ bs) y (inr j) = inr (IsFreeOf-IsFree n (a + k) bs y j)

-- Where the block that is made stands, and its size: with the free one before it and the one after it.
unfoldable pub result_at : ℕ → List (ℕ × Bool) → ℕ
result_at a [] = a
result_at a ((n, true) ∷ []) = a + n
result_at a ((n, false) ∷ []) = a
result_at a ((n, al) ∷ next ∷ pre) = result_at (a + n) (next ∷ pre)

unfoldable pub result_size : List (ℕ × Bool) → ℕ → List (ℕ × Bool) → ℕ
result_size [] size bs = freed_size size bs
result_size ((n, true) ∷ []) size bs = freed_size size bs
result_size ((n, false) ∷ []) size bs = n + freed_size size bs
result_size ((n, al) ∷ next ∷ pre) size bs = result_size (next ∷ pre) size bs

result_at_le : (a : ℕ) (pre : List (ℕ × Bool)) → a ≤ result_at a pre
unfolding result_at
result_at_le a [] = omega arith
result_at_le a ((n, true) ∷ []) = omega arith
result_at_le a ((n, false) ∷ []) = omega arith
result_at_le a ((n, al) ∷ next ∷ pre) =
    let le : a + n ≤ result_at (a + n) (next ∷ pre) = result_at_le (a + n) (next ∷ pre) in
    omega arith

-- It is an old free block, or the new one.
abbrev IsOldOr : Type 0 → ℕ → ℕ → ℕ → ℕ → Type 0
IsOldOr Old n y x total = (Old × (y ≢ x)) ⊎ ((y ≡ x) × (n ≡ total))

module _ (w : ℕ → ℕ) (e n y : ℕ) where
  first_sizes :
      (a c size : ℕ) (p : Bool) (bs : List (ℕ × Bool))
      → c ≡ a + size
      → 32 ≤ size
      → Tiles w e c p bs
      → IsFreeOf n a (freed_first size bs) y
      → IsOldOr (IsFreeOf n c bs y) n y a (freed_size size bs)
  unfolding IsFreeOf
  first_sizes a c size p [] place large t (inl k) = inr k
  first_sizes a c size p [] place large t (inr k) = omega arith
  first_sizes a c size p ((k, true) ∷ bs) place large t (inl j) = inr j
  first_sizes a c size p ((k, true) ∷ bs) place large (block at rows' large' footer t) (inr j) =
      let j' : IsFreeOf n (c + k) bs y = subst (λ x. IsFreeOf n (x + k) bs y) (sym place) j in
      let le : c + k ≤ y = IsFree-le (c + k) bs y t (IsFreeOf-IsFree n (c + k) bs y j') in
      inl (j', omega arith)
  first_sizes a c size p ((k, false) ∷ bs) place large t (inl j) = inr j
  first_sizes a c size p ((k, false) ∷ bs) place large (block at rows' large' footer t) (inr j) =
      let j' : IsFreeOf n (c + k) bs y =
        subst (λ x. IsFreeOf n x bs y) (sym (ap (λ x. x + k) place ∙ add_assoc a size k)) j in
      let le : c + k ≤ y = IsFree-le (c + k) bs y t (IsFreeOf-IsFree n (c + k) bs y j') in
      inl (inr j', omega arith)

  pub freed-IsFreeOf :
      (a : ℕ) (pre : List (ℕ × Bool)) (size : ℕ) (bs : List (ℕ × Bool)) (p : Bool)
      → Tiles w e a p (pre ++ (size, true) ∷ bs)
      → IsFreeOf n a (freed pre size bs) y
      → IsOldOr
          (IsFreeOf n a (pre ++ (size, true) ∷ bs) y)
          n
          y
          (result_at a pre)
          (result_size pre size bs)
  unfolding IsFreeOf freed result_at result_size
  freed-IsFreeOf a [] size bs p (block at rows large footer t) k =
      first_sizes a (a + size) size true bs refl large t k
  freed-IsFreeOf a ((k, true) ∷ []) size bs p
        (block at' rows' large' footer' (block at rows large footer t)) j =
      first_sizes (a + k) (a + k + size) size true bs refl large t j
  freed-IsFreeOf a ((k, false) ∷ []) size bs p
        (block at' rows' large' footer' (block at rows large footer t)) j =
      elim (first_sizes a (a + k + size) (k + size) true bs (add_assoc a k size) (omega arith) t
        j) [
          | inl old ↦ inl (inr old.0, old.1)
          | inr new ↦ inr (new.0, new.1 ∙ freed_size_add k size bs)
        ]
  freed-IsFreeOf a ((k, true) ∷ next ∷ pre) size bs p (block at rows large footer t) j =
      freed-IsFreeOf (a + k) (next ∷ pre) size bs true t j
  freed-IsFreeOf a ((k, false) ∷ next ∷ pre) size bs p (block at rows large footer t) (inl j) =
      let le : a + k ≤ result_at (a + k) (next ∷ pre) = result_at_le (a + k) (next ∷ pre) in
      inl (inl j, omega (arith, j.0))
  freed-IsFreeOf a ((k, false) ∷ next ∷ pre) size bs p (block at rows large footer t) (inr j) =
      elim (freed-IsFreeOf (a + k) (next ∷ pre) size bs false t j) [
        | inl old ↦ inl (inr old.0, old.1)
        | inr new ↦ inr new
      ]

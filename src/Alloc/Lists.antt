-- ===== src/Alloc/Lists.antt =====
-- The free lists of hw3 after sf_add_to_free_list, next to the free blocks of the heap.
use native.Mathlib.Nat.{add_assoc}
use cse320_spring.Base.{
  ℕ, ◌+◌, ◌≤◌, ◌<◌, ◌≡◌, ◌≢◌, ◌⊎◌, inl, inr, refl, sym, ap, ◌∙◌, subst, Bool, true, false, List, [],
  ◌∷◌, ◌++◌, arith,
}
use cse320_spring.Alloc.Blocks.{Tiles, block, Tiles-le, IsFree, IsFree-le}
use cse320_spring.Alloc.Coalesce.{freed_first}
use cse320_spring.Alloc.Among.{freed}
use cse320_spring.Alloc.Cycle.{Without, With}
use cse320_spring.Alloc.Rings.{Left}

abbrev LinkedLast : (ℕ → Type 0) → ℕ → ℕ × Bool → ℕ → List (ℕ × Bool) → ℕ → Type 0
LinkedLast L a (n, true) size bs = With (Left L (a + n + size) bs) (a + n)
LinkedLast L a (n, false) size bs = With (Without (Left L (a + n + size) bs) a) a

-- What is linked after the block behind those of `pre` is free, and what was linked before.
unfoldable pub Linked : (ℕ → Type 0) → ℕ → List (ℕ × Bool) → ℕ → List (ℕ × Bool) → ℕ → Type 0
Linked L a [] size bs = With (Left L (a + size) bs) a
Linked L a (x ∷ []) size bs = LinkedLast L a x size bs
Linked L a ((n, al) ∷ next ∷ pre) size bs = Linked L (a + n) (next ∷ pre) size bs

pub Left-other :
    (L : ℕ → Type 0) (c : ℕ) (bs : List (ℕ × Bool)) (y : ℕ) → L y → y ≢ c → Left L c bs y
Left-other L c [] y k other = k
Left-other L c ((n, true) ∷ bs) y k other = k
Left-other L c ((n, false) ∷ bs) y k other = (k, other)

-- The block is behind `c` and the ones before `a` or behind the heap are `C`.
module _ (C : ℕ → Type 0) (w : ℕ → ℕ) (e y : ℕ) where
  first_to :
      (L : ℕ → Type 0) (a c size : ℕ) (p : Bool) (bs : List (ℕ × Bool))
      → c ≡ a + size
      → (L y → C y ⊎ IsFree c bs y)
      → With (Left L c bs) a y
      → C y ⊎ IsFree a (freed_first size bs) y
  first_to L a c size p [] place split (inr same) = inr (inl same)
  first_to L a c size p [] place split (inl k) = elim (split k) [
    | inl k ↦ inl k
    | inr k ↦ omega arith
  ]
  first_to L a c size p ((n, true) ∷ bs) place split (inr same) = inr (inl same)
  first_to L a c size p ((n, true) ∷ bs) place split (inl k) = elim (split k) [
    | inl k ↦ inl k
    | inr k ↦ inr (inr (subst (λ x. IsFree (x + n) bs y) place k))
  ]
  first_to L a c size p ((n, false) ∷ bs) place split (inr same) = inr (inl same)
  first_to L a c size p ((n, false) ∷ bs) place split (inl (k, other)) = elim (split k) [
    | inl k ↦ inl k
    | inr (inl k) ↦ omega (arith, other k)
    | inr (inr k) ↦
        inr (inr (subst (λ x. IsFree x bs y) (ap (λ x. x + n) place ∙ add_assoc a size n) k))
  ]

  first_from :
      (L : ℕ → Type 0) (a c size : ℕ) (p : Bool) (bs : List (ℕ × Bool))
      → c ≡ a + size
      → 32 ≤ size
      → Tiles w e c p bs
      → (C y → (y < a) ⊎ (e < y))
      → (C y ⊎ IsFree c bs y → L y)
      → C y ⊎ IsFree a (freed_first size bs) y
      → With (Left L c bs) a y
  first_from L a c size p bs place large t far join (inl k) =
      let le : c ≤ e = Tiles-le t in
      let other : y ≢ c = elim (far k) [ inl less ↦ omega arith | inr more ↦ omega arith ] in
      inl (Left-other L c bs y (join (inl k)) other)
  first_from L a c size p [] place large t far join (inr (inl k)) = inr k
  first_from L a c size p [] place large t far join (inr (inr k)) = omega arith
  first_from L a c size p ((n, true) ∷ bs) place large t far join (inr (inl k)) = inr k
  first_from L a c size p ((n, true) ∷ bs) place large t far join (inr (inr k)) =
      inl (join (inr (subst (λ x. IsFree (x + n) bs y) (sym place) k)))
  first_from L a c size p ((n, false) ∷ bs) place large t far join (inr (inl k)) = inr k
  first_from L a c size p ((n, false) ∷ bs) place large (block at rows' large' footer' t) far join
        (inr (inr k)) =
      let k' : IsFree (c + n) bs y =
        subst (λ x. IsFree x bs y) (sym (ap (λ x. x + n) place ∙ add_assoc a size n)) k in
      let le : c + n ≤ y = IsFree-le (c + n) bs y t k' in inl (join (inr (inr k')), omega arith)

swap_to :
    (L : ℕ → Type 0) (a c : ℕ) (bs : List (ℕ × Bool)) (y : ℕ)
    → With (Without (Left L c bs) a) a y
    → With (Left (Without L a) c bs) a y
swap_to L a c bs y (inr k) = inr k
swap_to L a c [] y (inl k) = inl k
swap_to L a c ((n, true) ∷ bs) y (inl k) = inl k
swap_to L a c ((n, false) ∷ bs) y (inl ((k, other), here)) = inl ((k, here), other)

swap_from :
    (L : ℕ → Type 0) (a c : ℕ) (bs : List (ℕ × Bool)) (y : ℕ)
    → With (Left (Without L a) c bs) a y
    → With (Without (Left L c bs) a) a y
swap_from L a c bs y (inr k) = inr k
swap_from L a c [] y (inl k) = inl k
swap_from L a c ((n, true) ∷ bs) y (inl k) = inl k
swap_from L a c ((n, false) ∷ bs) y (inl ((k, here), other)) = inl ((k, other), here)

-- The free block at the front counts as one of the others.
abbrev And : (ℕ → Type 0) → ℕ → Bool → ℕ → Type 0
And C a true y = C y
And C a false y = C y ⊎ (y ≡ a)

And-to :
    (C : ℕ → Type 0) (a n : ℕ) (al : Bool) (bs : List (ℕ × Bool)) (y : ℕ)
    → C y ⊎ IsFree a ((n, al) ∷ bs) y
    → And C a al y ⊎ IsFree (a + n) bs y
And-to C a n true bs y k = k
And-to C a n false bs y (inl k) = inl (inl k)
And-to C a n false bs y (inr (inl k)) = inl (inr k)
And-to C a n false bs y (inr (inr k)) = inr k

And-from :
    (C : ℕ → Type 0) (a n : ℕ) (al : Bool) (bs : List (ℕ × Bool)) (y : ℕ)
    → And C a al y ⊎ IsFree (a + n) bs y
    → C y ⊎ IsFree a ((n, al) ∷ bs) y
And-from C a n true bs y k = k
And-from C a n false bs y (inl (inl k)) = inl k
And-from C a n false bs y (inl (inr k)) = inr (inl k)
And-from C a n false bs y (inr k) = inr (inr k)

And-far :
    (C : ℕ → Type 0) (a n e : ℕ) (al : Bool) (y : ℕ)
    → 32 ≤ n
    → (C y → (y < a) ⊎ (e < y))
    → And C a al y
    → (y < a + n) ⊎ (e < y)
And-far C a n e true y large far k = elim (far k) [
  | inl less ↦ inl (omega arith)
  | inr more ↦ inr more
]
And-far C a n e false y large far (inl k) = elim (far k) [
  | inl less ↦ inl (omega arith)
  | inr more ↦ inr more
]
And-far C a n e false y large far (inr k) = inl (omega arith)

module _ (L : ℕ → Type 0) (w : ℕ → ℕ) (e y size : ℕ) (bs : List (ℕ × Bool)) where
  pub Linked-to :
      (C : ℕ → Type 0) (a : ℕ) (pre : List (ℕ × Bool)) (p : Bool)
      → (L y → C y ⊎ IsFree a (pre ++ (size, true) ∷ bs) y)
      → Linked L a pre size bs y
      → C y ⊎ IsFree a (freed pre size bs) y
  unfolding Linked freed
  Linked-to C a [] p split k = first_to C w e y L a (a + size) size true bs refl split k
  Linked-to C a ((n, true) ∷ []) p split k =
      first_to C w e y L (a + n) (a + n + size) size true bs refl split k
  Linked-to C a ((n, false) ∷ []) p split k =
      first_to C w e y (Without L a) a (a + n + size) (n + size) true bs (add_assoc a n size)
        (λ l. elim (split l.0) [
          | inl k ↦ inl k
          | inr (inl k) ↦ elim (l.1 k) [ ]
          | inr (inr k) ↦ inr k
        ])
        (swap_to L a (a + n + size) bs y k)
  Linked-to C a ((n, al) ∷ next ∷ pre) p split k =
      And-from C a n al (freed (next ∷ pre) size bs) y (
        Linked-to (And C a al) (a + n) (next ∷ pre) al
          (λ l. And-to C a n al ((next ∷ pre) ++ (size, true) ∷ bs) y (split l)) k)

  pub Linked-from :
      (C : ℕ → Type 0) (a : ℕ) (pre : List (ℕ × Bool)) (p : Bool)
      → Tiles w e a p (pre ++ (size, true) ∷ bs)
      → (C y → (y < a) ⊎ (e < y))
      → (C y ⊎ IsFree a (pre ++ (size, true) ∷ bs) y → L y)
      → C y ⊎ IsFree a (freed pre size bs) y
      → Linked L a pre size bs y
  unfolding Linked freed
  Linked-from C a [] p (block at rows large footer t) far join k =
      first_from C w e y L a (a + size) size true bs refl large t far join k
  Linked-from C a ((n, true) ∷ []) p (block at' rows' large' footer' (block at rows large footer t))
        far join k =
      first_from C w e y L (a + n) (a + n + size) size true bs refl large t
        (λ k. And-far C a n e true y large' far k) join k
  Linked-from C a ((n, false) ∷ []) p
        (block at' rows' large' footer' (block at rows large footer t)) far join k =
      swap_from L a (a + n + size) bs y (
        first_from C w e y (Without L a) a (a + n + size) (n + size) true bs (add_assoc a n size)
          (omega arith) t far
          (λ k. elim k [
            | inl k ↦ (
              join (inl k),
              let le : a + n + size ≤ e = Tiles-le t in
                  elim (far k) [ inl less ↦ omega arith | inr more ↦ omega arith ],
            )
            | inr k ↦ (
              join (inr (inr k)),
              let le : a + n + size ≤ y = IsFree-le (a + n + size) bs y t k in omega arith,
            )
          ])
          k)
  Linked-from C a ((n, al) ∷ next ∷ pre) p (block at rows large footer t) far join k =
      Linked-from (And C a al) (a + n) (next ∷ pre) al t (λ k. And-far C a n e al y large far k)
        (λ k. join (And-from C a n al ((next ∷ pre) ++ (size, true) ∷ bs) y k))
        (And-to C a n al (freed (next ∷ pre) size bs) y k)

-- ===== src/Alloc/Split.antt =====
-- sf_allocate_block of hw3 cuts a block of the heap in two.
use cse320_spring.Base.{
  ℕ, ◌+◌, ◌-◌, ◌%◌, ◌≤◌, ◌≡◌, ◌≢◌, ◌⊎◌, inl, inr, refl, ◌∙◌, subst, Bool, true, false, List, [],
  ◌∷◌, ◌++◌, arith,
}
use cse320_spring.Alloc.Sizes.{IsFreeOf}
use cse320_spring.Alloc.Blocks.{
  header, Tiles, epilogue, block, Tiles-frame, IsRow, IsFree, IsRow-le,
}
use cse320_spring.Alloc.Among.{address, address_le}

pub address-append :
    (a s : ℕ) (pre : List (ℕ × Bool)) → address a (pre ++ (s, true) ∷ []) ≡ address a pre + s
address-append a s [] = refl
address-append a s ((n, al) ∷ pre) = address-append (a + n) s pre

-- The two lists have the same free blocks.
pub split-IsFree :
    (a s left : ℕ) (pre bs : List (ℕ × Bool)) (x : ℕ)
    → IsFree a (pre ++ (s + left, true) ∷ bs) x
    → IsFree a ((pre ++ (s, true) ∷ []) ++ (left, true) ∷ bs) x
split-IsFree a s left [] bs x k = subst (λ y. IsFree y bs x) (omega arith) k
split-IsFree a s left ((n, true) ∷ pre) bs x k = split-IsFree (a + n) s left pre bs x k
split-IsFree a s left ((n, false) ∷ pre) bs x (inl k) = inl k
split-IsFree a s left ((n, false) ∷ pre) bs x (inr k) = inr (split-IsFree (a + n) s left pre bs x k)

pub join-IsFree :
    (a s left : ℕ) (pre bs : List (ℕ × Bool)) (x : ℕ)
    → IsFree a ((pre ++ (s, true) ∷ []) ++ (left, true) ∷ bs) x
    → IsFree a (pre ++ (s + left, true) ∷ bs) x
join-IsFree a s left [] bs x k = subst (λ y. IsFree y bs x) (omega arith) k
join-IsFree a s left ((n, true) ∷ pre) bs x k = join-IsFree (a + n) s left pre bs x k
join-IsFree a s left ((n, false) ∷ pre) bs x (inl k) = inl k
join-IsFree a s left ((n, false) ∷ pre) bs x (inr k) = inr (join-IsFree (a + n) s left pre bs x k)

pub join-IsFreeOf :
    (k a s left : ℕ) (pre bs : List (ℕ × Bool)) (x : ℕ)
    → IsFreeOf k a ((pre ++ (s, true) ∷ []) ++ (left, true) ∷ bs) x
    → IsFreeOf k a (pre ++ (s + left, true) ∷ bs) x
unfolding IsFreeOf
join-IsFreeOf k a s left [] bs x j = subst (λ y. IsFreeOf k y bs x) (omega arith) j
join-IsFreeOf k a s left ((n, true) ∷ pre) bs x j = join-IsFreeOf k (a + n) s left pre bs x j
join-IsFreeOf k a s left ((n, false) ∷ pre) bs x (inl j) = inl j
join-IsFreeOf k a s left ((n, false) ∷ pre) bs x (inr j) =
    inr (join-IsFreeOf k (a + n) s left pre bs x j)

-- `w'` is `w` with the headers of the two parts.
abbrev pub IsCut : (ℕ → ℕ) → (ℕ → ℕ) → ℕ → ℕ → ℕ → Type 0
IsCut w w' b s left =
    ((r : ℕ) → r ≢ b → r ≢ b + s → r ≢ b + (s + left) - 8 → w' r ≡ w r)
    × ((p : Bool) → w b ≡ header (s + left) true p → w' b ≡ header s true p)
    × (w' (b + s) ≡ header left true true)

pub split-Tiles :
    (w w' : ℕ → ℕ) (e a s left : ℕ) (p : Bool) (pre bs : List (ℕ × Bool))
    → IsCut w w' (address a pre) s left
    → s % 16 ≡ 0
    → 32 ≤ s
    → 32 ≤ left
    → Tiles w e a p (pre ++ (s + left, true) ∷ bs)
    → Tiles w' e a p ((pre ++ (s, true) ∷ []) ++ (left, true) ∷ bs)
split-Tiles w w' e a s left p [] bs cut rows large large' (block at rows' large'' footer t) =
    block (cut.1 p at) rows large (λ k. cc)
      (block cut.2 (omega arith) large' (λ k. cc)
        (subst (λ y. Tiles w' e y true bs) (omega arith)
          (Tiles-frame w w' e (a + (s + left)) true bs
            (λ r k.
              let le : a + (s + left) ≤ r = IsRow-le t k in
              cut.0 r (omega arith) (omega arith) (omega arith))
            t)))
split-Tiles w w' e a s left p ((n, al) ∷ pre) bs cut rows large large'
      (block at rows' large'' footer t) =
    let le : a + n ≤ address (a + n) pre = address_le (a + n) pre in
    block (cut.0 a (omega arith) (omega arith) (omega arith) ∙ at) rows' large''
      (λ k. cut.0 (a + n - 8) (omega arith) (omega arith) (omega arith) ∙ footer k)
      (split-Tiles w w' e (a + n) s left al pre bs cut rows large large' t)

-- The rows that the cut writes.
pub part_rows :
    (a s left r : ℕ) (pre bs : List (ℕ × Bool))
    → (r ≡ address a pre) ⊎ (r ≡ address a pre + s) ⊎ (r ≡ address a pre + s + left - 8)
    → IsRow a ((pre ++ (s, true) ∷ []) ++ (left, true) ∷ bs) r
part_rows a s left r [] bs (inl k) = inl k
part_rows a s left r [] bs (inr (inl k)) = inr (inr (inl k))
part_rows a s left r [] bs (inr (inr k)) = inr (inr (inr (inl k)))
part_rows a s left r ((n, al) ∷ pre) bs k = inr (inr (part_rows (a + n) s left r pre bs k))

-- What stands behind an allocated block knows that it is allocated.
pub Tiles-next :
    (w : ℕ → ℕ) (e a size : ℕ) (p : Bool) (pre bs : List (ℕ × Bool))
    → Tiles w e a p (pre ++ (size, true) ∷ bs)
    → (n : ℕ) × (al : Bool) × (n % 16 ≡ 0) × (w (address a pre + size) ≡ header n al true)
Tiles-next w e a size p [] [] (block at rows large footer (epilogue end last)) =
    (0, true, refl, last)
Tiles-next w e a size p [] ((n, al) ∷ bs) (block at rows large footer (block at' rows' l f t)) =
    (n, al, rows', at')
Tiles-next w e a size p ((n, al) ∷ pre) bs (block at rows large footer t) =
    Tiles-next w e (a + n) size al pre bs t

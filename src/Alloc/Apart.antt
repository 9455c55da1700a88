-- ===== src/Alloc/Apart.antt =====
-- The heads of hw3, the free blocks and the block that becomes free stand apart.
use cse320_spring.Base.{
  ℕ, ◌+◌, ◌-◌, ◌≤◌, ◌≢◌, ◌⊎◌, inl, inr, sym, subst, Bool, true, false, List, [], ◌∷◌, ◌++◌, arith,
}
use cse320_spring.Alloc.Memory.{Memory, list_head}
use cse320_spring.Alloc.Blocks.{Tiles, block, Tiles-le, IsRow, IsFree, IsFree-le, IsFree-apart}
use cse320_spring.Alloc.Among.{address, address_le}
use cse320_spring.Alloc.Cycle.{With}
use cse320_spring.Alloc.Ring.{IsApart}
use cse320_spring.Alloc.Heap.{IsHead, IsLinked, IsHeap, own_apart, is_block, address-IsRow}

IsFree-IsRow : (a : ℕ) (bs : List (ℕ × Bool)) (x : ℕ) → IsFree a bs x → IsRow a bs x
IsFree-IsRow a [] x k = omega arith
IsFree-IsRow a ((n, true) ∷ bs) x k = inr (inr (IsFree-IsRow (a + n) bs x k))
IsFree-IsRow a ((n, false) ∷ bs) x (inl k) = inl k
IsFree-IsRow a ((n, false) ∷ bs) x (inr k) = inr (inr (IsFree-IsRow (a + n) bs x k))

IsFree-high :
    (w : ℕ → ℕ) (e a : ℕ) (p : Bool) (bs : List (ℕ × Bool)) (x : ℕ)
    → Tiles w e a p bs
    → IsFree a bs x
    → x + 32 ≤ e
IsFree-high w e a p [] x t k = omega arith
IsFree-high w e a p ((n, true) ∷ bs) x (block at rows large footer t) k =
    IsFree-high w e (a + n) true bs x t k
IsFree-high w e a p ((n, false) ∷ bs) x (block at rows large footer t) (inl k) =
    omega (arith, Tiles-le t)
IsFree-high w e a p ((n, false) ∷ bs) x (block at rows large footer t) (inr k) =
    IsFree-high w e (a + n) false bs x t k

IsFree-other :
    (w : ℕ → ℕ) (e a size : ℕ) (p : Bool) (pre bs : List (ℕ × Bool)) (x : ℕ)
    → Tiles w e a p (pre ++ (size, true) ∷ bs)
    → IsFree a (pre ++ (size, true) ∷ bs) x
    → x ≢ address a pre
IsFree-other w e a size p [] bs x (block at rows large footer t) k =
    let le : a + size ≤ x = IsFree-le (a + size) bs x t k in omega arith
IsFree-other w e a size p ((n, true) ∷ pre) bs x (block at rows large footer t) k =
    IsFree-other w e (a + n) size true pre bs x t k
IsFree-other w e a size p ((n, false) ∷ pre) bs x (block at rows large footer t) (inl k) =
    let le : a + n ≤ address (a + n) pre = address_le (a + n) pre in omega arith
IsFree-other w e a size p ((n, false) ∷ pre) bs x (block at rows large footer t) (inr k) =
    IsFree-other w e (a + n) size false pre bs x t k

-- An address where a block stands that is not the epilogue.
abbrev pub IsInside : Memory → ℕ → Type 0
IsInside m x = (m.start + 40 ≤ x) × (x + 32 ≤ m.stop - 8)

pub head_outside :
    (m : Memory) (k y : ℕ)
    → (m.lists + 192 ≤ m.start) ⊎ (m.stop ≤ m.lists)
    → k ≤ 7
    → m.start + 40 ≤ y
    → y ≤ m.stop - 8
    → list_head k m ≢ y
head_outside m k y (inl h) le low high = omega arith
head_outside m k y (inr h) le low high = omega arith

head_before :
    (m : Memory) (x y : ℕ)
    → (m.lists + 192 ≤ m.start) ⊎ (m.stop ≤ m.lists)
    → IsHead m.lists x
    → IsInside m y
    → (x ≢ y + 8) × (y ≢ x + 8)
head_before m x y (inl h) (k, le, same) (low, high) = (omega arith, omega arith)
head_before m x y (inr h) (k, le, same) (low, high) = (omega arith, omega arith)

module _ (m : Memory) (pre bs : List (ℕ × Bool)) (size : ℕ)
    (heap : IsHeap m (pre ++ (size, true) ∷ bs)) where
  abbrev all : List (ℕ × Bool)
  all = pre ++ (size, true) ∷ bs

  abbrev at : ℕ
  at = address (m.start + 40) pre

  abbrev tiles : Tiles m.word (m.stop - 8) (m.start + 40) true all
  tiles = heap.4.1

  at-IsInside : IsInside m at
  at-IsInside = let k = is_block m pre bs size heap in (k.1, omega (arith, k))

  free-IsInside : (x : ℕ) → IsFree (m.start + 40) all x → IsInside m x
  free-IsInside x k = (
    IsFree-le (m.start + 40) all x tiles k,
    IsFree-high m.word (m.stop - 8) (m.start + 40) true all x tiles k,
  )

  pub IsLinked-IsApart : IsApart (With (IsLinked m.lists m.start all) at)
  IsLinked-IsApart x y (inl (inl (i, le, same))) (inl (inl (j, le', same'))) = omega arith
  IsLinked-IsApart x y (inl (inl h)) (inl (inr k)) =
      (head_before m x y heap.2 h (free-IsInside y k)).0
  IsLinked-IsApart x y (inl (inl h)) (inr same) =
      subst (λ z. x ≢ z + 8) (sym same) (head_before m x at heap.2 h at-IsInside).0
  IsLinked-IsApart x y (inl (inr k)) (inl (inl h)) =
      (head_before m y x heap.2 h (free-IsInside x k)).1
  IsLinked-IsApart x y (inl (inr k)) (inl (inr k')) =
      (IsFree-apart (m.start + 40) all y x tiles k' (IsFree-IsRow (m.start + 40) all x k)).0
  IsLinked-IsApart x y (inl (inr k)) (inr same) =
      subst (λ z. x ≢ z + 8) (sym same)
        (own_apart (m.start + 40) size pre bs x tiles (IsFree-IsRow (m.start + 40) all x k)).0
  IsLinked-IsApart x y (inr same) (inl (inl h)) =
      subst (λ z. z ≢ y + 8) (sym same) (head_before m y at heap.2 h at-IsInside).1
  IsLinked-IsApart x y (inr same) (inl (inr k)) =
      subst (λ z. z ≢ y + 8) (sym same)
        (IsFree-apart (m.start + 40) all y at tiles k (address-IsRow (m.start + 40) size pre bs)).0
  IsLinked-IsApart x y (inr same) (inr same') = omega arith

  pub linked_other : (y : ℕ) → IsLinked m.lists m.start all y → y ≢ at
  linked_other y (inl (k, le, same)) =
      let inside = at-IsInside in
      subst (λ z. z ≢ at) (sym same)
        (head_outside m k at heap.2 le inside.0 (omega (arith, inside)))
  linked_other y (inr k) =
      IsFree-other m.word (m.stop - 8) (m.start + 40) size true pre bs y tiles k

-- ===== src/Alloc/Heap.antt =====
-- The heap of hw3 with its blocks and free lists, and the memory after sf_add_to_free_list.
use cse320_spring.Base.{
  ℕ, ◌+◌, ◌-◌, ◌*◌, ◌%◌, ◌^◌, ◌≤◌, ◌<◌, ◌≡◌, ◌≢◌, ◌⊎◌, inl, inr, refl, sym, ◌∙◌, subst, Bool, true,
  false, List, [], ◌∷◌, ◌++◌, arith,
}
use cse320_spring.Alloc.Memory.{Memory, sf_add_to_free_list}
use cse320_spring.Alloc.Blocks.{
  header, Tiles, block, Tiles-le, IsRow, IsFree, IsFree-le, IsFree-apart, IsRow-le, IsRow-ge,
  FieldsApart,
}
use cse320_spring.Alloc.Links.{IsClear}
use cse320_spring.Alloc.Among.{IsButOwn, address, address_le, freed, sf_add_to_free_list-Tiles}
use cse320_spring.Alloc.Ring.{IsRing, IsRing-frame, ring-IsClosed}
use cse320_spring.Alloc.Rings.{class_of}
use cse320_spring.Alloc.Sizes.{IsFreeOf}
use cse320_spring.Alloc.Check.{IsBlock, Tiles-IsBlock}

-- The prologue and the blocks behind it are laid out in the memory.
abbrev pub IsTiled : (ℕ → ℕ) → ℕ → ℕ → List (ℕ × Bool) → Type 0
IsTiled w start stop bs =
    (w (start + 8) ≡ header 32 true false) × Tiles w (stop - 8) (start + 40) true bs

-- What stands in the free lists: the heads and the free blocks.
abbrev pub IsHead : ℕ → ℕ → Type 0
IsHead lists x = (k : ℕ) × (k ≤ 7) × (x ≡ lists + 24 * k)

abbrev pub IsLinked : ℕ → ℕ → List (ℕ × Bool) → ℕ → Type 0
IsLinked lists start bs x = IsHead lists x ⊎ IsFree (start + 40) bs x

-- The list that `y` belongs in is that at `h`: a free block in that of its size, and the last block of the
-- heap in the last list, the wilderness.
abbrev pub IsFiled : ℕ → ℕ → ℕ → List (ℕ × Bool) → ℕ → ℕ → Type 0
IsFiled lists stop start bs h y =
    IsHead lists h × ((n : ℕ) → IsFreeOf n (start + 40) bs y → h ≡ lists + 24 * class_of stop n y)

-- A heap whose blocks are `bs`: the rows are aligned, the heads stand outside, the links of the heads
-- and the free blocks are doubly linked rings, every free block is reached from the head of the list that
-- it belongs in, and the prologue and the blocks are laid out.
abbrev pub IsHeapAt : (ℕ → ℕ) → ℕ → ℕ → ℕ → List (ℕ × Bool) → Type 0
IsHeapAt w start stop lists bs =
    (start % 16 ≡ 0)
    × (stop < 2 ^ 64)
    × ((lists + 192 ≤ start) ⊎ (stop ≤ lists))
    × IsRing (IsFiled lists stop start bs) (IsLinked lists start bs) w
    × IsTiled w start stop bs

abbrev pub IsHeap : Memory → List (ℕ × Bool) → Type 0
IsHeap m bs = IsHeapAt m.word m.start m.stop m.lists bs

-- The fields of a head are no rows of the heap.
pub head_apart :
    (lists start stop k r : ℕ)
    → k ≤ 7
    → start < r
    → r < stop
    → (lists + 192 ≤ start) ⊎ (stop ≤ lists)
    → (r ≢ lists + 24 * k + 8) × (r ≢ lists + 24 * k + 16)
head_apart lists start stop k r le low high (inl h) = (omega arith, omega arith)
head_apart lists start stop k r le low high (inr h) = (omega arith, omega arith)

-- Rows of the same blocks, or of blocks with as many free ones.
pub rows-IsClear :
    (m : Memory) (bs : List (ℕ × Bool)) (w : ℕ → ℕ) (bs' : List (ℕ × Bool)) (b r : ℕ)
    → IsHeap m bs
    → ((x : ℕ) → IsFree (m.start + 40) bs x → IsFree (m.start + 40) bs' x)
    → Tiles w (m.stop - 8) (m.start + 40) true bs'
    → FieldsApart b r
    → IsRow (m.start + 40) bs' r
    → IsClear (IsLinked m.lists m.start bs) b r
rows-IsClear m bs w bs' b r (aligned, top, outside, ring, tiled) keep tiles own row = (
  own.0,
  own.1,
  λ x k. elim k [
    | inl (index, le, same) ↦
        let apart =
          head_apart m.lists m.start m.stop index r le (omega (arith, IsRow-le tiles row))
            (omega (arith, IsRow-le tiles row, IsRow-ge tiles row)) outside in
        subst (λ y. FieldsApart y r) (sym same) apart
    | inr free ↦ IsFree-apart (m.start + 40) bs' x r tiles (keep x free) row
  ],
)

-- The payload of the block has no row of another block.
pub own_apart :
    {w : ℕ → ℕ} {e : ℕ} {p : Bool} (a size : ℕ) (pre bs : List (ℕ × Bool)) (r : ℕ)
    → Tiles w e a p (pre ++ (size, true) ∷ bs)
    → IsRow a (pre ++ (size, true) ∷ bs) r
    → FieldsApart (address a pre) r
own_apart a size [] bs r (block at rows large footer t) (inl row) = (omega arith, omega arith)
own_apart a size [] bs r (block at rows large footer t) (inr (inl row)) = (omega arith, omega arith)
own_apart a size [] bs r (block at rows large footer t) (inr (inr row)) =
    let le : a + size ≤ r = IsRow-le t row in (omega arith, omega arith)
own_apart a size ((n, al) ∷ pre) bs r (block at rows large footer t) (inl row) =
    let le : a + n ≤ address (a + n) pre = address_le (a + n) pre in (omega arith, omega arith)
own_apart a size ((n, al) ∷ pre) bs r (block at rows large footer t) (inr (inl row)) =
    let le : a + n ≤ address (a + n) pre = address_le (a + n) pre in (omega arith, omega arith)
own_apart a size ((n, al) ∷ pre) bs r (block at rows large footer t) (inr (inr row)) =
    own_apart (a + n) size pre bs r t row

pub address-IsRow :
    (a size : ℕ) (pre bs : List (ℕ × Bool)) → IsRow a (pre ++ (size, true) ∷ bs) (address a pre)
address-IsRow a size [] bs = inl refl
address-IsRow a size ((n, al) ∷ pre) bs = inr (inr (address-IsRow (a + n) size pre bs))

pub prologue-IsClear :
    (m : Memory) (bs : List (ℕ × Bool)) (b : ℕ)
    → IsHeap m bs
    → m.start + 40 ≤ b
    → IsClear (IsLinked m.lists m.start bs) b (m.start + 8)
prologue-IsClear m bs b (aligned, top, outside, ring, (prologue, tiles)) low = (
  omega arith,
  omega arith,
  λ x k. elim k [
    | inl (index, le, same) ↦
        let apart =
          head_apart m.lists m.start m.stop index (m.start + 8) le (omega arith)
            (omega (arith, Tiles-le tiles)) outside in
        subst (λ y. FieldsApart y (m.start + 8)) (sym same) apart
    | inr free ↦
        let le : m.start + 40 ≤ x = IsFree-le (m.start + 40) bs x tiles free in
        (omega arith, omega arith)
  ],
)

-- The address that the next block stands at, and the whole heap, with the block free.
module _ (m : Memory) (pre bs : List (ℕ × Bool)) (size : ℕ)
    (heap : IsHeap m (pre ++ (size, true) ∷ bs)) where
  abbrev pub all : List (ℕ × Bool)
  all = pre ++ (size, true) ∷ bs

  abbrev pub at : ℕ
  at = address (m.start + 40) pre

  pub is_block : IsBlock m.word (m.stop - 8) (m.start + 40) at size
  is_block =
      let (aligned, top, outside, ring, tiled) = heap in
      Tiles-IsBlock m.word (m.stop - 8) (m.start + 40) size true pre bs (omega arith) (λ k. cc)
        tiled.1

  pub row-IsClear :
      (r : ℕ) → IsRow (m.start + 40) all r → IsClear (IsLinked m.lists m.start all) at r
  row-IsClear r row =
      let (aligned, top, outside, ring, tiled) = heap in
      rows-IsClear m all m.word all at r heap (λ x k. k) tiled.1
        (own_apart (m.start + 40) size pre bs r tiled.1 row) row

-- The memory is such a heap, but for the bit of the block which tells whether it is allocated.
module _ (m : Memory) (w : ℕ → ℕ) (own : Bool) (pre bs : List (ℕ × Bool)) (size : ℕ)
    (heap : IsHeap (record m { word = w }) (pre ++ (size, true) ∷ bs))
    (like : IsButOwn size own w m (address (m.start + 40) pre)) where
  abbrev L : ℕ → Type 0
  L = IsLinked m.lists m.start (pre ++ (size, true) ∷ bs)

  abbrev clear :
      (r : ℕ)
      → IsRow (m.start + 40) (pre ++ (size, true) ∷ bs) r
      → IsClear L (address (m.start + 40) pre) r
  clear = row-IsClear (record m { word = w }) pre bs size heap

  abbrev F : ℕ → ℕ → Type 0
  F = IsFiled m.lists m.stop m.start (pre ++ (size, true) ∷ bs)

  pub own-IsRing : IsRing F L m.word
  own-IsRing =
      let k = clear (address (m.start + 40) pre) (address-IsRow (m.start + 40) size pre bs) in
      IsRing-frame F L w m.word
        (λ x l.
          (like.0 (x + 8) (λ e. (k.2 x l).0 (sym e)), like.0 (x + 16) (λ e. (k.2 x l).1 (sym e))))
        heap.3

  pub add-IsTiled :
      IsTiled
        (sf_add_to_free_list (address (m.start + 40) pre) m).word
        m.start
        m.stop
        (freed pre size bs)
  add-IsTiled =
      let (aligned, top, outside, ring, tiled) = heap in
      let low : m.start + 40 ≤ address (m.start + 40) pre = address_le (m.start + 40) pre in
      let f =
        sf_add_to_free_list-Tiles L size own w m (m.stop - 8) (omega (arith, Tiles-le tiled.1))
          (ring-IsClosed F L m.word own-IsRing, λ k le. inl (k, le, refl)) (m.start + 40) pre bs
          true (λ k. refl) like clear (λ x k. inr k) tiled.1 in
      (
        f.0 (m.start + 8) (omega arith) (
              prologue-IsClear (record m { word = w }) (pre ++ (size, true) ∷ bs)
                (address (m.start + 40) pre) heap low)
            ∙ like.0 (m.start + 8) (omega arith)
            ∙ tiled.0,
        f.1,
      )

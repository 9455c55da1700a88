-- ===== src/Alloc/Realloc.antt =====
-- sf_realloc of hw3 where the block is large enough.
use cse320_spring.Base.{
  ℕ, ◌+◌, ◌-◌, ◌%◌, ◌^◌, ◌≤◌, ◌<◌, ◌≡◌, ◌≢◌, inl, inr, sym, ap, ◌∙◌, subst, Bool, true, false, List,
  [], ◌∷◌, ◌++◌, ltb, eq_cases, lt→ltb, ltb_of_le, lt_cases, if◌then◌else◌, arith,
}
use cse320_spring.Base.Maps.{update, update_self, update_other}
use cse320_spring.Alloc.Memory.{poke, Memory, block_size, set_this, set_prev, sf_allocate_block}
use cse320_spring.Alloc.Malloc.{actual_size}
use cse320_spring.Alloc.Blocks.{header, Tiles-frame}
use cse320_spring.Alloc.Among.{address, freed}
use cse320_spring.Alloc.Ring.{IsRing-frame}
use cse320_spring.Alloc.Heap.{IsFiled, IsLinked, IsHeap, is_block}
use cse320_spring.Alloc.Split.{Tiles-next}
use cse320_spring.Alloc.Shrink.{sf_allocate_block-IsHeap}

pub actual_size-rows : (size : ℕ) → (actual_size size % 16 ≡ 0) × (32 ≤ actual_size size)
unfolding actual_size
actual_size-rows size = ground arith

-- A request that is too large for a size is rounded to 32 bytes.
pub actual_size_lem :
    (size : ℕ)
    → (size + 23 < 2 ^ 64 → size + 8 ≤ actual_size size)
      × (2 ^ 64 ≤ size + 23 → size < 2 ^ 64 → actual_size size ≡ 32)
unfolding actual_size
actual_size_lem size = (λ k. ground arith, λ k k'. ground arith)

update_same : (f : ℕ → ℕ) (k v r : ℕ) → v ≡ f k → update f k v r ≡ f r
update_same f k v r same = elim (eq_cases r k) [
  | inl e ↦ ap (update f k v) e ∙ update_self f k v ∙ same ∙ ap f (sym e)
  | inr e ↦ update_other f k r v e
]

set_this-header : (n : ℕ) (p : Bool) → n % 16 ≡ 0 → set_this (header n true p) ≡ header n true p
set_this-header n true rows = omega arith
set_this-header n false rows = omega arith

set_prev-header : (n : ℕ) (al : Bool) → n % 16 ≡ 0 → set_prev (header n al true) ≡ header n al true
set_prev-header n true rows = omega arith
set_prev-header n false rows = omega arith

header_size : (n : ℕ) (p : Bool) → n % 16 ≡ 0 → block_size (header n true p) ≡ n
header_size n true rows = omega arith
header_size n false rows = omega arith

-- The memory where the block is not cut.
abbrev kept : ℕ → ℕ → Memory → Memory
kept b length m =
    let m₁ = poke b (set_this (m.word b)) m in
    poke (b + length) (set_prev (m₁.word (b + length))) m₁

kept_same :
    (m : Memory) (b length n : ℕ) (q al : Bool)
    → m.word b ≡ header length true q
    → m.word (b + length) ≡ header n al true
    → length % 16 ≡ 0
    → n % 16 ≡ 0
    → (r : ℕ) → (kept b length m).word r ≡ m.word r
kept_same m b length n q al at next rows rows' r =
    let same : set_this (m.word b) ≡ m.word b = rw (at) (set_this-header length q rows) in
    let w₁ = update m.word b (set_this (m.word b)) in
    let e : w₁ (b + length) ≡ m.word (b + length) =
      update_same m.word b (set_this (m.word b)) (b + length) same in
    let same' : set_prev (w₁ (b + length)) ≡ w₁ (b + length) =
      ap set_prev (e ∙ next) ∙ set_prev-header n al rows' ∙ sym (e ∙ next) in
    update_same w₁ (b + length) (set_prev (w₁ (b + length))) r same'
    ∙ update_same m.word b (set_this (m.word b)) r same

sf_allocate_block-kept :
    (m : Memory) (b s length : ℕ) (q : Bool)
    → m.word b ≡ header length true q
    → length % 16 ≡ 0
    → s ≤ length
    → length < 2 ^ 64
    → length - s < 32
    → sf_allocate_block b s m ≡ kept b length m
unfolding sf_allocate_block
sf_allocate_block-kept m b s length q at rows fits high near =
    let whole : block_size (m.word b) ≡ length = rw (at) (header_size length q rows) in
    let left : (length + 2 ^ 64 - s) % 2 ^ 64 ≡ length - s = omega arith in
    rw (whole, left, lt→ltb (length - s) 32 near)

-- Only the rows matter.
kept-IsHeap :
    (m : Memory) (w : ℕ → ℕ) (bs : List (ℕ × Bool))
    → ((r : ℕ) → w r ≡ m.word r)
    → IsHeap m bs
    → IsHeap (record m { word = w }) bs
kept-IsHeap m w bs same (aligned, top, outside, ring, tiled) = (
  aligned,
  top,
  outside,
  IsRing-frame (IsFiled m.lists m.stop m.start bs) (IsLinked m.lists m.start bs) m.word w
      (λ x k. (same (x + 8), same (x + 16))) ring,
  (
    same (m.start + 8) ∙ tiled.0,
    Tiles-frame m.word w (m.stop - 8) (m.start + 40) true bs (λ r k. same r) tiled.1,
  ),
)

-- The blocks, where the one behind those of `pre` is cut to `s` bytes if 32 bytes are left.
unfoldable pub shrunk : List (ℕ × Bool) → ℕ → ℕ → List (ℕ × Bool) → List (ℕ × Bool)
shrunk pre s length bs =
    if ltb (length - s) 32
    then pre ++ (length, true) ∷ bs
    else freed (pre ++ (s, true) ∷ []) (length - s) bs

module _ (m : Memory) (pre bs : List (ℕ × Bool)) (length s : ℕ)
    (heap : IsHeap m (pre ++ (length, true) ∷ bs)) (rows : s % 16 ≡ 0) (large : 32 ≤ s)
    (fits : s ≤ length) where
  pub sf_allocate_block-shrunk :
      IsHeap (sf_allocate_block (address (m.start + 40) pre) s m) (shrunk pre s length bs)
  unfolding shrunk
  sf_allocate_block-shrunk =
      let b = address (m.start + 40) pre in
      let k = is_block m pre bs length heap in
      let (q, at, bit) = k.5 in
      let (aligned, top, outside, ring, tiled) = heap in
      let (n, al, rows', next) =
        Tiles-next m.word (m.stop - 8) (m.start + 40) length true pre bs tiled.1 in
      elim (lt_cases (length - s) 32) [
        | inl near ↦
            rw
              (
                lt→ltb (length - s) 32 near,
                sf_allocate_block-kept m b s length q at k.2 fits (omega (arith, k.4)) near,
              )
              (kept-IsHeap m (kept b length m).word (pre ++ (length, true) ∷ bs)
                (kept_same m b length n q al at next k.2 rows') heap)
        | inr far ↦ rw (ltb_of_le (length - s) 32 far) (
            sf_allocate_block-IsHeap m pre bs s (length - s) rows large far
              (subst (λ x. IsHeap m (pre ++ (x, true) ∷ bs)) (omega arith) heap))
      ]

module _ (sf_mem_grow : Memory → ℕ × Memory) (rounds pages rsize : ℕ) (m : Memory)
    (pre bs : List (ℕ × Bool)) (length : ℕ) (heap : IsHeap m (pre ++ (length, true) ∷ bs))
    (some_size : rsize ≢ 0) (fits : actual_size rsize ≤ length) where
  abbrev b : ℕ
  b = address (m.start + 40) pre

-- ===== src/Alloc/Shrink.antt =====
-- sf_allocate_block of hw3 on a block of the heap that is in no free list.
use cse320_spring.Base.{
  ℕ, ◌+◌, ◌-◌, ◌%◌, ◌^◌, ◌≤◌, ◌≡◌, ◌⊎◌, inl, inr, refl, sym, ap, ◌∙◌, subst, Bool, true, false,
  List, [], ◌∷◌, ◌++◌, ltb_of_le, arith,
}
use cse320_spring.Base.Maps.{update, update_self, update_other}
use cse320_spring.Alloc.Memory.{
  Memory, poke, block_size, prev_allocated, sf_add_to_free_list, sf_allocate_block,
}
use cse320_spring.Alloc.Blocks.{header, Tiles, IsRow, FieldsApart}
use cse320_spring.Alloc.Links.{IsClear}
use cse320_spring.Alloc.Release.{put_footer_eq, prev_bit}
use cse320_spring.Alloc.Among.{address, address_le, freed, IsButOwn}
use cse320_spring.Alloc.Ring.{IsRing, IsRing-iff}
use cse320_spring.Alloc.Rings.{poke-IsRing}
use cse320_spring.Alloc.Free.{add-IsHeap}
use cse320_spring.Alloc.Heap.{IsFiled, IsHeap, IsLinked, is_block, rows-IsClear, own_apart}
use cse320_spring.Alloc.Split.{
  address-append, split-IsFree, join-IsFree, join-IsFreeOf, IsCut, split-Tiles, part_rows,
}

block_size-header : (n : ℕ) (q : Bool) → n % 16 ≡ 0 → block_size (header n true q) ≡ n
block_size-header n true rows = omega arith
block_size-header n false rows = omega arith

own_header : (n : ℕ) (p : Bool) → header n true true ≡ header n true p → n + 2 ≡ header n false p
own_header n true same = omega arith
own_header n false same = omega arith

-- The memory once the two headers and the footer are written.
abbrev pub cut : ℕ → ℕ → ℕ → Memory → Memory
cut b s left m =
    poke (b + s + left - 8) (left + 2)
      (poke (b + s) (left + 2) (poke b (s + 1 + prev_allocated (m.word b)) m))

module _ (m : Memory) (pre bs : List (ℕ × Bool)) (s left : ℕ) (rows : s % 16 ≡ 0) (large : 32 ≤ s)
    (large' : 32 ≤ left) (heap : IsHeap m (pre ++ (s + left, true) ∷ bs)) where
  abbrev b : ℕ
  b = address (m.start + 40) pre

  abbrev before : List (ℕ × Bool)
  before = pre ++ (s, true) ∷ []

  abbrev L : ℕ → Type 0
  L = IsLinked m.lists m.start (pre ++ (s + left, true) ∷ bs)

  -- The memory as if both parts were allocated.
  abbrev w' : ℕ → ℕ
  w' = update (cut b s left m).word (b + s) (header left true true)

  pub sf_allocate_block-cut : sf_allocate_block b s m ≡ sf_add_to_free_list (b + s) (cut b s left m)
  unfolding sf_allocate_block
  sf_allocate_block-cut =
      let k = is_block m pre bs (s + left) heap in
      let (q, at, bit) = k.5 in
      let whole : block_size (m.word b) ≡ s + left = rw (at) (block_size-header (s + left) q k.2) in
      let rest : (s + left + 2 ^ 64 - s) % 2 ^ 64 ≡ left = omega (arith, k.4, heap.1) in
      let m₁ = poke (b + s) (left + 2) (poke b (s + 1 + prev_allocated (m.word b)) m) in
      rw (whole, rest, ltb_of_le left 32 large')
        (ap (sf_add_to_free_list (b + s)) (
          put_footer_eq (b + s) (left + 2) left m₁
            (update_self (poke b (s + 1 + prev_allocated (m.word b)) m).word (b + s) (left + 2))
            (omega (arith, k.2))))

  headers-IsCut : IsCut m.word w' b s left
  headers-IsCut =
      let v = s + 1 + prev_allocated (m.word b) in
      let w₁ = update m.word b v in
      let w₂ = update w₁ (b + s) (left + 2) in
      let w₃ = update w₂ (b + s + left - 8) (left + 2) in
      (
        λ r k k' k''.
            update_other w₃ (b + s) r (header left true true) k'
            ∙ update_other w₂ (b + s + left - 8) r (left + 2) (omega arith)
            ∙ update_other w₁ (b + s) r (left + 2) k'
            ∙ update_other m.word b r v k,
        λ p at.
            update_other w₃ (b + s) b (header left true true) (omega arith)
            ∙ update_other w₂ (b + s + left - 8) b (left + 2) (omega arith)
            ∙ update_other w₁ (b + s) b (left + 2) (omega arith)
            ∙ update_self m.word b v
            ∙ ap (λ x. s + 1 + x)
                (ap prev_allocated at
                  ∙ prev_bit (s + left) true p (is_block m pre bs (s + left) heap).2),
        update_self w₃ (b + s) (header left true true),
      )

  cut-Tiles : Tiles w' (m.stop - 8) (m.start + 40) true (before ++ (left, true) ∷ bs)
  cut-Tiles =
      let (aligned, top, outside, closed, tiled) = heap in
      split-Tiles m.word w' (m.stop - 8) (m.start + 40) s left true pre bs headers-IsCut rows large
        large' tiled.1

  cut-IsClear : (r : ℕ) → IsRow (m.start + 40) (before ++ (left, true) ∷ bs) r → IsClear L (b + s) r
  cut-IsClear r row =
      rows-IsClear m (pre ++ (s + left, true) ∷ bs) w' (before ++ (left, true) ∷ bs) (b + s) r heap
        (split-IsFree (m.start + 40) s left pre bs) cut-Tiles
        (subst (λ y. FieldsApart y r) (address-append (m.start + 40) s pre)
          (own_apart (m.start + 40) left before bs r cut-Tiles row))
        row

  abbrev F : ℕ → ℕ → Type 0
  F = IsFiled m.lists m.stop m.start (pre ++ (s + left, true) ∷ bs)

  cut-IsRing : IsRing F L w'
  cut-IsRing =
      let keep : (r v : ℕ) (m' : Memory)
          → (r ≡ b) ⊎ (r ≡ b + s) ⊎ (r ≡ b + s + left - 8)
          → IsRing F L m'.word
          → IsRing F L (poke r v m').word =
        λ r v m' row.
          poke-IsRing F L L (b + s) r v m'
            (cut-IsClear r (part_rows (m.start + 40) s left r pre bs row)) (λ x k. k) in
      let m₁ = poke b (s + 1 + prev_allocated (m.word b)) m in
      let m₂ = poke (b + s) (left + 2) m₁ in
      keep (b + s) (header left true true) (cut b s left m) (inr (inl refl)) (
        keep (b + s + left - 8) (left + 2) m₂ (inr (inr refl)) (
          keep (b + s) (left + 2) m₁ (inr (inl refl))
            (keep b (s + 1 + prev_allocated (m.word b)) m (inl refl) heap.3)))

  cut-IsHeap : IsHeap (record m { word = w' }) (before ++ (left, true) ∷ bs)
  cut-IsHeap =
      let (aligned, top, outside, ring, tiled) = heap in
      let low : m.start + 40 ≤ b = address_le (m.start + 40) pre in
      (
        aligned,
        top,
        outside,
        IsRing-iff F (IsFiled m.lists m.stop m.start (before ++ (left, true) ∷ bs))
            (IsLinked m.lists m.start (before ++ (left, true) ∷ bs)) L w'
            (λ x k. elim k [
              | inl h ↦ inl h
              | inr free ↦ inr (join-IsFree (m.start + 40) s left pre bs x free)
            ])
            (λ x k. elim k [
              | inl h ↦ inl h
              | inr free ↦ inr (split-IsFree (m.start + 40) s left pre bs x free)
            ])
            (λ h y k filed.
              (filed.0, λ n free. filed.1 n (join-IsFreeOf n (m.start + 40) s left pre bs y free)))
            cut-IsRing,
        (
          headers-IsCut.0 (m.start + 8) (omega arith) (omega arith) (omega arith) ∙ tiled.0,
          cut-Tiles,
        ),
      )

  cut_own : IsButOwn left false w' (cut b s left m) (b + s)
  cut_own =
      let v = s + 1 + prev_allocated (m.word b) in
      let w₂ = update (update m.word b v) (b + s) (left + 2) in
      let w₃ = (cut b s left m).word in
      (
        λ r k. sym (update_other w₃ (b + s) r (header left true true) k),
        λ p k.
            update_other w₂ (b + s + left - 8) (b + s) (left + 2) (omega arith)
            ∙ update_self (update m.word b v) (b + s) (left + 2)
            ∙ own_header left p (sym (update_self w₃ (b + s) (header left true true)) ∙ k),
      )

  pub sf_allocate_block-IsHeap : IsHeap (sf_allocate_block b s m) (freed before left bs)
  sf_allocate_block-IsHeap =
      let place : address (m.start + 40) before ≡ b + s = address-append (m.start + 40) s pre in
      subst (λ x. IsHeap x (freed before left bs))
        (ap (λ y. sf_add_to_free_list y (cut b s left m)) place ∙ sym sf_allocate_block-cut)
        (add-IsHeap (cut b s left m) w' false before bs left cut-IsHeap
          (subst (IsButOwn left false w' (cut b s left m)) (sym place) cut_own))

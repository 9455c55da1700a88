-- ===== src/Alloc/Free.antt =====
-- sf_free of hw3 on a heap with its blocks and free lists.
use cse320_spring.Base.{
  ℕ, ◌+◌, ◌-◌, ◌*◌, ◌≤◌, ◌<◌, ◌≢◌, ◌⊎◌, inl, inr, refl, sym, ap, ◌∙◌, Bool, true, List, ◌∷◌, ◌++◌,
  arith,
}
use cse320_spring.Alloc.Memory.{Memory, sf_add_to_free_list}
use cse320_spring.Alloc.Blocks.{Tiles-le}
use cse320_spring.Alloc.Among.{IsButOwn, address, freed}
use cse320_spring.Alloc.Ring.{IsRing, IsRing-iff, ring-IsClosed}
use cse320_spring.Alloc.Lists.{Linked, Linked-to, Linked-from}
use cse320_spring.Alloc.Rings.{class_of, class_of_le}
use cse320_spring.Alloc.Sizes.{result_at, result_size, freed-IsFreeOf}
use cse320_spring.Alloc.Ringed.{sf_add_to_free_list-IsRing, sf_add_to_free_list-IsSamePlace}
use cse320_spring.Alloc.Heap.{
  own-IsRing, IsHead, IsFiled, IsLinked, IsHeap, row-IsClear, add-IsTiled,
}
use cse320_spring.Alloc.Apart.{head_outside, IsLinked-IsApart, linked_other}

head_far :
    (m : Memory) (y : ℕ)
    → (m.lists + 192 ≤ m.start) ⊎ (m.stop ≤ m.lists)
    → m.start + 40 ≤ m.stop - 8
    → IsHead m.lists y
    → (y < m.start + 40) ⊎ (m.stop - 8 < y)
head_far m y (inl h) room (k, le, same) = inl (omega arith)
head_far m y (inr h) room (k, le, same) = inr (omega arith)

-- The memory is such a heap, but for the bit of the block which tells whether it is allocated.
module _ (m : Memory) (w : ℕ → ℕ) (own : Bool) (pre bs : List (ℕ × Bool)) (size : ℕ)
    (heap : IsHeap (record m { word = w }) (pre ++ (size, true) ∷ bs))
    (like : IsButOwn size own w m (address (m.start + 40) pre)) where
  abbrev L : ℕ → Type 0
  L = IsLinked m.lists m.start (pre ++ (size, true) ∷ bs)

  abbrev added : Memory
  added = sf_add_to_free_list (address (m.start + 40) pre) m

  abbrev whole : Memory
  whole = record m { word = w }

  abbrev F : ℕ → ℕ → Type 0
  F = IsFiled m.lists m.stop m.start (pre ++ (size, true) ∷ bs)

  abbrev G : ℕ → ℕ → Type 0
  G = IsFiled m.lists m.stop m.start (freed pre size bs)

  abbrev x : ℕ
  x = result_at (m.start + 40) pre

  kept-IsFiled : (h y : ℕ) → L y → y ≢ x → F h y → G h y
  kept-IsFiled h y k other (head, filed) = (
    head,
    λ n free.
        elim (freed-IsFreeOf w (m.stop - 8) n y (m.start + 40) pre size bs true heap.4.1 free) [
          | inl old ↦ filed n old.0
          | inr same ↦ elim (other same.0) [ ]
        ],
  )

  abbrev class : ℕ
  class = class_of m.stop (result_size pre size bs) x

  result-IsFiled : G (m.lists + 24 * class) x
  result-IsFiled = (
    (class, class_of_le m.stop (result_size pre size bs) x, refl),
    λ n free.
        elim (freed-IsFreeOf w (m.stop - 8) n x (m.start + 40) pre size bs true heap.4.1 free) [
          | inl old ↦ elim (old.1 refl) [ ]
          | inr same ↦ ap (λ k. m.lists + 24 * class_of m.stop k x) (sym same.1)
        ],
  )

  add-IsRing : IsRing G (IsLinked m.lists m.start (freed pre size bs)) added.word
  add-IsRing =
      let (aligned, top, outside, ring, tiled) = heap in
      let room : m.start + 40 ≤ m.stop - 8 = Tiles-le tiled.1 in
      let ring' = own-IsRing m w own pre bs size heap like in
      IsRing-iff G G (IsLinked m.lists m.start (freed pre size bs))
        (Linked L (m.start + 40) pre size bs) added.word
        (λ y k.
          Linked-from L w (m.stop - 8) y size bs (IsHead m.lists) (m.start + 40) pre true tiled.1
            (λ h. head_far m y outside room h) (λ k. k) k)
        (λ y k.
          Linked-to L w (m.stop - 8) y size bs (IsHead m.lists) (m.start + 40) pre true (λ k. k) k)
        (λ h y k filed. filed)
        (sf_add_to_free_list-IsRing L size own w m (m.stop - 8) (m.start + 40) (omega arith)
          (ring-IsClosed F L m.word ring', λ k le. inl (k, le, refl)) F G ring'
          (λ k y le low high. head_outside m k y outside le low high)
          (λ h z y filed low high e.
            head_outside m filed.0.0 y outside filed.0.1 low high (sym filed.0.2 ∙ e))
          (m.start + 40) pre bs true (omega arith) (λ k. refl) like
          (row-IsClear whole pre bs size heap) (λ x k. inr k)
          (IsLinked-IsApart whole pre bs size heap) (linked_other whole pre bs size heap)
          kept-IsFiled result-IsFiled tiled.1)

  pub add-IsHeap : IsHeap added (freed pre size bs)
  add-IsHeap =
      let (aligned, top, outside, ring, tiled) = heap in
      let (start, stop, lists) = sf_add_to_free_list-IsSamePlace (address (m.start + 40) pre) m in
      rw (start, stop, lists)
        (aligned, top, outside, add-IsRing, add-IsTiled m w own pre bs size heap like)

module _ (m : Memory) (pre bs : List (ℕ × Bool)) (size : ℕ)
    (heap : IsHeap m (pre ++ (size, true) ∷ bs)) where
  abbrev at : ℕ
  at = address (m.start + 40) pre

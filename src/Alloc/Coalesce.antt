-- ===== src/Alloc/Coalesce.antt =====
-- sf_add_to_free_list of hw3: a block that becomes free and the block after it.
use native.Mathlib.Nat.{add_assoc}
use cse320_spring.Base.{
  ℕ, ◌+◌, ◌-◌, ◌%◌, ◌^◌, ◌≤◌, ◌<◌, ◌≡◌, inl, inr, refl, sym, ap, ◌∙◌, subst, Bool, true, false,
  List, [], ◌∷◌, arith,
}
use cse320_spring.Base.Maps.{update, update_self, update_other}
use cse320_spring.Alloc.Memory.{
  Memory, block_size, this_allocated, prev_allocated, poke, unlink_block, join_next,
}
use cse320_spring.Alloc.Blocks.{
  Tiles, epilogue, block, Tiles-le, Tiles-frame, IsRow, IsFree, IsRow-le,
}
use cse320_spring.Alloc.Links.{IsClear, IsSound, poke_row, unlink_block-IsSound, unlink_clear}

-- The blocks, where the first one becomes free and takes over a free one behind it.
abbrev pub freed_first : ℕ → List (ℕ × Bool) → List (ℕ × Bool)
freed_first size [] = (size, false) ∷ []
freed_first size ((n, true) ∷ bs) = (size, false) ∷ (n, true) ∷ bs
freed_first size ((n, false) ∷ bs) = (size + n, false) ∷ bs

-- The size of what is free then, and the blocks behind it.
abbrev pub freed_size : ℕ → List (ℕ × Bool) → ℕ
freed_size size [] = size
freed_size size ((n, true) ∷ bs) = size
freed_size size ((n, false) ∷ bs) = size + n

abbrev pub behind : List (ℕ × Bool) → List (ℕ × Bool)
behind [] = []
behind ((n, true) ∷ bs) = (n, true) ∷ bs
behind ((n, false) ∷ bs) = bs

pub freed_first-eq :
    (size : ℕ) (bs : List (ℕ × Bool))
    → freed_first size bs ≡ (freed_size size bs, false) ∷ behind bs
freed_first-eq size [] = refl
freed_first-eq size ((n, true) ∷ bs) = refl
freed_first-eq size ((n, false) ∷ bs) = refl

pub freed_size_add :
    (k size : ℕ) (bs : List (ℕ × Bool)) → freed_size (k + size) bs ≡ k + freed_size size bs
freed_size_add k size [] = refl
freed_size_add k size ((n, true) ∷ bs) = refl
freed_size_add k size ((n, false) ∷ bs) = add_assoc k size n

pub freed_size_bounds :
    {w : ℕ → ℕ} {e a : ℕ} {p : Bool} (size : ℕ) (bs : List (ℕ × Bool))
    → size % 16 ≡ 0
    → 32 ≤ size
    → Tiles w e a p bs
    → (freed_size size bs % 16 ≡ 0) × (32 ≤ freed_size size bs)
freed_size_bounds size [] r l t = (r, l)
freed_size_bounds size ((n, true) ∷ bs) r l t = (r, l)
freed_size_bounds size ((n, false) ∷ bs) r l (block h m k f t) = (omega arith, omega arith)

-- The blocks that are left have their rows where there were rows before.
pub freed_rows :
    (a size : ℕ) (bs : List (ℕ × Bool)) (r : ℕ)
    → IsRow a ((freed_size size bs, false) ∷ behind bs) r
    → IsRow a ((size, true) ∷ bs) r
freed_rows a size [] r k = k
freed_rows a size ((n, true) ∷ bs) r k = k
freed_rows a size ((n, false) ∷ bs) r (inl k) = inl k
freed_rows a size ((n, false) ∷ bs) r (inr (inl k)) =
    inr (inr (inr (inl (k ∙ ap (λ x. x - 8) (sym (add_assoc a size n))))))
freed_rows a size ((n, false) ∷ bs) r (inr (inr k)) =
    inr (inr (inr (inr (subst (λ x. IsRow x bs r) (sym (add_assoc a size n)) k))))

-- join_next for a block at `a` of `size` bytes, whose successors are `bs`.
abbrev pub IsJoined : (ℕ → Type 0) → ℕ → ℕ → ℕ → List (ℕ × Bool) → Memory → ℕ → Type 0
IsJoined IsLink b a size bs m e =
    ((join_next a m).0 ≡ freed_size size bs)
    × IsSound IsLink (join_next a m).1
    × ((r : ℕ) → r < a + size → IsClear IsLink b r → (join_next a m).1.word r ≡ m.word r)
    × Tiles (join_next a m).1.word e (a + freed_size size bs) false (behind bs)

module _ (IsLink : ℕ → Type 0) (b a size h : ℕ) (m : Memory) (e : ℕ) (at : m.word a ≡ size + h)
    (rows : size % 16 ≡ 0) (large : 32 ≤ size) (low : h < 4) (top : e < 2 ^ 64)
    (sound : IsSound IsLink m) where
  size_lem : block_size (m.word a) ≡ size
  size_lem = rw (at) (omega arith)

  pub join_next-allocated :
      (g : ℕ)
      → m.word (a + size) ≡ g + 3
      → g % 4 ≡ 0
      → join_next a m ≡ (size, poke (a + size) (g + 1) m)
  unfolding join_next
  join_next-allocated g next four =
      let odd : this_allocated (g + 3) ≡ 1 = omega arith in
      let less : g + 3 - prev_allocated (g + 3) ≡ g + 1 = omega arith in
      rw (size_lem, next, odd, less)

  pub join_next-free :
      (g : ℕ)
      → m.word (a + size) ≡ g + 2
      → g % 16 ≡ 0
      → size + g < 2 ^ 64
      → join_next a m ≡ (size + g, unlink_block (a + size) m)
  unfolding join_next
  join_next-free g next four fits =
      let even : this_allocated (g + 2) ≡ 0 = omega arith in
      let sum : (size + block_size (g + 2)) % 2 ^ 64 ≡ size + g = omega arith in
      rw (size_lem, next, even, sum)

  pub join_next-Tiles :
      (bs : List (ℕ × Bool))
      → ((r : ℕ) → IsRow (a + size) bs r → IsClear IsLink b r)
      → ((x : ℕ) → IsFree (a + size) bs x → IsLink x)
      → Tiles m.word e (a + size) true bs
      → IsJoined IsLink b a size bs m e
  join_next-Tiles [] clear linked (epilogue end last) =
      rw (join_next-allocated 0 (last ∙ omega arith) (omega arith)) (
        refl,
        poke_row IsLink b m (a + size) 1 (clear (a + size) refl) sound,
        λ r less k. update_other m.word (a + size) r 1 (omega arith),
        epilogue end (update_self m.word (a + size) 1),
      )
  join_next-Tiles ((n, true) ∷ bs) clear linked (block h' m' l' f' t) =
      rw (join_next-allocated n (h' ∙ omega arith) (omega arith)) (
        refl,
        poke_row IsLink b m (a + size) (n + 1) (clear (a + size) (inl refl)) sound,
        λ r less k. update_other m.word (a + size) r (n + 1) (omega arith),
        block (update_self m.word (a + size) (n + 1) ∙ omega arith) m' l' (λ k. cc)
            (Tiles-frame m.word (update m.word (a + size) (n + 1)) e (a + size + n) true bs
              (λ r k. update_other m.word (a + size) r (n + 1) (omega (arith, IsRow-le t k))) t),
      )
  join_next-Tiles ((n, false) ∷ bs) clear linked (block h' m' l' f' t) =
      let is_link : IsLink (a + size) = linked (a + size) (inl refl) in
      rw (join_next-free n (h' ∙ omega arith) (omega arith) (omega (arith, Tiles-le t))) (
        refl,
        unlink_block-IsSound IsLink b (a + size) m is_link sound,
        λ r less k. unlink_clear IsLink b (a + size) r m is_link sound k,
        subst (λ x. Tiles (unlink_block (a + size) m).word e x false bs) (add_assoc a size n)
            (Tiles-frame m.word (unlink_block (a + size) m).word e (a + size + n) false bs
              (λ r k. unlink_clear IsLink b (a + size) r m is_link sound (clear r (inr (inr k))))
              t),
      )

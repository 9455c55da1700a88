-- ===== src/Alloc/Among.antt =====
-- sf_add_to_free_list of hw3 on a block anywhere in the heap.
use cse320_spring.Base.{
  ℕ, ◌+◌, ◌-◌, ◌^◌, ◌≤◌, ◌<◌, ◌≡◌, ◌≢◌, inl, inr, refl, sym, ◌∙◌, subst, Bool, true, false, List,
  [], ◌∷◌, ◌++◌, arith,
}
use cse320_spring.Alloc.Memory.{Memory}
use cse320_spring.Alloc.Blocks.{header, Tiles, block, Tiles-frame, IsRow, IsFree, IsRow-le}
use cse320_spring.Alloc.Links.{IsClear, IsSound}
use cse320_spring.Alloc.Coalesce.{freed_first}
use cse320_spring.Alloc.Freed.{IsReleased, IsReleased-allocated, IsReleased-free}

-- The address behind some blocks.
abbrev pub address : ℕ → List (ℕ × Bool) → ℕ
address a [] = a
address a ((n, al) ∷ pre) = address (a + n) pre

pub address_le : (a : ℕ) (pre : List (ℕ × Bool)) → a ≤ address a pre
address_le a [] = omega arith
address_le a ((n, al) ∷ pre) = omega (arith, address_le (a + n) pre)

-- The blocks with one more, of `size` bytes, that becomes free behind those of `pre`. It is merged
-- with the one before it and with the one after it if they are free.
abbrev pub freed_last : ℕ × Bool → ℕ → List (ℕ × Bool) → List (ℕ × Bool)
freed_last (n, false) size bs = freed_first (n + size) bs
freed_last (n, true) size bs = (n, true) ∷ freed_first size bs

unfoldable pub freed : List (ℕ × Bool) → ℕ → List (ℕ × Bool) → List (ℕ × Bool)
freed [] size bs = freed_first size bs
freed (x ∷ []) size bs = freed_last x size bs
freed (x ∷ next ∷ pre) size bs = x ∷ freed (next ∷ pre) size bs

pub IsFree-tail :
    (a n x : ℕ) (al : Bool) (bs : List (ℕ × Bool)) → IsFree (a + n) bs x → IsFree a ((n, al) ∷ bs) x
IsFree-tail a n x true bs k = k
IsFree-tail a n x false bs k = inr k

-- The memory is that of the blocks, but for the bit of the block at `b` which tells whether it is
-- allocated.
abbrev pub IsButOwn : ℕ → Bool → (ℕ → ℕ) → Memory → ℕ → Type 0
IsButOwn size own w m b =
    ((r : ℕ) → r ≢ b → m.word r ≡ w r)
    × ((p : Bool) → w b ≡ header size true p → m.word b ≡ header size own p)

module _ (IsLink : ℕ → Type 0) (size : ℕ) (own : Bool) (w : ℕ → ℕ) (m : Memory) (e : ℕ)
    (top : e + 8 < 2 ^ 64) (sound : IsSound IsLink m) where
  pub frame_behind :
      (b : ℕ) (bs : List (ℕ × Bool))
      → 32 ≤ size
      → IsButOwn size own w m b
      → Tiles w e (b + size) true bs
      → Tiles m.word e (b + size) true bs
  frame_behind b bs large like t =
      Tiles-frame w m.word e (b + size) true bs (λ r k. like.0 r (omega (arith, IsRow-le t k))) t

  -- A block in front of the part that changes.
  behind_block :
      (b a n : ℕ) (p al : Bool) (before after : List (ℕ × Bool))
      → a + n ≤ b
      → IsButOwn size own w m b
      → Tiles w e a p ((n, al) ∷ before)
      → ((r : ℕ) → IsRow a ((n, al) ∷ before) r → IsClear IsLink b r)
      → IsReleased IsLink b e (a + n) al after m
      → IsReleased IsLink b e a p ((n, al) ∷ after) m
  behind_block b a n p al before after far like (block at rows large footer t) clear (same, tiles) =
      (
        λ r less c. same r (omega arith) c,
        block (same a (omega arith) (clear a (inl refl)) ∙ like.0 a (omega arith) ∙ at) rows large
            (λ k.
              same (a + n - 8) (omega arith) (clear (a + n - 8) (inr (inl refl)))
              ∙ like.0 (a + n - 8) (omega arith)
              ∙ footer k)
            tiles,
      )

  -- The block before is the first one.
  behind_last :
      (a n : ℕ) (p al : Bool) (bs : List (ℕ × Bool))
      → IsButOwn size own w m (a + n)
      → ((r : ℕ) → IsRow a ((n, al) ∷ (size, true) ∷ bs) r → IsClear IsLink (a + n) r)
      → ((x : ℕ) → IsFree a ((n, al) ∷ (size, true) ∷ bs) x → IsLink x)
      → Tiles w e a p ((n, al) ∷ (size, true) ∷ bs)
      → IsReleased IsLink (a + n) e a p (freed_last (n, al) size bs) m
  behind_last a n p false bs like clear linked
        (block at' rows' large' footer' (block at rows large footer t)) =
      IsReleased-free IsLink (a + n) size m e rows large top bs (λ x k. linked x (inr k)) sound
        (frame_behind (a + n) bs large like t) a n p own refl rows' large' (like.1 false at)
        (like.0 a (omega arith) ∙ at') (like.0 (a + n - 8) (omega arith) ∙ footer' refl)
        (linked a (inl refl)) clear
  behind_last a n p true bs like clear linked
        (block at' rows' large' footer' (block at rows large footer t)) =
      behind_block (a + n) a n p true ((size, true) ∷ bs) (freed_first size bs) (omega arith) like
        (block at' rows' large' footer' (block at rows large footer t)) clear
        (IsReleased-allocated IsLink (a + n) size m e rows large top bs linked sound
          (frame_behind (a + n) bs large like t) own (like.1 true at)
          (λ r k. clear r (inr (inr k))))

  pub sf_add_to_free_list-Tiles :
      (a : ℕ) (pre bs : List (ℕ × Bool)) (p : Bool)
      → (pre ≡ [] → p ≡ true)
      → IsButOwn size own w m (address a pre)
      → ((r : ℕ) → IsRow a (pre ++ (size, true) ∷ bs) r → IsClear IsLink (address a pre) r)
      → ((x : ℕ) → IsFree a (pre ++ (size, true) ∷ bs) x → IsLink x)
      → Tiles w e a p (pre ++ (size, true) ∷ bs)
      → IsReleased IsLink (address a pre) e a p (freed pre size bs) m
  unfolding freed
  sf_add_to_free_list-Tiles a [] bs p first like clear linked (block at rows large footer t) =
      let at' : w a ≡ header size true true =
        subst (λ q. w a ≡ header size true q) (first refl) at in
      subst (λ q. IsReleased IsLink a e a q (freed_first size bs) m) (sym (first refl))
        (IsReleased-allocated IsLink a size m e rows large top bs linked sound
          (frame_behind a bs large like t) own (like.1 true at') clear)
  sf_add_to_free_list-Tiles a ((n, al) ∷ []) bs p first like clear linked t =
      behind_last a n p al bs like clear linked t
  sf_add_to_free_list-Tiles a ((n, al) ∷ next ∷ pre) bs p first like clear linked
        (block at rows large footer t) =
      behind_block (address (a + n) (next ∷ pre)) a n p al ((next ∷ pre) ++ (size, true) ∷ bs)
        (freed (next ∷ pre) size bs) (address_le (a + n) (next ∷ pre)) like
        (block at rows large footer t) clear
        (sf_add_to_free_list-Tiles (a + n) (next ∷ pre) bs al (λ k. cc) like
          (λ r k. clear r (inr (inr k)))
          (λ x k. linked x (IsFree-tail a n x al ((next ∷ pre) ++ (size, true) ∷ bs) k)) t)

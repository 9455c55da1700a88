-- ===== src/Alloc/Release.antt =====
-- sf_add_to_free_list of hw3: a block that becomes free, the block before it and the free lists.
use cse320_spring.Base.{
  ℕ, ◌+◌, ◌-◌, ◌*◌, ◌%◌, ◌^◌, ◌≤◌, ◌<◌, ◌≡◌, ◌⊎◌, ap, ◌∙◌, Bool, true, false, List, ◌∷◌, arith,
}
use cse320_spring.Base.Maps.{update, update_self, update_other}
use cse320_spring.Alloc.Memory.{
  Memory, block_size, prev_allocated, poke, put_footer, unlink_block, join_prev, file_block,
}
use cse320_spring.Alloc.Blocks.{flag, header, Tiles, block, Tiles-frame, IsRow, IsRow-le}
use cse320_spring.Alloc.Links.{IsClear, IsSound, poke_row, unlink_clear, file_block_clear}

-- The header and the footer of a free block of `n` bytes at `a` are written.
abbrev rewritten : (ℕ → ℕ) → ℕ → ℕ → Bool → ℕ → ℕ
rewritten w a n q = update (update w a (header n false q)) (a + n - 8) (header n false q)

rewritten-Tiles :
    (w : ℕ → ℕ) (e a n : ℕ) (q : Bool) (bs : List (ℕ × Bool))
    → n % 16 ≡ 0
    → 32 ≤ n
    → Tiles w e (a + n) false bs
    → Tiles (rewritten w a n q) e a q ((n, false) ∷ bs)
rewritten-Tiles w e a n q bs rows large t =
    let h = header n false q in
    let w₁ = update w a h in
    block (update_other w₁ (a + n - 8) a h (omega arith) ∙ update_self w a h) rows large
      (λ k. update_self w₁ (a + n - 8) h)
      (Tiles-frame w (rewritten w a n q) e (a + n) false bs
        (λ r k.
          let le : a + n ≤ r = IsRow-le t k in
          update_other w₁ (a + n - 8) r h (omega arith) ∙ update_other w a r h (omega arith))
        t)

pub put_footer_eq :
    (a h n : ℕ) (m : Memory)
    → m.word a ≡ h
    → block_size h ≡ n
    → put_footer a m ≡ poke (a + n - 8) h m
put_footer_eq a h n m at whole = rw (at, whole)

block_size-header : (n : ℕ) (q : Bool) → n % 16 ≡ 0 → block_size (header n false q) ≡ n
block_size-header n true rows = omega arith
block_size-header n false rows = omega arith

pub prev_bit :
    (size : ℕ) (al p : Bool) → size % 16 ≡ 0 → prev_allocated (header size al p) ≡ 2 * flag p
prev_bit size true true rows = omega arith
prev_bit size true false rows = omega arith
prev_bit size false true rows = omega arith
prev_bit size false false rows = omega arith

-- The two ways of the second part.
pub join_prev-allocated :
    (b size n : ℕ) (al : Bool) (m : Memory)
    → m.word b ≡ header size al true
    → size % 16 ≡ 0
    → n % 16 ≡ 0
    → join_prev b n m ≡ (b, poke (b + n - 8) (header n false true) (poke b (header n false true) m))
unfolding join_prev
join_prev-allocated b size n al m at rows rows' =
    let bit : prev_allocated (m.word b) ≡ 2 = rw (at) (prev_bit size al true rows) in
    let sum : n + 2 ≡ header n false true = omega arith in
    rw (bit, sum)
      (ap (λ x. (b, x))
        (put_footer_eq b (header n false true) n (poke b (header n false true) m)
          (update_self m.word b (header n false true)) (block_size-header n true rows')))

merged_header :
    (ps n : ℕ) (q : Bool)
    → ps + n + 2 < 2 ^ 64
    → (header ps false q + n) % 2 ^ 64 ≡ header (ps + n) false q
merged_header ps n true top = omega arith
merged_header ps n false top = omega arith

module _ (IsLink : ℕ → Type 0) (own : ℕ) where
  pub join_prev-free :
      (b a ps size n : ℕ) (q al : Bool) (m : Memory)
      → b ≡ a + ps
      → m.word b ≡ header size al false
      → m.word a ≡ header ps false q
      → m.word (b - 8) ≡ header ps false q
      → size % 16 ≡ 0
      → ps % 16 ≡ 0
      → n % 16 ≡ 0
      → ps + n + 2 < 2 ^ 64
      → IsLink a
      → IsClear IsLink own a
      → IsSound IsLink m
      → join_prev b n m ≡ (
        a,
        poke
            (a + (ps + n) - 8)
            (header (ps + n) false q)
            (unlink_block a (poke a (header (ps + n) false q) m)),
      )
  unfolding join_prev
  join_prev-free b a ps size n q al m place at before footer rows rows' rows'' top linked clear
        sound =
      let bit : prev_allocated (header size al false) ≡ 0 = prev_bit size al false rows in
      let h = header (ps + n) false q in
      let m₁ = poke a h m in
      let place' : b - ps ≡ a = omega arith in
      let multiple : (ps + n) % 16 ≡ 0 = omega arith in
      rw (at, bit, footer, block_size-header ps q rows', place', before, merged_header ps n q top)
        (ap (λ x. (a, x))
          (put_footer_eq a h (ps + n) (unlink_block a m₁)
            (unlink_clear IsLink own a a m₁ linked (poke_row IsLink own m a h clear sound) clear
              ∙ update_self m.word a h)
            (block_size-header (ps + n) q multiple)))

  -- What is left to show of the block that is free in the end: it is `(n, false)` at `a`.
  pub filed :
      (e a n : ℕ) (q : Bool) (bs : List (ℕ × Bool)) (m m₂ : Memory)
      → n % 16 ≡ 0
      → 32 ≤ n
      → Tiles m.word e (a + n) false bs
      → ((r : ℕ) → IsClear IsLink own r → m₂.word r ≡ rewritten m.word a n q r)
      → IsSound IsLink m₂
      → (a ≡ own) ⊎ IsLink a
      → ((r : ℕ) → IsRow a ((n, false) ∷ bs) r → IsClear IsLink own r)
      → ((r : ℕ) → r < a → IsClear IsLink own r → (file_block a m₂).word r ≡ m.word r)
        × Tiles (file_block a m₂).word e a q ((n, false) ∷ bs)
  filed e a n q bs m m₂ rows large t same sound linked clear =
      let h = header n false q in
      (
        λ r less k.
            file_block_clear IsLink own a r m₂ linked sound k
            ∙ same r k
            ∙ update_other (update m.word a h) (a + n - 8) r h (omega arith)
            ∙ update_other m.word a r h (omega arith),
        Tiles-frame (rewritten m.word a n q) (file_block a m₂).word e a q ((n, false) ∷ bs)
            (λ r k.
              file_block_clear IsLink own a r m₂ linked sound (clear r k) ∙ same r (clear r k))
            (rewritten-Tiles m.word e a n q bs rows large t),
      )

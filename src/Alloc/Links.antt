-- ===== src/Alloc/Links.antt =====
-- The free lists of hw3, as far as the headers and the footers depend on them: which rows the
-- assignments to the link fields change.
use cse320_spring.Base.{
  ℕ, zero, suc, ◌+◌, ◌-◌, ◌≤◌, ◌≡◌, ◌≢◌, ◌⊎◌, inl, inr, sym, ap, ◌∙◌, subst, ◌==◌, arith,
  Bool-cases,
}
use cse320_spring.Base.Maps.{update, update_other}
use cse320_spring.Alloc.Memory.{
  Memory, list_head, poke, next_of, prev_of, unlink_block, link_block, class_from, file_block,
  block_size,
}

-- `IsLink` holds for what the free lists link: their heads and the free blocks. A row is clear when
-- it is no link field of those, nor of the block at `b`.
abbrev pub IsClear : (ℕ → Type 0) → ℕ → ℕ → Type 0
IsClear IsLink b r = (r ≢ b + 8) × (r ≢ b + 16) × ((x : ℕ) → IsLink x → (r ≢ x + 8) × (r ≢ x + 16))

-- The links lead to heads and free blocks only.
abbrev pub IsClosed : (ℕ → Type 0) → (ℕ → ℕ) → Type 0
IsClosed IsLink w = (x : ℕ) → IsLink x → IsLink (w (x + 8)) × IsLink (w (x + 16))

-- ... and the heads are among them.
abbrev pub IsSound : (ℕ → Type 0) → Memory → Type 0
IsSound IsLink m = IsClosed IsLink m.word × ((k : ℕ) → k ≤ 7 → IsLink (list_head k m))

module _ (IsLink : ℕ → Type 0) (b : ℕ) where
  update-IsLink : (w : ℕ → ℕ) (r v j : ℕ) → IsLink v → IsLink (w j) → IsLink (update w r v j)
  update-IsLink w r v j new old = elim (Bool-cases (j == r)) [
    | inl e ↦ rw (e) new
    | inr e ↦ rw (e) old
  ]

  pub poke_link : (m : Memory) (r v : ℕ) → IsLink v → IsSound IsLink m → IsSound IsLink (poke r v m)
  poke_link m r v new (closed, heads) = (
    λ x k. (
      update-IsLink m.word r v (x + 8) new (closed x k).0,
      update-IsLink m.word r v (x + 16) new (closed x k).1,
    ),
    heads,
  )

  pub poke_row :
      (m : Memory) (r v : ℕ) → IsClear IsLink b r → IsSound IsLink m → IsSound IsLink (poke r v m)
  poke_row m r v clear (closed, heads) = (
    λ x k. (
      subst IsLink (sym (update_other m.word r (x + 8) v (λ same. (clear.2 x k).0 (sym same))))
          (closed x k).0,
      subst IsLink (sym (update_other m.word r (x + 16) v (λ same. (clear.2 x k).1 (sym same))))
          (closed x k).1,
    ),
    heads,
  )

  pub unlink_block-IsSound :
      (x : ℕ) (m : Memory) → IsLink x → IsSound IsLink m → IsSound IsLink (unlink_block x m)
  unfolding unlink_block
  unlink_block-IsSound x m k sound =
      let m₁ = poke (prev_of x m + 8) (next_of x m) m in
      let s₁ = poke_link m (prev_of x m + 8) (next_of x m) (sound.0 x k).0 sound in
      poke_link m₁ (next_of x m₁ + 16) (prev_of x m₁) (s₁.0 x k).1 s₁

  pub unlink_clear :
      (x r : ℕ) (m : Memory)
      → IsLink x
      → IsSound IsLink m
      → IsClear IsLink b r
      → (unlink_block x m).word r ≡ m.word r
  unfolding unlink_block
  unlink_clear x r m k sound clear =
      let m₁ = poke (prev_of x m + 8) (next_of x m) m in
      let s₁ = poke_link m (prev_of x m + 8) (next_of x m) (sound.0 x k).0 sound in
      update_other m₁.word (next_of x m₁ + 16) r (prev_of x m₁)
        (clear.2 (next_of x m₁) (s₁.0 x k).0).1
      ∙ update_other m.word (prev_of x m + 8) r (next_of x m)
          (clear.2 (prev_of x m) (sound.0 x k).1).0

  -- The new block is `b`, or is linked already.
  pub link_clear :
      (x head r : ℕ) (m : Memory)
      → (x ≡ b) ⊎ IsLink x
      → IsLink head
      → IsSound IsLink m
      → IsClear IsLink b r
      → (link_block x head m).word r ≡ m.word r
  unfolding link_block
  link_clear x head r m k kh sound clear =
      let m₁ = poke (x + 8) (next_of head m) m in
      let s₁ = poke_link m (x + 8) (next_of head m) (sound.0 head kh).0 sound in
      let m₂ = poke (x + 16) head m₁ in
      let s₂ = poke_link m₁ (x + 16) head kh s₁ in
      let m₃ = poke (next_of head m₂ + 16) x m₂ in
      let own : (r ≢ x + 8) × (r ≢ x + 16) = elim k [
        | inl same ↦
            ((λ e. clear.0 (e ∙ ap (λ y. y + 8) same)), (λ e. clear.1 (e ∙ ap (λ y. y + 16) same)))
        | inr linked ↦ clear.2 x linked
      ] in
      update_other m₃.word (head + 8) r x (clear.2 head kh).0
      ∙ update_other m₂.word (next_of head m₂ + 16) r x
          (clear.2 (next_of head m₂) (s₂.0 head kh).0).1
      ∙ update_other m₁.word (x + 16) r head own.1
      ∙ update_other m.word (x + 8) r (next_of head m) own.0

  pub class_from_le :
      (rounds class size : ℕ) → class + rounds ≤ 7 → class_from rounds class size ≤ 7
  unfolding class_from
  class_from_le zero class size h = omega arith
  class_from_le (suc rounds) class size h = ground (arith, class_from_le rounds (suc class) size)

  pub file_block_clear :
      (x r : ℕ) (m : Memory)
      → (x ≡ b) ⊎ IsLink x
      → IsSound IsLink m
      → IsClear IsLink b r
      → (file_block x m).word r ≡ m.word r
  unfolding file_block
  file_block_clear x r m k sound clear =
      let size = block_size (m.word x) in
      elim (Bool-cases (x + size == m.stop - 8)) [
        | inl e ↦ rw (e) (link_clear x (list_head 7 m) r m k (sound.1 7 (omega arith)) sound clear)
        | inr e ↦ rw (e) (
            link_clear x (list_head (class_from 7 0 size) m) r m k
              (sound.1 (class_from 7 0 size) (class_from_le 7 0 size (omega arith))) sound clear)
      ]

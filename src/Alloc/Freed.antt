-- ===== src/Alloc/Freed.antt =====
-- sf_add_to_free_list of hw3 as a whole, on a block among others.
use native.Mathlib.Nat.{add_assoc}
use cse320_spring.Base.{
  ℕ, ◌+◌, ◌-◌, ◌*◌, ◌%◌, ◌^◌, ◌≤◌, ◌<◌, ◌≡◌, inl, inr, refl, sym, ap, ◌∙◌, subst, Bool, true, false,
  List, ◌∷◌, ◌==◌, if◌then◌else◌, arith,
}
use cse320_spring.Base.Maps.{update}
use cse320_spring.Alloc.Memory.{Memory, poke, unlink_block, join_next, sf_add_to_free_list}
use cse320_spring.Alloc.Blocks.{flag, header, Tiles, Tiles-le, IsRow, IsFree}
use cse320_spring.Alloc.Links.{IsClear, IsSound, poke_row, unlink_block-IsSound, unlink_clear}
use cse320_spring.Alloc.Coalesce.{
  freed_first, freed_size, behind, freed_first-eq, freed_size_add, freed_size_bounds, freed_rows,
  IsJoined, join_next-Tiles,
}
use cse320_spring.Alloc.Release.{join_prev-allocated, join_prev-free, filed}

-- The blocks from `a` on are `bs` after the call, and what stands before is as it was.
abbrev pub IsReleased : (ℕ → Type 0) → ℕ → ℕ → ℕ → Bool → List (ℕ × Bool) → Memory → Type 0
IsReleased IsLink b e a q bs m =
    ((r : ℕ) → r < a → IsClear IsLink b r → (sf_add_to_free_list b m).word r ≡ m.word r)
    × Tiles (sf_add_to_free_list b m).word e a q bs

update-ap : (f g : ℕ → ℕ) (k v r : ℕ) → f r ≡ g r → update f k v r ≡ update g k v r
update-ap f g k v r same = ap (λ z. if r == k then v else z) same

pub merged_rows :
    (a ps size : ℕ) (bs : List (ℕ × Bool)) (r : ℕ)
    → 8 ≤ size
    → IsRow a ((ps + size, true) ∷ bs) r
    → IsRow a ((ps, false) ∷ (size, true) ∷ bs) r
merged_rows a ps size bs r large (inl k) = inl k
merged_rows a ps size bs r large (inr (inl k)) = inr (inr (inr (inl (omega arith))))
merged_rows a ps size bs r large (inr (inr k)) =
    inr (inr (inr (inr (subst (λ x. IsRow x bs r) (sym (add_assoc a ps size)) k))))

pub assoc : (size : ℕ) (al p : Bool) → header size al p ≡ size + (flag al + 2 * flag p)
assoc size al p = add_assoc size (flag al) (2 * flag p)

pub low_bits : (al p : Bool) → flag al + 2 * flag p < 4
low_bits true true = omega arith
low_bits true false = omega arith
low_bits false true = omega arith
low_bits false false = omega arith

module _ (IsLink : ℕ → Type 0) (b size : ℕ) (m : Memory) (e : ℕ) (rows : size % 16 ≡ 0)
    (large : 32 ≤ size) (top : e + 8 < 2 ^ 64) (bs : List (ℕ × Bool))
    (linked : (x : ℕ) → IsFree (b + size) bs x → IsLink x) (sound : IsSound IsLink m)
    (tiles : Tiles m.word e (b + size) true bs) where
  pub IsReleased-allocated :
      (al : Bool)
      → m.word b ≡ header size al true
      → ((r : ℕ) → IsRow b ((size, true) ∷ bs) r → IsClear IsLink b r)
      → IsReleased IsLink b e b true (freed_first size bs) m
  unfolding sf_add_to_free_list
  IsReleased-allocated al at clear =
      let j : IsJoined IsLink b b size bs m e =
        join_next-Tiles IsLink b b size (flag al + 2) m e (at ∙ assoc size al true) rows large
          (low_bits al true) (omega arith) sound bs (λ r k. clear r (inr (inr k))) linked tiles in
      let n = freed_size size bs in
      let m₁ = (join_next b m).1 in
      let h = header n false true in
      let m₂ = poke (b + n - 8) h (poke b h m₁) in
      let k = freed_size_bounds size bs rows large tiles in
      let clear' : (r : ℕ) → IsRow b ((n, false) ∷ behind bs) r → IsClear IsLink b r =
        λ r k. clear r (freed_rows b size bs r k) in
      let at₁ : m₁.word b ≡ header size al true = j.2 b (omega arith) (clear b (inl refl)) ∙ at in
      let f =
        filed IsLink b e b n true (behind bs) m₁ m₂ k.0 k.1 j.3 (λ r k. refl)
          (poke_row IsLink b (poke b h m₁) (b + n - 8) h (clear' (b + n - 8) (inr (inl refl)))
            (poke_row IsLink b m₁ b h (clear' b (inl refl)) j.1))
          (inl refl) clear' in
      rw (freed_first-eq size bs, j.0, join_prev-allocated b size n al m₁ at₁ rows k.0)
        (λ r less c. f.0 r less c ∙ j.2 r (omega arith) c, f.1)

  pub IsReleased-free :
      (a ps : ℕ) (q al : Bool)
      → b ≡ a + ps
      → ps % 16 ≡ 0
      → 32 ≤ ps
      → m.word b ≡ header size al false
      → m.word a ≡ header ps false q
      → m.word (a + ps - 8) ≡ header ps false q
      → IsLink a
      → ((r : ℕ) → IsRow a ((ps, false) ∷ (size, true) ∷ bs) r → IsClear IsLink b r)
      → IsReleased IsLink b e a q (freed_first (ps + size) bs) m
  unfolding sf_add_to_free_list
  IsReleased-free a ps q al place rows' large' at before footer is_link clear =
      let row_b : IsClear IsLink b b = clear b (inr (inr (inl place))) in
      let row_a : IsClear IsLink b a = clear a (inl refl) in
      let j : IsJoined IsLink b b size bs m e =
        join_next-Tiles IsLink b b size (flag al + 0) m e (at ∙ assoc size al false) rows large
          (low_bits al false) (omega arith) sound bs
          (λ r k. clear r (inr (inr (inr (inr (subst (λ x. IsRow (x + size) bs r) place k))))))
          linked tiles in
      let n = freed_size size bs in
      let m₁ = (join_next b m).1 in
      let h = header (ps + n) false q in
      let x = a + (ps + n) - 8 in
      let m₂ = unlink_block a (poke a h m₁) in
      let k = freed_size_bounds size bs rows large tiles in
      let fits : b + n ≤ e = Tiles-le j.3 in
      let clear' : (r : ℕ) → IsRow a ((ps + n, false) ∷ behind bs) r → IsClear IsLink b r = λ r k.
        clear r (
          merged_rows a ps size bs r (omega arith) (
            freed_rows a (ps + size) bs r (
              subst (λ y. IsRow a ((y, false) ∷ behind bs) r) (sym (freed_size_add ps size bs))
                k))) in
      let footer₁ : m₁.word (b - 8) ≡ header ps false q =
        j.2 (b - 8) (omega arith) (
          subst (IsClear IsLink b) (ap (λ y. y - 8) (sym place))
            (clear (a + ps - 8) (inr (inl refl))))
        ∙ ap (λ y. m.word (y - 8)) place
        ∙ footer in
      let sound₁ = poke_row IsLink b m₁ a h row_a j.1 in
      let f =
        filed IsLink b e a (ps + n) q (behind bs) m₁ (poke x h m₂) (omega (arith, k))
          (omega (arith, k)) (subst (λ y. Tiles m₁.word e y false (behind bs)) (omega arith) j.3)
          (λ r c.
            update-ap m₂.word (poke a h m₁).word x h r
              (unlink_clear IsLink b a r (poke a h m₁) is_link sound₁ c))
          (poke_row IsLink b m₂ x h (clear' x (inr (inl refl)))
            (unlink_block-IsSound IsLink b a (poke a h m₁) is_link sound₁))
          (inr is_link) clear' in
      rw
        (
          freed_first-eq (ps + size) bs,
          freed_size_add ps size bs,
          j.0,
          join_prev-free IsLink b b a ps size n q al m₁ place (j.2 b (omega arith) row_b ∙ at)
              (j.2 a (omega arith) row_a ∙ before) footer₁ rows rows' k.0 (omega (arith, fits))
              is_link row_a j.1,
        )
        (λ r less c. f.0 r less c ∙ j.2 r (omega arith) c, f.1)

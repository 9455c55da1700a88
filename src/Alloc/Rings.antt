-- ===== src/Alloc/Rings.antt =====
-- sf_add_to_free_list of hw3 on the free lists: what leaves them, and what is put in.
use cse320_spring.Base.{
  ℕ, ◌+◌, ◌-◌, ◌*◌, ◌%◌, ◌^◌, ◌≤◌, ◌<◌, ◌≡◌, ◌≢◌, inl, inr, refl, sym, ap, ◌∙◌, subst, Bool, true,
  false, List, [], ◌∷◌, ◌==◌, if◌then◌else◌, Bool-cases, arith,
}
use cse320_spring.Base.Maps.{update, update_self, update_other}
use cse320_spring.Alloc.Memory.{
  Memory, list_head, class_from, block_size, poke, unlink_block, join_next, file_block,
  sf_add_to_free_list,
}
use cse320_spring.Alloc.Blocks.{flag, header, Tiles, epilogue, block, Tiles-le, IsRow, IsFree}
use cse320_spring.Alloc.Links.{IsClear, IsSound, class_from_le, poke_row, unlink_clear}
use cse320_spring.Alloc.Coalesce.{
  freed_size, behind, freed_size_add, freed_size_bounds, freed_rows, IsJoined, join_next-Tiles,
  join_next-allocated, join_next-free,
}
use cse320_spring.Alloc.Release.{join_prev-allocated, join_prev-free}
use cse320_spring.Alloc.Freed.{merged_rows, assoc, low_bits}
use cse320_spring.Alloc.Cycle.{Without, With}
use cse320_spring.Alloc.Ring.{
  IsRing, IsApart, IsRing-frame, unlink_block-IsRing, link_block-IsRing, IsRing-iff,
}

-- A row that is no link field is written.
pub poke-IsRing :
    (IsFiled : ℕ → ℕ → Type 0) (IsLink L : ℕ → Type 0) (b r v : ℕ) (m : Memory)
    → IsClear L b r
    → ((x : ℕ) → IsLink x → L x)
    → IsRing IsFiled IsLink m.word
    → IsRing IsFiled IsLink (poke r v m).word
poke-IsRing IsFiled IsLink L b r v m clear sub ring =
    IsRing-frame IsFiled IsLink m.word (poke r v m).word
      (λ x k. (
        update_other m.word r (x + 8) v (λ e. (clear.2 x (sub x k)).0 (sym e)),
        update_other m.word r (x + 16) v (λ e. (clear.2 x (sub x k)).1 (sym e)),
      ))
      ring

-- The class of a free block: the last one of the heap is the wilderness.
abbrev pub class_of : ℕ → ℕ → ℕ → ℕ
class_of stop size x = if x + size == stop - 8 then 7 else class_from 7 0 size

pub class_of_le : (stop size x : ℕ) → class_of stop size x ≤ 7
class_of_le stop size x = elim (Bool-cases (x + size == stop - 8)) [
  | inl e ↦ rw (e) (omega arith)
  | inr e ↦ rw (e) (class_from_le (λ y. y ≡ x) x 7 0 size (omega arith))
]

class_of_eq :
    (G : ℕ → ℕ → Type 0) (lists lists' stop stop' size size' x : ℕ)
    → lists' ≡ lists
    → stop' ≡ stop
    → size' ≡ size
    → G (lists + 24 * class_of stop size x) x
    → G (lists' + 24 * class_of stop' size' x) x
class_of_eq G lists lists' stop stop' size size' x e e' e'' k =
    subst (λ l. G (l + 24 * class_of stop' size' x) x) (sym e)
      (subst (λ t. G (lists + 24 * class_of t size' x) x) (sym e')
        (subst (λ n. G (lists + 24 * class_of stop n x) x) (sym e'') k))

file_block-IsRing :
    (F G : ℕ → ℕ → Type 0) (IsLink : ℕ → Type 0) (x : ℕ) (m : Memory)
    → IsApart (With IsLink x)
    → ((y : ℕ) → IsLink y → y ≢ x)
    → ((k : ℕ) → k ≤ 7 → IsLink (list_head k m))
    → ((h y : ℕ) → IsLink y → F h y → G h y)
    → G (m.lists + 24 * class_of m.stop (block_size (m.word x)) x) x
    → IsRing F IsLink m.word
    → IsRing G (With IsLink x) (file_block x m).word
unfolding file_block
file_block-IsRing F G IsLink x m apart new heads turn filed ring =
    let class = class_of m.stop (block_size (m.word x)) x in
    link_block-IsRing G IsLink (list_head class m) x apart m
      (heads class (class_of_le m.stop (block_size (m.word x)) x)) filed new
      (IsRing-iff F G IsLink IsLink m.word (λ y k. k) (λ y k. k) turn ring)

block_size-freed : (n : ℕ) (q : Bool) → n % 16 ≡ 0 → block_size (header n false q) ≡ n
block_size-freed n true rows = omega arith
block_size-freed n false rows = omega arith

-- The links, without a free block at `a`.
abbrev pub Left : (ℕ → Type 0) → ℕ → List (ℕ × Bool) → ℕ → Type 0
Left L a [] y = L y
Left L a ((n, true) ∷ bs) y = L y
Left L a ((n, false) ∷ bs) y = Without L a y

Left-IsLink : (L : ℕ → Type 0) (a : ℕ) (bs : List (ℕ × Bool)) (y : ℕ) → Left L a bs y → L y
Left-IsLink L a [] y k = k
Left-IsLink L a ((n, true) ∷ bs) y k = k
Left-IsLink L a ((n, false) ∷ bs) y k = k.0

module _ (L : ℕ → Type 0) (b size h : ℕ) (m : Memory) (e : ℕ) (at : m.word b ≡ size + h)
    (rows : size % 16 ≡ 0) (large : 32 ≤ size) (low : h < 4) (top : e + 8 < 2 ^ 64)
    (sound : IsSound L m) (own : ℕ) (apart : IsApart L) (H : ℕ → ℕ → Type 0)
    (ring : IsRing H L m.word) where
  join_next-IsRing :
      (bs : List (ℕ × Bool))
      → ((r : ℕ) → IsRow (b + size) bs r → IsClear L own r)
      → ((x : ℕ) → IsFree (b + size) bs x → L x)
      → Tiles m.word e (b + size) true bs
      → ((h y : ℕ) → H h y → h ≢ b + size)
      → IsRing H (Left L (b + size) bs) (join_next b m).1.word
        × ((join_next b m).1.lists ≡ m.lists)
        × ((join_next b m).1.stop ≡ m.stop)
  unfolding unlink_block
  join_next-IsRing [] clear linked (epilogue end last) other =
      rw
        (join_next-allocated L own b size h m e at rows large low (omega arith) sound 0
          (last ∙ omega arith) (omega arith))
        (poke-IsRing H L L own (b + size) 1 m (clear (b + size) refl) (λ x k. k) ring, refl, refl)
  join_next-IsRing ((n, true) ∷ bs) clear linked (block h' m' l' f' t) other =
      rw
        (join_next-allocated L own b size h m e at rows large low (omega arith) sound n
          (h' ∙ omega arith) (omega arith))
        (
          poke-IsRing H L L own (b + size) (n + 1) m (clear (b + size) (inl refl)) (λ x k. k) ring,
          refl,
          refl,
        )
  join_next-IsRing ((n, false) ∷ bs) clear linked (block h' m' l' f' t) other =
      rw
        (join_next-free L own b size h m e at rows large low (omega arith) sound n
          (h' ∙ omega arith) (omega arith) (omega (arith, Tiles-le t)))
        (
          unlink_block-IsRing H L apart (b + size) m (linked (b + size) (inl refl)) other ring,
          refl,
          refl,
        )

apart_sub : (K L : ℕ → Type 0) → ((x : ℕ) → K x → L x) → IsApart L → IsApart K
apart_sub K L sub apart x y k k' = apart x y (sub x k) (sub y k')

With-sub : (K L : ℕ → Type 0) (b : ℕ) → ((x : ℕ) → K x → L x) → (x : ℕ) → With K b x → With L b x
With-sub K L b sub x (inl k) = inl (sub x k)
With-sub K L b sub x (inr k) = inr k

module _ (L : ℕ → Type 0) (b size : ℕ) (own : Bool) (m : Memory) (e : ℕ) (rows : size % 16 ≡ 0)
    (large : 32 ≤ size) (top : e + 8 < 2 ^ 64) (bs : List (ℕ × Bool))
    (linked : (x : ℕ) → IsFree (b + size) bs x → L x) (sound : IsSound L m)
    (tiles : Tiles m.word e (b + size) true bs) (apart : IsApart (With L b))
    (new : (y : ℕ) → L y → y ≢ b) (H G : ℕ → ℕ → Type 0) (other : (h y : ℕ) → H h y → h ≢ b + size)
    (ring : IsRing H L m.word) where
  abbrev K : ℕ → Type 0
  K = Left L (b + size) bs

  abbrev n : ℕ
  n = freed_size size bs

  abbrev m₁ : Memory
  m₁ = (join_next b m).1

  pub allocated-IsRing :
      m.word b ≡ header size own true
      → ((r : ℕ) → IsRow b ((size, true) ∷ bs) r → IsClear L b r)
      → ((k : ℕ) → k ≤ 7 → K (list_head k m))
      → ((h y : ℕ) → L y → y ≢ b → H h y → G h y)
      → G (m.lists + 24 * class_of m.stop n b) b
      → IsRing G (With K b) (sf_add_to_free_list b m).word
  unfolding sf_add_to_free_list
  allocated-IsRing at clear heads turn filed =
      let at' : m.word b ≡ size + (flag own + 2) = at ∙ assoc size own true in
      let rest = λ (r : ℕ) (k : IsRow (b + size) bs r). clear r (inr (inr k)) in
      let j : IsJoined L b b size bs m e =
        join_next-Tiles L b b size (flag own + 2) m e at' rows large (low_bits own true)
          (omega arith) sound bs rest linked tiles in
      let r =
        join_next-IsRing L b size (flag own + 2) m e at' rows large (low_bits own true) top sound b
          (apart_sub L (With L b) (λ x k. inl k) apart) H ring bs rest linked tiles other in
      let k = freed_size_bounds size bs rows large tiles in
      let h = header n false true in
      let sub = Left-IsLink L (b + size) bs in
      let w₂ = update m₁.word b h in
      let w₃ = update w₂ (b + n - 8) h in
      let clear' : (r : ℕ) → IsRow b ((n, false) ∷ behind bs) r → IsClear L b r =
        λ r k. clear r (freed_rows b size bs r k) in
      rw
        (
          j.0,
          join_prev-allocated b size n own m₁ (j.2 b (omega arith) (clear b (inl refl)) ∙ at) rows
              k.0,
        )
        (file_block-IsRing H G K b (poke (b + n - 8) h (poke b h m₁))
          (apart_sub (With K b) (With L b) (With-sub K L b sub) apart) (λ y k. new y (sub y k))
          (λ i le. subst (λ x. K (x + 24 * i)) (sym r.1) (heads i le))
          (λ h y k. turn h y (sub y k) (new y (sub y k)))
          (class_of_eq G m.lists m₁.lists m.stop m₁.stop n (block_size (w₃ b)) b r.1 r.2
            (ap block_size
                (update_other w₂ (b + n - 8) b h (omega (arith, k.1)) ∙ update_self m₁.word b h)
              ∙ block_size-freed n true k.0)
            filed)
          (poke-IsRing H K L b (b + n - 8) h (poke b h m₁) (clear' (b + n - 8) (inr (inl refl))) sub
            (poke-IsRing H K L b b h m₁ (clear' b (inl refl)) sub r.0)))

  pub merged-IsRing :
      (a ps : ℕ) (q : Bool)
      → b ≡ a + ps
      → ps % 16 ≡ 0
      → 32 ≤ ps
      → m.word b ≡ header size own false
      → m.word a ≡ header ps false q
      → m.word (a + ps - 8) ≡ header ps false q
      → K a
      → ((r : ℕ) → IsRow a ((ps, false) ∷ (size, true) ∷ bs) r → IsClear L b r)
      → ((k : ℕ) → k ≤ 7 → Without K a (list_head k m))
      → ((h y : ℕ) → H h y → h ≢ a)
      → ((h y : ℕ) → L y → y ≢ a → H h y → G h y)
      → G (m.lists + 24 * class_of m.stop (ps + n) a) a
      → IsRing G (With (Without K a) a) (sf_add_to_free_list b m).word
  unfolding sf_add_to_free_list unlink_block
  merged-IsRing a ps q place rows' large' at before footer here clear heads other' turn filed =
      let at' : m.word b ≡ size + (flag own + 0) = at ∙ assoc size own false in
      let rest : (r : ℕ) → IsRow (b + size) bs r → IsClear L b r =
        λ r k. clear r (inr (inr (inr (inr (subst (λ x. IsRow (x + size) bs r) place k))))) in
      let j : IsJoined L b b size bs m e =
        join_next-Tiles L b b size (flag own + 0) m e at' rows large (low_bits own false)
          (omega arith) sound bs rest linked tiles in
      let r =
        join_next-IsRing L b size (flag own + 0) m e at' rows large (low_bits own false) top sound b
          (apart_sub L (With L b) (λ x k. inl k) apart) H ring bs rest linked tiles other in
      let k = freed_size_bounds size bs rows large tiles in
      let h = header (ps + n) false q in
      let x = a + (ps + n) - 8 in
      let sub = Left-IsLink L (b + size) bs in
      let fits : b + n ≤ e = Tiles-le j.3 in
      let w₃ = update (unlink_block a (poke a h m₁)).word x h in
      let row_a : IsClear L b a = clear a (inl refl) in
      let row_x : IsClear L b x = clear x (
        merged_rows a ps size bs x (omega arith) (
          freed_rows a (ps + size) bs x
            (inr (inl (ap (λ y. a + y - 8) (sym (freed_size_add ps size bs))))))) in
      let footer₁ : m₁.word (b - 8) ≡ header ps false q =
        j.2 (b - 8) (omega arith)
          (subst (IsClear L b) (ap (λ y. y - 8) (sym place)) (clear (a + ps - 8) (inr (inl refl))))
        ∙ ap (λ y. m.word (y - 8)) place
        ∙ footer in
      let apart_K : IsApart L = apart_sub L (With L b) (λ x k. inl k) apart in
      let to_L : (y : ℕ) → With (Without K a) a y → L y =
        λ y k. elim k [ inl k ↦ sub y k.0 | inr same ↦ subst L (sym same) (sub a here) ] in
      rw
        (
          j.0,
          join_prev-free L b b a ps size n q own m₁ place
              (j.2 b (omega arith) (clear b (inr (inr (inl place)))) ∙ at)
              (j.2 a (omega arith) row_a ∙ before) footer₁ rows rows' k.0 (omega (arith, fits))
              (sub a here) row_a j.1,
        )
        (file_block-IsRing H G (Without K a) a (poke x h (unlink_block a (poke a h m₁)))
          (apart_sub (With (Without K a) a) L to_L apart_K) (λ y k. k.1)
          (λ i le. subst (λ x. Without K a (x + 24 * i)) (sym r.1) (heads i le))
          (λ h y k. turn h y (sub y k.0) k.1)
          (class_of_eq G m.lists m₁.lists m.stop m₁.stop (ps + n) (block_size (w₃ a)) a r.1 r.2
            (ap block_size (
                update_other (unlink_block a (poke a h m₁)).word x a h (omega (arith, k.1))
                ∙ unlink_clear L b a a (poke a h m₁) (sub a here) (poke_row L b m₁ a h row_a j.1)
                    row_a
                ∙ update_self m₁.word a h)
              ∙ block_size-freed (ps + n) q (omega (arith, k.0)))
            filed)
          (poke-IsRing H (Without K a) L b x h (unlink_block a (poke a h m₁)) row_x
            (λ y k. sub y k.0)
            (unlink_block-IsRing H K (apart_sub K L sub apart_K) a (poke a h m₁) here other'
              (poke-IsRing H K L b a h m₁ row_a sub r.0))))

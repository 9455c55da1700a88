-- ===== src/Alloc/Ringed.antt =====
-- sf_add_to_free_list of hw3 on the free lists of a heap.
use cse320_spring.Base.{
  ℕ, ◌+◌, ◌-◌, ◌*◌, ◌^◌, ◌≤◌, ◌<◌, ◌≡◌, ◌≢◌, inl, inr, refl, ◌∙◌, subst, Bool, true, false, List,
  [], ◌∷◌, ◌++◌, ◌==◌, Bool-cases, arith,
}
use cse320_spring.Alloc.Memory.{
  Memory, list_head, block_size, prev_allocated, this_allocated, unlink_block, link_block,
  join_next, join_prev, file_block, sf_add_to_free_list,
}
use cse320_spring.Alloc.Blocks.{header, Tiles, block, Tiles-le, IsRow, IsFree}
use cse320_spring.Alloc.Links.{IsClear, IsSound}
use cse320_spring.Alloc.Among.{address, IsFree-tail, IsButOwn, frame_behind}
use cse320_spring.Alloc.Cycle.{With}
use cse320_spring.Alloc.Ring.{IsRing, IsApart}
use cse320_spring.Alloc.Rings.{Left, class_of, allocated-IsRing, merged-IsRing}
use cse320_spring.Alloc.Sizes.{result_at, result_size}
use cse320_spring.Alloc.Lists.{Linked, Left-other}

module _ (L : ℕ → Type 0) (size : ℕ) (own : Bool) (w : ℕ → ℕ) (m : Memory) (e low : ℕ)
    (top : e + 8 < 2 ^ 64) (sound : IsSound L m) (H G : ℕ → ℕ → Type 0) (ring : IsRing H L m.word)
    (outside : (k y : ℕ) → k ≤ 7 → low ≤ y → y ≤ e → list_head k m ≢ y)
    (far : (h z y : ℕ) → H h z → low ≤ y → y ≤ e → h ≢ y) where
  heads :
      (c k : ℕ) (p : Bool) (bs : List (ℕ × Bool))
      → low ≤ c
      → Tiles w e c p bs
      → k ≤ 7
      → Left L c bs (list_head k m)
  heads c k p bs above t le =
      Left-other L c bs (list_head k m) (sound.1 k le) (outside k c le above (Tiles-le t))

  pub sf_add_to_free_list-IsRing :
      (a : ℕ) (pre bs : List (ℕ × Bool)) (p : Bool)
      → low ≤ a
      → (pre ≡ [] → p ≡ true)
      → IsButOwn size own w m (address a pre)
      → ((r : ℕ) → IsRow a (pre ++ (size, true) ∷ bs) r → IsClear L (address a pre) r)
      → ((x : ℕ) → IsFree a (pre ++ (size, true) ∷ bs) x → L x)
      → IsApart (With L (address a pre))
      → ((y : ℕ) → L y → y ≢ address a pre)
      → ((h y : ℕ) → L y → y ≢ result_at a pre → H h y → G h y)
      → G
          (m.lists + 24 * class_of m.stop (result_size pre size bs) (result_at a pre))
          (result_at a pre)
      → Tiles w e a p (pre ++ (size, true) ∷ bs)
      → IsRing G (Linked L a pre size bs) (sf_add_to_free_list (address a pre) m).word
  unfolding Linked result_at result_size
  sf_add_to_free_list-IsRing a [] bs p above first like clear linked apart new turn filed
        (block at rows large footer t) =
      allocated-IsRing L a size own m e rows large top bs linked sound
        (frame_behind L size own w m e top sound a bs large like t) apart new H G
        (λ h z k. far h z (a + size) k (omega arith) (Tiles-le t)) ring
        (like.1 true (subst (λ q. w a ≡ header size true q) (first refl) at)) clear
        (λ k le. heads (a + size) k true bs (omega arith) t le) turn filed
  sf_add_to_free_list-IsRing a ((n, true) ∷ []) bs p above first like clear linked apart new turn
        filed (block at' rows' large' footer' (block at rows large footer t)) =
      allocated-IsRing L (a + n) size own m e rows large top bs linked sound
        (frame_behind L size own w m e top sound (a + n) bs large like t) apart new H G
        (λ h z k. far h z (a + n + size) k (omega arith) (Tiles-le t)) ring (like.1 true at)
        (λ r k. clear r (inr (inr k))) (λ k le. heads (a + n + size) k true bs (omega arith) t le)
        turn filed
  sf_add_to_free_list-IsRing a ((n, false) ∷ []) bs p above first like clear linked apart new turn
        filed (block at' rows' large' footer' (block at rows large footer t)) =
      let fits : a + n + size ≤ e = Tiles-le t in
      merged-IsRing L (a + n) size own m e rows large top bs (λ x k. linked x (inr k)) sound
        (frame_behind L size own w m e top sound (a + n) bs large like t) apart new H G
        (λ h z k. far h z (a + n + size) k (omega arith) fits) ring a n p refl rows' large'
        (like.1 false at) (like.0 a (omega arith) ∙ at')
        (like.0 (a + n - 8) (omega arith) ∙ footer' refl)
        (Left-other L (a + n + size) bs a (linked a (inl refl)) (omega arith)) clear
        (λ k le.
          (heads (a + n + size) k true bs (omega arith) t le, outside k a le above (omega arith)))
        (λ h z k. far h z a k above (omega arith)) turn filed
  sf_add_to_free_list-IsRing a ((n, al) ∷ next ∷ pre) bs p above first like clear linked apart new
        turn filed (block at rows large footer t) =
      sf_add_to_free_list-IsRing (a + n) (next ∷ pre) bs al (omega arith) (λ k. cc) like
        (λ r k. clear r (inr (inr k)))
        (λ x k. linked x (IsFree-tail a n x al ((next ∷ pre) ++ (size, true) ∷ bs) k)) apart new
        turn filed t

-- The heap stays where it is.
abbrev pub IsSamePlace : Memory → Memory → Type 0
IsSamePlace m m' = (m'.start ≡ m.start) × (m'.stop ≡ m.stop) × (m'.lists ≡ m.lists)

join_next-IsSamePlace : (b : ℕ) (m : Memory) → IsSamePlace m (join_next b m).1
unfolding join_next unlink_block
join_next-IsSamePlace b m =
    elim (Bool-cases (this_allocated (m.word (b + block_size (m.word b))) == 0)) [
      | inl e ↦ rw (e) (refl, refl, refl)
      | inr e ↦ rw (e) (refl, refl, refl)
    ]

join_prev-IsSamePlace : (b n : ℕ) (m : Memory) → IsSamePlace m (join_prev b n m).1
unfolding join_prev unlink_block
join_prev-IsSamePlace b n m = elim (Bool-cases (prev_allocated (m.word b) == 0)) [
  | inl e ↦ rw (e) (refl, refl, refl)
  | inr e ↦ rw (e) (refl, refl, refl)
]

pub sf_add_to_free_list-IsSamePlace : (b : ℕ) (m : Memory) → IsSamePlace m (sf_add_to_free_list b m)
unfolding sf_add_to_free_list file_block link_block
sf_add_to_free_list-IsSamePlace b m =
    let j = join_next b m in
    let k = join_next-IsSamePlace b m in
    let l = join_prev-IsSamePlace b j.0 j.1 in (l.0 ∙ k.0, l.1 ∙ k.1, l.2 ∙ k.2)

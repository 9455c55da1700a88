-- ===== src/Alloc/Ring.antt =====
-- The free lists of hw3 as rings: what the assignments that take a block out and put one in do to them.
use cse320_spring.Base.{
  ℕ, ◌+◌, ◌≡◌, ◌≢◌, inl, inr, refl, sym, ap, ◌∙◌, subst, ◌==◌, eq_cases, if◌then◌else◌, arith,
}
use cse320_spring.Base.Maps.{update, update_self, update_other}
use cse320_spring.Alloc.Links.{IsClosed}
use cse320_spring.Alloc.Memory.{Memory, unlink_block, link_block}
use cse320_spring.Alloc.Cycle.{IsHalf, Without, With, take_out, put_next, put_prev}
use cse320_spring.Alloc.Reach.{Reach, Reach-frame, take_out-Reach, put_new-Reach, put-Reach}

-- What is linked is reached from a head that it is filed under.
abbrev pub IsListed : (ℕ → ℕ → Type 0) → (ℕ → Type 0) → (ℕ → ℕ) → Type 0
IsListed IsFiled IsLink next =
    (y : ℕ) → IsLink y → (h : ℕ) × IsFiled h y × IsLink h × Reach next h y

-- The free lists in memory: both ways, with the links at the rows that blocks have, and nothing but what
-- is reached from a head.
abbrev pub IsRing : (ℕ → ℕ → Type 0) → (ℕ → Type 0) → (ℕ → ℕ) → Type 0
IsRing IsFiled IsLink w =
    IsHalf IsLink (λ x. w (x + 8)) (λ x. w (x + 16))
    × IsHalf IsLink (λ x. w (x + 16)) (λ x. w (x + 8))
    × IsListed IsFiled IsLink (λ x. w (x + 8))

-- No link stands in the row behind another.
abbrev pub IsApart : (ℕ → Type 0) → Type 0
IsApart IsLink = (x y : ℕ) → IsLink x → IsLink y → x ≢ y + 8

IsHalf-frame :
    (IsLink : ℕ → Type 0) (next prev next' prev' : ℕ → ℕ)
    → ((x : ℕ) → IsLink x → next' x ≡ next x)
    → ((x : ℕ) → IsLink x → prev' x ≡ prev x)
    → IsHalf IsLink next prev
    → IsHalf IsLink next' prev'
IsHalf-frame IsLink next prev next' prev' same same' half x link =
    let link' : IsLink (next' x) = subst IsLink (sym (same x link)) (half x link).0 in
    (link', same' (next' x) link' ∙ ap prev (same x link) ∙ (half x link).1)

-- Where the same is linked, and the links are the same.
IsListed-frame :
    (IsFiled : ℕ → ℕ → Type 0) (IsLink : ℕ → Type 0) (next next' : ℕ → ℕ)
    → ((x : ℕ) → IsLink x → IsLink (next x))
    → ((x : ℕ) → IsLink x → next' x ≡ next x)
    → IsListed IsFiled IsLink next
    → IsListed IsFiled IsLink next'
IsListed-frame IsFiled IsLink next next' closed same listed y k =
    let (h, head, link, r) = listed y k in
    (h, head, link, Reach-frame IsLink next next' h link closed same y r)

-- The row of a field that is written, and that of the other field.
at_field : (w : ℕ → ℕ) (c k v y : ℕ) → update w (k + c) v (y + c) ≡ update (λ x. w (x + c)) k v y
at_field w c k v y = elim (eq_cases y k) [
  | inl e ↦
      ap (λ x. update w (k + c) v (x + c)) e
      ∙ update_self w (k + c) v
      ∙ sym (ap (update (λ x. w (x + c)) k v) e ∙ update_self (λ x. w (x + c)) k v)
  | inr e ↦
      update_other w (k + c) (y + c) v (omega arith) ∙ sym (update_other (λ x. w (x + c)) k y v e)
]

update-ap : (f g : ℕ → ℕ) (k v y : ℕ) → f y ≡ g y → update f k v y ≡ update g k v y
update-ap f g k v y same = ap (λ z. if y == k then v else z) same

pub IsRing-frame :
    (IsFiled : ℕ → ℕ → Type 0) (IsLink : ℕ → Type 0) (w w' : ℕ → ℕ)
    → ((x : ℕ) → IsLink x → (w' (x + 8) ≡ w (x + 8)) × (w' (x + 16) ≡ w (x + 16)))
    → IsRing IsFiled IsLink w
    → IsRing IsFiled IsLink w'
IsRing-frame IsFiled IsLink w w' same (forth, back, listed) = (
  IsHalf-frame IsLink (λ x. w (x + 8)) (λ x. w (x + 16)) (λ x. w' (x + 8)) (λ x. w' (x + 16))
      (λ x k. (same x k).0) (λ x k. (same x k).1) forth,
  IsHalf-frame IsLink (λ x. w (x + 16)) (λ x. w (x + 8)) (λ x. w' (x + 16)) (λ x. w' (x + 8))
      (λ x k. (same x k).1) (λ x k. (same x k).0) back,
  IsListed-frame IsFiled IsLink (λ x. w (x + 8)) (λ x. w' (x + 8)) (λ x k. (forth x k).0)
      (λ x k. (same x k).0) listed,
)

-- An element that is no head is taken out.
take_out-IsListed :
    (IsFiled : ℕ → ℕ → Type 0) (IsLink : ℕ → Type 0) (next prev : ℕ → ℕ)
    → IsHalf IsLink next prev
    → IsHalf IsLink prev next
    → (x : ℕ) → IsLink x
    → ((h y : ℕ) → IsFiled h y → h ≢ x)
    → IsListed IsFiled IsLink next
    → IsListed IsFiled (Without IsLink x) (update next (prev x) (next x))
take_out-IsListed IsFiled IsLink next prev forth back x link other listed y k =
    let (h, head, at, r) = listed y k.0 in
    (
      h,
      head,
      (at, other h y head),
      take_out-Reach IsLink next prev forth back x link h at (other h y head) y k.1 r,
    )

-- An element is put in behind a head.
put-IsListed :
    (IsFiled : ℕ → ℕ → Type 0) (IsLink : ℕ → Type 0) (next prev : ℕ → ℕ)
    → IsHalf IsLink next prev
    → IsHalf IsLink prev next
    → (start b : ℕ) → IsLink start
    → IsFiled start b
    → ((y : ℕ) → IsLink y → y ≢ b)
    → IsListed IsFiled IsLink next
    → IsListed IsFiled (With IsLink b) (update (update next b (next start)) start b)
put-IsListed IsFiled IsLink next prev forth back start b link is_head new listed y (inl k) =
    let (h, head, at, r) = listed y k in
    (h, head, inl at, put-Reach IsLink next prev forth back start b link new h at y r)
put-IsListed IsFiled IsLink next prev forth back start b link is_head new listed y (inr same) = (
  start,
  subst (IsFiled start) (sym same) is_head,
  inl link,
  subst (Reach (update (update next b (next start)) start b) start) (sym same)
      (put_new-Reach IsLink next prev forth back start b link new),
)

module _ (IsFiled : ℕ → ℕ → Type 0) (IsLink : ℕ → Type 0) (apart : IsApart IsLink) (x : ℕ)
    (m : Memory) (link : IsLink x) (other : (h y : ℕ) → IsFiled h y → h ≢ x)
    (ring : IsRing IsFiled IsLink m.word) where
  pub unlink_block-IsRing : IsRing IsFiled (Without IsLink x) (unlink_block x m).word
  unfolding unlink_block
  unlink_block-IsRing =
      let w = m.word in
      let n = w (x + 8) in
      let p = w (x + 16) in
      let w₁ = update w (p + 8) n in
      let linked_n : IsLink n = (ring.0 x link).0 in
      let linked_p : IsLink p = (ring.1 x link).0 in
      let p₁ : w₁ (x + 16) ≡ p =
        update_other w (p + 8) (x + 16) n (λ e. apart p x linked_p link (omega arith)) in
      let n₁ : w₁ (x + 8) ≡ n = elim (eq_cases x p) [
        | inl e ↦ ap (λ y. w₁ (y + 8)) e ∙ update_self w (p + 8) n
        | inr e ↦ update_other w (p + 8) (x + 8) n (omega arith)
      ] in
      let next' = update (λ y. w (y + 8)) p n in
      let prev' = update (λ y. w (y + 16)) n p in
      let w₂ = update w₁ (n + 16) p in
      let same : (y : ℕ) → Without IsLink x y → (w₂ (y + 8) ≡ next' y) × (w₂ (y + 16) ≡ prev' y) =
        λ y k. (
          update_other w₁ (n + 16) (y + 8) p (λ e. apart y n k.0 linked_n (omega arith))
              ∙ at_field w 8 p n y,
          at_field w₁ 16 n p y
              ∙ update-ap (λ z. w₁ (z + 16)) (λ z. w (z + 16)) n p y
                  (update_other w (p + 8) (y + 16) n (λ e. apart p y linked_p k.0 (omega arith))),
        ) in
      rw (n₁, p₁)
        (
          IsHalf-frame (Without IsLink x) next' prev' (λ y. w₂ (y + 8)) (λ y. w₂ (y + 16))
              (λ y k. (same y k).0) (λ y k. (same y k).1)
              (take_out IsLink (λ y. w (y + 8)) (λ y. w (y + 16)) ring.0 ring.1 x link),
          IsHalf-frame (Without IsLink x) prev' next' (λ y. w₂ (y + 16)) (λ y. w₂ (y + 8))
              (λ y k. (same y k).1) (λ y k. (same y k).0)
              (take_out IsLink (λ y. w (y + 16)) (λ y. w (y + 8)) ring.1 ring.0 x link),
          IsListed-frame IsFiled (Without IsLink x) next' (λ y. w₂ (y + 8))
              (λ y k.
                (take_out IsLink (λ y. w (y + 8)) (λ y. w (y + 16)) ring.0 ring.1 x link y k).0)
              (λ y k. (same y k).0)
              (take_out-IsListed IsFiled IsLink (λ y. w (y + 8)) (λ y. w (y + 16)) ring.0 ring.1 x
                link other ring.2),
        )

module _ (IsFiled : ℕ → ℕ → Type 0) (IsLink : ℕ → Type 0) (head b : ℕ)
    (apart : IsApart (With IsLink b)) (m : Memory) (link : IsLink head) (is_head : IsFiled head b)
    (new : (y : ℕ) → IsLink y → y ≢ b) (ring : IsRing IsFiled IsLink m.word) where
  pub link_block-IsRing : IsRing IsFiled (With IsLink b) (link_block b head m).word
  unfolding link_block
  link_block-IsRing =
      let w = m.word in
      let n = w (head + 8) in
      let w₁ = update w (b + 8) n in
      let w₂ = update w₁ (b + 16) head in
      let linked_n : IsLink n = (ring.0 head link).0 in
      let n₂ : w₂ (head + 8) ≡ n =
        update_other w₁ (b + 16) (head + 8) head
          (λ e. apart head b (inl link) (inr refl) (omega arith))
        ∙ update_other w (b + 8) (head + 8) n (λ e. new head link (omega arith)) in
      let w₃ = update w₂ (n + 16) b in
      let w₄ = update w₃ (head + 8) b in
      let next' = update (update (λ y. w (y + 8)) b n) head b in
      let prev' = update (update (λ y. w (y + 16)) b head) n b in
      let same : (y : ℕ) → With IsLink b y → (w₄ (y + 8) ≡ next' y) × (w₄ (y + 16) ≡ prev' y) =
        λ y k. (
          at_field w₃ 8 head b y
              ∙ update-ap (λ z. w₃ (z + 8)) (update (λ z. w (z + 8)) b n) head b y
                  (update_other w₂ (n + 16) (y + 8) b
                      (λ e. apart y n k (inl linked_n) (omega arith))
                    ∙ update_other w₁ (b + 16) (y + 8) head
                        (λ e. apart y b k (inr refl) (omega arith))
                    ∙ at_field w 8 b n y),
          update_other w₃ (head + 8) (y + 16) b (λ e. apart head y (inl link) k (omega arith))
              ∙ at_field w₂ 16 n b y
              ∙ update-ap (λ z. w₂ (z + 16)) (update (λ z. w (z + 16)) b head) n b y
                  (at_field w₁ 16 b head y
                    ∙ update-ap (λ z. w₁ (z + 16)) (λ z. w (z + 16)) b head y
                        (update_other w (b + 8) (y + 16) n
                          (λ e. apart b y (inr refl) k (omega arith)))),
        ) in
      rw (n₂) (
        IsHalf-frame (With IsLink b) next' prev' (λ y. w₄ (y + 8)) (λ y. w₄ (y + 16))
            (λ y k. (same y k).0) (λ y k. (same y k).1)
            (put_next IsLink (λ y. w (y + 8)) (λ y. w (y + 16)) ring.0 ring.1 head b link new),
        IsHalf-frame (With IsLink b) prev' next' (λ y. w₄ (y + 16)) (λ y. w₄ (y + 8))
            (λ y k. (same y k).1) (λ y k. (same y k).0)
            (put_prev IsLink (λ y. w (y + 8)) (λ y. w (y + 16)) ring.0 ring.1 head b link new),
        IsListed-frame IsFiled (With IsLink b) next' (λ y. w₄ (y + 8))
            (λ y k.
              (put_next IsLink (λ y. w (y + 8)) (λ y. w (y + 16)) ring.0 ring.1 head b link new y
                k).0)
            (λ y k. (same y k).0)
            (put-IsListed IsFiled IsLink (λ y. w (y + 8)) (λ y. w (y + 16)) ring.0 ring.1 head b
              link is_head new ring.2),
      )

-- A ring of the same links under another name, and what it is closed under.
pub IsRing-iff :
    (F G : ℕ → ℕ → Type 0) (K L : ℕ → Type 0) (w : ℕ → ℕ)
    → ((x : ℕ) → K x → L x)
    → ((x : ℕ) → L x → K x)
    → ((h y : ℕ) → K y → F h y → G h y)
    → IsRing F L w
    → IsRing G K w
IsRing-iff F G K L w to from turn (forth, back, listed) = (
  λ x k. (from (w (x + 8)) (forth x (to x k)).0, (forth x (to x k)).1),
  λ x k. (from (w (x + 16)) (back x (to x k)).0, (back x (to x k)).1),
  λ y k. let (h, head, link, r) = listed y (to y k) in (h, turn h y k head, from h link, r),
)

pub ring-IsClosed : (H : ℕ → ℕ → Type 0) (L : ℕ → Type 0) (w : ℕ → ℕ) → IsRing H L w → IsClosed L w
ring-IsClosed H L w (forth, back, listed) x k = ((forth x k).0, (back x k).0)

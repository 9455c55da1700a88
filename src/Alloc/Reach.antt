-- ===== src/Alloc/Reach.antt =====
-- What can be reached from the head of a free list, where an element is taken out or put in.
use cse320_spring.Base.{ℕ, ◌≡◌, ◌≢◌, ◌⊎◌, inl, inr, sym, ap, ◌∙◌, subst, eq_cases}
use cse320_spring.Base.Maps.{update, update_self, update_other}
use cse320_spring.Alloc.Cycle.{IsHalf}

-- `y` stands in the list at `head`.
pub data Reach (next : ℕ → ℕ) (head : ℕ) : ℕ → Type 0 where
  here : Reach next head head
  more : {y : ℕ} → Reach next head y → Reach next head (next y)

-- Only the links of what stands in the list matter.
module _ (IsLink : ℕ → Type 0) (next next' : ℕ → ℕ) (head : ℕ) (link : IsLink head)
    (closed : (x : ℕ) → IsLink x → IsLink (next x)) where
  pub Reach-IsLink : (y : ℕ) → Reach next head y → IsLink y
  Reach-IsLink y here = link
  Reach-IsLink y (more {y = z} r) = closed z (Reach-IsLink z r)

  pub Reach-frame :
      ((x : ℕ) → IsLink x → next' x ≡ next x) → (y : ℕ) → Reach next head y → Reach next' head y
  Reach-frame same y here = here
  Reach-frame same y (more {y = z} r) =
      subst (Reach next' head) (same z (Reach-IsLink z r)) (more (Reach-frame same z r))

module _ (IsLink : ℕ → Type 0) (next prev : ℕ → ℕ) (forth : IsHalf IsLink next prev)
    (back : IsHalf IsLink prev next) where
  module _ (x : ℕ) (link : IsLink x) (head : ℕ) (linked : IsLink head) (other : head ≢ x) where
    abbrev next' : ℕ → ℕ
    next' = update next (prev x) (next x)

    -- Past the element, or up to another one.
    around :
        (y : ℕ)
        → Reach next head y
        → ((y ≢ x) × Reach next' head y) ⊎ ((y ≡ x) × Reach next' head (next x))
    around y here = inl (other, here)
    around y (more {y = z} r) = elim (around z r) [
      | inr (same, r') ↦ elim (eq_cases (next z) x) [
        | inl e ↦ inr (e, r')
        | inr ne ↦ inl (ne, subst (Reach next' head) (sym (ap next same)) r')
      ]
      | inl (ne, r') ↦ elim (eq_cases z (prev x)) [
        | inl e ↦ inr (
          ap next e ∙ (back x link).1,
          subst (Reach next' head) (ap next' e ∙ update_self next (prev x) (next x)) (more r'),
        )
        | inr ne' ↦ inl (
          λ e. ne' (
              sym
                (forth z (Reach-IsLink IsLink next next' head linked (λ u k. (forth u k).0) z r)).1
              ∙ ap prev e),
          subst (Reach next' head) (update_other next (prev x) z (next x) ne') (more r'),
        )
      ]
    ]

    pub take_out-Reach : (y : ℕ) → y ≢ x → Reach next head y → Reach next' head y
    take_out-Reach y ne r = elim (around y r) [ inl k ↦ k.1 | inr k ↦ elim (ne k.0) [ ] ]

  module _ (start b : ℕ) (link : IsLink start) (new : (y : ℕ) → IsLink y → y ≢ b) where
    abbrev next₁ : ℕ → ℕ
    next₁ = update (update next b (next start)) start b

    pub put_new-Reach : Reach next₁ start b
    put_new-Reach =
        subst (Reach next₁ start) (update_self (update next b (next start)) start b) (more here)

    pub put-Reach : (head : ℕ) → IsLink head → (y : ℕ) → Reach next head y → Reach next₁ head y
    put-Reach head linked y here = here
    put-Reach head linked y (more {y = z} r) =
        let k = Reach-IsLink IsLink next next₁ head linked (λ u k. (forth u k).0) z r in
        let r' : Reach next₁ head z = put-Reach head linked z r in
        elim (eq_cases z start) [
          | inl e ↦
              let at_b : Reach next₁ head b =
                subst (Reach next₁ head)
                  (ap next₁ e ∙ update_self (update next b (next start)) start b) (more r') in
              subst (Reach next₁ head)
                (update_other (update next b (next start)) start b b (λ e. new start link (sym e))
                  ∙ update_self next b (next start)
                  ∙ ap next (sym e))
                (more at_b)
          | inr ne ↦
              subst (Reach next₁ head)
                (update_other (update next b (next start)) start z b ne
                  ∙ update_other next b z (next start) (new z k))
                (more r')
        ]

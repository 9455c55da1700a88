-- ===== src/Alloc/Cycle.antt =====
-- Doubly linked rings as two maps, with an element taken out or put in.
use cse320_spring.Base.{ℕ, ◌≡◌, ◌≢◌, ◌⊎◌, inl, inr, refl, sym, ap, ◌∙◌, subst, eq_cases}
use cse320_spring.Base.Maps.{update, update_self, update_other}

-- `next` leads back over `prev`.
abbrev pub IsHalf : (ℕ → Type 0) → (ℕ → ℕ) → (ℕ → ℕ) → Type 0
IsHalf IsLink next prev = (x : ℕ) → IsLink x → IsLink (next x) × (prev (next x) ≡ x)

-- Without a block, and with one more.
abbrev pub Without : (ℕ → Type 0) → ℕ → ℕ → Type 0
Without IsLink x y = IsLink y × (y ≢ x)

abbrev pub With : (ℕ → Type 0) → ℕ → ℕ → Type 0
With IsLink b y = IsLink y ⊎ (y ≡ b)

by_value :
    (IsLink : ℕ → Type 0) (b : ℕ) (f g : ℕ → ℕ) (y v : ℕ)
    → f y ≡ v
    → With IsLink b v
    → g v ≡ y
    → With IsLink b (f y) × (g (f y) ≡ y)
by_value IsLink b f g y v value k inverse =
    (subst (With IsLink b) (sym value) k, ap g value ∙ inverse)

module _ (IsLink : ℕ → Type 0) (next prev : ℕ → ℕ) (forth : IsHalf IsLink next prev)
    (back : IsHalf IsLink prev next) where
  pub take_out :
      (x : ℕ)
      → IsLink x
      → IsHalf (Without IsLink x) (update next (prev x) (next x)) (update prev (next x) (prev x))
  take_out x link y (link', other) =
      let next' = update next (prev x) (next x) in
      let prev' = update prev (next x) (prev x) in
      elim (eq_cases y (prev x)) [
        | inl e ↦
            let value : next' y ≡ next x = ap next' e ∙ update_self next (prev x) (next x) in
            (
              (
                subst IsLink (sym value) (forth x link).0,
                λ same. other (e ∙ ap prev (sym (sym value ∙ same)) ∙ (forth x link).1),
              ),
              ap prev' value ∙ update_self prev (next x) (prev x) ∙ sym e,
            )
        | inr e ↦
            let value : next' y ≡ next y = update_other next (prev x) y (next x) e in
            (
              (
                subst IsLink (sym value) (forth y link').0,
                λ same. e (sym (forth y link').1 ∙ ap prev (sym value ∙ same)),
              ),
              ap prev' value
                  ∙ update_other prev (next x) (next y) (prev x)
                      (λ same. other (sym (forth y link').1 ∙ ap prev same ∙ (forth x link).1))
                  ∙ (forth y link').1,
            )
      ]

  module _ (head b : ℕ) (link : IsLink head) (new : (y : ℕ) → IsLink y → y ≢ b) where
    abbrev next' : ℕ → ℕ
    next' = update (update next b (next head)) head b

    abbrev prev' : ℕ → ℕ
    prev' = update (update prev b head) (next head) b

    pub put_next : IsHalf (With IsLink b) next' prev'
    put_next y (inr same) =
        by_value IsLink b next' prev' y (next head)
          (update_other (update next b (next head)) head y b (λ e. new head link (sym e ∙ same))
            ∙ ap (update next b (next head)) same
            ∙ update_self next b (next head))
          (inl (forth head link).0) (update_self (update prev b head) (next head) b ∙ sym same)
    put_next y (inl link') = elim (eq_cases y head) [
      | inl e ↦
          by_value IsLink b next' prev' y b
            (ap next' e ∙ update_self (update next b (next head)) head b) (inr refl)
            (update_other (update prev b head) (next head) b b
                (λ same. new (next head) (forth head link).0 (sym same))
              ∙ update_self prev b head
              ∙ sym e)
      | inr e ↦
          by_value IsLink b next' prev' y (next y)
            (update_other (update next b (next head)) head y b e
              ∙ update_other next b y (next head) (new y link'))
            (inl (forth y link').0)
            (update_other (update prev b head) (next head) (next y) b
                (λ same. e (sym (forth y link').1 ∙ ap prev same ∙ (forth head link).1))
              ∙ update_other prev b (next y) head (new (next y) (forth y link').0)
              ∙ (forth y link').1)
    ]

    pub put_prev : IsHalf (With IsLink b) prev' next'
    put_prev y (inr same) =
        by_value IsLink b prev' next' y head
          (update_other (update prev b head) (next head) y b
              (λ e. new (next head) (forth head link).0 (sym e ∙ same))
            ∙ ap (update prev b head) same
            ∙ update_self prev b head)
          (inl link) (update_self (update next b (next head)) head b ∙ sym same)
    put_prev y (inl link') = elim (eq_cases y (next head)) [
      | inl e ↦
          by_value IsLink b prev' next' y b
            (ap prev' e ∙ update_self (update prev b head) (next head) b) (inr refl)
            (update_other (update next b (next head)) head b b (λ same. new head link (sym same))
              ∙ update_self next b (next head)
              ∙ sym e)
      | inr e ↦
          by_value IsLink b prev' next' y (prev y)
            (update_other (update prev b head) (next head) y b e
              ∙ update_other prev b y head (new y link'))
            (inl (back y link').0)
            (update_other (update next b (next head)) head (prev y) b
                (λ same. e (sym (back y link').1 ∙ ap next same))
              ∙ update_other next b (prev y) (next head) (new (prev y) (back y link').0)
              ∙ (back y link').1)
    ]

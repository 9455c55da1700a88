-- ===== src/Base/Search.antt =====
-- The first index of a range that passes a test, which several loops look for.
use Prim.Native.Nat.{ℕ, zero, suc, ◌+◌, ◌≤◌, ◌<◌}
use mathlib.Core.Path.{◌≡◌, sym, ap, ◌∙◌}
use mathlib.Core.Logic.{inl, inr}
use mathlib.Core.Bool.{Bool, true, false}
use mathlib.Core.Option.{Option, none, some, some-injective}
use native.Mathlib.Omega.{arith}
use cse320_spring.Base.Tests.{if◌then◌else◌, Bool-cases, eq_cases}

unfoldable pub first : ℕ → ℕ → (ℕ → Bool) → Option ℕ
first zero i f = none
first (suc rounds) i f = if f i then some i else first rounds (i + 1) f

pub first-some :
    (rounds i : ℕ) (f : ℕ → Bool) (k : ℕ)
    → first rounds i f ≡ some k
    → (i ≤ k) × (k < i + rounds) × (f k ≡ true) × ((j : ℕ) → i ≤ j → j < k → f j ≡ false)
unfolding first
first-some zero i f k e = absurd (cc)
first-some (suc rounds) i f k e = elim (Bool-cases (f i)) [
  | inl t ↦
      let here : some i ≡ some k =
        sym (ap (λ b. if b then some i else first rounds (i + 1) f) t) ∙ e in
      let at : i ≡ k = some-injective i k here in
      (omega arith, omega arith, ap f (sym at) ∙ t, λ j h h'. absurd (omega arith))
  | inr t ↦
      let later = sym (ap (λ b. if b then some i else first rounds (i + 1) f) t) ∙ e in
      let (a, b, c, d) = first-some rounds (i + 1) f k later in
      (
        omega arith,
        omega arith,
        c,
        λ j h h'. elim (eq_cases j i) [ inl q ↦ ap f q ∙ t | inr q ↦ d j (omega arith) h' ],
      )
]

pub first-none :
    (rounds i : ℕ) (f : ℕ → Bool)
    → first rounds i f ≡ none
    → (j : ℕ) → i ≤ j
    → j < i + rounds
    → f j ≡ false
unfolding first
first-none zero i f e j h h' = absurd (omega arith)
first-none (suc rounds) i f e j h h' = elim (Bool-cases (f i)) [
  | inl t ↦
      let here : some i ≡ none =
        sym (ap (λ b. if b then some i else first rounds (i + 1) f) t) ∙ e in
      absurd (cc)
  | inr t ↦ elim (eq_cases j i) [
    | inl q ↦ ap f q ∙ t
    | inr q ↦
        first-none rounds (i + 1) f
          (sym (ap (λ b. if b then some i else first rounds (i + 1) f) t) ∙ e) j (omega arith)
          (omega arith)
  ]
]

-- ===== src/Bdd/Numbering.antt =====
-- How many nodes of hw1/src/bdd.c have a serial number.
use cse320_spring.Base.{
  ℕ, zero, suc, ◌+◌, ◌≤◌, ◌<◌, ◌≡◌, refl, sym, ap, ◌∙◌, inl, inr, arith, eq_cases,
}
use cse320_spring.Bdd.Store.{update}
use cse320_spring.Bdd.Insert.{update_eq, update_ne}

abbrev pub number : ℕ → ℕ
number zero = 0
number (suc x) = 1

-- The number of the first `n` nodes that have a serial number.
pub written : ℕ → (ℕ → ℕ) → ℕ
written zero f = 0
written (suc n) f = written n f + number (f n)

number-le : (x : ℕ) → number x ≤ 1
number-le zero = omega arith
number-le (suc x) = omega arith

pub written-le : (n : ℕ) (f : ℕ → ℕ) → written n f ≤ n
unfolding written
written-le zero f = omega arith
written-le (suc n) f = omega (arith, written-le n f, number-le (f n))

written_past : (n i x : ℕ) (f : ℕ → ℕ) → n ≤ i → written n (update f i x) ≡ written n f
unfolding written
written_past zero i x f h = refl
written_past (suc n) i x f h =
    rw (update_ne f i x n (omega arith), written_past n i x f (omega arith))

pub written-update :
    (n i x : ℕ) (f : ℕ → ℕ) → i < n → f i ≡ 0 → written n (update f i (suc x)) ≡ suc (written n f)
unfolding written
written-update zero i x f h e = absurd (omega arith)
written-update (suc n) i x f h e = elim (eq_cases i n) [
  | inl same ↦
      let old : f n ≡ 0 = ap f (sym same) ∙ e in
      rw (update_eq f i (suc x) n (sym same), old, written_past n i (suc x) f (omega arith))
        (omega arith)
  | inr ne ↦
      rw (update_ne f i (suc x) n (λ k. ne (sym k)))
        (omega (arith, written-update n i x f (omega arith) e))
]

pub written_none : (n : ℕ) → written n (λ j. 0) ≡ 0
unfolding written
written_none zero = refl
written_none (suc n) = omega (arith, written_none n)

-- ===== src/Bdd/Coordinates.antt =====
-- Paths of halvings and the coordinates of hw1's images: each determines the other.
use cse320_spring.Base.{
  ℕ, zero, suc, ◌+◌, ◌-◌, ◌/◌, ◌%◌, ◌^◌, ◌≤◌, ◌<◌, ◌≡◌, ◌≢◌, refl, sym, ◌∙◌, ap, ap₂, Bool, inl,
  inr, arith, ◌∷◌, length, if◌then◌else◌, ==-eq-true, ==-eq-false, eq_cases, digit, weight,
  mod-pow_suc, mod-mod-pow,
}
use cse320_spring.Bdd.Image.{is_odd}
use cse320_spring.Bdd.Denote.{path, length-path}
use cse320_spring.Bdd.Skip.{skip}
use cse320_spring.Bdd.Window.{row_of, col_of, row_odd, row_even, col_odd, col_even}

module _ (n r c : ℕ) where
  turn_even :
      suc n % 2 ≢ 1
      → weight (digit (if is_odd (suc n) then c else r) (n / 2)) (n / 2) + r % 2 ^ (n / 2)
        ≡ r % 2 ^ suc (n / 2)
  turn_even o = rw (==-eq-false (suc n % 2) 1 o) (sym (mod-pow_suc r (n / 2)))

  turn_odd :
      suc n % 2 ≡ 1
      → weight (digit (if is_odd (suc n) then c else r) (n / 2)) (n / 2) + c % 2 ^ (n / 2)
        ≡ c % 2 ^ suc (n / 2)
  turn_odd o = rw (==-eq-true (suc n % 2) 1 o) (sym (mod-pow_suc c (n / 2)))

  weight-length :
      (b : Bool) (x y : ℕ) → x ≡ y → weight b (length (path n r c) / 2) + x ≡ weight b (n / 2) + y
  weight-length b x y e = ap₂ (λ k z. weight b (k / 2) + z) (length-path n r c) e

-- The path to a pixel leads to its row and its column.
pub row_of-path : (n r c : ℕ) → row_of (path n r c) ≡ r % 2 ^ (n / 2)
row_of-path zero r c = omega arith
row_of-path (suc n) r c = elim (eq_cases (suc n % 2) 1) [
  | inl o ↦
      let e : suc n / 2 ≡ n / 2 = omega arith in
      row_odd _ (path n r c) (rw (length-path n r c) o)
      ∙ row_of-path n r c
      ∙ ap (λ k. r % 2 ^ k) (sym e)
  | inr o ↦
      let e : suc n / 2 ≡ suc (n / 2) = omega arith in
      row_even _ (path n r c) (rw (length-path n r c) o)
      ∙ weight-length n r c _ _ _ (row_of-path n r c)
      ∙ turn_even n r c o
      ∙ ap (λ k. r % 2 ^ k) (sym e)
]

pub col_of-path : (n r c : ℕ) → col_of (path n r c) ≡ c % 2 ^ (n - n / 2)
col_of-path zero r c = omega arith
col_of-path (suc n) r c = elim (eq_cases (suc n % 2) 1) [
  | inl o ↦
      let e : suc n - suc n / 2 ≡ suc (n / 2) = omega arith in
      let d : n - n / 2 ≡ n / 2 = omega arith in
      col_odd _ (path n r c) (rw (length-path n r c) o)
      ∙ weight-length n r c _ _ _ (col_of-path n r c ∙ ap (λ k. c % 2 ^ k) d)
      ∙ turn_odd n r c o
      ∙ ap (λ k. c % 2 ^ k) (sym e)
  | inr o ↦
      let e : suc n - suc n / 2 ≡ n - n / 2 = omega arith in
      col_even _ (path n r c) (rw (length-path n r c) o)
      ∙ col_of-path n r c
      ∙ ap (λ k. c % 2 ^ k) (sym e)
]

-- The path below the levels that are skipped.
pub skip-path : (k n r c : ℕ) → skip k (path (k + n) r c) ≡ path n r c
skip-path zero n r c = let e : zero + n ≡ n = omega arith in rw e
skip-path (suc k) n r c = let e : suc k + n ≡ suc (k + n) = omega arith in rw e (skip-path k n r c)

digit-mod : (x k w : ℕ) → k < w → digit (x % 2 ^ w) k ≡ digit x k
digit-mod x k w h = rw (mod-mod-pow x (suc k) w h)

-- Only the digits that the levels use matter.
pub path-mod :
    (n r c a b : ℕ) → n / 2 ≤ a → n - n / 2 ≤ b → path n (r % 2 ^ a) (c % 2 ^ b) ≡ path n r c
path-mod zero r c a b ha hb = refl
path-mod (suc n) r c a b ha hb = elim (eq_cases (suc n % 2) 1) [
  | inl o ↦
      rw (==-eq-true (suc n % 2) 1 o, digit-mod c (n / 2) b (omega arith))
        (ap (λ p. digit c (n / 2) ∷ p) (path-mod n r c a b (omega arith) (omega arith)))
  | inr o ↦
      rw (==-eq-false (suc n % 2) 1 o, digit-mod r (n / 2) a (omega arith))
        (ap (λ p. digit r (n / 2) ∷ p) (path-mod n r c a b (omega arith) (omega arith)))
]

-- ===== src/Base/Bits.antt =====
-- Binary digits by division: powers of two, and the digit at a position.
use Prim.Native.Nat.{ℕ, zero, suc, ◌+◌, ◌-◌, ◌*◌, ◌%◌, ◌^◌, ◌≤◌, ◌<◌, ◌∣◌}
use mathlib.Core.Path.{◌≡◌}
use native.Mathlib.Omega.{arith}
use native.Mathlib.Nat.{
  pow-suc, pow-le-pow_right, mod-mod_of_dvd, dvd-mul_left, dvd-mul_left_of_dvd, dvd_refl, mod-lt,
  mod-eq_of_lt, mod-eq-sub-mod,
}
use cse320_spring.Base.Tests.{leb, if◌then◌else◌, lt_cases, leb_of_lt, le→leb}
use mathlib.Core.Logic.{inl, inr}
use mathlib.Core.Bool.{Bool}

pub pow_suc : (k : ℕ) → 2 ^ suc k ≡ 2 * 2 ^ k
pow_suc k = omega (arith, pow-suc 2 k)

pub pow_pos : (k : ℕ) → 0 < 2 ^ k
pow_pos zero = omega arith
pow_pos (suc k) = omega (arith, pow_suc k, pow_pos k)

pub lt-pow : (k : ℕ) → k < 2 ^ k
lt-pow zero = omega arith
lt-pow (suc k) = omega (arith, pow_suc k, lt-pow k)

-- The digit of `x` at position `k`, as a test.
abbrev pub digit : ℕ → ℕ → Bool
digit x k = leb (2 ^ k) (x % 2 ^ suc k)

abbrev pub weight : Bool → ℕ → ℕ
weight b k = if b then 2 ^ k else 0

pub mod-pow_suc : (x k : ℕ) → x % 2 ^ suc k ≡ weight (digit x k) k + x % 2 ^ k
mod-pow_suc x k = elim (lt_cases (x % 2 ^ suc k) (2 ^ k)) [
  | inl h ↦ rw (leb_of_lt _ _ h) (omega (arith, inner, mod-eq_of_lt h))
  | inr h ↦ rw (le→leb _ _ h) (
      omega (
        arith,
        inner,
        pow_suc k,
        mod-lt x (pow_pos (suc k)),
        mod-eq-sub-mod h,
        mod-eq_of_lt {n = x % 2 ^ suc k - 2 ^ k} {m = 2 ^ k}
            (omega (arith, pow_suc k, mod-lt x (pow_pos (suc k)))),
      ))
]
  where
    inner : x % 2 ^ suc k % 2 ^ k ≡ x % 2 ^ k
    inner = rw (pow_suc k) (mod-mod_of_dvd (2 ^ k) x (dvd-mul_left (2 ^ k) 2))

pub pow-le-pow : {i j : ℕ} → i ≤ j → 2 ^ i ≤ 2 ^ j
pow-le-pow h = pow-le-pow_right (omega arith) h

pub pow-lt-pow : {i j : ℕ} → i < j → 2 ^ i < 2 ^ j
pow-lt-pow {i} {j} h = omega (arith, pow_suc i, pow_pos i, pow-le-pow h)

pub pow-dvd-pow : (i d : ℕ) → 2 ^ i ∣ 2 ^ (d + i)
pow-dvd-pow i zero = let e : zero + i ≡ i = omega arith in rw e (dvd_refl (2 ^ i))
pow-dvd-pow i (suc d) =
    let e : suc d + i ≡ suc (d + i) = omega arith in
    rw (e, pow_suc) (dvd-mul_left_of_dvd (2 ^ i) (pow-dvd-pow i d) 2)

-- The low digits of a remainder are those of the number.
pub mod-mod-pow : (x i j : ℕ) → i ≤ j → x % 2 ^ j % 2 ^ i ≡ x % 2 ^ i
mod-mod-pow x i j h =
    let e : j ≡ j - i + i = omega arith in mod-mod_of_dvd (2 ^ i) x (rw e (pow-dvd-pow i (j - i)))

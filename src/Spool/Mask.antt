-- ===== src/Spool/Mask.antt =====
-- Bit masks: `(m >> i) & 1`, `m | (1 << i)` and `m ^ (1 << i)`, by recursion on the position.
use cse320_spring.Base.{
  ℕ, zero, suc, ◌+◌, ◌-◌, ◌*◌, ◌/◌, ◌%◌, ◌^◌, ◌<◌, ◌≡◌, ◌≢◌, refl, ap, Bool, true, not, ◌==◌, arith,
  pow_suc, pow_pos,
}

unfoldable pub test_bit : ℕ → ℕ → Bool
test_bit m zero = m % 2 == 1
test_bit m (suc i) = test_bit (m / 2) i

unfoldable pub set_bit : ℕ → ℕ → ℕ
set_bit m zero = m / 2 * 2 + 1
set_bit m (suc i) = set_bit (m / 2) i * 2 + m % 2

unfoldable pub flip_bit : ℕ → ℕ → ℕ
flip_bit m zero = m / 2 * 2 + (1 - m % 2)
flip_bit m (suc i) = flip_bit (m / 2) i * 2 + m % 2

half : (a m : ℕ) → (a * 2 + m % 2) / 2 ≡ a
half a m = omega arith

low : (a m : ℕ) → (a * 2 + m % 2) % 2 ≡ m % 2
low a m = omega arith

pub test_bit-set_bit_self : (m i : ℕ) → test_bit (set_bit m i) i ≡ true
unfolding test_bit set_bit
test_bit-set_bit_self m zero = ground arith
test_bit-set_bit_self m (suc i) = rw (half (set_bit (m / 2) i) m) (test_bit-set_bit_self (m / 2) i)

pub test_bit-set_bit_other : (m i j : ℕ) → j ≢ i → test_bit (set_bit m i) j ≡ test_bit m j
unfolding test_bit set_bit
test_bit-set_bit_other m zero zero h = absurd (h refl)
test_bit-set_bit_other m zero (suc j) h = ap (λ k. test_bit k j) (omega arith)
test_bit-set_bit_other m (suc i) zero h = rw (low (set_bit (m / 2) i) m)
test_bit-set_bit_other m (suc i) (suc j) h =
    rw (half (set_bit (m / 2) i) m) (test_bit-set_bit_other (m / 2) i j (λ e. h (ap suc e)))

pub test_bit-flip_bit_self : (m i : ℕ) → test_bit (flip_bit m i) i ≡ not (test_bit m i)
unfolding test_bit flip_bit
test_bit-flip_bit_self m zero = ground arith
test_bit-flip_bit_self m (suc i) =
    rw (half (flip_bit (m / 2) i) m) (test_bit-flip_bit_self (m / 2) i)

pub test_bit-flip_bit_other : (m i j : ℕ) → j ≢ i → test_bit (flip_bit m i) j ≡ test_bit m j
unfolding test_bit flip_bit
test_bit-flip_bit_other m zero zero h = absurd (h refl)
test_bit-flip_bit_other m zero (suc j) h = ap (λ k. test_bit k j) (omega arith)
test_bit-flip_bit_other m (suc i) zero h = rw (low (flip_bit (m / 2) i) m)
test_bit-flip_bit_other m (suc i) (suc j) h =
    rw (half (flip_bit (m / 2) i) m) (test_bit-flip_bit_other (m / 2) i j (λ e. h (ap suc e)))

-- A mask of `w` bits that are all set.
pub full_of_bits : (w m : ℕ) → m < 2 ^ w → ((i : ℕ) → i < w → test_bit m i ≡ true) → m ≡ 2 ^ w - 1
unfolding test_bit
full_of_bits zero m h all = omega arith
full_of_bits (suc w) m h all =
    let rest =
      full_of_bits w (m / 2) (omega (arith, pow_suc w)) (λ i k. all (suc i) (omega arith)) in
    let low : m % 2 ≡ 1 = ground (arith, all 0 (omega arith)) in omega (arith, pow_suc w)

pub bits_of_full : (w i : ℕ) → i < w → test_bit (2 ^ w - 1) i ≡ true
unfolding test_bit
bits_of_full zero i h = absurd (omega arith)
bits_of_full (suc w) zero h =
    let low : (2 ^ suc w - 1) % 2 ≡ 1 = omega (arith, pow_suc w, pow_pos w) in rw low
bits_of_full (suc w) (suc i) h =
    let high : (2 ^ suc w - 1) / 2 ≡ 2 ^ w - 1 = omega (arith, pow_suc w, pow_pos w) in
    rw high (bits_of_full w i (omega arith))

-- Within `w` bits.
pub set_bit-lt : (w m i : ℕ) → m < 2 ^ w → i < w → set_bit m i < 2 ^ w
unfolding set_bit
set_bit-lt zero m i h k = absurd (omega arith)
set_bit-lt (suc w) m zero h k = omega (arith, pow_suc w)
set_bit-lt (suc w) m (suc i) h k =
    omega (arith, pow_suc w, set_bit-lt w (m / 2) i (omega (arith, pow_suc w)) (omega arith))

pub flip_bit-lt : (w m i : ℕ) → m < 2 ^ w → i < w → flip_bit m i < 2 ^ w
unfolding flip_bit
flip_bit-lt zero m i h k = absurd (omega arith)
flip_bit-lt (suc w) m zero h k = omega (arith, pow_suc w)
flip_bit-lt (suc w) m (suc i) h k =
    omega (arith, pow_suc w, flip_bit-lt w (m / 2) i (omega (arith, pow_suc w)) (omega arith))

-- No bit stands above the width.
pub test_bit-lt : (w m i : ℕ) → m < 2 ^ w → test_bit m i ≡ true → i < w
unfolding test_bit
test_bit-lt zero m zero h t = absurd (ground arith)
test_bit-lt zero m (suc i) h t = absurd (omega (arith, test_bit-lt zero (m / 2) i (omega arith) t))
test_bit-lt (suc w) m zero h t = omega arith
test_bit-lt (suc w) m (suc i) h t =
    omega (arith, test_bit-lt w (m / 2) i (omega (arith, pow_suc w)) t)

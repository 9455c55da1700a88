-- ===== src/Bdd/Occupancy.antt =====
-- How many slots of the hash map of hw1/src/bdd.c are taken.
use cse320_spring.Base.{
  ℕ, zero, suc, ◌+◌, ◌-◌, ◌%◌, ◌≤◌, ◌<◌, ◌≡◌, ◌≢◌, refl, Option, none, some, inl, inr, arith,
  eq_cases, Option-cases,
}
use cse320_spring.Bdd.Store.{hash_size, update}

abbrev pub taken : Option ℕ → ℕ
taken none = 0
taken (some j) = 1

-- The number of slots below `n` that are taken.
pub used : (ℕ → Option ℕ) → ℕ → ℕ
used f zero = 0
used f (suc k) = used f k + taken (f k)

used-update_above : (f : ℕ → Option ℕ) (k v n : ℕ) → n ≤ k → used (update f k (some v)) n ≡ used f n
unfolding used
used-update_above f k v zero h = refl
used-update_above f k v (suc n) h = ground (arith, used-update_above f k v n)

pub used-update :
    (f : ℕ → Option ℕ) (k v n : ℕ)
    → f k ≡ none
    → k < n
    → used (update f k (some v)) n ≡ used f n + 1
unfolding used
used-update f k v zero e h = absurd (omega arith)
used-update f k v (suc n) e h = elim (eq_cases n k) [
  | inl p ↦ ground (arith, used-update_above f k v n, e)
  | inr p ↦ ground (arith, used-update f k v n)
]

pub used_full : (f : ℕ → Option ℕ) (n : ℕ) → ((k : ℕ) → k < n → f k ≢ none) → used f n ≡ n
unfolding used
used_full f zero h = refl
used_full f (suc n) h = elim (Option-cases (f n)) [
  | inl e ↦ absurd (h n (omega arith) e)
  | inr (j, e) ↦ ground (arith, used_full f n (λ k p. h k (omega arith)))
]

pub used_empty : (f : ℕ → Option ℕ) (n : ℕ) → ((k : ℕ) → f k ≡ none) → used f n ≡ 0
unfolding used
used_empty f zero h = refl
used_empty f (suc n) h = ground (arith, used_empty f n h, h n)

-- The slot that the probe looks at in its round `t`.
abbrev pub slot : ℕ → ℕ → ℕ
slot start t = (start + t) % hash_size

-- The rounds reach every slot.
pub slot_onto :
    (start k : ℕ)
    → start < hash_size
    → k < hash_size
    → (t : ℕ) × (t < hash_size) × (slot start t ≡ k)
slot_onto start k hs hk = ((k + hash_size - start) % hash_size, omega arith, omega arith)

-- A map with fewer entries than slots has a free slot on every probe sequence.
pub used_free :
    (f : ℕ → Option ℕ) (start : ℕ)
    → start < hash_size
    → used f hash_size < hash_size
    → ¬ ((t : ℕ) → t < hash_size → f (slot start t) ≢ none)
used_free f start hs few all = absurd (omega (arith, used_full f hash_size every))
  where
    every : (k : ℕ) → k < hash_size → f k ≢ none
    every k hk e = let (t, ht, p) = slot_onto start k hs hk in all t ht (rw p e)

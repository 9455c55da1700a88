-- ===== src/Bdd/Probe.antt =====
-- The loop of bdd_lookup: it stops at the node or at the first free slot of the probe sequence.
use cse320_spring.Base.{
  ℕ, zero, suc, ◌+◌, ◌%◌, ◌<◌, ◌≡◌, ◌≢◌, sym, true, false, none, some, ◌⊎◌, inl, inr, arith,
  eq_cases, lt_cases, Option-cases, Bool-cases, ==-eq-false,
}
use cse320_spring.Bdd.Store.{Node, Store, hash_size, hash, equal_node, insert, probe, returned}
use cse320_spring.Bdd.Occupancy.{slot}

pub hash-lt : (n : Node) → hash n < hash_size
unfolding hash
hash-lt n = omega arith

pub equal_node-eq : (a b : Node) → equal_node a b ≡ true → a ≡ b
unfolding equal_node
equal_node-eq a b h = ground arith

pub equal_node_refl : (a : Node) → equal_node a a ≡ true
unfolding equal_node
equal_node_refl a = ground arith

module _ (s : Store) (n : Node) (start : ℕ) where
  -- The slot of round `t` holds another node.
  abbrev pub Occupied : ℕ → Type 0
  Occupied t = (j : ℕ) × (s.hash_map (slot start t) ≡ some j) × (equal_node n (s.nodes j) ≡ false)

  abbrev pub Hit : ℕ → ℕ → Type 0
  Hit j t = (s.hash_map (slot start t) ≡ some j) × (s.nodes j ≡ n)

  abbrev pub Miss : ℕ → Type 0
  Miss t = (t < hash_size) × (s.hash_map (slot start t) ≡ none) × ((u : ℕ) → u < t → Occupied u)

  round_step : (t : ℕ) → (slot start t + 1) % hash_size ≡ slot start (suc t)
  round_step t = omega arith

  round_ne : (t : ℕ) → start < hash_size → suc t < hash_size → slot start (suc t) ≢ start
  round_ne t hs h = omega arith

  Occupied-upto :
      (t : ℕ) → ((u : ℕ) → u < t → Occupied u) → Occupied t → (u : ℕ) → u < suc t → Occupied u
  Occupied-upto t before here u h = elim (lt_cases u t) [
    | inl p ↦ before u p
    | inr p ↦ let e : t ≡ u = omega arith in rw (← e) here
  ]

  not-none_of_Occupied :
      (t : ℕ) → ((u : ℕ) → u < t → Occupied u) → (u : ℕ) → u < t → s.hash_map (slot start u) ≢ none
  not-none_of_Occupied t before u h e = let (j, p, _) = before u h in cc

  -- The loop, entered at round `t` with a free slot ahead.
  pub probe_lem :
      (fuel t : ℕ)
      → start < hash_size
      → t + fuel ≡ hash_size
      → 0 < fuel
      → ¬ ((u : ℕ) → u < hash_size → s.hash_map (slot start u) ≢ none)
      → ((u : ℕ) → u < t → Occupied u)
      → ((j : ℕ) × (probe fuel start (slot start t) n s ≡ returned (some j) s)
          × ((u : ℕ) × Hit j u))
        ⊎ ((u : ℕ) × (probe fuel start (slot start t) n s ≡ insert (slot start u) n s) × Miss u)
  unfolding probe
  probe_lem zero t hs e pos free before = absurd (omega arith)
  probe_lem (suc fuel) t hs e pos free before = elim (Option-cases (s.hash_map (slot start t))) [
    | inl p ↦ inr (t, rw (p, probe), (omega arith, p, before))
    | inr (j, p) ↦ elim (Bool-cases (equal_node n (s.nodes j))) [
      | inl q ↦ inl (j, rw (p, probe, q), (t, (p, sym (equal_node-eq n (s.nodes j) q))))
      | inr q ↦
          let all = Occupied-upto t before (j, p, q) in
          elim (eq_cases (suc t) hash_size) [
            | inl full ↦ absurd (free (λ u h. not-none_of_Occupied (suc t) all u (omega arith)))
            | inr more ↦
                rw (p, probe, q, round_step t, ==-eq-false _ _ (round_ne t hs (omega arith)))
                  (probe_lem fuel (suc t) hs (omega arith) (omega arith) free all)
          ]
    ]
  ]

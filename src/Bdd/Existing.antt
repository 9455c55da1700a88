-- ===== src/Bdd/Existing.antt =====
-- bdd_lookup of hw1/src/bdd.c for a node that is in the table.
use cse320_spring.Base.{ℕ, ◌≤◌, ◌<◌, ◌≡◌, refl, ap, subst, ◌∙◌, some, inl, inr, arith}
use cse320_spring.Bdd.Store.{Store, returned, num_leaves, hash_size, hash, probe, bdd_lookup}
use cse320_spring.Bdd.Occupancy.{used_free, slot}
use cse320_spring.Bdd.Probe.{probe_lem, hash-lt}
use cse320_spring.Bdd.Invariant.{IsValid}
use cse320_spring.Bdd.Insert.{not-mem_of_Miss}
use cse320_spring.Bdd.Lookup.{Fits, lookup_search}

module _ (s : Store) (v : IsValid s) (k : ℕ) (low : num_leaves ≤ k) (high : k < s.next) where
  fits : Fits s (s.nodes k).level (s.nodes k).left (s.nodes k).right
  fits =
      let n = v.inner k low high in
      record {
        level_pos = n.level_pos;
        level_max = n.level_max;
        left_in = n.left_in;
        right_in = n.right_in;
        left_below = n.left_below;
        right_below = n.right_below;
      }

  probe-returned :
      (fuel : ℕ)
      → fuel ≡ hash_size
      → probe fuel (hash (s.nodes k)) (slot (hash (s.nodes k)) 0) (s.nodes k) s
        ≡ returned (some k) s
  probe-returned fuel e =
      let n = s.nodes k in
      elim (probe_lem s n (hash n) fuel 0 (hash-lt n) (omega arith) (omega arith)
        (used_free s.hash_map (hash n) (hash-lt n) (omega (arith, v.counted, v.high)))
        (λ u h. absurd (omega arith))) [
          | inl (j, p, (u, (at, same))) ↦
              let (lo, hi) = v.entries _ j at in
              p ∙ ap (λ i. returned (some i) s) (v.unique j k lo hi low high same)
          | inr (u, p, miss) ↦ absurd (not-mem_of_Miss s n u k miss (v.placed k low high) refl)
        ]

  pub bdd_lookup_again :
      bdd_lookup (s.nodes k).level (some (s.nodes k).left) (some (s.nodes k).right) s
      ≡ returned (some k) s
  bdd_lookup_again =
      let n = s.nodes k in
      let start : slot (hash n) 0 ≡ hash n = omega (arith, hash-lt n) in
      lookup_search s v n.level n.left n.right fits n refl (v.inner k low high).reduced
      ∙ subst (λ i. probe hash_size (hash n) i n s ≡ returned (some k) s) start
          (probe-returned hash_size refl)

-- ===== src/Bdd/Reading.antt =====
-- The rounds of bdd_deserialize of hw1/src/bdd.c that read a record of bdd_serialize.
use cse320_spring.Base.{
  ℕ, suc, ◌+◌, ◌-◌, ◌%◌, ◌^◌, ◌≤◌, ◌<◌, ◌≡◌, ap, ◌∙◌, some, ◌∷◌, ◌++◌, arith, ==-eq-false, lt→ltb,
  le→leb,
}
use cse320_spring.Base.Text.{Bytes}
use cse320_spring.Bdd.Store.{Store, num_leaves, nodes_max, levels_max, update}
use cse320_spring.Bdd.Invariant.{IsValid}
use cse320_spring.Bdd.Serial.{le32, read_int, IndexMap, read_leaf, read_node, bdd_deserialize}
use cse320_spring.Bdd.Existing.{bdd_lookup_again}

read_int-le32 : (x : ℕ) (rest : Bytes) → x < 2 ^ 32 → read_int (le32 x ++ rest) ≡ some (x, rest)
unfolding read_int
read_int-le32 x rest h = ap (λ y. some (y, rest)) (omega arith)

module _ (s : Store) (map : IndexMap) (serial fuel : ℕ) (rest : Bytes)
    (room : suc serial < nodes_max) where
  pub read_leaf_lem :
      (i : ℕ)
      → i < num_leaves
      → bdd_deserialize (suc fuel) map serial (64 ∷ i % 256 ∷ rest) s
        ≡ bdd_deserialize fuel (update map (suc serial) (some i)) (suc serial) rest s
  unfolding bdd_deserialize read_leaf
  read_leaf_lem i h =
      let e : i % 256 ≡ i = omega arith in rw (lt→ltb (suc serial) nodes_max room, e)

  read_node-head :
      (level : ℕ)
      → 0 < level
      → level ≤ levels_max
      → bdd_deserialize (suc fuel) map serial ((64 + level) % 256 ∷ rest) s
        ≡ read_node (bdd_deserialize fuel) level map serial rest s
  unfolding bdd_deserialize
  read_node-head level pos max =
      let c : (64 + level) % 256 ≡ 64 + level = omega arith in
      let back : 64 + level - 64 ≡ level = omega arith in
      rw
        (
          c,
          ==-eq-false (64 + level) 64 (omega arith),
          le→leb 65 (64 + level) (omega arith),
          le→leb (64 + level) 96 (omega arith),
        )
        (ap (λ n. read_node (bdd_deserialize fuel) n map serial rest s) back)

module _ (s : Store) (v : IsValid s) (map : IndexMap) (serial fuel : ℕ) (rest : Bytes)
    (room : suc serial < nodes_max) where
  body :
      (k a b : ℕ)
      → num_leaves ≤ k
      → k < s.next
      → a < nodes_max
      → b < nodes_max
      → map a ≡ some (s.nodes k).left
      → map b ≡ some (s.nodes k).right
      → read_node (bdd_deserialize fuel) (s.nodes k).level map serial (le32 a ++ (le32 b ++ rest)) s
        ≡ bdd_deserialize fuel (update map (suc serial) (some k)) (suc serial) rest s
  unfolding read_node
  body k a b low high ha hb ea eb = rw (
    read_node,
    read_int-le32 a (le32 b ++ rest) (omega arith),
    read_int-le32 b rest (omega arith),
    lt→ltb a nodes_max ha,
    lt→ltb b nodes_max hb,
    lt→ltb (suc serial) nodes_max room,
    ea,
    eb,
    bdd_lookup_again s v k low high,
  )

  pub read_node_lem :
      (k a b : ℕ)
      → num_leaves ≤ k
      → k < s.next
      → a < nodes_max
      → b < nodes_max
      → map a ≡ some (s.nodes k).left
      → map b ≡ some (s.nodes k).right
      → bdd_deserialize
          (suc fuel)
          map
          serial
          ((64 + (s.nodes k).level) % 256 ∷ (le32 a ++ (le32 b ++ rest)))
          s
        ≡ bdd_deserialize fuel (update map (suc serial) (some k)) (suc serial) rest s
  read_node_lem k a b low high ha hb ea eb =
      let n = v.inner k low high in
      read_node-head s map serial fuel (le32 a ++ (le32 b ++ rest)) room (s.nodes k).level
        n.level_pos n.level_max
      ∙ body k a b low high ha hb ea eb

-- ===== src/Bdd/Serial.antt =====
-- bdd_serialize and bdd_deserialize of hw1/src/bdd.c. A file is its bytes.
use cse320_spring.Base.{
  ℕ, zero, suc, ◌+◌, ◌-◌, ◌*◌, ◌/◌, ◌%◌, ◌&&◌, Option, none, some, [], ◌∷◌, ◌++◌, ltb, leb, ◌==◌,
  if◌then◌else◌,
}
use cse320_spring.Base.Text.{Bytes}
use cse320_spring.Bdd.Store.{
  Node, Index, returned, exited, diverged, M, nodes_max, update, bdd_lookup,
}

-- `bdd_index_map`, the counter and the file. A serial number is an `int` above 0.
pub record Writer : Type 0 where
  pub index_map : ℕ → ℕ
  pub counter : ℕ
  pub out : Bytes

-- The four bytes of an `int` that is not negative, the lowest first.
abbrev pub le32 : ℕ → Bytes
le32 x = x % 256 ∷ x / 256 % 256 ∷ x / 65536 % 256 ∷ x / 16777216 % 256 ∷ []

-- A record of the node `i` is written, and the node gets the next serial number.
unfoldable pub write_record : ℕ → Bytes → Writer → Writer
write_record i bytes w = record {
  index_map = update w.index_map i w.counter;
  counter = w.counter + 1;
  out = w.out ++ bytes;
}

-- `bdd_serialize_helper`, with fuel for its nested calls.
unfoldable pub bdd_serialize_helper : ℕ → (ℕ → Node) → ℕ → Writer → Option Writer
bdd_serialize_helper zero nodes i w = none
bdd_serialize_helper (suc fuel) nodes i w =
    let n = nodes i in
    let inner : Option Writer = elim (bdd_serialize_helper fuel nodes n.left w) [
      | none ↦ none
      | some w₁ ↦ elim (bdd_serialize_helper fuel nodes n.right w₁) [
        | none ↦ none
        | some w₂ ↦
            if w₂.index_map i == 0
            then some (
                write_record i
                  ((64 + n.level) % 256
                    ∷ (le32 (w₂.index_map n.left) ++ le32 (w₂.index_map n.right)))
                  w₂)
            else some w₂
      ]
    ] in
    if n.level == 0
    then if w.index_map i == 0 then some (write_record i (64 ∷ i % 256 ∷ []) w) else some w
    else inner

-- `bdd_serialize` into an empty file, of a node that is not NULL.
unfoldable pub bdd_serialize : ℕ → (ℕ → Node) → ℕ → Option Writer
bdd_serialize fuel nodes i =
    bdd_serialize_helper fuel nodes i (record { index_map = λ j. 0; counter = 1; out = [] })

-- The four calls of fgetc for one `int`, or `none` at the end of the file. A number past the largest
-- `int` stands for one that is out of bounds as an index, as the negative one of the code is.
unfoldable pub read_int : Bytes → Option (ℕ × Bytes)
read_int [] = none
read_int (a ∷ []) = none
read_int (a ∷ b ∷ []) = none
read_int (a ∷ b ∷ c ∷ []) = none
read_int (a ∷ b ∷ c ∷ d ∷ rest) = some (a + b * 256 + c * 65536 + d * 16777216, rest)

-- `bdd_index_map` while a file is read: an entry is an `int`, and -1 is `none`.
abbrev pub IndexMap : Type 0
IndexMap = ℕ → Index

-- The result of bdd_deserialize: `none` is NULL, and `some none` is `bdd_nodes - 1`.
abbrev pub Pointer : Type 0
Pointer = Option Index

-- One round for '@', and one for a node of the level; `next` is the rest of the loop. A run that uses
-- an entry outside of bdd_index_map is `diverged`.
unfoldable pub read_leaf : (IndexMap → ℕ → Bytes → M Pointer) → IndexMap → ℕ → Bytes → M Pointer
read_leaf next map serial [] s = returned none s
read_leaf next map serial (b ∷ rest) s =
    if ltb (suc serial) nodes_max
    then next (update map (suc serial) (some b)) (suc serial) rest s
    else diverged

unfoldable pub read_node : (IndexMap → ℕ → Bytes → M Pointer) → ℕ → IndexMap → ℕ → Bytes → M Pointer
read_node next level map serial bytes s = elim (read_int bytes) [
  | none ↦ returned none s
  | some (left, more) ↦ elim (read_int more) [
    | none ↦ returned none s
    | some (right, rest) ↦
        if ltb left nodes_max && (ltb right nodes_max && ltb (suc serial) nodes_max)
        then elim (bdd_lookup level (map left) (map right) s) [
          | returned i t ↦ next (update map (suc serial) i) (suc serial) rest t
          | exited t ↦ exited t
          | diverged ↦ diverged
        ]
        else diverged
  ]
]

-- The while loop of bdd_deserialize, with fuel for its rounds.
unfoldable pub bdd_deserialize : ℕ → IndexMap → ℕ → Bytes → M Pointer
bdd_deserialize zero map serial bytes s = diverged
bdd_deserialize (suc fuel) map serial [] s = returned (some (map serial)) s
bdd_deserialize (suc fuel) map serial (c ∷ rest) s =
    if c == 64
    then read_leaf (bdd_deserialize fuel) map serial rest s
    else if leb 65 c && leb c 96
    then read_node (bdd_deserialize fuel) (c - 64) map serial rest s
    else returned none s

-- ===== src/Bdd/Store.antt =====
-- The node table and the hash map of hw1/src/bdd.c, and bdd_lookup over them.
use cse320_spring.Base.{
  ℕ, zero, suc, ◌+◌, ◌*◌, ◌%◌, Bool, ◌&&◌, Option, none, some, ltb, leb, ◌==◌, if◌then◌else◌,
}

-- `BDD_NODE`. The level is a `char` of at most 32, the children are indices of the table.
pub record Node : Type 0 where
  pub level : ℕ
  pub left : ℕ
  pub right : ℕ

-- BDD_LEVELS_MAX, BDD_NUM_LEAVES, BDD_NODES_MAX and BDD_HASH_SIZE.
abbrev pub levels_max : ℕ
levels_max = 32

abbrev pub num_leaves : ℕ
num_leaves = 256

abbrev pub nodes_max : ℕ
nodes_max = 1048576

abbrev pub hash_size : ℕ
hash_size = 2097169

-- `bdd_nodes`, `bdd_hash_map` (a pointer into the node table is its index, NULL is `none`) and the
-- static `BDD_NODE_INDEX` of bdd_lookup.
pub record Store : Type 0 where
  pub nodes : ℕ → Node
  pub hash_map : ℕ → Option ℕ
  pub next : ℕ

-- Static storage is zeroed.
abbrev pub zero_node : Node
zero_node = record { level = 0; left = 0; right = 0 }

abbrev pub initial : Store
initial = record { nodes = λ _. zero_node; hash_map = λ _. none; next = num_leaves }

-- An `int` that is an index of the node table or -1, which is `none`.
abbrev pub Index : Type 0
Index = Option ℕ

-- A run that returns, that calls exit(EXIT_FAILURE), or that has used up its fuel.
pub data Run (A : Type 0) : Type 0 where
  returned : A → Store → Run A
  exited : Store → Run A
  diverged : Run A

abbrev pub M : Type 0 → Type 0
M A = Store → Run A

infixl 5 ◌>>=◌
abbrev pub ◌>>=◌ : {A B : Type 0} → M A → (A → M B) → M B
◌>>=◌ m f s = elim (m s) [ returned a s' ↦ f a s' | exited s' ↦ exited s' | diverged ↦ diverged ]

abbrev pub return : {A : Type 0} → A → M A
return a s = returned a s

abbrev pub update {ℓ} : {A : Type ℓ} → (ℕ → A) → ℕ → A → ℕ → A
update f k v i = if i == k then v else f i

-- `hash`: eight bits of each child, and four bits of the level above them.
unfoldable pub hash : Node → ℕ
hash n = n.left % 256 * 256 + n.right % 256 + n.level % 16 * 65536

-- `equal_node` and `null_node`.
unfoldable pub equal_node : Node → Node → Bool
equal_node a b = a.level == b.level && a.left == b.left && a.right == b.right

unfoldable pub null_node : Node → Bool
null_node n = n.level == 0 && n.left == 0 && n.right == 0

-- The free slot `k` was met: the new node goes to the next entry of the table, if there is one.
unfoldable pub insert : ℕ → Node → M Index
unfolding null_node
insert k n s =
    if ltb s.next nodes_max && null_node (s.nodes s.next)
    then returned (some s.next) (record {
      nodes = update s.nodes s.next n;
      hash_map = update s.hash_map k (some s.next);
      next = s.next + 1;
    })
    else exited s

-- The do loop, from the slot `i`, with fuel for its rounds.
unfoldable pub probe : ℕ → ℕ → ℕ → Node → M Index
unfolding insert equal_node
probe zero start i n s = diverged
probe (suc fuel) start i n s =
    let i' = (i + 1) % hash_size in
    let rest = probe fuel start i' n s in
    elim (s.hash_map i) [
      | none ↦ insert i n s
      | some j ↦
          if equal_node n (s.nodes j)
          then returned (some j) s
          else if i' == start
          then returned none s
          else rest
    ]

-- `bdd_lookup`, which is called at levels that are not negative. One round for each slot is fuel
-- enough.
unfoldable pub bdd_lookup : ℕ → Index → Index → M Index
unfolding probe hash
bdd_lookup level none right s = returned none s
bdd_lookup level (some l) none s = returned none s
bdd_lookup level (some l) (some r) s =
    if ltb levels_max level
    then returned none s
    else if leb nodes_max l
    then returned none s
    else if leb nodes_max r
    then returned none s
    else if l == r
    then returned (some l) s
    else let n : Node = record { level = level; left = l; right = r } in
      probe hash_size (hash n) (hash n) n s

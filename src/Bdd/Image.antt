-- ===== src/Bdd/Image.antt =====
-- Images as diagrams: the functions of hw1/src/bdd.c that read and transform a node, and the raster
-- helpers of hw1/src/custom_functions.c. A node pointer is its index in the node table.
use cse320_spring.Base.{
  ℕ, zero, suc, ◌+◌, ◌-◌, ◌/◌, ◌%◌, ◌^◌, Bool, true, false, ◌&&◌, Option, none, some, ltb, leb,
  ◌==◌, if◌then◌else◌,
}
use cse320_spring.Base.Int.{ℤ, pos, pos_part, is_neg, ◌+ℤ◌, ◌*ℤ◌}
use cse320_spring.Bdd.Store.{Node, Index, Run, returned, diverged, M, ◌>>=◌, num_leaves, bdd_lookup}

-- The part of a raster that bdd_apply has narrowed the search to.
pub record Window : Type 0 where
  pub left : ℕ
  pub right : ℕ
  pub top : ℕ
  pub bottom : ℕ

abbrev pub is_odd : ℕ → Bool
is_odd n = n % 2 == 1

-- One halving: columns at an odd level, rows at an even one. True is the right or lower half.
unfoldable pub halve : ℕ → ℕ → ℕ → Window → Bool × Window
halve level r c w =
    if is_odd level
    then (let mid = (w.right + w.left) / 2 in
        if ltb c mid then (false, record w { right = mid }) else (true, record w { left = mid }))
    else (let mid = (w.bottom + w.top) / 2 in
        if ltb r mid then (false, record w { bottom = mid }) else (true, record w { top = mid }))

abbrev pub child : Bool → Node → ℕ
child b n = if b then n.right else n.left

-- The loop of bdd_apply, with fuel for its rounds; `none` is fuel used up.
unfoldable pub apply_loop : ℕ → (ℕ → Node) → ℕ → ℕ → ℕ → Window → ℕ → Option ℕ
apply_loop zero nodes r c level w i = none
apply_loop (suc fuel) nodes r c level w i =
    let n = nodes i in
    let (b, w') = halve level r c w in
    let here = level == n.level in
    let rest = apply_loop fuel nodes r c (level - 1) w' (if here then child b n else i) in
    if ltb (child b n) num_leaves && here then some (child b n) else rest

unfoldable pub bdd_apply : (ℕ → Node) → ℕ → ℕ → ℕ → Option ℕ
bdd_apply nodes i r c =
    let level = (nodes i).level in
    if level == 0
    then some (i % 256)
    else apply_loop (suc level) nodes r c level
        (record { left = 0; right = 2 ^ (level - level / 2); top = 0; bottom = 2 ^ (level / 2) }) i

-- `bdd_map`, with fuel for the depth of its calls.
unfoldable pub bdd_map : ℕ → (ℕ → ℕ) → ℕ → M Index
bdd_map zero func i s = diverged
bdd_map (suc fuel) func i s =
    let n = s.nodes i in
    let inner : Run Index =
      (do
        left ← bdd_map fuel func n.left
        right ← bdd_map fuel func n.right
        bdd_lookup n.level left right)
        s in
    if n.level == 0 then returned (some (func i)) s else inner

unfoldable pub node_at : ℕ → M Node
node_at i s = returned (s.nodes i) s

-- The choice that bdd_rotate makes four times: the grandchild `sub`, or, where the child skips a
-- level, the child itself. The calls of bdd_rotate are those of `rec`.
unfoldable pub rotate_quarter : (ℕ → ℕ → M Index) → ℕ → ℕ → ℕ → M Index
rotate_quarter rec i sub level = do
  n ← node_at i
  if n.level == level - 1 then rec sub (level - 2) else rec i (level - 2)

-- The four smaller squares of a node at the level itself.
unfoldable pub rotate_square : (ℕ → ℕ → M Index) → Node → ℕ → M Index
rotate_square rec n level = do
  top ← node_at n.left
  bottom ← node_at n.right
  let top_left = if ltb n.left num_leaves then n.left else top.left
  let top_right = if ltb n.left num_leaves then n.left else top.right
  let bottom_left = if ltb n.right num_leaves then n.right else bottom.left
  let bottom_right = if ltb n.right num_leaves then n.right else bottom.right
  new_top ← do
    new_top_left ← rotate_quarter rec n.left top_right level
    new_top_right ← rotate_quarter rec n.right bottom_right level
    bdd_lookup (level - 1) new_top_left new_top_right
  new_bottom ← do
    new_bottom_left ← rotate_quarter rec n.left top_left level
    new_bottom_right ← rotate_quarter rec n.right bottom_left level
    bdd_lookup (level - 1) new_bottom_left new_bottom_right
  bdd_lookup level new_top new_bottom

-- A node one level below: its upper and lower halves are the same.
unfoldable pub rotate_halves : (ℕ → ℕ → M Index) → Node → ℕ → M Index
rotate_halves rec n level = do
  new_top ← rec n.right (level - 2)
  new_bottom ← rec n.left (level - 2)
  bdd_lookup level new_top new_bottom

-- `bdd_rotate`, with fuel for the depth of its calls.
unfoldable pub bdd_rotate : ℕ → ℕ → ℕ → M Index
bdd_rotate zero i level s = diverged
bdd_rotate (suc fuel) i level s =
    let n = s.nodes i in
    let square = rotate_square (bdd_rotate fuel) n level s in
    let halves = rotate_halves (bdd_rotate fuel) n level s in
    let skip = bdd_rotate fuel i (level - 2) s in
    if n.level == 0
    then returned (some i) s
    else if n.level == level
    then square
    else if n.level == level - 1
    then halves
    else skip

-- `bdd_zoom`, whose parameter `level` is not used, with fuel for the depth of its calls. Doubled,
-- a factor of at most 16 fits a `char`.
unfoldable pub bdd_zoom : ℕ → ℤ → ℕ → M Index
bdd_zoom zero factor i s = diverged
bdd_zoom (suc fuel) factor i s =
    let n = s.nodes i in
    let f = pos 2 *ℤ factor in
    let new_level = pos n.level +ℤ f in
    let inner : Run Index =
      (do
        left ← bdd_zoom fuel factor n.left
        right ← bdd_zoom fuel factor n.right
        bdd_lookup (pos_part new_level) left right)
        s in
    if n.level == 0
    then returned (some i) s
    else if is_neg f && leb (pos_part new_level) 0
    then returned (some (if i == 0 then i else 255)) s
    else inner

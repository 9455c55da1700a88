-- ===== src/Alloc/Memory.antt =====
-- The heap of hw3, and the free lists: hw3/include/sfmm.h and hw3/src/custom_functions.c.
use cse320_spring.Base.{
  ℕ, zero, suc, ◌+◌, ◌-◌, ◌*◌, ◌/◌, ◌%◌, ◌^◌, Bool, true, false, not, ◌||◌, ltb, leb, ◌==◌,
  if◌then◌else◌, Option, some, none,
}
use cse320_spring.Base.Maps.{update}

-- PAGE_SZ.
abbrev pub page_sz : ℕ
page_sz = 8192

-- The memory, by the address of each row of eight bytes: headers, footers, payload and free lists.
-- `start` and `stop` are what sf_mem_start and sf_mem_end give, and `lists` is the address of
-- `sf_free_list_heads`.
pub record Memory : Type 0 where
  pub word : ℕ → ℕ
  pub start : ℕ
  pub stop : ℕ
  pub lists : ℕ
  pub errno : ℕ

-- `&sf_free_list_heads[index]`; a block structure has 24 bytes.
abbrev pub list_head : ℕ → Memory → ℕ
list_head index m = m.lists + 24 * index

abbrev pub poke : ℕ → ℕ → Memory → Memory
poke a h m = record m { word = update m.word a h }

-- Parts of a header: `& ~0x3`, `& THIS_BLOCK_ALLOCATED` and `& PREV_BLOCK_ALLOCATED`.
abbrev pub block_size : ℕ → ℕ
block_size h = h - h % 4

abbrev pub this_allocated : ℕ → ℕ
this_allocated h = h % 2

abbrev pub prev_allocated : ℕ → ℕ
prev_allocated h = h / 2 % 2 * 2

-- `h |= THIS_BLOCK_ALLOCATED` and `h |= PREV_BLOCK_ALLOCATED`.
abbrev pub set_this : ℕ → ℕ
set_this h = h - h % 2 + 1

abbrev pub set_prev : ℕ → ℕ
set_prev h = h - prev_allocated h + 2

-- The footer of a block: a copy of its header in its last row.
abbrev pub put_footer : ℕ → Memory → Memory
put_footer block m = poke (block + block_size (m.word block) - 8) (m.word block) m

-- `block->body.links.next` and `block->body.links.prev`.
abbrev pub next_of : ℕ → Memory → ℕ
next_of block m = m.word (block + 8)

abbrev pub prev_of : ℕ → Memory → ℕ
prev_of block m = m.word (block + 16)

-- The two assignments that take a block out of its free list, and the four that put it behind a head.
unfoldable pub unlink_block : ℕ → Memory → Memory
unlink_block block m =
    let m₁ = poke (prev_of block m + 8) (next_of block m) m in
    poke (next_of block m₁ + 16) (prev_of block m₁) m₁

unfoldable pub link_block : ℕ → ℕ → Memory → Memory
link_block block head m =
    let m₁ = poke (block + 8) (next_of head m) m in
    let m₂ = poke (block + 16) head m₁ in
    let m₃ = poke (next_of head m₂ + 16) block m₂ in poke (head + 8) block m₃

-- The while loop for the class of a size, from a class on.
unfoldable pub class_from : ℕ → ℕ → ℕ → ℕ
class_from zero class size = class
class_from (suc rounds) class size =
    if leb size (32 * 2 ^ class) then class else class_from rounds (suc class) size

-- The first part of sf_add_to_free_list: the block after `block` is free and is taken over, or it is told
-- that the block before it is free. The size is that of `block` with what was taken over.
unfoldable pub join_next : ℕ → Memory → ℕ × Memory
join_next block m =
    let size = block_size (m.word block) in
    let after = block + size in
    if this_allocated (m.word after) == 0
    then ((size + block_size (m.word after)) % 2 ^ 64, unlink_block after m)
    else (size, poke after (m.word after - prev_allocated (m.word after)) m)

-- The second part: the block before `block` is free and takes it over, or the header of `block` is
-- written. The address is that of the block that is free now, which also gets its footer.
unfoldable pub join_prev : ℕ → ℕ → Memory → ℕ × Memory
join_prev block size m =
    if prev_allocated (m.word block) == 0
    then (let before = block - block_size (m.word (block - 8)) in
        (
          before,
          put_footer before (unlink_block before (poke before ((m.word before + size) % 2 ^ 64) m)),
        ))
    else (block, put_footer block (poke block (size + prev_allocated (m.word block)) m))

-- The third part: the free block goes to the list of its class, the last one to the wilderness.
unfoldable pub file_block : ℕ → Memory → Memory
file_block block m =
    let size = block_size (m.word block) in
    let class = if block + size == m.stop - 8 then 7 else class_from 7 0 size in
    link_block block (list_head class m) m

-- `sf_add_to_free_list`.
unfoldable pub sf_add_to_free_list : ℕ → Memory → Memory
sf_add_to_free_list block m =
    let (size, m₁) = join_next block m in
    let (free, m₂) = join_prev block size m₁ in file_block free m₂

-- `sf_allocate_block`, which returns `block`. The size is a multiple of 16, so that `|` adds.
unfoldable pub sf_allocate_block : ℕ → ℕ → Memory → Memory
sf_allocate_block block size m =
    let h = m.word block in
    let length = block_size h in
    let rest = block + size in
    let left = (length + 2 ^ 64 - size) % 2 ^ 64 in
    if ltb left 32
    then (let m₁ = poke block (set_this h) m in
        poke (block + length) (set_prev (m₁.word (block + length))) m₁)
    else let m₁ = poke block (size + 1 + prev_allocated h) m in
      sf_add_to_free_list rest (put_footer rest (poke rest (left + 2) m₁))

-- `sf_check_pointer`, which is true where it returns 0. NULL is 0.
unfoldable pub sf_check_pointer : ℕ → Memory → Bool
sf_check_pointer pp m =
    let block = pp - 8 in
    let h = m.word block in
    let size = block_size h in
    if pp == 0
    then false
    else if not (pp % 16 == 0)
    then false
    else if ltb pp m.start
    then false
    else if ltb block (m.start + 40) || leb (m.stop - 8) block
    then false
    else if not (size % 16 == 0)
    then false
    else if ltb size 32
    then false
    else if this_allocated h == 0
    then false
    else if m.word (block + size - 8) == h
    then false
    else if ltb (m.stop - 8) (block + size)
    then false
    else if prev_allocated h == 0
    then this_allocated (m.word (block - 8)) == 0
    else true

-- `sf_free`, where `none` stands for abort().
unfoldable pub sf_free : ℕ → Memory → Option Memory
sf_free pp m = if sf_check_pointer pp m then some (sf_add_to_free_list (pp - 8) m) else none

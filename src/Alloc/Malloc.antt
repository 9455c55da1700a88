-- ===== src/Alloc/Malloc.antt =====
-- The allocation functions of hw3: hw3/src/sfmm.c and the rest of hw3/src/custom_functions.c.
use cse320_spring.Base.{
  ℕ, zero, suc, ◌+◌, ◌-◌, ◌*◌, ◌/◌, ◌%◌, ◌^◌, Bool, true, false, not, ◌||◌, ◌&&◌, ltb, leb, ◌==◌,
  if◌then◌else◌, Option, some, none,
}
use cse320_spring.Alloc.Memory.{
  Memory, page_sz, list_head, poke, next_of, block_size, prev_allocated, put_footer, unlink_block,
  class_from, sf_add_to_free_list, sf_allocate_block, sf_check_pointer, sf_free,
}

abbrev pub einval : ℕ
einval = 22

-- How a call ends: with an address, by abort(), or not within the rounds that it is given.
pub data Outcome : Type 0 where
  returned : ℕ → Memory → Outcome
  aborted : Outcome
  unfinished : Outcome

-- The bytes in front of `current` that an alignment needs.
abbrev pub padding_for : ℕ → ℕ → ℕ
padding_for current align =
    let padding = (align - (current + 8) % align) % align in
    if not (padding == 0) && ltb padding 32 then padding + align else padding

-- The padding becomes a free block, and what is behind it is allocated. The sizes are multiples of 16.
unfoldable pub split_padding : ℕ → ℕ → ℕ → Memory → ℕ × Memory
split_padding pad_block padding size m =
    let current = pad_block + padding in
    let h = (m.word pad_block + 2 ^ 64 - padding) % 2 ^ 64 in
    let m₁ = poke current (h - prev_allocated h) m in
    let m₂ = poke pad_block (padding + prev_allocated (m₁.word pad_block)) m₁ in
    (
      current,
      sf_add_to_free_list pad_block (sf_allocate_block current size (put_footer pad_block m₂)),
    )

-- The do-while loop of `sf_check_free_list`. The address is 0 for NULL.
unfoldable pub search_list : ℕ → ℕ → ℕ → ℕ → ℕ → Memory → Outcome
search_list zero list current size align m = unfinished
search_list (suc rounds) list current size align m =
    let padding = padding_for current align in
    let after = next_of current m in
    if leb ((size + padding) % 2 ^ 64) (block_size (m.word current))
    then (if padding == 0
        then returned current (sf_allocate_block current size (unlink_block current m))
        else let taken = split_padding current padding size (unlink_block current m) in
          returned taken.0 taken.1)
    else if after == list
    then returned 0 m
    else search_list rounds list after size align m

-- `sf_check_free_list`.
unfoldable pub sf_check_free_list : ℕ → ℕ → ℕ → ℕ → Memory → Outcome
sf_check_free_list rounds size index align m =
    let list = list_head index m in
    if next_of list m == list
    then returned 0 m
    else search_list rounds list (next_of list m) size align m

-- The size of the block for a request: with its header, a multiple of 16, and 32 at least.
unfoldable pub actual_size : ℕ → ℕ
actual_size size =
    let actual = (8 + size) % 2 ^ 64 in
    let rounded = if actual % 16 == 0 then actual else (actual / 16 + 1) * 16 % 2 ^ 64 in
    if ltb rounded 32 then 32 else rounded

-- The loop that makes the free lists empty.
unfoldable pub clear_lists : ℕ → ℕ → Memory → Memory
clear_lists zero index m = m
clear_lists (suc rounds) index m =
    let head = list_head index m in
    clear_lists rounds (suc index) (poke (head + 16) head (poke (head + 8) head m))

-- `x & y` on a number of bits.
unfoldable pub and_bits : ℕ → ℕ → ℕ → ℕ
and_bits zero x y = 0
and_bits (suc bits) x y = x % 2 * (y % 2) + 2 * and_bits bits (x / 2) (y / 2)

-- memcpy of the rows of two areas that have none in common.
abbrev pub memcpy : ℕ → ℕ → ℕ → Memory → Memory
memcpy to from length m = record m {
  word = λ r. if leb to r && ltb r (to + length) then m.word (from + (r - to)) else m.word r;
}

-- A return after sf_free, which may abort.
abbrev pub freed_outcome : ℕ → Option Memory → Outcome
freed_outcome block none = aborted
freed_outcome block (some m) = returned block m

-- sf_mem_grow adds a page to the heap, and gives its address or 0.
module _ (sf_mem_grow : Memory → ℕ × Memory) where
  unfoldable pub sf_initialize_heap : Memory → Memory
  sf_initialize_heap m =
      let m₁ = (sf_mem_grow (clear_lists 8 0 m)).1 in
      let free_block = m₁.start + 8 + 32 in
      let m₂ = poke (m₁.stop - 8) 1 (poke (m₁.start + 8) 33 m₁) in
      sf_add_to_free_list free_block (put_footer free_block (poke free_block (page_sz - 48 + 2) m₂))

  -- It is false where the function returns -1.
  unfoldable pub sf_increase_wilderness : Memory → Bool × Memory
  sf_increase_wilderness m =
      let old = m.stop - 8 in
      let grown = sf_mem_grow m in
      let m₁ = grown.1 in
      let m₂ = poke (m₁.stop - 8) (m₁.word old) m₁ in
      if grown.0 == 0
      then (false, m₁)
      else if prev_allocated (m₂.word old) == 0
      then (let block = old - block_size (m₂.word (old - 8)) in
          (true, put_footer block (poke block ((m₂.word block + page_sz) % 2 ^ 64) m₂)))
      else (true, sf_add_to_free_list old (put_footer old (poke old (page_sz + 2) m₂)))

  -- The loop over the free lists from a class on.
  unfoldable pub search_lists : ℕ → ℕ → ℕ → ℕ → ℕ → Memory → Outcome
  search_lists rounds zero place size align m = returned 0 m
  search_lists rounds (suc places) place size align m =
      elim (sf_check_free_list rounds size place align m) [
        | returned block m₁ ↦
            let rest = search_lists rounds places (suc place) size align m₁ in
            if block == 0 then rest else returned block m₁
        | aborted ↦ aborted
        | unfinished ↦ unfinished
      ]

  -- The loop that adds pages until there is a block, which ends with the address of the payload or 0.
  unfoldable pub grow_until : ℕ → ℕ → ℕ → ℕ → Memory → Outcome
  grow_until rounds zero size align m = unfinished
  grow_until rounds (suc pages) size align m =
      let grown = sf_increase_wilderness m in
      elim grown.0 [
        | false ↦ returned 0 grown.1
        | true ↦ elim (sf_check_free_list rounds size 7 align grown.1) [
          | returned block m₁ ↦ elim (block == 0) [
            | true ↦ grow_until rounds pages size align m₁
            | false ↦ returned (block + 8) m₁
          ]
          | aborted ↦ aborted
          | unfinished ↦ unfinished
        ]
      ]

  -- `sf_generalize_allocation`.
  unfoldable pub sf_generalize_allocation : ℕ → ℕ → ℕ → ℕ → Memory → Outcome
  sf_generalize_allocation rounds pages size align m =
      let m₁ = if m.start == m.stop then sf_initialize_heap m else m in
      let actual = actual_size size in
      let class = class_from 7 0 actual in
      if size == 0
      then returned 0 m₁
      else elim (search_lists rounds (8 - class) class actual align m₁) [
        | returned block m₂ ↦ elim (block == 0) [
          | true ↦ grow_until rounds pages actual align m₂
          | false ↦ returned (block + 8) m₂
        ]
        | aborted ↦ aborted
        | unfinished ↦ unfinished
      ]

  -- `sf_malloc` and `sf_memalign`.
  unfoldable pub sf_malloc : ℕ → ℕ → ℕ → Memory → Outcome
  sf_malloc rounds pages size m = sf_generalize_allocation rounds pages size 16 m

  unfoldable pub sf_memalign : ℕ → ℕ → ℕ → ℕ → Memory → Outcome
  sf_memalign rounds pages size align m =
      if ltb align 32 || not (and_bits 64 align (align - 1) == 0)
      then returned 0 (record m { errno = einval })
      else sf_generalize_allocation rounds pages size align m

  -- `sf_realloc`.
  unfoldable pub sf_realloc : ℕ → ℕ → ℕ → ℕ → Memory → Outcome
  sf_realloc rounds pages pp rsize m =
      let size = block_size (m.word (pp - 8)) in
      let actual = actual_size rsize in
      if rsize == 0
      then freed_outcome 0 (sf_free pp m)
      else if not (sf_check_pointer pp m)
      then returned 0 (record m { errno = einval })
      else if leb actual size
      then returned pp (sf_allocate_block (pp - 8) actual m)
      else elim (sf_malloc rounds pages rsize m) [
        | returned block m₁ ↦
            if block == 0
            then returned 0 m₁
            else freed_outcome block (sf_free pp (memcpy block pp (size - 8) m₁))
        | aborted ↦ aborted
        | unfinished ↦ unfinished
      ]

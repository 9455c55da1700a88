-- ===== src/Alloc/Tests.antt =====
-- Runs of the allocator of hw3, and the heaps that its theorems are applied to.
use cse320_spring.Base.{ℕ, ◌+◌, ◌-◌, ◌^◌, ◌≡◌, refl, true, false, [], ◌∷◌, ◌==◌, if◌then◌else◌}
use cse320_spring.Alloc.Memory.{
  Memory, class_from, unlink_block, link_block, join_next, join_prev, file_block,
  sf_add_to_free_list, sf_allocate_block,
}
use cse320_spring.Alloc.Malloc.{
  Outcome, returned, aborted, unfinished, actual_size, sf_malloc, sf_memalign, split_padding,
  search_list, sf_check_free_list, clear_lists, sf_initialize_heap, search_lists,
  sf_generalize_allocation, and_bits,
}
use cse320_spring.Alloc.Among.{freed}
use cse320_spring.Alloc.Realloc.{shrunk}

-- An empty heap at 4096, in front of which the free lists stand, and a heap that grows to two pages.
abbrev no_heap : Memory
no_heap = record { word = λ r. 0; start = 4096; stop = 4096; lists = 1024; errno = 0 }

abbrev two_pages : Memory → ℕ × Memory
two_pages m = if m.stop == 20480 then (0, m) else (m.stop, record m { stop = m.stop + 8192 })

abbrev address_of : Outcome → ℕ
address_of (returned a m) = a
address_of aborted = 1
address_of unfinished = 2

abbrev memory_of : Outcome → Memory
memory_of (returned a m) = m
memory_of aborted = no_heap
memory_of unfinished = no_heap

abbrev first_call : Outcome
first_call = sf_malloc two_pages 4 4 100 no_heap

sf_malloc_run : address_of first_call ≡ 4144
unfolding sf_malloc sf_generalize_allocation sf_initialize_heap clear_lists sf_add_to_free_list
    join_next join_prev file_block class_from link_block unlink_block actual_size search_lists
    sf_check_free_list search_list sf_allocate_block
sf_malloc_run = refl

all_merged : freed ((32, false) ∷ []) 64 ((48, false) ∷ []) ≡ (144, false) ∷ []
unfolding freed
all_merged = refl

cut_and_merged :
    shrunk ((32, false) ∷ []) (actual_size 20) 64 ((48, false) ∷ [])
    ≡ (32, false) ∷ (32, true) ∷ (80, false) ∷ []
unfolding shrunk freed actual_size
cut_and_merged = refl

-- sf_malloc takes a size that is too large for a block of 32 bytes.
too_large : actual_size (2 ^ 64 - 9) ≡ 32
unfolding actual_size
too_large = refl

sf_memalign_run : address_of (sf_memalign two_pages 4 4 100 64 no_heap) ≡ 4224
unfolding sf_memalign and_bits sf_generalize_allocation sf_initialize_heap clear_lists
    sf_add_to_free_list join_next join_prev file_block class_from link_block unlink_block
    actual_size search_lists sf_check_free_list search_list sf_allocate_block split_padding
sf_memalign_run = refl

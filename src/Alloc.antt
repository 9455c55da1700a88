-- ===== src/Alloc.antt =====
-- The dynamic memory allocator of hw3.
pub mod Memory
pub mod Malloc
pub mod Blocks
pub mod Links
pub mod Coalesce
pub mod Release
pub mod Freed
pub mod Among
pub mod Cycle
pub mod Reach
pub mod Sizes
pub mod Sample
pub mod Ring
pub mod Rings
pub mod Lists
pub mod Ringed
pub mod Check
pub mod Heap
pub mod Apart
pub mod Free
pub mod Split
pub mod Shrink
pub mod Realloc
mod Tests

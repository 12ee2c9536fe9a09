-- ===== src/MemMgr.antt =====
-- PA3/src/memmgr.c: the dynamic memory manager. The heap is read and written in words of eight
-- bytes, each at the address of its first byte.
pub mod Words
pub mod Blocks
pub mod Manager
pub mod Tiles
pub mod BestFit
pub mod Rewrite
pub mod Place
pub mod Neighbours
pub mod Merge
pub mod Heap
pub mod Coalesce
pub mod Free
pub mod Extend
pub mod Init
pub mod Obtain
pub mod Malloc
pub mod Realloc
pub mod Resize
pub mod Check
pub mod Held
pub mod Session
pub mod FreeList

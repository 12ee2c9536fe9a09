-- ===== src/Tests/Memory.antt =====
-- Runs of PA3/src/memmgr.c.
use sysprog.Base.{ℕ, ◌+◌, ◌^◌, ◌≤◌, ◌≡◌, refl, true, false, some, List, [], ◌∷◌, ◌++◌, arith}
use sysprog.Base.Process.{ok}
use sysprog.MemMgr.Words.{Mem, free, alloc, pack, put, chunksize}
use sysprog.MemMgr.Blocks.{Env, fp_implicit, bf_get_free_block_implicit}
use sysprog.MemMgr.Manager.{Manager, request, mm_malloc, mm_free}
use sysprog.MemMgr.Tiles.{Block, block, Tiles}
use sysprog.MemMgr.BestFit.{Answer, bf_get_free_block_implicit-Answer}
use sysprog.MemMgr.Heap.{IsHeap, Grants}
use sysprog.MemMgr.Init.{mm_init, mm_init-IsHeap}
use sysprog.MemMgr.Check.{Verdict, mm_check, coherent, rows, mm_check-rows}
use sysprog.MemMgr.Realloc.{mm_realloc}
use sysprog.MemMgr.Resize.{Resized, mm_realloc-shrink, mm_realloc-grow}
use sysprog.MemMgr.Free.{Freed, mm_free-Freed}
use sysprog.MemMgr.Malloc.{Malloced, mm_malloc-Malloced}
use sysprog.Tests.Segment.{clean, clean-IsSegment}

abbrev pub env : Env
env = record { first = 2 ^ 40; last = 2 ^ 40 + 32; mprotect = λ a l prot. true }

pub env-Grants : Grants env
env-Grants a l prot = refl

abbrev unset : Manager
unset = record {
  ds = clean;
  mem = λ a. 0;
  policy = fp_implicit;
  ds_heap_start = 0;
  ds_heap_brk = 0;
  heap_start = 0;
  heap_end = 0;
  pagesize = 0;
  initialized = false;
}

mm_init-IsHeap_example :
    (g' : Manager) × (n : ℕ) × (mm_init env fp_implicit unset ≡ ok g')
    × IsHeap g' (block n free ∷ [])
    × (chunksize ≤ n + 79)
mm_init-IsHeap_example =
    mm_init-IsHeap env env-Grants unset clean-IsSegment refl (omega arith) (omega arith)
      (omega arith) (omega arith)

-- Three blocks, of which the second is allocated, and the sentinels.
abbrev pub words : Mem
words = put 8216 1 (
    put 8224 64 (
      put 8280 64
        (put 8288 97 (put 8376 97 (put 8384 65312 (put 73688 65312 (put 73696 1 (λ a. 0))))))))

abbrev pub used : Manager
used = record {
  ds = record clean { ds_heap_brk = 8192 + 2 ^ 16; ds_num_sbrk = 1 };
  mem = words;
  policy = fp_implicit;
  ds_heap_start = 8192;
  ds_heap_brk = 8192 + 2 ^ 16;
  heap_start = 8224;
  heap_end = 73696;
  pagesize = 4096;
  initialized = true;
}

abbrev pub before : List Block
before = block 64 free ∷ []

abbrev pub behind : List Block
behind = block 65312 free ∷ []

used-Tiles : Tiles words 8224 (before ++ block 96 alloc ∷ behind) 73696
unfolding put pack
used-Tiles = (
  (refl, refl, (omega arith, refl)),
  ((refl, refl, (omega arith, refl)), ((refl, refl, (omega arith, refl)), refl)),
)

pub used-IsHeap : IsHeap used (before ++ block 96 alloc ∷ behind)
unfolding put pack
used-IsHeap = record {
  ready = refl;
  implicit = refl;
  blocks = used-Tiles;
  first_tag = refl;
  last_tag = refl;
  aligned = refl;
  low = omega arith;
  end_at_brk = refl;
  segment = record {
    initialized = refl;
    low_guard = refl;
    high_guard = refl;
    above = omega arith;
    below = omega arith;
    fits = omega arith;
  };
  high = omega arith;
}

-- A request of 1000 bytes.
mm_malloc-Malloced_example :
    (ptr : ℕ) × (g' : Manager) × (mm_malloc env 1000 used ≡ ok (ptr, g'))
    × Malloced used (before ++ block 96 alloc ∷ behind) (request 1000) ptr g'
    × (1016 ≤ request 1000)
mm_malloc-Malloced_example =
    mm_malloc-Malloced env env-Grants used (before ++ block 96 alloc ∷ behind) 1000 used-IsHeap
      (omega arith) (omega arith)

-- The block between the two free ones is freed.
mm_free-Freed_example :
    (g' : Manager) × (mm_free env 8296 used ≡ ok g') × Freed used before 96 behind g'
mm_free-Freed_example = mm_free-Freed env env-Grants used before 96 behind used-IsHeap

-- The search for 96 bytes.
bf_get_free_block_implicit-Answer_example :
    (r : ℕ) × (bf_get_free_block_implicit 5 8224 96 words ≡ some r)
    × Answer 8224 96 (before ++ block 96 alloc ∷ behind) r
unfolding put pack
bf_get_free_block_implicit-Answer_example =
    bf_get_free_block_implicit-Answer 5 words 96 8224 73696 (before ++ block 96 alloc ∷ behind)
      used-Tiles refl (omega arith) (omega arith) (omega arith)

-- The allocated block is cut down to 10 bytes.
mm_realloc-shrink_example :
    (g' : Manager) × (mm_realloc env 8296 10 used ≡ ok (8296, g'))
    × Resized used before 96 (request 10) (request 10) behind g'
mm_realloc-shrink_example =
    mm_realloc-shrink env used before 96 behind 10 used-IsHeap (omega arith) (omega arith)
      (omega arith)

-- It grows to 200 bytes over the free block behind it.
mm_realloc-grow_example :
    (g' : Manager) × (mm_realloc env 8296 200 used ≡ ok (8296, g'))
    × Resized used before (96 + 65312) (request 200) 96 [] g'
mm_realloc-grow_example =
    mm_realloc-grow env used before 96 65312 [] 200 used-IsHeap (omega arith) (omega arith)
      (omega arith) (omega arith)

-- The report on the three blocks.
mm_check-rows_example :
    (v : Verdict) × (mm_check used ≡ ok (rows words 8224 (before ++ block 96 alloc ∷ behind), v))
    × (coherent used v ≡ true)
mm_check-rows_example = mm_check-rows used (before ++ block 96 alloc ∷ behind) used-IsHeap

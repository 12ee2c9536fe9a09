-- ===== src/Tests/Session.antt =====
-- A run of PA3/src/memmgr.c with a release.
use sysprog.Base.{ℕ, List, [], inl, arith, ◌≡◌, refl, ◌∷◌, ◌++◌}
use sysprog.Base.Process.{ok}
use sysprog.MemMgr.Words.{alloc, pack, put}
use sysprog.MemMgr.Manager.{Manager, request, mm_malloc, mm_free}
use sysprog.MemMgr.Tiles.{Block, block, Tiles}
use sysprog.MemMgr.Free.{mm_free-Freed}
use sysprog.MemMgr.Session.{Formed, Live, done, malloc, release}
use sysprog.MemMgr.Session.Runs.{StillHolds, Steps-Formed, Steps-StillHolds}
use sysprog.MemMgr.Heap.{IsHeap}
use sysprog.MemMgr.Realloc.{mm_calloc, mm_realloc}
use sysprog.MemMgr.Held.Calloc.{Calloced, mm_calloc-Calloced}
use sysprog.MemMgr.Held.Move.{Moved, mm_realloc-move}
use sysprog.Tests.Memory.{env, env-Grants, used, before, behind, used-IsHeap}

-- The heap behind the release of the allocated block.
abbrev released : Manager
released = (mm_free-Freed env env-Grants used before 96 behind used-IsHeap).0

release_run : mm_free env 8296 used ≡ ok released
release_run = (mm_free-Freed env env-Grants used before 96 behind used-IsHeap).1

held : Live used 8296
held = record { before = before; size = 96; after = behind; heap = used-IsHeap; at = refl }

Steps-Formed_example : Formed released
Steps-Formed_example =
    Steps-Formed env env-Grants (release 8296 held release_run done)
      (before ++ block 96 alloc ∷ behind, used-IsHeap)

-- Two allocated blocks in front of a free one.
abbrev pair : Manager
pair = record used {
  mem = put 8216 1 (
      put 8224 65 (
        put 8280 65
          (put 8288 97 (put 8376 97 (put 8384 65312 (put 73688 65312 (put 73696 1 (λ a. 0))))))));
}

abbrev first : List Block
first = block 64 alloc ∷ []

pair-Tiles : Tiles pair.mem 8224 (first ++ block 96 alloc ∷ behind) 73696
unfolding put pack
pair-Tiles = (
  (refl, refl, (omega arith, refl)),
  ((refl, refl, (omega arith, refl)), ((refl, refl, (omega arith, refl)), refl)),
)

pair-IsHeap : IsHeap pair (first ++ block 96 alloc ∷ behind)
unfolding put pack
pair-IsHeap = record {
  ready = refl;
  implicit = refl;
  blocks = pair-Tiles;
  first_tag = refl;
  last_tag = refl;
  aligned = refl;
  low = omega arith;
  end_at_brk = refl;
  segment = used-IsHeap.segment;
  high = omega arith;
}

empty_run : mm_malloc env 0 pair ≡ ok (0, pair)
unfolding mm_malloc
empty_run = refl

second : Live pair 8296
second = record { before = first; size = 96; after = behind; heap = pair-IsHeap; at = refl }

abbrev pair_released : Manager
pair_released = (mm_free-Freed env env-Grants pair first 96 behind pair-IsHeap).0

pair_run : mm_free env 8296 pair ≡ ok pair_released
pair_run = (mm_free-Freed env env-Grants pair first 96 behind pair-IsHeap).1

-- A call of 0 bytes and the release of the second block leave the first one.
Steps-StillHolds_example : StillHolds pair 0 64 pair_released
Steps-StillHolds_example =
    Steps-StillHolds env env-Grants
      (malloc 0 0 (omega arith) empty_run (release 8296 second pair_run done)) 0 64
      (first ++ block 96 alloc ∷ behind) pair-IsHeap (inl (refl, refl)) (omega arith, tt)

-- Three words of zeros.
mm_calloc-Calloced_example :
    (ptr : ℕ) × (g' : Manager) × (mm_calloc env 3 8 used ≡ ok (ptr, g'))
    × Calloced used (before ++ block 96 alloc ∷ behind) 24 ptr g'
mm_calloc-Calloced_example =
    mm_calloc-Calloced env env-Grants used (before ++ block 96 alloc ∷ behind) 3 8 used-IsHeap
      (omega arith) (omega arith)

-- The block and the free one behind it are too small for 70000 bytes.
mm_realloc-move_example :
    (ptr : ℕ) × (g' : Manager) × (mm_realloc env 8296 70000 used ≡ ok (ptr, g'))
    × Moved used (before ++ block 96 alloc ∷ behind) 64 96 (request 70000) ptr g'
mm_realloc-move_example =
    mm_realloc-move env env-Grants used before 96 behind 70000 used-IsHeap (omega arith)
      (omega arith) (omega arith) (λ e. omega arith)

-- ===== src/MemMgr/Manager.antt =====
-- PA3/src/memmgr.c: the state of the manager and the operations that move the break.
use sysprog.Base.{
  ℕ, ◌+◌, ◌-◌, ◌*◌, ◌/◌, ◌%◌, ◌^◌, Bool, true, false, not, ◌&&◌, Option, none, some, ltb, leb, ◌==◌,
  if◌then◌else◌,
}
use sysprog.Base.Int.{ℤ, pos, negsuc}
use sysprog.Base.Process.{Run, ok, aborts, out_of_fuel, ◌>>=◌}
use sysprog.DataSeg.{DataSeg, failed, ds_sbrk}
use sysprog.MemMgr.Words.{
  Mem, free, alloc, pack, put, get_size, get_status, prev_ptr, next_ptr, next_blkp, align_down,
  write_tags, bs, chunksize, shrinkthld,
}
use sysprog.MemMgr.Blocks.{
  FreelistPolicy, Env, get_free_block, add_free_block, if_explicit, place, merge,
}

-- The globals of memmgr.c, with the data segment and the memory below them.
pub record Manager : Type 0 where
  pub ds : DataSeg
  pub mem : Mem
  pub policy : FreelistPolicy
  pub ds_heap_start : ℕ
  pub ds_heap_brk : ℕ
  pub heap_start : ℕ
  pub heap_end : ℕ
  pub pagesize : ℕ
  pub initialized : Bool

-- A request of `size` payload bytes as a block size; the sum wraps.
abbrev pub request : ℕ → ℕ
request size = (size + 16 + 32 - 1) % 2 ^ 64 / 32 * 32

-- A `size_t` read as an `intptr_t`.
abbrev pub to_signed : ℕ → ℤ
to_signed n = if ltb n (2 ^ 63) then pos n else negsuc (2 ^ 64 - n - 1)

abbrev pub on_mem : (Mem → Mem) → Manager → Manager
on_mem f g = record g { mem = f g.mem }

-- The new break is read back by `ds_sbrk(0)`.
abbrev pub with_break : DataSeg → Manager → Manager
with_break d g = record g {
  ds = d;
  ds_heap_brk = d.ds_heap_brk;
  heap_end = align_down (d.ds_heap_brk - 8);
}

-- The writes behind a break that moved down: the end sentinel and the tags of the last block.
unfoldable pub shrink_tags : ℕ → Manager → Manager
shrink_tags result g =
    let size = g.heap_end - result in
    on_mem
      (λ m.
        put (g.heap_end - 8) (pack size free)
          (put result (pack size free) (put g.heap_end (pack 0 alloc) m)))
      g

-- The writes of `extend_heap` over the old end sentinel, and those of the new one.
unfoldable pub extend_tags : ℕ → Manager → Manager
extend_tags bp g =
    let size = g.heap_end - bp in
    let m = put (g.heap_end - 8) (pack size free) (put bp (pack size free) g.mem) in
    record g { mem = put (next_blkp m bp) (pack 0 alloc) m }

-- The rounds that a search is given: more than there are words in the heap.
abbrev pub rounds : Manager → ℕ
rounds g = g.heap_end - g.heap_start + 2

module _ (env : Env) where
  -- The step of `coalesce` behind the merge, when the heap is to shrink.
  unfoldable pub shrink_heap : ℕ → Manager → Run Manager
  shrink_heap result g = do
    (r, d) ← ds_sbrk env.mprotect (negsuc (shrinkthld - 1)) g.ds
    if r == failed then ok (record g { ds = d }) else ok (shrink_tags result (with_break d g))

  -- `shrink` is the flag of the caller; a null result is 0.
  unfoldable pub coalesce : ℕ → Bool → Manager → Run (ℕ × Manager)
  coalesce bp shrink g = if get_status g.mem bp == 1 then ok (0, g) else do
    let merged = merge g.policy bp g.mem
    let result = merged.result
    let g' = record g { mem = merged.mem }
    let due =
        shrink && next_blkp merged.mem result == g.heap_end && leb (bs + shrinkthld) merged.size
    g'' ← if due then shrink_heap result g' else ok g'
    ok (result, on_mem (if_explicit g.policy (add_free_block env result)) g'')

  unfoldable pub extend_heap : ℕ → Manager → Run (ℕ × Manager)
  extend_heap size g = do
    (r, d) ← ds_sbrk env.mprotect (to_signed size) g.ds
    if r == failed
        then ok (0, record g { ds = d })
        else coalesce g.heap_end false (extend_tags g.heap_end (with_break d g))

  -- A block for the request: a free one, or a new one at the end of the heap.
  unfoldable pub obtain : ℕ → Option ℕ → Manager → Run (ℕ × Manager)
  obtain req_size none g = out_of_fuel
  obtain req_size (some bp) g =
      if bp == 0
      then extend_heap (if ltb chunksize req_size then req_size else chunksize) g
      else ok (bp, g)

  -- The payload address, or 0 for `NULL`.
  unfoldable pub mm_malloc : ℕ → Manager → Run (ℕ × Manager)
  mm_malloc size g = if not g.initialized then aborts else if size == 0 then ok (0, g) else do
    (bp, g') ←
        obtain (request size)
          (get_free_block env g.policy (rounds g) g.heap_start (request size) g.mem) g
    if bp == 0
        then ok (0, g')
        else ok (next_ptr bp, on_mem (place env g'.policy bp (request size)) g')

  unfoldable pub mm_free : ℕ → Manager → Run Manager
  mm_free ptr g =
      if not g.initialized
      then aborts
      else if ptr == 0
      then ok g
      else let bp = prev_ptr ptr in
        if get_status g.mem bp == 0 then ok g else do
          (_, g') ← coalesce bp true (on_mem (write_tags bp (get_size g.mem bp) free) g)
          ok g'

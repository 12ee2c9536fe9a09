-- ===== src/MemMgr/Init.antt =====
-- PA3/src/memmgr.c, `mm_init`.
use sysprog.Base.{
  ℕ, ◌+◌, ◌-◌, ◌^◌, ◌≤◌, ◌<◌, ◌≡◌, refl, sym, true, not, [], ◌∷◌, arith, ltb, ◌==◌, ◌||◌,
  if◌then◌else◌, ne→==, eq→==,
}
use sysprog.Base.Int.{pos}
use sysprog.Base.Process.{Run, ok, aborts, ◌>>=◌}
use sysprog.DataSeg.{DataSeg, failed, null, ds_sbrk, ds_getpagesize}
use sysprog.DataSeg.Bounds.{IsSegment, ds_sbrk_grow}
use sysprog.MemMgr.Words.{
  Mem, free, alloc, pack, put, next_ptr, next_next_ptr, align_down, chunksize, bs,
}
use sysprog.MemMgr.Blocks.{FreelistPolicy, fp_implicit, Env, if_explicit}
use sysprog.MemMgr.Manager.{Manager, with_break}
use sysprog.MemMgr.Tiles.{block, IsBlock}
use sysprog.MemMgr.Heap.{IsHeap, Grants}
use sysprog.MemMgr.Extend.{raised, raised-IsSegment}

module _ (env : Env) where
  -- The sentinels and the one free block, and the free list of it.
  unfoldable pub init_tags : Manager → Manager
  unfolding if_explicit
  init_tags g =
      let size = g.heap_end - g.heap_start in
      let tagged = put (g.heap_end - 8) (pack size free) (
        put g.heap_start (pack size free)
          (put g.heap_end (pack 0 alloc) (put (g.heap_start - 8) (pack 0 alloc) g.mem))) in
      record g {
        mem =
            if_explicit g.policy
              (λ m. put (next_next_ptr g.heap_start) env.first (
                put (next_ptr g.heap_start) env.last (
                  put (next_next_ptr env.last) g.heap_start (
                    put (next_ptr env.last) 0 (
                      put (next_next_ptr env.first) 0 (put (next_ptr env.first) g.heap_start m))))))
              tagged;
        initialized = true;
      }

  unfoldable pub mm_init : FreelistPolicy → Manager → Run Manager
  mm_init fp g = do
    page ← ds_getpagesize g.ds
    if g.ds.ds_heap_start == null || not (g.ds.ds_heap_start == g.ds.ds_heap_brk) || page == 0
        then aborts
        else do
          (r, d) ← ds_sbrk env.mprotect (pos chunksize) g.ds
          let g' = record g {
            policy = fp;
            ds_heap_start = g.ds.ds_heap_start;
            heap_start = align_down (g.ds.ds_heap_start + 8 + bs - 1);
            pagesize = page;
          }
          if r == failed then aborts else ok (init_tags (with_break d g'))

page_known : (d : DataSeg) → IsSegment d → ds_getpagesize d ≡ ok d.pagesize
unfolding ds_getpagesize
page_known d s = rw s.initialized refl

-- The words that `init_tags` writes.
init_tags-words :
    (p n end : ℕ) (m : Mem)
    → IsBlock (block n free)
    → 8 ≤ p
    → p + n ≡ end
    → let m' =
        put
          (end - 8)
          (pack n free)
          (put p (pack n free) (put end (pack 0 alloc) (put (p - 8) (pack 0 alloc) m))) in
      (m' p ≡ pack n free)
      × (m' (p + n - 8) ≡ pack n free)
      × (m' (p - 8) ≡ pack 0 alloc)
      × (m' end ≡ pack 0 alloc)
unfolding put
init_tags-words p n end m v low stop = (ground arith, ground arith, ground arith, ground arith)

module _ (env : Env) (grants : Grants env) where
  -- With a kernel that grants every `mprotect`, on a fresh data segment, at an address above 0 and
  -- with its end below 2 ^ 62, with a page size above 0 and room for one chunk, `mm_init` builds a
  -- heap of one free block, which takes up all but at most 79 bytes of the chunk.
  pub mm_init-IsHeap :
      (g : Manager)
      → IsSegment g.ds
      → g.ds.ds_heap_brk ≡ g.ds.ds_heap_start
      → 0 < g.ds.ds_heap_start
      → 0 < g.ds.pagesize
      → g.ds.ds_heap_brk + chunksize < g.ds.ds_heap_end
      → g.ds.ds_end < 2 ^ 62
      → (g' : Manager) × (n : ℕ) × (mm_init env fp_implicit g ≡ ok g')
        × IsHeap g' (block n free ∷ [])
        × (chunksize ≤ n + 79)
  unfolding mm_init init_tags if_explicit
  mm_init-IsHeap g s clean there page room high =
      let start = align_down (g.ds.ds_heap_start + 8 + bs - 1) in
      let end = align_down (g.ds.ds_heap_brk + chunksize - 8) in
      let g₀ = record g {
        policy = fp_implicit;
        ds_heap_start = g.ds.ds_heap_start;
        heap_start = start;
        pagesize = g.ds.pagesize;
      } in
      let g' = init_tags env (with_break (raised chunksize g.ds) g₀) in
      let n = end - start in
      let v : IsBlock (block n free) = (omega arith, omega arith) in
      let stop : start + n ≡ end = omega arith in
      let (front, back, first, last) = init_tags-words start n end g.mem v (omega arith) stop in
      let fits_in : ltb (g.ds.ds_heap_brk + chunksize) g.ds.ds_heap_end ≡ true = ground arith in
      let opened =
        ds_sbrk_grow env.mprotect chunksize g.ds s grants (omega arith) (omega arith)
          (omega arith) in
      (
        g',
        n,
        rw
            (
              page_known g.ds s,
              ne→== g.ds.ds_heap_start null (omega arith),
              eq→== _ _ (sym clean),
              ne→== g.ds.pagesize 0 (omega arith),
              opened,
              fits_in,
              ne→== g.ds.ds_heap_brk failed (omega (arith, s.below, s.high_guard)),
            )
            refl,
        record {
          ready = refl;
          implicit = refl;
          blocks = ((front, back, v), stop);
          first_tag = first;
          last_tag = last;
          aligned = omega arith;
          low = omega arith;
          end_at_brk = refl;
          segment = raised-IsSegment chunksize g.ds s room;
          high = high;
        },
        omega arith,
      )

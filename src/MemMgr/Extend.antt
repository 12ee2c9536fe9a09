-- ===== src/MemMgr/Extend.antt =====
-- PA3/src/memmgr.c, `extend_heap` under the implicit policy: a free block at a new end of the heap.
use sysprog.Base.{
  ℕ, ◌+◌, ◌-◌, ◌^◌, ◌≤◌, ◌<◌, ◌≡◌, refl, sym, ◌∙◌, true, false, List, [], ◌∷◌, ◌++◌, arith, ltb,
  ◌==◌, ne→==,
}
use sysprog.Base.Int.{pos}
use sysprog.Base.Process.{ok}
use sysprog.DataSeg.{DataSeg, failed}
use sysprog.DataSeg.Bounds.{IsSegment, ds_sbrk_grow}
use sysprog.MemMgr.Words.{Mem, free, pack, put, next_blkp, align_down}
use sysprog.MemMgr.Blocks.{Env}
use sysprog.MemMgr.Manager.{Manager, with_break, to_signed, extend_tags, extend_heap, coalesce}
use sysprog.MemMgr.Tiles.{Block, block, IsBlock, Tiles-total}
use sysprog.MemMgr.Rewrite.{extended-Ended, Ended-Tiles}
use sysprog.MemMgr.Heap.{IsHeap, Grants}

-- The data segment after a break that moved up by `n`.
abbrev pub raised : ℕ → DataSeg → DataSeg
raised n d = record d { ds_heap_brk = d.ds_heap_brk + n; ds_num_sbrk = d.ds_num_sbrk + 1 }

-- The data segment after a refused call.
abbrev pub refused : DataSeg → DataSeg
refused d = record d { ds_num_sbrk = d.ds_num_sbrk + 1 }

abbrev pub grown : ℕ → Manager → Manager
grown n g = extend_tags g.heap_end (with_break (raised n g.ds) g)

pub raised-IsSegment :
    (n : ℕ) (d : DataSeg) → IsSegment d → d.ds_heap_brk + n < d.ds_heap_end → IsSegment (raised n d)
raised-IsSegment n d s room = record {
  initialized = s.initialized;
  low_guard = s.low_guard;
  high_guard = s.high_guard;
  above = omega (arith, s.above);
  below = room;
  fits = s.fits;
}

next_of_front :
    (q n : ℕ) (m : Mem)
    → IsBlock (block n free)
    → next_blkp (put (q + n - 8) (pack n free) (put q (pack n free) m)) q ≡ q + n
unfolding put pack
next_of_front q n m v =
    let differ : (q == q + n - 8) ≡ false = ne→== q (q + n - 8) (omega arith) in
    let here : (q == q) ≡ true = ground arith in rw (differ, here) (omega arith)

module _ (env : Env) (grants : Grants env) where
  pub grown-IsHeap :
      (g : Manager) (bs : List Block) (n : ℕ)
      → IsHeap g bs
      → IsBlock (block n free)
      → g.ds.ds_heap_brk + n < g.ds.ds_heap_end
      → IsHeap (grown n g) (bs ++ block n free ∷ [])
        × ((a : ℕ) → a < g.heap_end → (grown n g).mem a ≡ g.mem a)
  unfolding extend_tags
  grown-IsHeap g bs n h v room =
      let q = g.heap_end in
      let whole = Tiles-total g.mem g.heap_start bs q h.blocks in
      let stop : align_down (g.ds.ds_heap_brk + n - 8) ≡ q + n = omega (arith, h.end_at_brk) in
      let cancel : q + n - q ≡ n = omega arith in
      let m' = put (q + n - 8) (pack n free) (put q (pack n free) g.mem) in
      let behind : next_blkp m' q ≡ q + n = next_of_front q n g.mem v in
      rw (stop, cancel, behind)
        (let e = extended-Ended q n g.mem v in
          (
            record {
              ready = h.ready;
              implicit = h.implicit;
              blocks = Ended-Tiles g.heap_start q n free bs g.mem _ e v h.blocks;
              first_tag =
                  e.other (g.heap_start - 8) (omega (arith, h.low)) (omega (arith, h.low))
                    (omega (arith, h.low))
                  ∙ h.first_tag;
              last_tag = e.sentinel;
              aligned = h.aligned;
              low = h.low;
              end_at_brk = sym stop;
              segment = raised-IsSegment n g.ds h.segment room;
              high = h.high;
            },
            λ a before. e.other a (omega arith) (omega arith) (omega arith),
          ))

  pub extend_heap-refused :
      (g : Manager) (bs : List Block) (n : ℕ)
      → IsHeap g bs
      → 0 < n
      → n < 2 ^ 62
      → g.ds.ds_heap_end ≤ g.ds.ds_heap_brk + n
      → extend_heap env n g ≡ ok (0, record g { ds = refused g.ds })
  unfolding extend_heap
  extend_heap-refused g bs n h some_bytes small full =
      let positive : to_signed n ≡ pos n = ground arith in
      let over : ltb (g.ds.ds_heap_brk + n) g.ds.ds_heap_end ≡ false = ground arith in
      rw
        (
          positive,
          ds_sbrk_grow env.mprotect n g.ds h.segment grants some_bytes (omega arith)
              (omega (arith, h.high)),
          over,
        )
        refl

  pub extend_heap-grown :
      (g : Manager) (bs : List Block) (n : ℕ)
      → IsHeap g bs
      → IsBlock (block n free)
      → n < 2 ^ 62
      → g.ds.ds_heap_brk + n < g.ds.ds_heap_end
      → extend_heap env n g ≡ coalesce env g.heap_end false (grown n g)
  unfolding extend_heap
  extend_heap-grown g bs n h v small room =
      let positive : to_signed n ≡ pos n = ground arith in
      let below : ltb (g.ds.ds_heap_brk + n) g.ds.ds_heap_end ≡ true = ground arith in
      rw
        (
          positive,
          ds_sbrk_grow env.mprotect n g.ds h.segment grants (omega arith) (omega arith)
              (omega (arith, h.high)),
          below,
          ne→== g.ds.ds_heap_brk failed
              (omega (arith, h.segment.below, h.segment.high_guard, h.high)),
        )
        refl

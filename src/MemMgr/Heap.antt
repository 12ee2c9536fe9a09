-- ===== src/MemMgr/Heap.antt =====
-- PA3/src/memmgr.c: the heap between two calls, under the implicit policy.
use sysprog.Base.{ℕ, ◌+◌, ◌-◌, ◌%◌, ◌^◌, ◌≤◌, ◌<◌, ◌≡◌, ◌∙◌, true, List, ◌++◌, inl, inr, arith}
use sysprog.DataSeg.{Prot}
use sysprog.DataSeg.Bounds.{IsSegment}
use sysprog.MemMgr.Words.{Mem, alloc, pack, align_down}
use sysprog.MemMgr.Blocks.{Env, fp_implicit}
use sysprog.MemMgr.Manager.{Manager}
use sysprog.MemMgr.Tiles.{Block, Tiles, total, Tiles-total, Tiles-split}
use sysprog.MemMgr.Rewrite.{SameOutside, Tiles-replace}

-- The manager's memory holds these blocks between the two sentinels, and its end of the heap
-- agrees with the break of the data segment.
pub record IsHeap (g : Manager) (bs : List Block) : Type 0 where
  pub ready : g.initialized ≡ true
  pub implicit : g.policy ≡ fp_implicit
  pub blocks : Tiles g.mem g.heap_start bs g.heap_end
  pub first_tag : g.mem (g.heap_start - 8) ≡ pack 0 alloc
  pub last_tag : g.mem g.heap_end ≡ pack 0 alloc
  pub aligned : g.heap_start % 32 ≡ 0
  pub low : g.ds.ds_heap_start + 8 ≤ g.heap_start
  pub end_at_brk : g.heap_end ≡ align_down (g.ds.ds_heap_brk - 8)
  pub segment : IsSegment g.ds
  pub high : g.ds.ds_end < 2 ^ 62

-- The kernel grants every `mprotect`.
abbrev pub Grants : Env → Type 0
Grants env = (a l : ℕ) (prot : Prot) → env.mprotect a l prot ≡ true

-- A run of blocks is replaced by others of the same length, between the sentinels.
pub rewritten-IsHeap :
    (g : Manager) (xs mid zs ys : List Block) (m : Mem)
    → IsHeap g (xs ++ (mid ++ ys))
    → 0 < total mid
    → let p = g.heap_start + total xs in
      Tiles m p zs (p + total mid)
      → SameOutside p (p + total mid) g.mem m
      → IsHeap (record g { mem = m }) (xs ++ (zs ++ ys))
rewritten-IsHeap g xs mid zs ys m h some_bytes tiles same =
    let p = g.heap_start + total xs in
    let (_, rest) = Tiles-split g.mem g.heap_start xs (mid ++ ys) g.heap_end h.blocks in
    let (_, right) = Tiles-split g.mem p mid ys g.heap_end rest in
    let end = Tiles-total g.mem _ ys g.heap_end right in
    record {
      ready = h.ready;
      implicit = h.implicit;
      blocks = Tiles-replace g.mem m g.heap_start g.heap_end xs mid zs ys h.blocks tiles same;
      first_tag = same (g.heap_start - 8) (inl (omega (arith, h.low))) ∙ h.first_tag;
      last_tag = same g.heap_end (inr (omega (arith, end))) ∙ h.last_tag;
      aligned = h.aligned;
      low = h.low;
      end_at_brk = h.end_at_brk;
      segment = h.segment;
      high = h.high;
    }

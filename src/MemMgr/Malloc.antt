-- ===== src/MemMgr/Malloc.antt =====
-- PA3/src/memmgr.c, `mm_malloc` under the implicit policy.
use sysprog.Base.{
  ℕ, ◌+◌, ◌-◌, ◌^◌, ◌≤◌, ◌<◌, ◌≡◌, refl, sym, ap, ◌∙◌, subst, true, not, List, ◌∷◌, ◌++◌, arith,
  ◌==◌, ◌⊎◌, inl, inr, if◌then◌else◌, ne→==,
}
use sysprog.Base.Process.{ok, aborts}
use sysprog.MemMgr.Words.{free, alloc}
use sysprog.MemMgr.Blocks.{Env, get_free_block, place}
use sysprog.MemMgr.Manager.{Manager, on_mem, request, rounds, obtain, mm_malloc}
use sysprog.MemMgr.Tiles.{Block, block, IsBlock, total, Tiles-total, Tiles-split}
use sysprog.MemMgr.Rewrite.{SameOutside}
use sysprog.MemMgr.Place.{placed, place-Tiles}
use sysprog.MemMgr.Heap.{IsHeap, Grants}
use sysprog.MemMgr.Extend.{refused}
use sysprog.MemMgr.Obtain.{extension, NoneFits, Origin, Obtained, obtain-Obtained}

-- What a request of `req` bytes in all makes of the heap.
pub data Malloced (g : Manager) (bs : List Block) (req ptr : ℕ) (g' : Manager) : Type 0 where
  out_of_memory :
      ptr ≡ 0
      → NoneFits req bs
      → g.ds.ds_heap_end ≤ g.ds.ds_heap_brk + extension req
      → IsHeap g' bs
      → g'.heap_start ≡ g.heap_start
      → g'.mem ≡ g.mem
      → Malloced g bs req ptr g'
  malloced :
      (before : List Block) (size : ℕ) (after : List Block)
      → Origin bs req before size after
      → req ≤ size
      → ptr ≡ g.heap_start + total before + 8
      → g'.heap_start ≡ g.heap_start
      → IsHeap g' (before ++ (placed size req ++ after))
      → ((a : ℕ) → (a + 8 < ptr) ⊎ ((ptr - 8 + size ≤ a) × (a < g.heap_end)) → g'.mem a ≡ g.mem a)
      → Malloced g bs req ptr g'

module _ (env : Env) (grants : Grants env) where
  -- Counting the refused call does not touch the heap.
  refused-IsHeap :
      (g : Manager) (bs : List Block) → IsHeap g bs → IsHeap (record g { ds = refused g.ds }) bs
  refused-IsHeap g bs h = record {
    ready = h.ready;
    implicit = h.implicit;
    blocks = h.blocks;
    first_tag = h.first_tag;
    last_tag = h.last_tag;
    aligned = h.aligned;
    low = h.low;
    end_at_brk = h.end_at_brk;
    segment = record {
      initialized = h.segment.initialized;
      low_guard = h.segment.low_guard;
      high_guard = h.segment.high_guard;
      above = h.segment.above;
      below = h.segment.below;
      fits = h.segment.fits;
    };
    high = h.high;
  }

  place-IsHeap :
      (g : Manager) (xs : List Block) (k req : ℕ) (ys : List Block)
      → IsHeap g (xs ++ block k free ∷ ys)
      → IsBlock (block req alloc)
      → req ≤ k
      → let p = g.heap_start + total xs in
        let g' = on_mem (place env g.policy p req) g in
        IsHeap g' (xs ++ (placed k req ++ ys)) × SameOutside p (p + k) g.mem g'.mem
  place-IsHeap g xs k req ys h w enough =
      let (left, rest) =
        Tiles-split g.mem g.heap_start xs (block k free ∷ ys) g.heap_end h.blocks in
      let end = Tiles-total g.mem _ ys g.heap_end rest.1 in
      let small : k < 2 ^ 64 =
        omega (arith, h.end_at_brk, h.high, h.segment.below, h.segment.high_guard) in
      let (tiles, same) =
        place-Tiles env g.mem g.heap_start g.heap_end req xs (block k free) ys h.blocks refl w
          enough small in
      subst
        (λ policy.
          let p = g.heap_start + total xs in
          let g' = on_mem (place env policy p req) g in
          IsHeap g' (xs ++ (placed k req ++ ys)) × SameOutside p (p + k) g.mem g'.mem)
        (sym h.implicit)
        (
          record {
            ready = h.ready;
            implicit = h.implicit;
            blocks = tiles;
            first_tag = same (g.heap_start - 8) (inl (omega (arith, h.low))) ∙ h.first_tag;
            last_tag = same g.heap_end (inr (omega (arith, end))) ∙ h.last_tag;
            aligned = h.aligned;
            low = h.low;
            end_at_brk = h.end_at_brk;
            segment = h.segment;
            high = h.high;
          },
          same,
        )

  -- `mm_malloc` behind its checks.
  served :
      (g g' : Manager) (size bp : ℕ)
      → g.initialized ≡ true
      → 0 < size
      → obtain env
          (request size)
          (get_free_block env g.policy (rounds g) g.heap_start (request size) g.mem)
          g
        ≡ ok (bp, g')
      → mm_malloc env size g ≡ (
          if bp == 0
          then ok (0, g')
          else ok (bp + 8, on_mem (place env g'.policy bp (request size)) g'))
  unfolding mm_malloc
  served g g' size bp ready some_bytes obtains =
      rw (ne→== size 0 (omega arith), obtains)
        (ap
          (λ b.
            if not b
            then aborts
            else if bp == 0
            then ok (0, g')
            else ok (bp + 8, on_mem (place env g'.policy bp (request size)) g'))
          ready)

  Obtained-Malloced :
      (g : Manager) (bs : List Block) (req bp : ℕ) (g' : Manager)
      → Obtained g bs req bp g'
      → IsBlock (block req alloc)
      → Malloced g bs req (bp + 8) (on_mem (place env g'.policy bp req) g')
  Obtained-Malloced g bs req bp g' o w =
      let placing = place-IsHeap g' o.before o.size req o.after o.heap w o.enough in
      let here : g'.heap_start + total o.before ≡ bp = omega (arith, o.at, o.start) in
      let (heap, same) =
        subst
          (λ q.
            let g'' = on_mem (place env g'.policy q req) g' in
            IsHeap g'' (o.before ++ (placed o.size req ++ o.after))
            × SameOutside q (q + o.size) g'.mem g''.mem)
          here placing in
      malloced o.before o.size o.after o.origin o.enough (omega (arith, o.at)) o.start heap
        (λ a out. elim out [
          | inl low ↦ same a (inl (omega arith)) ∙ o.same a (inl (omega arith))
          | inr high ↦
              same a (inr (omega (arith, high.0))) ∙ o.same a (inr (omega (arith, high.0), high.1))
        ])

  -- A request of at least one byte always returns. It allocates, at the front of a best fit or of the
  -- extended last block, a block with room for the payload and its two tags, and keeps the other
  -- blocks and their contents; or it answers `NULL` because no free block is large enough and the
  -- segment has no room left, and then the heap is as it was.
  pub mm_malloc-Malloced :
      (g : Manager) (bs : List Block) (size : ℕ)
      → IsHeap g bs
      → 0 < size
      → size < 2 ^ 61
      → (ptr : ℕ) × (g' : Manager) × (mm_malloc env size g ≡ ok (ptr, g'))
        × Malloced g bs (request size) ptr g'
        × (size + 16 ≤ request size)
  unfolding mm_malloc
  mm_malloc-Malloced g bs size h some_bytes small =
      let req = request size in
      let w : IsBlock (block req alloc) = (omega arith, omega arith) in
      let (bp, g', obtains, out) = obtain-Obtained env grants g bs req h w (omega arith) in
      elim out [
        | inl o ↦ (
          bp + 8,
          on_mem (place env g'.policy bp req) g',
          served g g' size bp h.ready some_bytes obtains
              ∙ rw (ne→== bp 0 (omega (arith, o.at, h.low))) refl,
          Obtained-Malloced g bs req bp g' o w,
          omega arith,
        )
        | inr (z, e, too_small, full) ↦ (
          0,
          g',
          served g g' size bp h.ready some_bytes obtains ∙ rw z refl,
          out_of_memory refl too_small full
              (subst (λ a. IsHeap a bs) (sym e) (refused-IsHeap g bs h)) (ap (λ a. a.heap_start) e)
              (ap (λ a. a.mem) e),
          omega arith,
        )
      ]

-- ===== src/MemMgr/Obtain.antt =====
-- PA3/src/memmgr.c, `mm_malloc` under the implicit policy: the free block that serves a request, found or made.
use sysprog.Base.{
  ℕ, ◌+◌, ◌^◌, ◌≤◌, ◌<◌, ◌≡◌, refl, sym, ap, ◌∙◌, subst, false, some, List, [], ◌∷◌, ◌++◌, arith,
  ltb, ◌⊎◌, inl, inr, if◌then◌else◌, Bool-cases, ne→==, All,
}
use sysprog.Base.Process.{ok}
use sysprog.MemMgr.Words.{free, alloc, chunksize}
use sysprog.MemMgr.Blocks.{Env, merge, get_free_block}
use sysprog.MemMgr.Manager.{Manager, rounds, obtain, extend_tags, extend_heap, coalesce}
use sysprog.MemMgr.Tiles.{Block, block, IsBlock, total, Tiles-total, length-le-total}
use sysprog.MemMgr.BestFit.{NotBetter, bf_get_free_block_implicit-Answer}
use sysprog.MemMgr.Neighbours.{gain_left, rest_left, gain_right, rest_right, total_left}
use sysprog.MemMgr.Heap.{IsHeap, Grants}
use sysprog.MemMgr.Coalesce.{merge-IsMergedHeap, coalesce_writes}
use sysprog.MemMgr.Extend.{grown, refused, grown-IsHeap, extend_heap-refused, extend_heap-grown}

-- The bytes by which the heap is extended for a block of `req` bytes.
abbrev pub extension : ℕ → ℕ
extension req = if ltb chunksize req then req else chunksize

-- No free block holds `req` bytes.
abbrev pub NoneFits : ℕ → List Block → Type 0
NoneFits req bs = All (λ b. b.status ≡ free → b.size < req) bs

-- The free block of `size` bytes that serves a request: a best fit among the blocks, or the one that
-- the extended heap ends with, when no block fits.
pub data Origin (bs : List Block) (req : ℕ) (before : List Block) (size : ℕ) (after : List Block)
    : Type 0 where
  fitted :
      bs ≡ before ++ block size free ∷ after
      → All (NotBetter req size) bs
      → Origin bs req before size after
  appended :
      NoneFits req bs
      → before ≡ rest_left bs
      → after ≡ []
      → size ≡ extension req + gain_left bs
      → Origin bs req before size after

-- A heap with a free block for the request at `bp`.
pub record Obtained (g : Manager) (bs : List Block) (req bp : ℕ) (g' : Manager) : Type 0 where
  pub before : List Block
  pub size : ℕ
  pub after : List Block
  pub origin : Origin bs req before size after
  pub heap : IsHeap g' (before ++ block size free ∷ after)
  pub enough : req ≤ size
  pub at : bp ≡ g.heap_start + total before
  pub start : g'.heap_start ≡ g.heap_start
  pub same : (a : ℕ) → (a < bp) ⊎ ((bp + size ≤ a) × (a < g.heap_end)) → g'.mem a ≡ g.mem a

module _ (env : Env) (grants : Grants env) where
  -- A request that no free block holds extends the heap, where the segment has room.
  extended-Obtained :
      (g : Manager) (bs : List Block) (req : ℕ)
      → IsHeap g bs
      → NoneFits req bs
      → IsBlock (block req alloc)
      → req < 2 ^ 62
      → g.ds.ds_heap_brk + extension req < g.ds.ds_heap_end
      → (bp : ℕ) × (g' : Manager) × (extend_heap env (extension req) g ≡ ok (bp, g'))
        × Obtained g bs req bp g'
  unfolding rest_right gain_right extend_tags
  extended-Obtained g bs req h too_small w small room =
      let n = extension req in
      let v : IsBlock (block n free) = ground arith in
      let (hg, before) = grown-IsHeap env grants g bs n h v room in
      let whole : g.heap_start + total bs ≡ g.heap_end =
        Tiles-total g.mem g.heap_start bs g.heap_end h.blocks in
      let gg = grown n g in
      let r = merge gg.policy (g.heap_start + total bs) gg.mem in
      let gr = record gg { mem = r.mem } in
      let (heap, at, size, same, end) = merge-IsMergedHeap env grants gg bs n [] hg in
      let left = total_left bs in
      (
        r.result,
        gr,
        extend_heap-grown env grants g bs n h v (ground arith) room
            ∙ subst (λ a. coalesce env a false gg ≡ ok (r.result, gr)) whole
                (coalesce_writes env grants false gg bs n [] hg),
        record {
          before = rest_left bs;
          size = r.size;
          after = [];
          origin = appended too_small refl refl (omega (arith, size));
          heap = heap;
          enough = ground (arith, size);
          at = at;
          start = refl;
          same = λ a out. elim out [
            | inl o ↦ same a (inl o) ∙ before a (omega (arith, at))
            | inr o ↦ absurd (omega (arith, o.0, o.1, at, size))
          ];
        },
      )

  pub obtain-Obtained :
      (g : Manager) (bs : List Block) (req : ℕ)
      → IsHeap g bs
      → IsBlock (block req alloc)
      → req < 2 ^ 62
      → (bp : ℕ) × (g' : Manager) × (obtain env req
            (get_free_block env g.policy (rounds g) g.heap_start req g.mem)
            g
          ≡ ok (bp, g'))
        × (Obtained g bs req bp g'
            ⊎ ((bp ≡ 0)
                × (g' ≡ record g { ds = refused g.ds })
                × NoneFits req bs
                × (g.ds.ds_heap_end ≤ g.ds.ds_heap_brk + extension req)))
  unfolding obtain get_free_block
  obtain-Obtained g bs req h w small =
      let whole = Tiles-total g.mem g.heap_start bs g.heap_end h.blocks in
      let len = length-le-total g.mem g.heap_start bs g.heap_end h.blocks in
      let (r, runs, answer) =
        bf_get_free_block_implicit-Answer (rounds g) g.mem req g.heap_start g.heap_end bs h.blocks
          h.last_tag (omega arith) (omega arith)
          (omega (arith, h.end_at_brk, h.high, h.segment.below, h.segment.high_guard)) in
      let search : get_free_block env g.policy (rounds g) g.heap_start req g.mem ≡ some r =
        subst (λ policy. get_free_block env policy (rounds g) g.heap_start req g.mem ≡ some r)
          (sym h.implicit) runs in
      rw search (elim answer [
        | inl fit ↦
            let b = fit.chosen in
            let splits : bs ≡ fit.before ++ block b.size free ∷ fit.after =
              fit.splits ∙ ap (λ s. fit.before ++ block b.size s ∷ fit.after) fit.is_free in
            (
              r,
              g,
              rw (ne→== r 0 (omega (arith, fit.at, h.low))) refl,
              inl record {
                before = fit.before;
                size = b.size;
                after = fit.after;
                origin = fitted splits fit.least;
                heap = subst (IsHeap g) splits h;
                enough = fit.enough;
                at = fit.at;
                start = refl;
                same = λ a out. refl;
              },
            )
        | inr (z, too_small) ↦
            elim (Bool-cases (ltb (g.ds.ds_heap_brk + extension req) g.ds.ds_heap_end)) [
              | inl room ↦
                  let (bp, g', extends, obtained) =
                    extended-Obtained g bs req h too_small w small (ground arith) in
                  (bp, g', rw z extends, inl obtained)
              | inr full ↦
                  let over : g.ds.ds_heap_end ≤ g.ds.ds_heap_brk + extension req = ground arith in
                  (
                    0,
                    record g { ds = refused g.ds },
                    rw z (
                        extend_heap-refused env grants g bs (extension req) h (ground arith)
                          (ground arith) over),
                    inr (refl, refl, too_small, over),
                  )
            ]
      ])

-- ===== src/MemMgr/Check.antt =====
-- PA3/src/memmgr.c, `mm_check`: the rows that it prints and how its walk over the heap ends.
use sysprog.Base.{
  ℕ, zero, suc, ◌+◌, ◌-◌, ◌<◌, ◌≡◌, refl, ap, ◌∙◌, Bool, true, false, not, ◌||◌, List, [], ◌∷◌,
  length, arith, ltb, ◌==◌, if◌then◌else◌, ne→==, eq→==,
}
use sysprog.Base.Process.{Run, ok, aborts, out_of_fuel, past_check}
use sysprog.MemMgr.Words.{
  Mem, Status, free, alloc, pack, status_of, get_size, get_status, next_ptr, next_next_ptr,
}
use sysprog.MemMgr.Manager.{Manager, rounds}
use sysprog.MemMgr.Tiles.{Block, tag, IsBlock, Tiles, size_of-tag, Tiles-total, length-le-total}
use sysprog.MemMgr.Heap.{IsHeap}

-- A printed row; the list pointers are shown under the explicit policy only.
pub record Row : Type 0 where
  pub address : ℕ
  pub size : ℕ
  pub allocated : Bool
  pub next : ℕ
  pub prev : ℕ

-- The end of the walk: where it stopped, or at a footer that differs from its header.
pub data Verdict : Type 0 where
  stopped_at : ℕ → Verdict
  mismatch : ℕ → Verdict

abbrev pub row : Mem → ℕ → Row
row m p = record {
  address = p;
  size = get_size m p;
  allocated = get_status m p == 1;
  next = m (next_ptr p);
  prev = m (next_next_ptr p);
}

pub with_row : Row → Run (List Row × Verdict) → Run (List Row × Verdict)
with_row r (ok (rs, v)) = ok (r ∷ rs, v)
with_row r aborts = aborts
with_row r out_of_fuel = out_of_fuel

check_loop : ℕ → Mem → ℕ → ℕ → Run (List Row × Verdict)
unfolding with_row
check_loop zero m p heap_end = out_of_fuel
check_loop (suc f) m p heap_end =
    let size = get_size m p in
    let fp = p + size - 8 in
    let rest = check_loop f m (p + size) heap_end in
    if not (ltb p heap_end)
    then ok ([], stopped_at p)
    else if not (size == get_size m fp) || not (get_status m p == get_status m fp)
    then ok (row m p ∷ [], mismatch fp)
    else if size == 0
    then ok (row m p ∷ [], stopped_at p)
    else with_row (row m p) rest

pub mm_check : Manager → Run (List Row × Verdict)
unfolding check_loop
mm_check g =
    if not g.initialized then aborts else check_loop (rounds g) g.mem g.heap_start g.heap_end

-- `Block structure coherent.`
abbrev pub coherent : Manager → Verdict → Bool
coherent g (stopped_at p) = p == g.heap_end
coherent g (mismatch fp) = false

abbrev pub is_alloc : Status → Bool
is_alloc free = false
is_alloc alloc = true

-- One row for each block, in their order.
abbrev pub rows : Mem → ℕ → List Block → List Row
rows m p [] = []
rows m p (b ∷ bs) =
    record (row m p) { size = b.size; allocated = is_alloc b.status } ∷ rows m (p + b.size) bs

is_alloc-tag : (b : Block) → IsBlock b → (status_of (tag b) == 1) ≡ is_alloc b.status
unfolding pack
is_alloc-tag b v = ground arith

check_loop-rows :
    (f : ℕ) (m : Mem) (p : ℕ) (bs : List Block) (stop : ℕ)
    → Tiles m p bs stop
    → length bs < f
    → check_loop f m p stop ≡ ok (rows m p bs, stopped_at stop)
unfolding check_loop
check_loop-rows zero m p bs stop t enough = absurd (omega arith)
check_loop-rows (suc f) m p [] stop t enough = ground arith
check_loop-rows (suc f) m p (b ∷ bs) stop t enough =
    let ih = check_loop-rows f m (p + b.size) bs stop t.1 (omega arith) in
    let whole = Tiles-total m (p + b.size) bs stop t.1 in
    let inside : ltb p stop ≡ true = ground arith in
    let size = size_of-tag b t.0.2 in
    let same_row : row m p ≡ record (row m p) { size = b.size; allocated = is_alloc b.status } =
      rw (t.0.0, size, is_alloc-tag b t.0.2) refl in
    let same_size : (b.size == b.size) ≡ true = eq→== b.size b.size refl in
    let same_status : (status_of (tag b) == status_of (tag b)) ≡ true =
      eq→== (status_of (tag b)) (status_of (tag b)) refl in
    rw
      (
        inside,
        t.0.0,
        size,
        t.0.1,
        size,
        same_size,
        same_status,
        ne→== b.size 0 (omega arith),
        ih,
        with_row,
      )
      (ap (λ r. ok (r ∷ rows m (p + b.size) bs, stopped_at stop)) same_row)

-- On a well-formed heap, `mm_check` prints one row for each block, in their order, and finds the
-- block structure coherent.
pub mm_check-rows :
    (g : Manager) (bs : List Block)
    → IsHeap g bs
    → (v : Verdict) × (mm_check g ≡ ok (rows g.mem g.heap_start bs, v)) × (coherent g v ≡ true)
unfolding mm_check
mm_check-rows g bs h =
    let whole = Tiles-total g.mem g.heap_start bs g.heap_end h.blocks in
    let len = length-le-total g.mem g.heap_start bs g.heap_end h.blocks in
    (
      stopped_at g.heap_end,
      past_check g.initialized _ _ h.ready
          ∙ check_loop-rows (rounds g) g.mem g.heap_start bs g.heap_end h.blocks (omega arith),
      eq→== g.heap_end g.heap_end refl,
    )

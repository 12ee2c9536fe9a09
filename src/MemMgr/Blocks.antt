-- ===== src/MemMgr/Blocks.antt =====
-- PA3/src/memmgr.c: the searches for a free block, `place`, and the explicit free list.
use sysprog.Base.{
  ℕ, zero, suc, ◌+◌, ◌-◌, ◌%◌, ◌^◌, Bool, ◌&&◌, Option, none, some, ltb, ◌==◌, if◌then◌else◌,
}
use sysprog.DataSeg.{Prot}
use sysprog.MemMgr.Words.{
  Mem, free, alloc, put, get_size, get_status, next_ptr, next_next_ptr, next_blkp, write_tags,
}

pub data FreelistPolicy : Type 0 where
  fp_implicit fp_explicit : FreelistPolicy

-- What the manager is linked with: the addresses of the static objects `first` and `last`, and the
-- kernel's answers to `mprotect`.
pub record Env : Type 0 where
  pub first : ℕ
  pub last : ℕ
  pub mprotect : ℕ → ℕ → Prot → Bool

-- `bf_get_free_block_implicit`, at the block reached and the best fit so far; the bound on the
-- rounds is the first argument.
unfoldable pub implicit_loop : ℕ → Mem → ℕ → ℕ → ℕ → ℕ → Option ℕ
implicit_loop zero m size block best best_size = none
implicit_loop (suc f) m size block best best_size =
    let b_size = get_size m block in
    let is_free = get_status m block == 0 in
    let better = is_free && ltb size b_size && ltb b_size best_size in
    let rest =
      implicit_loop f m size (next_blkp m block) (if better then block else best)
        (if better then b_size else best_size) in
    if b_size == 0 then some best else if is_free && b_size == size then some block else rest

unfoldable pub bf_get_free_block_implicit : ℕ → ℕ → ℕ → Mem → Option ℕ
bf_get_free_block_implicit fuel heap_start size m =
    implicit_loop fuel m size heap_start 0 (2 ^ 64 - 1)

-- `bf_get_free_block_explicit`: the same choice along the `next` pointers, up to `NULL`.
unfoldable pub explicit_loop : ℕ → Mem → ℕ → ℕ → ℕ → ℕ → Option ℕ
explicit_loop zero m size block best best_size = none
explicit_loop (suc f) m size block best best_size =
    let b_size = get_size m block in
    let is_free = get_status m block == 0 in
    let better = is_free && ltb size b_size && ltb b_size best_size in
    let rest =
      explicit_loop f m size (m (next_ptr block)) (if better then block else best)
        (if better then b_size else best_size) in
    if block == 0 then some best else if is_free && b_size == size then some block else rest

unfoldable pub bf_get_free_block_explicit : ℕ → ℕ → ℕ → Mem → Option ℕ
unfolding explicit_loop
bf_get_free_block_explicit fuel first size m =
    explicit_loop fuel m size (m (next_ptr first)) 0 (2 ^ 64 - 1)

unfoldable pub get_free_block : Env → FreelistPolicy → ℕ → ℕ → ℕ → Mem → Option ℕ
get_free_block env fp_implicit fuel heap_start size m =
    bf_get_free_block_implicit fuel heap_start size m
get_free_block env fp_explicit fuel heap_start size m =
    bf_get_free_block_explicit fuel env.first size m

unfoldable pub add_free_block : Env → ℕ → Mem → Mem
add_free_block env bp m =
    let top = m (next_ptr env.first) in
    put (next_ptr env.first) bp
      (put (next_next_ptr top) bp (put (next_next_ptr bp) env.first (put (next_ptr bp) top m)))

unfoldable pub remove_free_block : ℕ → Mem → Mem
remove_free_block bp m =
    let next = m (next_ptr bp) in
    let prev = m (next_next_ptr bp) in
    put (next_next_ptr bp) 0
      (put (next_ptr bp) 0 (put (next_next_ptr next) prev (put (next_ptr prev) next m)))

-- `if(freelist_policy == fp_Explicit)`
unfoldable pub if_explicit : FreelistPolicy → (Mem → Mem) → Mem → Mem
if_explicit fp_implicit f m = m
if_explicit fp_explicit f m = f m

unfoldable pub place : Env → FreelistPolicy → ℕ → ℕ → Mem → Mem
unfolding if_explicit
place env policy bp req_size m =
    let split_size = (get_size m bp + 2 ^ 64 - req_size) % 2 ^ 64 in
    let m' = write_tags bp req_size alloc (if_explicit policy (remove_free_block bp) m) in
    let split_bp = next_blkp m' bp in
    if ltb 0 split_size
    then if_explicit policy (add_free_block env split_bp) (write_tags split_bp split_size free m')
    else m'

-- What `coalesce` computes before it may shrink the heap: the block, its size, and the memory.
pub record Merged : Type 0 where
  pub result : ℕ
  pub size : ℕ
  pub mem : Mem

-- The four cases of `coalesce`; `PREV_PTR(bp)` may be the footer of the initial sentinel.
unfoldable pub merge_right : FreelistPolicy → ℕ → Mem → Merged
merge_right policy bp m =
    let next_bp = next_blkp m bp in
    let m' = if_explicit policy (remove_free_block next_bp) m in
    let size = get_size m bp + get_size m' next_bp in
    record { result = bp; size = size; mem = write_tags bp size free m' }

unfoldable pub merge_left : FreelistPolicy → ℕ → ℕ → Mem → Merged
merge_left policy prev_bp bp m =
    let m' = if_explicit policy (remove_free_block prev_bp) m in
    let size = get_size m bp + get_size m' prev_bp in
    record { result = prev_bp; size = size; mem = write_tags prev_bp size free m' }

unfoldable pub merge_both : FreelistPolicy → ℕ → ℕ → Mem → Merged
merge_both policy prev_bp bp m =
    let next_bp = next_blkp m bp in
    let m' = if_explicit policy (λ k. remove_free_block next_bp (remove_free_block prev_bp k)) m in
    let size = get_size m bp + (get_size m' prev_bp + get_size m' next_bp) in
    record { result = prev_bp; size = size; mem = write_tags prev_bp size free m' }

unfoldable pub merge : FreelistPolicy → ℕ → Mem → Merged
merge policy bp m =
    let prev_free = get_status m (bp - 8) == 0 in
    let next_free = get_status m (next_blkp m bp) == 0 in
    let prev_bp = bp - get_size m (bp - 8) in
    if prev_free
    then (if next_free then merge_both policy prev_bp bp m else merge_left policy prev_bp bp m)
    else (if next_free
        then merge_right policy bp m
        else record { result = bp; size = get_size m bp; mem = m })

-- ===== src/MemMgr/Realloc.antt =====
-- PA3/src/memmgr.c: `mm_calloc` and `mm_realloc`.
use sysprog.Base.{ℕ, ◌+◌, ◌-◌, ◌*◌, ◌/◌, ◌%◌, ◌^◌, not, ◌&&◌, ltb, leb, ◌==◌, if◌then◌else◌}
use sysprog.Base.Process.{Run, ok, aborts, ◌>>=◌}
use sysprog.MemMgr.Words.{
  Mem, free, alloc, get_size, get_status, prev_ptr, next_ptr, next_blkp, write_tags,
}
use sysprog.MemMgr.Blocks.{Env, FreelistPolicy, if_explicit, add_free_block, remove_free_block}
use sysprog.MemMgr.Manager.{Manager, request, on_mem, mm_malloc, mm_free}

-- `memset(p, 0, n)` on words: the last one may be cleared in part, its low bytes first.
unfoldable pub clear_bytes : ℕ → ℕ → Mem → Mem
clear_bytes p n m a =
    let rest = 256 ^ (p + n - a) in
    if leb p a && ltb a (p + n) then (if leb (a + 8) (p + n) then 0 else m a / rest * rest) else m a

-- `memcpy(to, from, n)` for a whole number of words.
unfoldable pub copy_words : ℕ → ℕ → ℕ → Mem → Mem
copy_words to from n m a = if leb to a && ltb a (to + n) then m (a - to + from) else m a

-- The rest of a block that a smaller one leaves behind becomes a free block.
unfoldable pub split_rest : Env → FreelistPolicy → ℕ → ℕ → Mem → Mem
unfolding if_explicit
split_rest env policy split_ptr split_size m =
    if_explicit policy (add_free_block env split_ptr) (write_tags split_ptr split_size free m)

-- The branch for a block that is large enough.
unfoldable pub shrink_block : Env → FreelistPolicy → ℕ → ℕ → ℕ → Mem → Mem
shrink_block env policy bp old_size new_size m =
    let m' = write_tags bp new_size alloc m in
    split_rest env policy (next_blkp m' bp) (old_size - new_size) m'

-- The branch for a block with a free one behind it that makes up for the difference.
unfoldable pub grow_block : Env → FreelistPolicy → ℕ → ℕ → ℕ → Mem → Mem
unfolding if_explicit
grow_block env policy bp whole_size new_size m =
    let m' =
      write_tags bp new_size alloc (if_explicit policy (remove_free_block (next_blkp m bp)) m) in
    let split_size = (whole_size + 2 ^ 64 - new_size) % 2 ^ 64 in
    if ltb 0 split_size then split_rest env policy (next_blkp m' bp) split_size m' else m'

module _ (env : Env) where
  unfoldable pub mm_calloc : ℕ → ℕ → Manager → Run (ℕ × Manager)
  unfolding clear_bytes
  mm_calloc nmemb size g = do
    let n = nmemb * size % 2 ^ 64
    (payload, g') ← mm_malloc env n g
    if payload == 0 then ok (0, g') else ok (payload, on_mem (clear_bytes payload n) g')

  -- The last branch of `mm_realloc`: a new block, a copy of the payload, and the old block freed.
  unfoldable pub move_block : ℕ → ℕ → ℕ → Manager → Run (ℕ × Manager)
  unfolding copy_words
  move_block bp old_size size g = do
    (new_ptr, g') ← mm_malloc env size g
    if new_ptr == 0 then ok (0, g') else do
      g'' ← mm_free env (next_ptr bp) (on_mem (copy_words new_ptr (next_ptr bp) (old_size - 16)) g')
      ok (new_ptr, g'')

  unfoldable pub mm_realloc : ℕ → ℕ → Manager → Run (ℕ × Manager)
  mm_realloc ptr size g =
      let bp = prev_ptr ptr in
      let old_size = get_size g.mem bp in
      let new_size = request size in
      let next = next_blkp g.mem bp in
      let whole_size = (old_size + get_size g.mem next) % 2 ^ 64 in
      if not g.initialized
      then aborts
      else if ptr == 0
      then mm_malloc env size g
      else if size == 0
      then (mm_free env ptr g >>= λ g'. ok (0, g'))
      else if get_status g.mem bp == 0
      then ok (0, g)
      else if old_size == new_size
      then ok (next_ptr bp, g)
      else if ltb new_size old_size
      then ok (next_ptr bp, on_mem (shrink_block env g.policy bp old_size new_size) g)
      else if get_status g.mem next == 0 && leb new_size whole_size
      then ok (next_ptr bp, on_mem (grow_block env g.policy bp whole_size new_size) g)
      else move_block bp old_size size g

-- ===== src/MemMgr/Resize.antt =====
-- PA3/src/memmgr.c, `mm_realloc` under the implicit policy, where the block stays in its place.
use sysprog.Base.{
  ℕ, ◌+◌, ◌-◌, ◌%◌, ◌^◌, ◌≤◌, ◌<◌, ◌≡◌, refl, sym, ap, ◌∙◌, subst, true, false, List, [], ◌∷◌, ◌++◌,
  arith, ltb, leb, ◌==◌, inl, inr, if◌then◌else◌, Bool-cases, ◌&&◌, ne→==,
}
use sysprog.Base.Process.{ok, aborts, past_check}
use sysprog.MemMgr.Words.{
  Mem, free, alloc, pack, size_of, get_size, get_status, next_blkp, write_tags,
}
use sysprog.MemMgr.Blocks.{Env, fp_implicit, if_explicit}
use sysprog.MemMgr.Manager.{Manager, request, on_mem}
use sysprog.MemMgr.Tiles.{
  Block, block, IsBlock, total, Tiles, size_of-tag, Tiles-total, Tiles-split,
}
use sysprog.MemMgr.Rewrite.{write_tags-Tagged, SameOutside, Tiles-at}
use sysprog.MemMgr.Place.{placed, IsPlaced, IsPlaced-whole, IsPlaced-split}
use sysprog.MemMgr.Heap.{IsHeap, rewritten-IsHeap}
use sysprog.MemMgr.Realloc.{split_rest, shrink_block, grow_block, move_block, mm_realloc}

-- Blocks of `w` bytes in all are replaced by an allocated one of `req` bytes and a free rest.
resized-IsHeap :
    (g : Manager) (xs mid ys : List Block) (w req : ℕ) (m : Mem)
    → IsHeap g (xs ++ (mid ++ ys))
    → total mid ≡ w
    → 0 < w
    → IsPlaced (g.heap_start + total xs) w req g.mem m
    → IsHeap (record g { mem = m }) (xs ++ (placed w req ++ ys))
resized-IsHeap g xs mid ys w req m h e some_bytes (tiles, same) =
    let p = g.heap_start + total xs in
    rewritten-IsHeap g xs mid (placed w req) ys m h (omega (arith, e, some_bytes))
      (subst (λ l. Tiles m p (placed w req) (p + l)) (sym e) tiles)
      (subst (λ l. SameOutside p (p + l) g.mem m) (sym e) same)

-- The payload words of a block of `n` bytes at `p`.
abbrev pub SamePayload : ℕ → ℕ → Mem → Mem → Type 0
SamePayload p n m m' = (a : ℕ) → p < a → a + 8 < p + n → m' a ≡ m a

-- A block resized in place.
abbrev pub IsResized : ℕ → ℕ → ℕ → ℕ → Mem → Mem → Type 0
IsResized p w req n m m' = IsPlaced p w req m m' × SamePayload p n m m'

split-IsResized :
    (env : Env) (p w req n : ℕ) (m : Mem)
    → IsBlock (block w free)
    → IsBlock (block req alloc)
    → req < w
    → n ≤ req
    → IsResized p w req n m (
        split_rest env fp_implicit
          (next_blkp (write_tags p req alloc m) p)
          (w - req)
          (write_tags p req alloc m))
unfolding split_rest if_explicit
split-IsResized env p w req n m v u less le =
    let t = write_tags-Tagged p req alloc m u in
    let new : size_of (pack req alloc) ≡ req = size_of-tag (block req alloc) u in
    let x : IsBlock (block (w - req) free) = (omega arith, omega arith) in
    rw (t.header, new)
      (let t' = write_tags-Tagged (p + req) (w - req) free (write_tags p req alloc m) x in
        (
          IsPlaced-split p w req m _ _ v u less t t',
          λ a low high.
              t'.other a (omega arith) (omega arith) ∙ t.other a (omega arith) (omega arith),
        ))

grow_block-IsResized :
    (env : Env) (p w req n : ℕ) (m : Mem)
    → IsBlock (block w free)
    → IsBlock (block req alloc)
    → req ≤ w
    → n ≤ req
    → w < 2 ^ 64
    → IsResized p w req n m (grow_block env fp_implicit p w req m)
unfolding grow_block if_explicit
grow_block-IsResized env p w req n m v u le le' small =
    let rest : (w + 2 ^ 64 - req) % 2 ^ 64 ≡ w - req = omega arith in
    rw rest (elim (Bool-cases (ltb 0 (w - req))) [
      | inl more ↦ rw more (split-IsResized env p w req n m v u (ground arith) le')
      | inr whole ↦
          let t = write_tags-Tagged p req alloc m u in
          rw whole (
            IsPlaced-whole p w req m _ v (ground arith) t,
            λ a low high. t.other a (omega arith) (omega arith),
          )
    ])

-- The result of a resize in place: the block keeps its address, its payload and its neighbours.
abbrev pub Resized : Manager → List Block → ℕ → ℕ → ℕ → List Block → Manager → Type 0
Resized g xs w req n ys g' =
    let p = g.heap_start + total xs in
    IsHeap g' (xs ++ (placed w req ++ ys))
    × (g'.heap_start ≡ g.heap_start)
    × SamePayload p n g.mem g'.mem
    × SameOutside p (p + w) g.mem g'.mem

module _ (env : Env) where
  -- `mm_realloc` of an allocated block, up to its choice of a branch.
  known_block :
      (g : Manager) (xs : List Block) (n : ℕ) (ys : List Block)
      → IsHeap g (xs ++ block n alloc ∷ ys)
      → let p = g.heap_start + total xs in
        (get_size g.mem p ≡ n) × ((get_status g.mem p == 0) ≡ false)
  unfolding pack
  known_block g xs n ys h =
      let at = Tiles-at g.mem g.heap_start g.heap_end xs (block n alloc) ys h.blocks in
      (ap size_of at.0 ∙ size_of-tag (block n alloc) at.2, ground arith)

  -- The choice itself.
  pub chosen :
      (g : Manager) (xs : List Block) (n : ℕ) (ys : List Block) (size : ℕ)
      → IsHeap g (xs ++ block n alloc ∷ ys)
      → 0 < size
      → let p = g.heap_start + total xs in
        let req = request size in
        let whole = (n + get_size g.mem (p + n)) % 2 ^ 64 in
        mm_realloc env (p + 8) size g ≡ (
          if n == req
          then ok (p + 8, g)
          else if ltb req n
          then ok (p + 8, on_mem (shrink_block env fp_implicit p n req) g)
          else if get_status g.mem (p + n) == 0 && leb req whole
          then ok (p + 8, on_mem (grow_block env fp_implicit p whole req) g)
          else move_block env p n size g)
  unfolding mm_realloc
  chosen g xs n ys size h some_bytes =
      let p = g.heap_start + total xs in
      let req = request size in
      let (known, used) = known_block g xs n ys h in
      let here : p + 8 - 8 ≡ p = omega arith in
      rw (here, ne→== (p + 8) 0 (omega arith), ne→== size 0 (omega arith), used, known, h.implicit)
        (past_check g.initialized aborts _ h.ready)

  -- On a well-formed heap, a size from 1 to 2 ^ 61 - 1 whose request is smaller than the allocated
  -- block keeps the block in its place, cuts it down to the request and leaves a free block behind it;
  -- the payload and all other blocks stay.
  pub mm_realloc-shrink :
      (g : Manager) (xs : List Block) (n : ℕ) (ys : List Block) (size : ℕ)
      → IsHeap g (xs ++ block n alloc ∷ ys)
      → 0 < size
      → size < 2 ^ 61
      → request size < n
      → let p = g.heap_start + total xs in
        (g' : Manager) × (mm_realloc env (p + 8) size g ≡ ok (p + 8, g'))
        × Resized g xs n (request size) (request size) ys g'
  unfolding mm_realloc shrink_block
  mm_realloc-shrink g xs n ys size h some_bytes small less =
      let p = g.heap_start + total xs in
      let req = request size in
      let (known, used) = known_block g xs n ys h in
      let at = Tiles-at g.mem g.heap_start g.heap_end xs (block n alloc) ys h.blocks in
      let here : p + 8 - 8 ≡ p = omega arith in
      let shrinks : ltb req n ≡ true = ground arith in
      let (is_placed, kept) =
        split-IsResized env p n req req g.mem at.2 (omega arith, omega arith) less (omega arith) in
      (
        on_mem (shrink_block env fp_implicit p n req) g,
        chosen g xs n ys size h some_bytes ∙ rw (ne→== n req (omega arith), shrinks) refl,
        (
          resized-IsHeap g xs (block n alloc ∷ []) ys n req _ h (omega arith) (omega arith)
              is_placed,
          refl,
          kept,
          is_placed.1,
        ),
      )

  -- A larger request on a block with a free one behind it, where both together hold the request,
  -- keeps the block in its place and takes over as much of the free block as it needs; the payload
  -- and all other blocks stay.
  pub mm_realloc-grow :
      (g : Manager) (xs : List Block) (n k : ℕ) (ys : List Block) (size : ℕ)
      → IsHeap g (xs ++ block n alloc ∷ block k free ∷ ys)
      → 0 < size
      → size < 2 ^ 61
      → n < request size
      → request size ≤ n + k
      → let p = g.heap_start + total xs in
        (g' : Manager) × (mm_realloc env (p + 8) size g ≡ ok (p + 8, g'))
        × Resized g xs (n + k) (request size) n ys g'
  unfolding pack
  mm_realloc-grow g xs n k ys size h some_bytes small more fits =
      let p = g.heap_start + total xs in
      let req = request size in
      let (_, rest) =
        Tiles-split g.mem g.heap_start xs (block n alloc ∷ block k free ∷ ys) g.heap_end h.blocks in
      let end = Tiles-total g.mem _ ys g.heap_end rest.1.1 in
      let next : get_size g.mem (p + n) ≡ k =
        ap size_of rest.1.0.0 ∙ size_of-tag (block k free) rest.1.0.2 in
      let is_free : (get_status g.mem (p + n) == 0) ≡ true = ground arith in
      let below : n + k < 2 ^ 62 =
        omega (arith, h.end_at_brk, h.high, h.segment.below, h.segment.high_guard) in
      let whole : (n + k) % 2 ^ 64 ≡ n + k = omega arith in
      let larger : ltb req n ≡ false = ground arith in
      let enough : leb req (n + k) ≡ true = ground arith in
      let (is_placed, kept) =
        grow_block-IsResized env p (n + k) req n g.mem (omega arith, omega arith)
          (omega arith, omega arith) fits (omega arith) (omega arith) in
      (
        on_mem (grow_block env fp_implicit p (n + k) req) g,
        chosen g xs n (block k free ∷ ys) size h some_bytes
            ∙ rw (ne→== n req (omega arith), larger, is_free, next, whole, enough) refl,
        (
          resized-IsHeap g xs (block n alloc ∷ block k free ∷ []) ys (n + k) req _ h (omega arith)
              (omega arith) is_placed,
          refl,
          kept,
          is_placed.1,
        ),
      )

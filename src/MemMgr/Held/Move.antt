-- ===== src/MemMgr/Held/Move.antt =====
-- PA3/src/memmgr.c, `mm_realloc` under the implicit policy, where the block moves.
use sysprog.Base.{
  ℕ, ◌+◌, ◌-◌, ◌*◌, ◌/◌, ◌%◌, ◌^◌, ◌≤◌, ◌<◌, ◌≡◌, ◌≢◌, refl, sym, ap, ◌∙◌, subst, false, List, [],
  ◌∷◌, ◌++◌, arith, inl, inr, ltb, leb, ◌==◌, ◌&&◌, if◌then◌else◌, ne→==, eq→==,
}
use sysprog.Base.Process.{Run, ok, ◌>>=◌}
use sysprog.MemMgr.Words.{Status, free, alloc, pack, get_size, get_status, next_ptr}
use sysprog.MemMgr.Blocks.{Env}
use sysprog.MemMgr.Manager.{Manager, request, on_mem, mm_free}
use sysprog.MemMgr.Tiles.{Block, block, total, Tiles-total, Tiles-split}
use sysprog.MemMgr.Rewrite.{SameOutside}
use sysprog.MemMgr.Place.{placed}
use sysprog.MemMgr.Heap.{IsHeap, Grants}
use sysprog.MemMgr.Malloc.{Malloced, out_of_memory, malloced, mm_malloc-Malloced}
use sysprog.MemMgr.Free.{mm_free-Freed}
use sysprog.MemMgr.Realloc.{copy_words, move_block, mm_realloc}
use sysprog.MemMgr.Resize.{chosen}
use sysprog.MemMgr.Held.{Holds, Holds-split, Holds-here, Holds-size}
use sysprog.MemMgr.Held.Calls.{Kept, Apart, malloced-Kept, freed-Kept, from_start}
use sysprog.MemMgr.Held.Payload.{
  placed-Holds, payload-IsHeap, payload-Kept, copy_words-inside, copy_words-outside,
}

-- The block behind, if it is free, does not make up for the difference.
abbrev pub NoRoom : ℕ → ℕ → List Block → Type 0
NoRoom n req [] = Unit {0}
NoRoom n req (c ∷ ys) = c.status ≡ free → n + c.size < req

-- What `mm_realloc` makes of the block of `n` bytes at `at` that it has to move.
pub data Moved (g : Manager) (bs : List Block) (at n req ptr : ℕ) (g' : Manager) : Type 0 where
  no_memory :
      ptr ≡ 0
      → IsHeap g' bs
      → g'.heap_start ≡ g.heap_start
      → g'.mem ≡ g.mem
      → Moved g bs at n req ptr g'
  moved :
      (bs' : List Block) (off : ℕ)
      → IsHeap g' bs'
      → Holds bs' off req
      → ptr ≡ g'.heap_start + off + 8
      → g'.heap_start ≡ g.heap_start
      → ((i : ℕ) → i < n - 16 → g'.mem (ptr + i) ≡ g.mem (g.heap_start + at + 8 + i))
      → ((o k : ℕ) → o ≢ at → Holds bs o k → Kept g o k g' bs')
      → Moved g bs at n req ptr g'

no_grow :
    (w n req k : ℕ) (s : Status)
    → w ≡ pack k s
    → k % 32 ≡ 0
    → n + k < 2 ^ 62
    → (s ≡ free → n + k < req)
    → (w % 8 == 0 && leb req ((n + w / 8 * 8) % 2 ^ 64)) ≡ false
unfolding pack
no_grow w n req k free e a b r =
    let less = r refl in
    let whole : (n + w / 8 * 8) % 2 ^ 64 ≡ n + k = omega (arith, e, a, b) in
    let large : leb req (n + k) ≡ false = ground (arith, less) in rw (whole, large) (ground arith)
no_grow w n req k alloc e a b r =
    let odd : (w % 8 == 0) ≡ false = ground (arith, e, a) in rw odd refl

not_grown :
    (g : Manager) (xs : List Block) (n req : ℕ) (ys : List Block)
    → IsHeap g (xs ++ block n alloc ∷ ys)
    → NoRoom n req ys
    → let q = g.heap_start + total xs + n in
      (get_status g.mem q == 0 && leb req ((n + get_size g.mem q) % 2 ^ 64)) ≡ false
unfolding pack
not_grown g xs n req [] h r =
    let (_, rest) = Tiles-split g.mem g.heap_start xs (block n alloc ∷ []) g.heap_end h.blocks in
    let last : g.mem (g.heap_start + total xs + n) ≡ 1 = ap g.mem rest.1 ∙ h.last_tag in
    rw last refl
not_grown g xs n req (c ∷ ys) h r =
    let (_, rest) =
      Tiles-split g.mem g.heap_start xs (block n alloc ∷ c ∷ ys) g.heap_end h.blocks in
    let end = Tiles-total g.mem _ ys g.heap_end rest.1.1 in
    no_grow (g.mem (g.heap_start + total xs + n)) n req c.size c.status rest.1.0.0 rest.1.0.2.1
      (omega (arith, end, h.end_at_brk, h.high, h.segment.below, h.segment.high_guard)) r

module _ (env : Env) (grants : Grants env) where
  -- Behind the copy, the old block is released.
  release_old :
      (g g' : Manager) (bs bs' : List Block) (old n off req ptr : ℕ)
      → IsHeap g' bs'
      → g'.heap_start ≡ g.heap_start
      → Holds bs' old n
      → Holds bs' off req
      → Apart off req old n
      → ptr ≡ g.heap_start + off + 8
      → ((i : ℕ) → i < n - 16 → g'.mem (ptr + i) ≡ g.mem (g.heap_start + old + 8 + i))
      → ((o k : ℕ) → o ≢ old → Holds bs o k → Kept g o k g' bs')
      → n ≤ req
      → (g'' : Manager) × (mm_free env (g.heap_start + old + 8) g' ≡ ok g'')
        × Moved g bs old n req ptr g''
  release_old g g' bs bs' old n off req ptr h start held new apart at copies keeps le =
      let (xs, ys, e, here) = Holds-split bs' old n held in
      let h' = subst (IsHeap g') e h in
      let (g'', runs, f) = mm_free-Freed env grants g' xs n ys h' in
      let some_bytes = Holds-size g'.mem g'.heap_start bs' g'.heap_end old n h.blocks held in
      let place : g'.heap_start + total xs + 8 ≡ g.heap_start + old + 8 =
        omega (arith, start, here) in
      let other : off ≢ total xs = λ z. absurd (elim apart [
        | inl l ↦ omega (arith, l, z, here, some_bytes)
        | inr r ↦ omega (arith, r, z, here, some_bytes, le)
      ]) in
      let kept = freed-Kept g' xs n ys g'' f off req other (subst (λ l. Holds l off req) e new) in
      (
        g'',
        subst (λ q. mm_free env q g' ≡ ok g'') place runs,
        moved _ off f.heap kept.holds (omega (arith, at, start, f.start)) (f.start ∙ start)
            (λ i less.
              kept.same (ptr + i) (omega (arith, at, start))
                (omega (arith, at, start, less, le, some_bytes))
              ∙ copies i less)
            (λ o k ne held'.
              let before = keeps o k ne held' in
              let after =
                freed-Kept g' xs n ys g'' f o k (λ z. ne (z ∙ here))
                  (subst (λ l. Holds l o k) e before.holds) in
              record {
                holds = after.holds;
                same = λ a low high.
                    after.same a (omega (arith, low, start)) (omega (arith, high, start))
                    ∙ before.same a low high;
              }),
      )

  -- `mm_realloc` behind `mm_malloc`.
  abbrev move_to : ℕ → ℕ → ℕ → Manager → Run (ℕ × Manager)
  move_to bp n ptr g = if ptr == 0 then ok (0, g) else do
    g' ← mm_free env (next_ptr bp) (on_mem (copy_words ptr (next_ptr bp) (n - 16)) g)
    ok (ptr, g')

  Malloced-Moved :
      (g : Manager) (xs : List Block) (n : ℕ) (ys : List Block) (req ptr : ℕ) (g' : Manager)
      → let bs = xs ++ block n alloc ∷ ys in
        IsHeap g bs
        → n < req
        → Malloced g bs req ptr g'
        → (g'' : Manager) × (move_to (g.heap_start + total xs) n ptr g' ≡ ok (ptr, g''))
          × Moved g bs (total xs) n req ptr g''
  Malloced-Moved g xs n ys req ptr g' h less (out_of_memory z none_fits full heap start m) =
      (g', rw (eq→== ptr 0 z) (ap (λ p. ok (p, g')) (sym z)), no_memory z heap start m)
  Malloced-Moved g xs n ys req ptr g' h less
        (malloced before size after origin enough at start heap same) =
      let bs = xs ++ block n alloc ∷ ys in
      let bs' = before ++ (placed size req ++ after) in
      let p = g.heap_start + total xs in
      let m = copy_words ptr (p + 8) (n - 16) g'.mem in
      let new = placed-Holds before size req after in
      let here = Holds-here xs ys n in
      let large = Holds-size g.mem g.heap_start bs g.heap_end (total xs) n h.blocks here in
      let near : SameOutside (g.heap_start + total before + 8)
          (g.heap_start + total before + req - 8) g'.mem m =
        subst (λ q. SameOutside q (g.heap_start + total before + req - 8) g'.mem m) at
          (copy_words-outside ptr (p + 8) (n - 16) (g.heap_start + total before + req - 8) g'.mem
            (omega (arith, at, less, large))) in
      let keeps : (o k : ℕ) → Holds bs o k → Kept g o k g' bs' × Apart (total before) size o k =
        malloced-Kept g bs req g' before size after h origin enough
          (from_start g g' before size ptr at same) in
      let (old, apart) = keeps (total xs) n here in
      let (g'', frees, result) =
        release_old g (on_mem (copy_words ptr (p + 8) (n - 16)) g') bs bs' (total xs) n
          (total before) req ptr
          (payload-IsHeap g' bs' (total before) req m heap new (
            subst (λ s. SameOutside (s + total before + 8) (s + total before + req - 8) g'.mem m)
              (sym start) near))
          start old.holds new
          (elim apart [ inl l ↦ inl l | inr r ↦ inr (omega (arith, r, enough)) ]) at
          (λ i below.
            copy_words-inside ptr (p + 8) (n - 16) i g'.mem below
            ∙ old.same (p + 8 + i) (omega arith) (omega (arith, below)))
          (λ o k ne held.
            let (kept, clear) = keeps o k held in
            payload-Kept g g' bs' (total before) req size o k m near enough clear kept)
          (omega (arith, less)) in
      (g'', rw (ne→== ptr 0 (omega (arith, at))) (ap (λ r. r >>= λ a. ok (ptr, a)) frees), result)

  -- With a kernel that grants every `mprotect`, `mm_realloc` of an allocated block to a larger size
  -- below 2 ^ 61, for which a free block behind it does not make up, returns. Either it answers `NULL`
  -- and leaves the blocks and the memory as they were, or a block for the new size whose payload
  -- begins with the old payload, at every address. All other allocated blocks are still there, with
  -- their words.
  pub mm_realloc-move :
      (g : Manager) (xs : List Block) (n : ℕ) (ys : List Block) (size : ℕ)
      → let bs = xs ++ block n alloc ∷ ys in
        IsHeap g bs
        → 0 < size
        → size < 2 ^ 61
        → n < request size
        → NoRoom n (request size) ys
        → (ptr : ℕ) × (g' : Manager) × (mm_realloc env (g.heap_start + total xs + 8) size g
            ≡ ok (ptr, g'))
          × Moved g bs (total xs) n (request size) ptr g'
  unfolding move_block
  mm_realloc-move g xs n ys size h some_bytes small more no_room =
      let p = g.heap_start + total xs in
      let req = request size in
      let (ptr, g', runs, out, room) =
        mm_malloc-Malloced env grants g (xs ++ block n alloc ∷ ys) size h some_bytes small in
      let (g'', moves, result) = Malloced-Moved g xs n ys req ptr g' h more out in
      let larger : ltb req n ≡ false = ground (arith, more) in
      (
        ptr,
        g'',
        chosen env g xs n ys size h some_bytes
            ∙ rw (ne→== n req (omega (arith, more)), larger, not_grown g xs n req ys h no_room)
                (ap (λ r. r >>= λ a. move_to p n a.0 a.1) runs ∙ moves),
        result,
      )

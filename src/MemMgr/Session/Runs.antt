-- ===== src/MemMgr/Session/Runs.antt =====
-- PA3/src/memmgr.c: the heap, and a block that a program holds, over any calls of the manager.
use sysprog.Base.{ℕ, ◌+◌, ◌≡◌, ◌≢◌, refl, ◌∙◌, subst, sym, List, arith}
use sysprog.MemMgr.Blocks.{Env}
use sysprog.MemMgr.Manager.{Manager}
use sysprog.MemMgr.Tiles.{Block}
use sysprog.MemMgr.Heap.{IsHeap, Grants}
use sysprog.MemMgr.Held.{Holds}
use sysprog.MemMgr.Held.Calls.{Kept}
use sysprog.MemMgr.Session.{
  Formed, Steps, done, malloc, calloc, resize, release, Keeps, malloc-Keeps, calloc-Keeps,
  resize-Keeps, release-Keeps,
}

-- None of the calls releases or resizes the block with this pointer.
abbrev pub Spares : {env : Env} {g g' : Manager} → Steps env g g' → ℕ → Type 0
Spares done q = Unit {0}
Spares (malloc size ptr small e rest) q = Spares rest q
Spares (calloc nmemb size ptr small e rest) q = Spares rest q
Spares (resize ptr size ptr' live small e rest) q = (ptr ≢ q) × Spares rest q
Spares (release ptr live e rest) q = (ptr ≢ q) × Spares rest q

-- The heap still holds the block, with its words.
abbrev pub StillHolds : Manager → ℕ → ℕ → Manager → Type 0
StillHolds g off k g' =
    (bs : List Block) × IsHeap g' bs × (g'.heap_start ≡ g.heap_start) × Kept g off k g' bs

-- A first call, and then the others.
call_first :
    (g g' g'' : Manager) (bs : List Block) (ptr off k : ℕ) (c : Keeps g bs ptr g')
    → ptr ≢ g.heap_start + off + 8
    → Holds bs off k
    → (Kept g off k g' c.blocks → StillHolds g' off k g'')
    → StillHolds g off k g''
call_first g g' g'' bs ptr off k c ne held rest =
    let first = c.kept off k ne held in
    let (bs', h, start, kept) = rest first in
    (
      bs',
      h,
      start ∙ c.start,
      record {
        holds = kept.holds;
        same = λ a low high.
            kept.same a (omega (arith, low, c.start)) (omega (arith, high, c.start))
            ∙ first.same a low high;
      },
    )

module _ (env : Env) (grants : Grants env) where
  -- With a kernel that grants every `mprotect`, any sequence of `mm_malloc` and `mm_calloc` of fewer
  -- than 2 ^ 61 bytes, 0 included, and of `mm_realloc`, to fewer than 2 ^ 61 bytes, and `mm_free` of
  -- blocks that are allocated at that moment, takes a well-formed heap to a well-formed heap.
  pub Steps-Formed : {g g' : Manager} → Steps env g g' → Formed g → Formed g'
  Steps-Formed done f = f
  Steps-Formed (malloc {g = g} {g' = mid} size ptr small e rest) (bs, h) =
      let c = malloc-Keeps env grants g mid bs size ptr h small e in
      Steps-Formed rest (c.blocks, c.heap)
  Steps-Formed (calloc {g = g} {g' = mid} nmemb size ptr small e rest) (bs, h) =
      let c = calloc-Keeps env grants g mid bs nmemb size ptr h small e in
      Steps-Formed rest (c.blocks, c.heap)
  Steps-Formed (resize {g = g} {g' = mid} ptr size ptr' live small e rest) (bs, h) =
      let c = resize-Keeps env grants g mid bs ptr size ptr' h live small e in
      Steps-Formed rest (c.blocks, c.heap)
  Steps-Formed (release {g = g} {g' = mid} ptr live e rest) (bs, h) =
      let c = release-Keeps env grants g mid bs ptr h live e in Steps-Formed rest (c.blocks, c.heap)

  -- With a kernel that grants every `mprotect`: over any such sequence of calls, in any order, a block
  -- that is allocated at its start, and that none of the calls frees or reallocates, stays allocated at
  -- its place, and each of its words keeps its value.
  pub Steps-StillHolds :
      {g g' : Manager} (steps : Steps env g g') (off k : ℕ) (bs : List Block)
      → IsHeap g bs
      → Holds bs off k
      → Spares steps (g.heap_start + off + 8)
      → StillHolds g off k g'
  Steps-StillHolds done off k bs h held s =
      (bs, h, refl, record { holds = held; same = λ a low high. refl })
  Steps-StillHolds (malloc {g = g} {g' = mid} {g'' = last} size ptr small e rest) off k bs h held
        s =
      let c = malloc-Keeps env grants g mid bs size ptr h small e in
      call_first g mid last bs 0 off k c (omega arith) held (λ kept.
        Steps-StillHolds rest off k c.blocks c.heap kept.holds
          (subst (λ o. Spares rest (o + off + 8)) (sym c.start) s))
  Steps-StillHolds (calloc {g = g} {g' = mid} {g'' = last} nmemb size ptr small e rest) off k bs h
        held s =
      let c = calloc-Keeps env grants g mid bs nmemb size ptr h small e in
      call_first g mid last bs 0 off k c (omega arith) held (λ kept.
        Steps-StillHolds rest off k c.blocks c.heap kept.holds
          (subst (λ o. Spares rest (o + off + 8)) (sym c.start) s))
  Steps-StillHolds (resize {g = g} {g' = mid} {g'' = last} ptr size ptr' live small e rest) off k bs
        h held s =
      let c = resize-Keeps env grants g mid bs ptr size ptr' h live small e in
      call_first g mid last bs ptr off k c s.0 held (λ kept.
        Steps-StillHolds rest off k c.blocks c.heap kept.holds
          (subst (λ o. Spares rest (o + off + 8)) (sym c.start) s.1))
  Steps-StillHolds (release {g = g} {g' = mid} {g'' = last} ptr live e rest) off k bs h held s =
      let c = release-Keeps env grants g mid bs ptr h live e in
      call_first g mid last bs ptr off k c s.0 held (λ kept.
        Steps-StillHolds rest off k c.blocks c.heap kept.holds
          (subst (λ o. Spares rest (o + off + 8)) (sym c.start) s.1))

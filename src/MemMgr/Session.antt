-- ===== src/MemMgr/Session.antt =====
-- PA3/src/memmgr.c: any sequence of calls of the manager, under the implicit policy.
pub mod Runs
use sysprog.Base.{
  inl, inr, true, ◌==◌, Bool-cases, arith, ℕ, ◌+◌, ◌*◌, ◌%◌, ◌^◌, ◌<◌, ◌≡◌, ◌≢◌, refl, sym, ap, ◌∙◌,
  subst, List, ◌∷◌, ◌++◌,
}
use sysprog.Base.Process.{Run, ok, aborts, out_of_fuel}
use sysprog.MemMgr.Words.{alloc}
use sysprog.MemMgr.Blocks.{Env}
use sysprog.MemMgr.Manager.{Manager, request, mm_malloc, mm_free}
use sysprog.MemMgr.Realloc.{mm_calloc, mm_realloc}
use sysprog.MemMgr.Tiles.{Block, block, total}
use sysprog.MemMgr.Heap.{IsHeap, Grants}
use sysprog.MemMgr.Free.{mm_free-Freed}
use sysprog.MemMgr.Malloc.{mm_malloc-Malloced}
use sysprog.MemMgr.Held.{Holds}
use sysprog.MemMgr.Held.Unique.{Tiles-unique}
use sysprog.MemMgr.Held.Calls.{SameBlock, Kept, KeepsHeld, Malloced-Keeps, freed-Kept}
use sysprog.MemMgr.Held.Calloc.{Calloced, no_memory, cleared, mm_calloc-Calloced}
use sysprog.MemMgr.Held.Resized.{Others, mm_realloc-Others}

-- A heap with some blocks.
abbrev pub Formed : Manager → Type 0
Formed g = (bs : List Block) × IsHeap g bs

-- The pointer is that of an allocated block.
pub record Live (g : Manager) (ptr : ℕ) : Type 0 where
  pub before : List Block
  pub size : ℕ
  pub after : List Block
  pub heap : IsHeap g (before ++ block size alloc ∷ after)
  pub at : ptr ≡ g.heap_start + total before + 8

-- The calls of a program that releases and resizes only what it holds.
pub data Steps (env : Env) : Manager → Manager → Type 0 where
  done : {g : Manager} → Steps env g g
  malloc :
      {g g' g'' : Manager} (size ptr : ℕ)
      → size < 2 ^ 61
      → mm_malloc env size g ≡ ok (ptr, g')
      → Steps env g' g''
      → Steps env g g''
  calloc :
      {g g' g'' : Manager} (nmemb size ptr : ℕ)
      → nmemb * size % 2 ^ 64 < 2 ^ 61
      → mm_calloc env nmemb size g ≡ ok (ptr, g')
      → Steps env g' g''
      → Steps env g g''
  resize :
      {g g' g'' : Manager} (ptr size ptr' : ℕ)
      → Live g ptr
      → size < 2 ^ 61
      → mm_realloc env ptr size g ≡ ok (ptr', g')
      → Steps env g' g''
      → Steps env g g''
  release :
      {g g' g'' : Manager} (ptr : ℕ)
      → Live g ptr
      → mm_free env ptr g ≡ ok g'
      → Steps env g' g''
      → Steps env g g''

-- The heap is well-formed, and still holds the blocks that it held, with their words, but for the one
-- with the pointer `ptr`; no block has the pointer 0.
pub record Keeps (g : Manager) (bs : List Block) (ptr : ℕ) (g' : Manager) : Type 0 where
  pub blocks : List Block
  pub heap : IsHeap g' blocks
  pub start : g'.heap_start ≡ g.heap_start
  pub kept : (off k : ℕ) → ptr ≢ g.heap_start + off + 8 → Holds bs off k → Kept g off k g' blocks

outcome {ℓ} : {A : Type ℓ} → A → Run A → A
outcome a (ok b) = b
outcome a aborts = a
outcome a out_of_fuel = a

manager_of : Manager → Run (ℕ × Manager) → Manager
unfolding outcome
manager_of g r = (outcome (0, g) r).1

Calloced-Keeps :
    (g : Manager) (bs : List Block) (n ptr : ℕ) (g' : Manager)
    → Calloced g bs n ptr g'
    → Keeps g bs 0 g'
Calloced-Keeps g bs n ptr g' (no_memory z heap start m) = record {
  blocks = bs;
  heap = heap;
  start = start;
  kept = λ off k ne held. record { holds = held; same = λ a low high. ap (λ f. f a) m };
}
Calloced-Keeps g bs n ptr g' (cleared bs' off heap new at start zeros last keeps) = record {
  blocks = bs';
  heap = heap;
  start = start;
  kept = λ off k ne held. keeps off k held;
}

-- A call that answers NULL and does nothing.
same-Keeps : (g : Manager) (bs : List Block) → IsHeap g bs → Keeps g bs 0 g
same-Keeps g bs h = record {
  blocks = bs;
  heap = h;
  start = refl;
  kept = λ off k ne held. record { holds = held; same = λ a low high. refl };
}

module _ (env : Env) (grants : Grants env) where
  nothing_asked :
      (g : Manager) (bs : List Block) (size : ℕ)
      → IsHeap g bs
      → (size == 0) ≡ true
      → mm_malloc env size g ≡ ok (0, g)
  unfolding mm_malloc
  nothing_asked g bs size h z = rw (h.ready, z) refl

  no_product :
      (g : Manager) (bs : List Block) (nmemb size : ℕ)
      → IsHeap g bs
      → (nmemb * size % 2 ^ 64 == 0) ≡ true
      → mm_calloc env nmemb size g ≡ ok (0, g)
  unfolding mm_calloc
  no_product g bs nmemb size h z = rw (nothing_asked g bs (nmemb * size % 2 ^ 64) h z) refl

  pub malloc-Keeps :
      (g g' : Manager) (bs : List Block) (size ptr : ℕ)
      → IsHeap g bs
      → size < 2 ^ 61
      → mm_malloc env size g ≡ ok (ptr, g')
      → Keeps g bs 0 g'
  unfolding manager_of
  malloc-Keeps g g' bs size ptr h small e = elim (Bool-cases (size == 0)) [
    | inl z ↦
        subst (Keeps g bs 0) (ap (manager_of g) (sym (nothing_asked g bs size h z) ∙ e))
          (same-Keeps g bs h)
    | inr z ↦
        let (ptr', after, runs, out, room) =
          mm_malloc-Malloced env grants g bs size h (ground arith) small in
        let (bs', heap, start, keeps) = Malloced-Keeps g bs (request size) ptr' after h out in
        subst (Keeps g bs 0) (ap (manager_of g) (sym runs ∙ e)) record {
          blocks = bs';
          heap = heap;
          start = start;
          kept = λ off k ne held. keeps off k held;
        }
  ]

  pub calloc-Keeps :
      (g g' : Manager) (bs : List Block) (nmemb size ptr : ℕ)
      → IsHeap g bs
      → nmemb * size % 2 ^ 64 < 2 ^ 61
      → mm_calloc env nmemb size g ≡ ok (ptr, g')
      → Keeps g bs 0 g'
  unfolding manager_of
  calloc-Keeps g g' bs nmemb size ptr h small e = elim (Bool-cases (nmemb * size % 2 ^ 64 == 0)) [
    | inl z ↦
        subst (Keeps g bs 0) (ap (manager_of g) (sym (no_product g bs nmemb size h z) ∙ e))
          (same-Keeps g bs h)
    | inr z ↦
        let (ptr', after, runs, out) =
          mm_calloc-Calloced env grants g bs nmemb size h (ground arith) small in
        subst (Keeps g bs 0) (ap (manager_of g) (sym runs ∙ e))
          (Calloced-Keeps g bs _ ptr' after out)
  ]

  pub resize-Keeps :
      (g g' : Manager) (bs : List Block) (ptr size ptr' : ℕ)
      → IsHeap g bs
      → Live g ptr
      → size < 2 ^ 61
      → mm_realloc env ptr size g ≡ ok (ptr', g')
      → Keeps g bs ptr g'
  unfolding manager_of
  resize-Keeps g g' bs ptr size ptr' h live small e =
      let (moved_to, after, runs, o) =
        mm_realloc-Others env grants g live.before live.size live.after size live.heap small in
      let same_blocks = Tiles-unique g.mem g.heap_start g.heap_end bs _ h.blocks live.heap.blocks in
      let runs' = subst (λ p. mm_realloc env p size g ≡ ok (moved_to, after)) (sym live.at) runs in
      subst (Keeps g bs ptr) (ap (manager_of g) (sym runs' ∙ e)) record {
        blocks = o.blocks;
        heap = o.heap;
        start = o.start;
        kept = λ off k ne held.
            o.kept off k (λ z. ne (live.at ∙ ap (λ q. g.heap_start + q + 8) (sym z)))
              (subst (λ l. Holds l off k) same_blocks held);
      }

  pub release-Keeps :
      (g g' : Manager) (bs : List Block) (ptr : ℕ)
      → IsHeap g bs
      → Live g ptr
      → mm_free env ptr g ≡ ok g'
      → Keeps g bs ptr g'
  unfolding outcome
  release-Keeps g g' bs ptr h live e =
      let (after, runs, freed) =
        mm_free-Freed env grants g live.before live.size live.after live.heap in
      let same_blocks = Tiles-unique g.mem g.heap_start g.heap_end bs _ h.blocks live.heap.blocks in
      let runs' = subst (λ p. mm_free env p g ≡ ok after) (sym live.at) runs in
      subst (Keeps g bs ptr) (ap (outcome g) (sym runs' ∙ e)) record {
        blocks = _;
        heap = freed.heap;
        start = freed.start;
        kept = λ off k ne held.
            freed-Kept g live.before live.size live.after after freed off k
              (λ z. ne (live.at ∙ ap (λ q. g.heap_start + q + 8) (sym z)))
              (subst (λ l. Holds l off k) same_blocks held);
      }

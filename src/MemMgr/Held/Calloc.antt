-- ===== src/MemMgr/Held/Calloc.antt =====
-- PA3/src/memmgr.c, `mm_calloc` under the implicit policy.
use sysprog.Base.{
  ℕ, ◌+◌, ◌-◌, ◌*◌, ◌%◌, ◌^◌, ◌≤◌, ◌<◌, ◌≡◌, refl, sym, ap, ◌∙◌, subst, List, ◌++◌, arith, ◌==◌,
  if◌then◌else◌, ne→==, eq→==,
}
use native.Mathlib.Nat.{mul-mod_left}
use sysprog.Base.Process.{Run, ok, ◌>>=◌}
use sysprog.MemMgr.Blocks.{Env}
use sysprog.MemMgr.Manager.{Manager, request, on_mem}
use sysprog.MemMgr.Tiles.{Block, total}
use sysprog.MemMgr.Rewrite.{SameOutside}
use sysprog.MemMgr.Place.{placed}
use sysprog.MemMgr.Heap.{IsHeap, Grants}
use sysprog.MemMgr.Malloc.{Malloced, out_of_memory, malloced, mm_malloc-Malloced}
use sysprog.MemMgr.Realloc.{clear_bytes, mm_calloc}
use sysprog.MemMgr.Held.{Holds}
use sysprog.MemMgr.Held.Calls.{KeepsHeld, malloced-Kept, from_start}
use sysprog.MemMgr.Held.Payload.{
  placed-Holds, payload-IsHeap, payload-Kept, clear_bytes-inside, clear_bytes-outside,
  clear_bytes-last,
}

-- What `mm_calloc` makes of the heap, for a product of `n` bytes.
pub data Calloced (g : Manager) (bs : List Block) (n ptr : ℕ) (g' : Manager) : Type 0 where
  no_memory :
      ptr ≡ 0
      → IsHeap g' bs
      → g'.heap_start ≡ g.heap_start
      → g'.mem ≡ g.mem
      → Calloced g bs n ptr g'
  cleared :
      (bs' : List Block) (off : ℕ)
      → IsHeap g' bs'
      → Holds bs' off (request n)
      → ptr ≡ g'.heap_start + off + 8
      → g'.heap_start ≡ g.heap_start
      → ((a : ℕ) → ptr ≤ a → a + 8 ≤ ptr + n → g'.mem a ≡ 0)
      → ((a : ℕ) → ptr ≤ a → a < ptr + n → ptr + n < a + 8 → g'.mem a % 256 ^ (ptr + n - a) ≡ 0)
      → KeepsHeld g bs g' bs'
      → Calloced g bs n ptr g'

-- The rest of `mm_calloc`, behind `mm_malloc`.
abbrev clear_new : ℕ → ℕ → Manager → Run (ℕ × Manager)
clear_new n ptr g = if ptr == 0 then ok (0, g) else ok (ptr, on_mem (clear_bytes ptr n) g)

Malloced-Calloced :
    (g : Manager) (bs : List Block) (n ptr : ℕ) (g' : Manager)
    → IsHeap g bs
    → n + 16 ≤ request n
    → Malloced g bs (request n) ptr g'
    → (g'' : Manager) × (clear_new n ptr g' ≡ ok (ptr, g'')) × Calloced g bs n ptr g''
Malloced-Calloced g bs n ptr g' h room (out_of_memory z none_fits full heap start m) =
    (g', rw (eq→== ptr 0 z) (ap (λ p. ok (p, g')) (sym z)), no_memory z heap start m)
Malloced-Calloced g bs n ptr g' h room
      (malloced before size after origin enough at start heap same) =
    let bs' = before ++ (placed size (request n) ++ after) in
    let new = placed-Holds before size (request n) after in
    let m = clear_bytes ptr n g'.mem in
    let p = g'.heap_start + total before in
    let here : p + 8 ≡ ptr = omega (arith, at, start) in
    let near =
      subst (λ q. SameOutside q (p + request n - 8) g'.mem m) (sym here)
        (clear_bytes-outside ptr n (p + request n - 8) g'.mem (omega (arith, at, start, room))) in
    (
      on_mem (clear_bytes ptr n) g',
      rw (ne→== ptr 0 (omega (arith, at))) refl,
      cleared bs' (total before) (payload-IsHeap g' bs' (total before) (request n) m heap new near)
          new (sym here) start (λ a low high. clear_bytes-inside ptr n a g'.mem low high)
          (λ a low high part.
            ap (λ w. w % 256 ^ (ptr + n - a)) (clear_bytes-last ptr n a g'.mem low high part)
            ∙ mul-mod_left _ (256 ^ (ptr + n - a)))
          (λ off k held.
            let (kept, apart) =
              malloced-Kept g bs (request n) g' before size after h origin enough
                (from_start g g' before size ptr at same) off k held in
            payload-Kept g g' bs' (total before) (request n) size off k m
              (subst
                (λ s.
                  SameOutside (s + total before + 8) (s + total before + request n - 8) g'.mem m)
                start near)
              enough apart kept),
    )

module _ (env : Env) (grants : Grants env) where
  -- With a kernel that grants every `mprotect`, `mm_calloc` on a well-formed heap, for a product of
  -- 1 to 2 ^ 61 - 1 bytes, modulo 2 ^ 64, returns. Either it answers `NULL` and leaves the blocks and
  -- the memory as they were, or a block for that many bytes whose payload is zero in each of them.
  -- All blocks that were allocated are still there, with their words.
  pub mm_calloc-Calloced :
      (g : Manager) (bs : List Block) (nmemb size : ℕ)
      → IsHeap g bs
      → let n = nmemb * size % 2 ^ 64 in
        0 < n
        → n < 2 ^ 61
        → (ptr : ℕ) × (g' : Manager) × (mm_calloc env nmemb size g ≡ ok (ptr, g'))
          × Calloced g bs n ptr g'
  unfolding mm_calloc
  mm_calloc-Calloced g bs nmemb size h some_bytes small =
      let n = nmemb * size % 2 ^ 64 in
      let (ptr, g', runs, out, room) = mm_malloc-Malloced env grants g bs n h some_bytes small in
      let (g'', clears, result) = Malloced-Calloced g bs n ptr g' h room out in
      (ptr, g'', ap (λ r. r >>= λ a. clear_new n a.0 a.1) runs ∙ clears, result)

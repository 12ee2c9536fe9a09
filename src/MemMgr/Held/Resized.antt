-- ===== src/MemMgr/Held/Resized.antt =====
-- PA3/src/memmgr.c: `mm_realloc` leaves the other blocks that a program holds alone.
use sysprog.Base.{
  ℕ, zero, suc, ◌+◌, ◌-◌, ◌^◌, ◌≤◌, ◌<◌, ◌≡◌, ◌≢◌, refl, sym, ap, ◌∙◌, subst, List, [], ◌∷◌, ◌++◌,
  arith, ◌⊎◌, inl, inr, ltb, ◌==◌, ne→==, Bool-cases,
}
use sysprog.Base.Process.{ok, aborts, ◌>>=◌, past_check}
use sysprog.MemMgr.Words.{Status, free, alloc}
use sysprog.MemMgr.Blocks.{Env}
use sysprog.MemMgr.Manager.{Manager, request}
use sysprog.MemMgr.Tiles.{Block, block, total}
use sysprog.MemMgr.Rewrite.{SameOutside}
use sysprog.MemMgr.Place.{placed}
use sysprog.MemMgr.Heap.{IsHeap, Grants}
use sysprog.MemMgr.Free.{mm_free-Freed}
use sysprog.MemMgr.Realloc.{mm_realloc}
use sysprog.MemMgr.Resize.{chosen, mm_realloc-shrink, mm_realloc-grow}
use sysprog.MemMgr.Held.{Holds, Holds-ends, Holds-append}
use sysprog.MemMgr.Held.Calls.{Kept, replaced, placed-total, freed-Kept}
use sysprog.MemMgr.Held.Move.{NoRoom, Moved, no_memory, moved, mm_realloc-move}

-- All allocated blocks but the one at `at` are still there, with their words.
pub record Others (g : Manager) (bs : List Block) (at : ℕ) (g' : Manager) : Type 0 where
  pub blocks : List Block
  pub heap : IsHeap g' blocks
  pub start : g'.heap_start ≡ g.heap_start
  pub kept : (o k : ℕ) → o ≢ at → Holds bs o k → Kept g o k g' blocks

-- A held block is the one at the end of `xs`, or before it, or behind it.
beside_held :
    (xs ys : List Block) (n o k : ℕ)
    → o ≢ total xs
    → Holds (xs ++ block n alloc ∷ ys) o k
    → Holds xs o k ⊎ ((total xs + n ≤ o) × Holds ys (o - total xs - n) k)
beside_held xs ys n o k ne h = elim (Holds-append xs (block n alloc ∷ ys) o k h) [
  | inl l ↦ inl l
  | inr (le, inl (z, e)) ↦ absurd (ne (omega (arith, le, z)))
  | inr (le, inr (le', r)) ↦ inr (omega (arith, le, le'), r)
]

-- A run of `w` bytes that is rewritten.
rewritten-Kept :
    (g g' : Manager) (xs ys : List Block) (w req o k : ℕ)
    → req ≤ w
    → (let p = g.heap_start + total xs in SameOutside p (p + w) g.mem g'.mem)
    → Holds xs o k ⊎ ((total xs + w ≤ o) × Holds ys (o - total xs - w) k)
    → Kept g o k g' (xs ++ (placed w req ++ ys))
rewritten-Kept g g' xs ys w req o k le same place = record {
  holds = replaced xs (placed w req) ys w o k (placed-total w req le) place;
  same = λ a low high. same a (elim place [
    | inl l ↦ inl (omega (arith, high, Holds-ends xs o k l))
    | inr (le', r) ↦ inr (omega (arith, low, le'))
  ]);
}

-- Two runs behind each other, of which the second is free.
beside_both :
    (xs ys : List Block) (n f o k : ℕ)
    → Holds xs o k ⊎ ((total xs + n ≤ o) × Holds (block f free ∷ ys) (o - total xs - n) k)
    → Holds xs o k ⊎ ((total xs + (n + f) ≤ o) × Holds ys (o - total xs - (n + f)) k)
beside_both xs ys n f o k (inl l) = inl l
beside_both xs ys n f o k (inr (le, inl (z, e))) = absurd cc
beside_both xs ys n f o k (inr (le, inr (le', r))) =
    inr (omega (arith, le, le'), subst (λ q. Holds ys q k) (omega (arith, le, le')) r)

Moved-Others :
    (g : Manager) (bs : List Block) (at n req ptr : ℕ) (g' : Manager)
    → Moved g bs at n req ptr g'
    → Others g bs at g'
Moved-Others g bs at n req ptr g' (no_memory z heap start m) = record {
  blocks = bs;
  heap = heap;
  start = start;
  kept = λ o k ne h. record { holds = h; same = λ a low high. ap (λ f. f a) m };
}
Moved-Others g bs at n req ptr g' (moved bs' off heap new here start copies keeps) = record {
  blocks = bs';
  heap = heap;
  start = start;
  kept = keeps;
}

-- Whether the block behind makes up for the difference.
data Behind (n req : ℕ) (ys : List Block) : Type 0 where
  no_room : NoRoom n req ys → Behind n req ys
  room : (k : ℕ) (zs : List Block) → ys ≡ block k free ∷ zs → req ≤ n + k → Behind n req ys

behind : (n req : ℕ) (ys : List Block) → Behind n req ys
behind n req [] = no_room tt
behind n req (c ∷ ys) = split c.status refl
  where
    split : (s : Status) → c.status ≡ s → Behind n req (c ∷ ys)
    split alloc e = no_room (λ z. absurd (clash (sym z ∙ e)))
      where
        clash : free ≢ alloc
        clash e = cc
    split free e = elim (Bool-cases (ltb (n + c.size) req)) [
      | inl t ↦ no_room (λ z. ground (arith, t))
      | inr t ↦ room c.size ys (ap (λ s. block c.size s ∷ ys) e) (ground (arith, t))
    ]

module _ (env : Env) (grants : Grants env) where
  grown-Others :
      (g : Manager) (xs : List Block) (n f : ℕ) (ys : List Block) (size : ℕ)
      → IsHeap g (xs ++ block n alloc ∷ block f free ∷ ys)
      → 0 < size
      → size < 2 ^ 61
      → n < request size
      → request size ≤ n + f
      → (ptr : ℕ) × (g' : Manager) × (mm_realloc env (g.heap_start + total xs + 8) size g
          ≡ ok (ptr, g'))
        × Others g (xs ++ block n alloc ∷ block f free ∷ ys) (total xs) g'
  grown-Others g xs n f ys size h some_bytes small more fits =
      let (g', runs, (heap, start, payload, same)) =
        mm_realloc-grow env g xs n f ys size h some_bytes small more fits in
      (
        _,
        g',
        runs,
        record {
          blocks = xs ++ (placed (n + f) (request size) ++ ys);
          heap = heap;
          start = start;
          kept = λ o k ne held.
              rewritten-Kept g g' xs ys (n + f) (request size) o k fits same
                (beside_both xs ys n f o k (beside_held xs (block f free ∷ ys) n o k ne held));
        },
      )

  shrunk-Others :
      (g : Manager) (xs : List Block) (n : ℕ) (ys : List Block) (size : ℕ)
      → IsHeap g (xs ++ block n alloc ∷ ys)
      → 0 < size
      → size < 2 ^ 61
      → request size < n
      → (ptr : ℕ) × (g' : Manager) × (mm_realloc env (g.heap_start + total xs + 8) size g
          ≡ ok (ptr, g'))
        × Others g (xs ++ block n alloc ∷ ys) (total xs) g'
  shrunk-Others g xs n ys size h some_bytes small less =
      let (g', runs, (heap, start, payload, same)) =
        mm_realloc-shrink env g xs n ys size h some_bytes small less in
      (
        _,
        g',
        runs,
        record {
          blocks = xs ++ (placed n (request size) ++ ys);
          heap = heap;
          start = start;
          kept = λ o k ne held.
              rewritten-Kept g g' xs ys n (request size) o k (omega (arith, less)) same
                (beside_held xs ys n o k ne held);
        },
      )

  -- `mm_realloc` to no bytes is `mm_free`.
  released-Others :
      (g : Manager) (xs : List Block) (n : ℕ) (ys : List Block)
      → IsHeap g (xs ++ block n alloc ∷ ys)
      → (ptr : ℕ) × (g' : Manager) × (mm_realloc env (g.heap_start + total xs + 8) 0 g
          ≡ ok (ptr, g'))
        × Others g (xs ++ block n alloc ∷ ys) (total xs) g'
  unfolding mm_realloc
  released-Others g xs n ys h =
      let (g', runs, f) = mm_free-Freed env grants g xs n ys h in
      let p = g.heap_start + total xs + 8 in
      (
        0,
        g',
        rw (ne→== p 0 (omega arith)) (past_check g.initialized aborts _ h.ready)
            ∙ ap (λ r. r >>= λ a. ok (0, a)) runs,
        record {
          blocks = _;
          heap = f.heap;
          start = f.start;
          kept = λ o k ne held. freed-Kept g xs n ys g' f o k ne held;
        },
      )

  larger-Others :
      (g : Manager) (xs : List Block) (n : ℕ) (ys : List Block) (size : ℕ)
      → IsHeap g (xs ++ block n alloc ∷ ys)
      → 0 < size
      → size < 2 ^ 61
      → n < request size
      → Behind n (request size) ys
      → (ptr : ℕ) × (g' : Manager) × (mm_realloc env (g.heap_start + total xs + 8) size g
          ≡ ok (ptr, g'))
        × Others g (xs ++ block n alloc ∷ ys) (total xs) g'
  larger-Others g xs n ys size h some_bytes small more (no_room r) =
      let (ptr, g', runs, m) =
        mm_realloc-move env grants g xs n ys size h some_bytes small more r in
      (ptr, g', runs, Moved-Others g _ (total xs) n (request size) ptr g' m)
  larger-Others g xs n ys size h some_bytes small more (room f zs e fits) =
      subst
        (λ l.
          (ptr : ℕ) × (g' : Manager) × (mm_realloc env (g.heap_start + total xs + 8) size g
            ≡ ok (ptr, g'))
          × Others g (xs ++ block n alloc ∷ l) (total xs) g')
        (sym e)
        (grown-Others g xs n f zs size (subst (λ l. IsHeap g (xs ++ block n alloc ∷ l)) e h)
          some_bytes small more fits)

  -- `mm_realloc` for an allocated block, with any size below 2 ^ 61, always returns,
  -- whatever branch it takes: every other allocated block is still there, with its words.
  pub mm_realloc-Others :
      (g : Manager) (xs : List Block) (n : ℕ) (ys : List Block) (size : ℕ)
      → IsHeap g (xs ++ block n alloc ∷ ys)
      → size < 2 ^ 61
      → (ptr : ℕ) × (g' : Manager) × (mm_realloc env (g.heap_start + total xs + 8) size g
          ≡ ok (ptr, g'))
        × Others g (xs ++ block n alloc ∷ ys) (total xs) g'
  mm_realloc-Others g xs n ys zero h small = released-Others g xs n ys h
  mm_realloc-Others g xs n ys (suc s) h small =
      let req = request (suc s) in
      elim (Bool-cases (n == req)) [
        | inl t ↦ (
          g.heap_start + total xs + 8,
          g,
          chosen env g xs n ys (suc s) h (omega arith) ∙ rw t refl,
          record {
            blocks = _;
            heap = h;
            start = refl;
            kept = λ o k ne held. record { holds = held; same = λ a low high. refl };
          },
        )
        | inr t ↦ elim (Bool-cases (ltb req n)) [
          | inl l ↦ shrunk-Others g xs n ys (suc s) h (omega arith) small (ground (arith, l))
          | inr l ↦
              larger-Others g xs n ys (suc s) h (omega arith) small (ground (arith, t, l))
                (behind n req ys)
        ]
      ]

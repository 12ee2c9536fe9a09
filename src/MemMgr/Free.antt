-- ===== src/MemMgr/Free.antt =====
-- PA3/src/memmgr.c, `mm_free` under the implicit policy.
use sysprog.Base.{
  ℕ, ◌+◌, ◌-◌, ◌^◌, ◌≤◌, ◌≡◌, refl, sym, ap, ◌∙◌, subst, Bool, true, false, List, [], ◌∷◌, ◌++◌,
  arith, leb, ◌==◌, inl, inr, Bool-cases, ◌&&◌, ne→==, if◌then◌else◌, eq→==,
}
use sysprog.Base.Process.{ok, ◌>>=◌}
use sysprog.MemMgr.Words.{
  Mem, free, alloc, pack, size_of, get_size, get_status, next_blkp, write_tags,
}
use sysprog.MemMgr.Blocks.{Merged, Env, merge}
use sysprog.MemMgr.Manager.{Manager, on_mem, shrink_tags, shrink_heap, coalesce, mm_free}
use sysprog.MemMgr.Tiles.{Block, block, total, Tiles, size_of-tag, Tiles-split, Tiles-total}
use sysprog.MemMgr.Rewrite.{SameOutside, Tiles-at}
use sysprog.MemMgr.Neighbours.{gain_left, rest_left, gain_right, rest_right, total_left}
use sysprog.MemMgr.Heap.{IsHeap, Grants}
use sysprog.MemMgr.Coalesce.{
  shrunk, shrink_heap-shrunk, shrunk-IsHeap, marked-IsHeap, IsMergedHeap, merge-IsMergedHeap,
  coalesce_writes,
}

abbrev pub is_empty : List Block → Bool
is_empty [] = true
is_empty (b ∷ bs) = false

-- What is left of a joined block: one that ends the heap gives up the threshold if it is large.
abbrev pub kept_size : ℕ → List Block → ℕ
kept_size whole behind =
    if is_empty behind && leb (32 + 2 ^ 14) whole then whole - 2 ^ 14 else whole

-- What `mm_free` makes of the block of `n` bytes between `xs` and `ys`.
pub record Freed (g : Manager) (xs : List Block) (n : ℕ) (ys : List Block) (g' : Manager)
    : Type 0 where
  pub size : ℕ
  pub heap : IsHeap g' (rest_left xs ++ block size free ∷ rest_right ys)
  pub start : g'.heap_start ≡ g.heap_start
  pub joint : size ≡ kept_size (n + (gain_left xs + gain_right ys)) (rest_right ys)
  pub same :
      let q = g.heap_start + total (rest_left xs) in
      SameOutside q (q + (n + (gain_left xs + gain_right ys))) g.mem g'.mem

at_stop :
    (m : Mem) (p : ℕ) (bs : List Block) (stop : ℕ) → Tiles m p bs stop → (p == stop) ≡ is_empty bs
at_stop m p [] stop t = eq→== p stop t
at_stop m p (b ∷ bs) stop t = ne→== p stop (omega (arith, Tiles-total m (p + b.size) bs stop t.1))

is_empty-nil : (bs : List Block) → is_empty bs ≡ true → bs ≡ []
is_empty-nil [] e = refl
is_empty-nil (b ∷ bs) e = cc

both : (a b : Bool) → (a && b) ≡ true → (a ≡ true) × (b ≡ true)
both true true e = (refl, refl)
both true false e = (refl, e)
both false b e = ground arith

module _ (env : Env) (grants : Grants env) where
  -- A pointer to an allocated block gets past the checks.
  mm_free_checks :
      (g : Manager) (xs : List Block) (n : ℕ) (ys : List Block)
      → IsHeap g (xs ++ block n alloc ∷ ys)
      → let p = g.heap_start + total xs in
        mm_free env (p + 8) g
        ≡ (coalesce env p true (on_mem (write_tags p n free) g) >>= λ r. ok r.1)
  unfolding mm_free pack
  mm_free_checks g xs n ys h =
      let p = g.heap_start + total xs in
      let at = Tiles-at g.mem g.heap_start g.heap_end xs (block n alloc) ys h.blocks in
      let here : p + 8 - 8 ≡ p = omega arith in
      let size : get_size g.mem p ≡ n = ap size_of at.0 ∙ size_of-tag (block n alloc) at.2 in
      let used : (get_status g.mem p == 0) ≡ false = ground arith in
      rw (h.ready, ne→== (p + 8) 0 (omega arith), here, used, size) refl

  merged-Freed :
      (g : Manager) (xs : List Block) (n : ℕ) (ys : List Block) (r : Merged)
      → let p = g.heap_start + total xs in
        let gm = on_mem (write_tags p n free) g in
        SameOutside p (p + n) g.mem gm.mem
        → IsMergedHeap env grants gm xs n ys r
        → (is_empty (rest_right ys) && leb (32 + 2 ^ 14) r.size) ≡ false
        → Freed g xs n ys (record gm { mem = r.mem })
  merged-Freed g xs n ys r near (h, at, size, same, end) still =
      let left = total_left xs in
      record {
        size = r.size;
        heap = h;
        start = refl;
        joint = subst (λ whole. r.size ≡ kept_size whole (rest_right ys)) size (rw still refl);
        same = λ a out. elim out [
          | inl o ↦ same a (inl (omega arith)) ∙ near a (inl (omega arith))
          | inr o ↦ same a (inr (omega arith)) ∙ near a (inr (omega arith))
        ];
      }

  -- The free block reaches the end of the heap.
  at_end :
      (g : Manager) (xs ys : List Block) (k : ℕ)
      → IsHeap g (xs ++ block k free ∷ ys)
      → (next_blkp g.mem (g.heap_start + total xs) == g.heap_end) ≡ is_empty ys
  at_end g xs ys k h =
      let (left, rest) =
        Tiles-split g.mem g.heap_start xs (block k free ∷ ys) g.heap_end h.blocks in
      let size : get_size g.mem (g.heap_start + total xs) ≡ k =
        ap size_of rest.0.0 ∙ size_of-tag (block k free) rest.0.2 in
      rw size (at_stop g.mem _ ys g.heap_end rest.1)

  -- The joined block ends the heap, which gives a part of it back.
  shrunk-Freed :
      (g : Manager) (xs : List Block) (n : ℕ) (ys : List Block) (r : Merged)
      → let p = g.heap_start + total xs in
        let gm = on_mem (write_tags p n free) g in
        let gr = record gm { mem = r.mem } in
        SameOutside p (p + n) g.mem gm.mem
        → IsMergedHeap env grants gm xs n ys r
        → is_empty (rest_right ys) ≡ true
        → 32 + 2 ^ 14 ≤ r.size
        → (shrink_heap env r.result gr ≡ ok (shrunk r.result gr))
          × Freed g xs n ys (shrunk r.result gr)
  unfolding shrink_tags
  shrunk-Freed g xs n ys r near (h, at, size, same, end) final large =
      let gr = record g { mem = r.mem } in
      let left = total_left xs in
      let q = g.heap_start + total (rest_left xs) in
      let none_behind = is_empty-nil (rest_right ys) final in
      let due : (is_empty (rest_right ys) && leb (32 + 2 ^ 14) r.size) ≡ true = ground arith in
      let h' = subst (λ zs. IsHeap gr (rest_left xs ++ block r.size free ∷ zs)) none_behind h in
      let (heap, kept) = shrunk-IsHeap env grants gr (rest_left xs) r.size h' large in
      let (_, rest) =
        Tiles-split r.mem g.heap_start (rest_left xs) (block r.size free ∷ []) g.heap_end
          h'.blocks in
      subst (λ a. (shrink_heap env a gr ≡ ok (shrunk a gr)) × Freed g xs n ys (shrunk a gr))
        (sym at)
        (
          shrink_heap-shrunk env grants gr (rest_left xs) r.size h' large,
          record {
            size = r.size - 2 ^ 14;
            heap =
                subst
                  (λ zs. IsHeap (shrunk q gr) (rest_left xs ++ block (r.size - 2 ^ 14) free ∷ zs))
                  (sym none_behind) heap;
            start = refl;
            joint =
                subst (λ whole. r.size - 2 ^ 14 ≡ kept_size whole (rest_right ys)) size
                  (rw due refl);
            same = λ a out. elim out [
              | inl o ↦ kept a (inl o) ∙ same a (inl (omega arith)) ∙ near a (inl (omega arith))
              | inr o ↦
                  kept a (inr (omega (arith, rest.1)))
                  ∙ same a (inr (omega arith))
                  ∙ near a (inr (omega arith))
            ];
          },
        )

  -- Freeing an allocated block, whatever stands beside it, joins it with the free blocks at its two
  -- sides; where the joined block ends the heap and is large enough, the heap gives a threshold of
  -- it back to the segment. The other blocks, and the memory outside the joined block, stay.
  pub mm_free-Freed :
      (g : Manager) (xs : List Block) (n : ℕ) (ys : List Block)
      → IsHeap g (xs ++ block n alloc ∷ ys)
      → (g' : Manager) × (mm_free env (g.heap_start + total xs + 8) g ≡ ok g') × Freed g xs n ys g'
  mm_free-Freed g xs n ys h =
      let p = g.heap_start + total xs in
      let gm = on_mem (write_tags p n free) g in
      let (hm, near) = marked-IsHeap env grants g xs n ys h in
      let r = merge gm.policy p gm.mem in
      let gr = record gm { mem = r.mem } in
      let joined = merge-IsMergedHeap env grants gm xs n ys hm in
      let runs =
        mm_free_checks g xs n ys h
        ∙ ap (λ c. c >>= λ a. ok a.1) (coalesce_writes env grants true gm xs n ys hm) in
      let ends : (next_blkp r.mem r.result == gr.heap_end) ≡ is_empty (rest_right ys) =
        subst (λ a. (next_blkp r.mem a == gr.heap_end) ≡ is_empty (rest_right ys)) (sym joined.1)
          (at_end gr (rest_left xs) (rest_right ys) r.size joined.0) in
      elim (Bool-cases (is_empty (rest_right ys) && leb (32 + 2 ^ 14) r.size)) [
        | inl due ↦
            let (final, large) = both _ _ due in
            let (gives, freed) = shrunk-Freed g xs n ys r near joined final (ground arith) in
            (shrunk r.result gr, runs ∙ rw (ends, due, gives) refl, freed)
        | inr still ↦ (gr, runs ∙ rw (ends, still) refl, merged-Freed g xs n ys r near joined still)
      ]

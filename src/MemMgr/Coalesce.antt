-- ===== src/MemMgr/Coalesce.antt =====
-- PA3/src/memmgr.c, `coalesce` under the implicit policy: the merge, and the heap that shrinks.
use sysprog.Base.{
  ℕ, ◌+◌, ◌-◌, ◌^◌, ◌≤◌, ◌≡◌, refl, sym, ap, ◌∙◌, subst, Bool, true, false, List, [], ◌∷◌, ◌++◌,
  arith, leb, ◌==◌, inl, inr, if◌then◌else◌, ◌&&◌, ne→==,
}
use sysprog.Base.Process.{Run, ok, aborts, out_of_fuel, ◌>>=◌}
use sysprog.DataSeg.{DataSeg, failed}
use sysprog.DataSeg.Bounds.{IsSegment, ds_sbrk_shrink}
use sysprog.MemMgr.Words.{Mem, free, alloc, pack, get_status, next_blkp, write_tags, align_down}
use sysprog.MemMgr.Blocks.{
  FreelistPolicy, Merged, Env, fp_implicit, if_explicit, add_free_block, merge,
}
use sysprog.MemMgr.Manager.{Manager, with_break, on_mem, shrink_tags, shrink_heap, coalesce}
use sysprog.MemMgr.Tiles.{Block, block, IsBlock, total, Tiles-split, Tiles-total}
use sysprog.MemMgr.Rewrite.{
  write_tags-Tagged, SameOutside, shrunk-Ended, Ended-Tiles, Tiles-replace, Tiles-at,
}
use sysprog.MemMgr.Neighbours.{gain_left, rest_left, gain_right, rest_right}
use sysprog.MemMgr.Merge.{merge-Tiles, Tagged-SameOutside}
use sysprog.MemMgr.Heap.{IsHeap, Grants}

-- The data segment after a break that moved down by the threshold.
abbrev pub lowered : DataSeg → DataSeg
lowered d = record d { ds_heap_brk = d.ds_heap_brk - 2 ^ 14; ds_num_sbrk = d.ds_num_sbrk + 1 }

lowered-IsSegment :
    (d : DataSeg) → IsSegment d → d.ds_heap_start + 2 ^ 14 ≤ d.ds_heap_brk → IsSegment (lowered d)
lowered-IsSegment d s above = record {
  initialized = s.initialized;
  low_guard = s.low_guard;
  high_guard = s.high_guard;
  above = omega arith;
  below = omega (arith, s.below);
  fits = s.fits;
}

abbrev pub shrunk : ℕ → Manager → Manager
shrunk result g = shrink_tags result (with_break (lowered g.ds) g)

module _ (env : Env) (grants : Grants env) where
  pub shrink_heap-shrunk :
      (g : Manager) (bs : List Block) (k : ℕ)
      → IsHeap g (bs ++ block k free ∷ [])
      → 32 + 2 ^ 14 ≤ k
      → shrink_heap env (g.heap_start + total bs) g ≡ ok (shrunk (g.heap_start + total bs) g)
  unfolding shrink_heap
  shrink_heap-shrunk g bs k h large =
      let (left, rest) =
        Tiles-split g.mem g.heap_start bs (block k free ∷ []) g.heap_end h.blocks in
      let answer =
        ds_sbrk_shrink env.mprotect (2 ^ 14 - 1) g.ds h.segment grants
          (omega (arith, h.low, h.end_at_brk, rest.1)) in
      rw answer (
        rw
          (ne→== g.ds.ds_heap_brk failed
            (omega (arith, h.segment.below, h.segment.high_guard, h.high)))
          refl)

  pub shrunk-IsHeap :
      (g : Manager) (bs : List Block) (k : ℕ)
      → IsHeap g (bs ++ block k free ∷ [])
      → 32 + 2 ^ 14 ≤ k
      → IsHeap (shrunk (g.heap_start + total bs) g) (bs ++ block (k - 2 ^ 14) free ∷ [])
        × SameOutside
            (g.heap_start + total bs)
            g.heap_end
            g.mem
            (shrunk (g.heap_start + total bs) g).mem
  unfolding shrink_tags
  shrunk-IsHeap g bs k h large =
      let q = g.heap_start + total bs in
      let (left, rest) =
        Tiles-split g.mem g.heap_start bs (block k free ∷ []) g.heap_end h.blocks in
      let stop : q + k ≡ g.heap_end = rest.1 in
      let stop' : align_down (g.ds.ds_heap_brk - 2 ^ 14 - 8) ≡ q + (k - 2 ^ 14) =
        omega (arith, h.end_at_brk) in
      let cancel : q + (k - 2 ^ 14) - q ≡ k - 2 ^ 14 = omega arith in
      let v : IsBlock (block (k - 2 ^ 14) free) = (omega arith, omega (arith, rest.0.2)) in
      rw (stop', cancel)
        (let e = shrunk-Ended q (k - 2 ^ 14) g.mem v in
          (
            record {
              ready = h.ready;
              implicit = h.implicit;
              blocks = Ended-Tiles g.heap_start q (k - 2 ^ 14) free bs g.mem _ e v left;
              first_tag =
                  e.other (g.heap_start - 8) (omega (arith, h.low)) (omega (arith, h.low))
                    (omega (arith, h.low))
                  ∙ h.first_tag;
              last_tag = e.sentinel;
              aligned = h.aligned;
              low = h.low;
              end_at_brk = sym stop';
              segment =
                  lowered-IsSegment g.ds h.segment (omega (arith, h.low, h.end_at_brk, rest.1));
              high = h.high;
            },
            λ a out. e.other a (omega arith) (omega arith) (omega arith),
          ))

  -- The block marked free, before the merge.
  pub marked-IsHeap :
      (g : Manager) (xs : List Block) (n : ℕ) (ys : List Block)
      → IsHeap g (xs ++ block n alloc ∷ ys)
      → let p = g.heap_start + total xs in
        IsHeap (on_mem (write_tags p n free) g) (xs ++ block n free ∷ ys)
        × SameOutside p (p + n) g.mem (write_tags p n free g.mem)
  marked-IsHeap g xs n ys h =
      let p = g.heap_start + total xs in
      let (left, rest) =
        Tiles-split g.mem g.heap_start xs (block n alloc ∷ ys) g.heap_end h.blocks in
      let v : IsBlock (block n free) = rest.0.2 in
      let t = write_tags-Tagged p n free g.mem v in
      let same = Tagged-SameOutside p n free g.mem _ t v in
      let end = Tiles-total g.mem (p + n) ys g.heap_end rest.1 in
      (
        record {
          ready = h.ready;
          implicit = h.implicit;
          blocks =
              Tiles-replace g.mem _ g.heap_start g.heap_end xs (block n alloc ∷ [])
                (block n free ∷ []) ys h.blocks ((t.header, t.footer, v), omega arith)
                (λ a out. same a (omega arith));
          first_tag = same (g.heap_start - 8) (inl (omega (arith, h.low))) ∙ h.first_tag;
          last_tag = same g.heap_end (inr (omega (arith, end))) ∙ h.last_tag;
          aligned = h.aligned;
          low = h.low;
          end_at_brk = h.end_at_brk;
          segment = h.segment;
          high = h.high;
        },
        same,
      )

  -- The heap after the merge `r` of the block of `n` bytes between `xs` and `ys`.
  abbrev pub IsMergedHeap : Manager → List Block → ℕ → List Block → Merged → Type 0
  IsMergedHeap g xs n ys r =
      IsHeap (record g { mem = r.mem }) (rest_left xs ++ block r.size free ∷ rest_right ys)
      × (r.result ≡ g.heap_start + total (rest_left xs))
      × (r.size ≡ n + (gain_left xs + gain_right ys))
      × SameOutside r.result (r.result + r.size) g.mem r.mem
      × (r.result + r.size + total (rest_right ys) ≡ g.heap_end)

  merged-IsHeap :
      (g : Manager) (xs : List Block) (n : ℕ) (ys : List Block)
      → IsHeap g (xs ++ block n free ∷ ys)
      → IsMergedHeap g xs n ys (merge fp_implicit (g.heap_start + total xs) g.mem)
  merged-IsHeap g xs n ys h =
      let p = g.heap_start + total xs in
      let r = merge fp_implicit p g.mem in
      let (at, size, tiles, same) =
        merge-Tiles g.mem g.heap_start g.heap_end n xs ys h.blocks h.first_tag h.last_tag in
      let (left, rest) =
        Tiles-split r.mem g.heap_start (rest_left xs) (block r.size free ∷ rest_right ys) g.heap_end
          tiles in
      let end = Tiles-total r.mem _ (rest_right ys) g.heap_end rest.1 in
      (
        record {
          ready = h.ready;
          implicit = h.implicit;
          blocks = tiles;
          first_tag = same (g.heap_start - 8) (inl (omega (arith, h.low, at))) ∙ h.first_tag;
          last_tag = same g.heap_end (inr (omega (arith, end, at))) ∙ h.last_tag;
          aligned = h.aligned;
          low = h.low;
          end_at_brk = h.end_at_brk;
          segment = h.segment;
          high = h.high;
        },
        at,
        size,
        same,
        omega (arith, end, at),
      )

  pub merge-IsMergedHeap :
      (g : Manager) (xs : List Block) (n : ℕ) (ys : List Block)
      → IsHeap g (xs ++ block n free ∷ ys)
      → IsMergedHeap g xs n ys (merge g.policy (g.heap_start + total xs) g.mem)
  merge-IsMergedHeap g xs n ys h =
      subst (λ policy. IsMergedHeap g xs n ys (merge policy (g.heap_start + total xs) g.mem))
        (sym h.implicit) (merged-IsHeap g xs n ys h)

  if_explicit_off :
      (policy : FreelistPolicy) (f : Mem → Mem) (m : Mem)
      → policy ≡ fp_implicit
      → if_explicit policy f m ≡ m
  unfolding if_explicit
  if_explicit_off policy f m e = ground arith

  not_allocated :
      (g : Manager) (xs : List Block) (n : ℕ) (ys : List Block)
      → IsHeap g (xs ++ block n free ∷ ys)
      → (get_status g.mem (g.heap_start + total xs) == 1) ≡ false
  unfolding pack
  not_allocated g xs n ys h =
      let at = Tiles-at g.mem g.heap_start g.heap_end xs (block n free) ys h.blocks in ground arith

  finished : ℕ → (Manager → Manager) → Manager → Run (ℕ × Manager)
  finished result f g' = ok (result, f g')

  unlisted :
      (due : Bool) (result : ℕ) (f : Manager → Manager) (r : Run Manager) (g' : Manager)
      → ((a : Manager) → f a ≡ a)
      → ((if due then r else ok g') >>= finished result f)
        ≡ (if due then (r >>= finished result (λ a. a)) else ok (result, g'))
  unfolding finished
  unlisted false result f r g' e = ap (λ a. ok (result, a)) (e g')
  unlisted true result f (ok a) g' e = ap (λ a. ok (result, a)) (e a)
  unlisted true result f aborts g' e = refl
  unlisted true result f out_of_fuel g' e = refl

  -- `coalesce` as the merge, and the shrinking where it is due.
  pub coalesce_writes :
      (shrink : Bool) (g : Manager) (xs : List Block) (n : ℕ) (ys : List Block)
      → IsHeap g (xs ++ block n free ∷ ys)
      → let r = merge g.policy (g.heap_start + total xs) g.mem in
        let g' = record g { mem = r.mem } in
        coalesce env (g.heap_start + total xs) shrink g ≡ (
          if shrink && next_blkp r.mem r.result == g.heap_end && leb (32 + 2 ^ 14) r.size
          then (shrink_heap env r.result g' >>= λ g''. ok (r.result, g''))
          else ok (r.result, g'))
  unfolding coalesce finished
  coalesce_writes shrink g xs n ys h = rw (not_allocated g xs n ys h) (
      let r = merge g.policy (g.heap_start + total xs) g.mem in
      let g' = record g { mem = r.mem } in
      unlisted (shrink && next_blkp r.mem r.result == g.heap_end && leb (32 + 2 ^ 14) r.size)
        r.result (on_mem (if_explicit g.policy (add_free_block env r.result)))
        (shrink_heap env r.result g') g'
        (λ a.
          ap (λ m. record a { mem = m })
            (if_explicit_off g.policy (add_free_block env r.result) a.mem h.implicit)))

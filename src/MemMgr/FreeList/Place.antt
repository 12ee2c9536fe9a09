-- ===== src/MemMgr/FreeList/Place.antt =====
-- PA3/src/memmgr.c, `place` under the explicit policy.
use sysprog.Base.{
  ℕ, ◌+◌, ◌-◌, ◌%◌, ◌^◌, ◌≤◌, ◌<◌, ◌≡◌, ◌≢◌, refl, sym, ap, ◌∙◌, subst, true, false, List, [], ◌∷◌,
  ◌++◌, inl, inr, arith, ltb, ◌==◌, if◌then◌else◌, Bool-cases,
}
use sysprog.MemMgr.Words.{Mem, free, alloc, pack, size_of, get_size}
use sysprog.MemMgr.Blocks.{
  Env, fp_implicit, fp_explicit, place, if_explicit, add_free_block, remove_free_block,
}
use sysprog.MemMgr.Tiles.{Block, block, IsBlock, total, Tiles, size_of-tag}
use sysprog.MemMgr.Rewrite.{SameOutside, write_tags-Tagged, Tiles-at}
use sysprog.MemMgr.Place.{placed, place-Tiles}
use sysprog.MemMgr.FreeList.{Among}
use sysprog.MemMgr.FreeList.Sync.{FreeAt, IsSyncedBut, IsSynced, FreeAt-right}
use sysprog.MemMgr.FreeList.Steps.{unlinked, linked}
use sysprog.MemMgr.FreeList.Retile.{replaced_blocks}

-- `place` is the one of the implicit policy, between a removal and an insertion.
place_explicit :
    (env : Env) (p n req : ℕ) (m : Mem)
    → get_size m p ≡ n
    → get_size (remove_free_block p m) p ≡ n
    → IsBlock (block req alloc)
    → req ≤ n
    → n < 2 ^ 64
    → let m' = place env fp_implicit p req (remove_free_block p m) in
      place env fp_explicit p req m ≡ (if n == req then m' else add_free_block env (p + req) m')
unfolding place if_explicit
place_explicit env p n req m e e' w le small =
    let t = write_tags-Tagged p req alloc (remove_free_block p m) w in
    let new : size_of (pack req alloc) ≡ req = size_of-tag (block req alloc) w in
    let rest : (n + 2 ^ 64 - req) % 2 ^ 64 ≡ n - req = omega (arith, le, small) in
    elim (Bool-cases (n == req)) [
      | inl whole ↦
          let none_left : ltb 0 (n - req) ≡ false = ground (arith, whole) in
          rw (e, e', rest, none_left, whole) refl
      | inr more ↦
          let some_left : ltb 0 (n - req) ≡ true = ground (arith, more, le) in
          rw (e, e', rest, some_left, more, t.header, new) refl
    ]

FreeAt-alone : (p n a : ℕ) → FreeAt p (block n free ∷ []) a → a ≡ p
FreeAt-alone p n a (inl (e, s)) = e
FreeAt-alone p n a (inr h) = absurd h

alloc-not : alloc ≢ free
alloc-not e = cc

-- An allocated block is no free one.
FreeAt-alloc : (p n a : ℕ) (bs : List Block) → FreeAt p (block n alloc ∷ bs) a → FreeAt (p + n) bs a
FreeAt-alloc p n a bs (inl (e, s)) = absurd (alloc-not s)
FreeAt-alloc p n a bs (inr h) = h

module _ (env : Env) (m : Mem) (start stop req n : ℕ) (xs ys : List Block) (fl : List ℕ)
    (s : IsSynced env m start stop (xs ++ block n free ∷ ys) fl) (w : IsBlock (block req alloc))
    (le : req ≤ n) (small : n < 2 ^ 64) where
  -- The block is taken off the list, and its tags are written.
  place-unlinked :
      let p = start + total xs in
      let m' = place env fp_implicit p req (remove_free_block p m) in
      (fl' : List ℕ) × IsSyncedBut env
        (remove_free_block p m)
        start
        stop
        (xs ++ block n free ∷ ys)
        fl'
        (p ∷ [])
      × Tiles m' start (xs ++ (placed n req ++ ys)) stop
      × SameOutside p (p + n) (remove_free_block p m) m'
      × (place env fp_explicit p req m ≡ (if n == req then m' else add_free_block env (p + req) m'))
  place-unlinked =
      let p = start + total xs in
      let at = FreeAt-right start xs (block n free ∷ ys) p (inl (refl, refl)) in
      let on_list : Among p fl = elim (s.all_listed p at) [ inl x ↦ absurd x | inr k ↦ k ] in
      let (fl', u) = unlinked env m start stop _ fl [] s p on_list in
      let old = Tiles-at m start stop xs (block n free) ys s.blocks in
      let new = Tiles-at (remove_free_block p m) start stop xs (block n free) ys u.blocks in
      let (tiles, same) =
        place-Tiles env (remove_free_block p m) start stop req xs (block n free) ys u.blocks refl w
          le small in
      (
        fl',
        u,
        tiles,
        same,
        place_explicit env p n req m (ap size_of old.0 ∙ size_of-tag (block n free) old.2)
            (ap size_of new.0 ∙ size_of-tag (block n free) new.2) w le small,
      )

  -- Under the explicit policy, where the free list holds exactly the free blocks of the heap: placing a
  -- request of at least 32 bytes, a multiple of 32, on a free block of fewer than 2 ^ 64 bytes that
  -- holds it allocates the front of the block and leaves the rest of it free, and the free list again
  -- holds exactly the free blocks of the heap.
  pub place-IsSynced :
      (fl' : List ℕ) × IsSynced env
        (place env fp_explicit (start + total xs) req m)
        start
        stop
        (xs ++ (placed n req ++ ys))
        fl'
  place-IsSynced =
      let p = start + total xs in
      let (fl', u, tiles, same, e) = place-unlinked in
      let m' = place env fp_implicit p req (remove_free_block p m) in
      let len : p + (n + 0) ≡ p + n = omega arith in
      let old_in : (a : ℕ) → Among a (p ∷ []) → (p ≤ a) × (a < p + (n + 0)) = λ a h. elim h [
        | inl z ↦ (omega (arith, z), omega (arith, z, w.0, le))
        | inr x ↦ absurd x
      ] in
      let alone : (a : ℕ) → FreeAt p (block n free ∷ []) a → Among a (p ∷ []) =
        λ a h. inl (FreeAt-alone p n a h) in
      elim (Bool-cases (n == req)) [
        | inl t ↦
            let written : place env fp_explicit p req m ≡ m' = e ∙ rw t refl in
            let parts : placed n req ≡ block req alloc ∷ [] = rw t refl in
            let done =
              replaced_blocks env (remove_free_block p m) m' start stop xs (block n free ∷ [])
                (block req alloc ∷ []) ys fl' (p ∷ []) [] u (ground (arith, t)) alone
                (λ a h. FreeAt-alloc p req a [] h) old_in (λ a h. absurd h)
                (subst (λ l. Tiles m' start (xs ++ (l ++ ys)) stop) parts tiles)
                (subst (λ q. SameOutside p q (remove_free_block p m) m') (sym len) same) in
            (
              fl',
              subst (λ k. IsSynced env k start stop (xs ++ (placed n req ++ ys)) fl') (sym written)
                  (subst (λ l. IsSynced env m' start stop (xs ++ (l ++ ys)) fl') (sym parts) done),
            )
        | inr t ↦
            let written : place env fp_explicit p req m ≡ add_free_block env (p + req) m' =
              e ∙ rw t refl in
            let parts : placed n req ≡ block req alloc ∷ block (n - req) free ∷ [] = rw t refl in
            let less : req < n = ground (arith, t, le) in
            let rest = block req alloc ∷ block (n - req) free ∷ [] in
            let over =
              replaced_blocks env (remove_free_block p m) m' start stop xs (block n free ∷ []) rest
                ys fl' (p ∷ []) ((p + req) ∷ []) u (omega (arith, less)) alone
                (λ a h. inl (
                  FreeAt-alone (p + req) (n - req) a
                    (FreeAt-alloc p req a (block (n - req) free ∷ []) h)))
                old_in
                (λ a h. elim h [
                  | inl z ↦ (omega (arith, z), omega (arith, z, less))
                  | inr x ↦ absurd x
                ])
                (subst (λ l. Tiles m' start (xs ++ (l ++ ys)) stop) parts tiles)
                (subst (λ q. SameOutside p q (remove_free_block p m) m') (sym len) same) in
            (
              (p + req) ∷ fl',
              subst (λ k. IsSynced env k start stop (xs ++ (placed n req ++ ys)) ((p + req) ∷ fl'))
                  (sym written)
                  (subst
                    (λ l.
                      IsSynced env (add_free_block env (p + req) m') start stop (xs ++ (l ++ ys))
                        ((p + req) ∷ fl'))
                    (sym parts)
                    (linked env m' start stop (xs ++ (rest ++ ys)) fl' [] (p + req) over
                      (FreeAt-right start xs (rest ++ ys) (p + req) (inr (inl (refl, refl))))
                      (λ x. x))),
            )
      ]

-- ===== src/MemMgr/FreeList/Merge/Joined.antt =====
-- PA3/src/memmgr.c, the merge of `coalesce` under the explicit policy, and the list behind it.
use sysprog.Base.{
  ℕ, ◌+◌, ◌-◌, ◌≤◌, ◌<◌, ◌≡◌, refl, sym, ap, ap₂, ◌∙◌, subst, true, false, List, [], ◌∷◌, ◌++◌, inl,
  inr, arith, ltb, Bool-cases,
}
use sysprog.MemMgr.Words.{Mem, free, alloc, pack, size_of, get_size}
use sysprog.MemMgr.Blocks.{Env, fp_explicit, Merged, merge, add_free_block}
use sysprog.MemMgr.Tiles.{Block, block, total, Tiles, size_of-tag, Tiles-split}
use sysprog.MemMgr.Rewrite.{SameOutside, Tiles-at}
use sysprog.MemMgr.Neighbours.{
  gain_left, rest_left, gain_right, rest_right, at_most_one, gain_left_whole, gain_right_whole,
  left_parts, right_parts, prev_word, next_word,
}
use sysprog.MemMgr.Merge.{IsMerge, joined-Tiles, total-at_most_one, total-append, regroup}
use sysprog.MemMgr.FreeList.{Among}
use sysprog.MemMgr.FreeList.Sync.{
  FreeAt, IsSyncedBut, IsSynced, FreeAt-append, FreeAt-left, FreeAt-right,
}
use sysprog.MemMgr.FreeList.Steps.{linked}
use sysprog.MemMgr.FreeList.Retile.{replaced_blocks}
use sysprog.MemMgr.FreeList.Merge.{off_list, Detached, detach, merge_explicit}

FreeAt-one : (q k a : ℕ) → FreeAt q (at_most_one k) a → (ltb 0 k ≡ true) × (a ≡ q)
FreeAt-one q k a h = elim (Bool-cases (ltb 0 k)) [
  | inl t ↦ (t, alone (subst (λ l. FreeAt q l a) (one t) h))
  | inr t ↦ absurd (subst (λ l. FreeAt q l a) (none t) h)
]
  where
    one : ltb 0 k ≡ true → at_most_one k ≡ block k free ∷ []
    one t = rw t refl

    none : ltb 0 k ≡ false → at_most_one k ≡ []
    none t = rw t refl

    alone : FreeAt q (block k free ∷ []) a → a ≡ q
    alone (inl (e, s)) = e
    alone (inr x) = absurd x

one-FreeAt : (q k : ℕ) → ltb 0 k ≡ true → FreeAt q (at_most_one k) q
one-FreeAt q k t = subst (λ l. FreeAt q l q) (sym one) (inl (refl, refl))
  where
    one : at_most_one k ≡ block k free ∷ []
    one = rw t refl

size_one : (m : Mem) (q k stop : ℕ) → Tiles m q (at_most_one k) stop → 0 < k → get_size m q ≡ k
size_one m q k stop t h =
    let some_bytes : ltb 0 k ≡ true = ground (arith, h) in
    let one : at_most_one k ≡ block k free ∷ [] = rw some_bytes refl in
    let u = subst (λ l. Tiles m q l stop) one t in
    ap size_of u.0.0 ∙ size_of-tag (block k free) u.0.2

-- The merge of a free block that is on no list, and the insertion of the joined block.
module _ (env : Env) (m : Mem) (start stop n : ℕ) (xs ys : List Block) (fl : List ℕ)
    (s : IsSyncedBut env m start stop (xs ++ block n free ∷ ys) fl ((start + total xs) ∷ []))
    (first_tag : m (start - 8) ≡ pack 0 alloc) (last_tag : m stop ≡ pack 0 alloc) where
  abbrev here : ℕ
  here = start + total xs

  left-FreeAt :
      ltb 0 (gain_left xs) ≡ true → FreeAt start (xs ++ block n free ∷ ys) (here - gain_left xs)
  left-FreeAt t =
      let (left, rest) = Tiles-split m start xs (block n free ∷ ys) stop s.blocks in
      let el = left_parts xs m start here left in
      let len : total xs ≡ total (rest_left xs) + gain_left xs =
        ap total el
        ∙ total-append (rest_left xs) (at_most_one (gain_left xs))
        ∙ ap (λ k. total (rest_left xs) + k) (total-at_most_one (gain_left xs)) in
      let at : start + total (rest_left xs) ≡ here - gain_left xs = omega (arith, len) in
      FreeAt-left start xs (block n free ∷ ys) _ (
        subst (λ l. FreeAt start l (here - gain_left xs)) (sym el)
          (FreeAt-right start (rest_left xs) (at_most_one (gain_left xs)) _ (
            subst (λ q. FreeAt (start + total (rest_left xs)) (at_most_one (gain_left xs)) q) at
              (one-FreeAt (start + total (rest_left xs)) (gain_left xs) t))))

  right-FreeAt : ltb 0 (gain_right ys) ≡ true → FreeAt start (xs ++ block n free ∷ ys) (here + n)
  right-FreeAt t =
      let (left, rest) = Tiles-split m start xs (block n free ∷ ys) stop s.blocks in
      let er = right_parts ys m (here + n) stop rest.1 in
      FreeAt-right start xs (block n free ∷ ys) (here + n) (
        inr (
          subst (λ l. FreeAt (here + n) l (here + n)) (sym er)
            (FreeAt-left (here + n) (at_most_one (gain_right ys)) (rest_right ys) (here + n)
              (one-FreeAt (here + n) (gain_right ys) t))))

  -- The removals of `merge`.
  detached_left :
      Detached env m start stop
        (xs ++ block n free ∷ ys)
        (here ∷ [])
        (ltb 0 (gain_left xs))
        (here - gain_left xs)
  detached_left =
      detach env m start stop (xs ++ block n free ∷ ys) fl (here ∷ []) (ltb 0 (gain_left xs))
        (here - gain_left xs) s
        (λ t.
          (left-FreeAt t, λ h. elim h [ inl z ↦ absurd (ground (arith, z, t, fits)) | inr x ↦ x ]))
    where
      fits : gain_left xs ≤ here
      fits =
          let (left, rest) = Tiles-split m start xs (block n free ∷ ys) stop s.blocks in
          (prev_word m start here xs first_tag left).fits

  own_size : 32 ≤ n
  own_size = (Tiles-at m start stop xs (block n free) ys s.blocks).2.0

  detached_right :
      Detached env
        (off_list (ltb 0 (gain_left xs)) (here - gain_left xs) m)
        start
        stop
        (xs ++ block n free ∷ ys)
        detached_left.more
        (ltb 0 (gain_right ys))
        (here + n)
  detached_right =
      let d = detached_left in
      detach env _ start stop (xs ++ block n free ∷ ys) d.fl d.more (ltb 0 (gain_right ys))
        (here + n) d.synced
        (λ t. (
          right-FreeAt t,
          λ h. elim (d.only (here + n) h) [
            | inl k ↦ elim k [ inl z ↦ absurd (omega (arith, z, own_size)) | inr x ↦ x ]
            | inr (l, z) ↦ absurd (omega (arith, z, own_size))
          ],
        ))

  abbrev behind_removals : Mem
  behind_removals =
      off_list (ltb 0 (gain_right ys)) (here + n)
        (off_list (ltb 0 (gain_left xs)) (here - gain_left xs) m)

  abbrev merged : Merged
  merged = merge fp_explicit here m

  len_left : total xs ≡ total (rest_left xs) + gain_left xs
  len_left =
      let (left, rest) = Tiles-split m start xs (block n free ∷ ys) stop s.blocks in
      ap total (left_parts xs m start here left)
      ∙ total-append (rest_left xs) (at_most_one (gain_left xs))
      ∙ ap (λ k. total (rest_left xs) + k) (total-at_most_one (gain_left xs))

  left_size : 0 < gain_left xs → get_size behind_removals (here - gain_left xs) ≡ gain_left xs
  left_size some =
      let t = detached_right.synced.blocks in
      let (left, rest) = Tiles-split behind_removals start xs (block n free ∷ ys) stop t in
      let e = left_parts xs behind_removals start here left in
      let (_, one) =
        Tiles-split behind_removals start (rest_left xs) (at_most_one (gain_left xs)) here
          (subst (λ l. Tiles behind_removals start l here) e left) in
      let at : start + total (rest_left xs) ≡ here - gain_left xs = omega (arith, len_left) in
      subst (λ q. get_size behind_removals q ≡ gain_left xs) at
        (size_one behind_removals (start + total (rest_left xs)) (gain_left xs) here one some)

  right_size : 0 < gain_right ys → get_size behind_removals (here + n) ≡ gain_right ys
  right_size some =
      let t = detached_right.synced.blocks in
      let (left, rest) = Tiles-split behind_removals start xs (block n free ∷ ys) stop t in
      let e = right_parts ys behind_removals (here + n) stop rest.1 in
      let (one, _) =
        Tiles-split behind_removals (here + n) (at_most_one (gain_right ys)) (rest_right ys) stop
          (subst (λ l. Tiles behind_removals (here + n) l stop) e rest.1) in
      size_one behind_removals (here + n) (gain_right ys) _ one some

  merged-IsMerge : IsMerge here n (gain_left xs) (gain_right ys) behind_removals merged
  merged-IsMerge =
      let (left, rest) = Tiles-split m start xs (block n free ∷ ys) stop s.blocks in
      let at = Tiles-at m start stop xs (block n free) ys s.blocks in
      let at' =
        Tiles-at behind_removals start stop xs (block n free) ys detached_right.synced.blocks in
      merge_explicit here n (gain_left xs) (gain_right ys) m at.0 at'.0 at'.1 at.2
        (gain_left_whole m start here xs left, gain_right_whole m (here + n) stop ys rest.1)
        (prev_word m start here xs first_tag left) (next_word m (here + n) stop ys last_tag rest.1)
        left_size right_size

  abbrev mid : List Block
  mid = at_most_one (gain_left xs) ++ block n free ∷ at_most_one (gain_right ys)

  mid_len : total mid ≡ gain_left xs + (n + gain_right ys)
  mid_len =
      total-append (at_most_one (gain_left xs)) (block n free ∷ at_most_one (gain_right ys))
      ∙ ap₂ (λ j k. j + (n + k)) (total-at_most_one (gain_left xs))
          (total-at_most_one (gain_right ys))

  -- The free blocks that are joined are on no list.
  mid_off : (a : ℕ) → FreeAt (start + total (rest_left xs)) mid a → Among a detached_right.more
  mid_off a h =
      let q = start + total (rest_left xs) in
      let d = detached_left in
      let d' = detached_right in
      let one = total-at_most_one (gain_left xs) in
      elim (FreeAt-append q (at_most_one (gain_left xs))
        (block n free ∷ at_most_one (gain_right ys)) a h) [
          | inl l ↦
              let (t, e) = FreeAt-one q (gain_left xs) a l in
              d'.still a (subst (λ b. Among b d.more) (omega (arith, e, len_left)) (d.too t))
          | inr (inl (e, f)) ↦ d'.still a (d.still a (inl (omega (arith, e, one, len_left))))
          | inr (inr r) ↦
              let (t, e) = FreeAt-one _ (gain_right ys) a r in
              subst (λ b. Among b d'.more) (omega (arith, e, one, len_left)) (d'.too t)
        ]

  mid_in :
      (a : ℕ)
      → Among a detached_right.more
      → let q = start + total (rest_left xs) in (q ≤ a) × (a < q + total mid)
  mid_in a h = elim (detached_right.only a h) [
    | inl k ↦ elim (detached_left.only a k) [
      | inl (inl z) ↦ (omega (arith, z, len_left), omega (arith, z, len_left, mid_len, own_size))
      | inl (inr x) ↦ absurd x
      | inr (t, z) ↦ (omega (arith, z, len_left), omega (arith, z, len_left, mid_len, own_size))
    ]
    | inr (t, z) ↦
        let some : 0 < gain_right ys = ground (arith, t) in
        (omega (arith, z, len_left), omega (arith, z, len_left, mid_len, some))
  ]

  -- Under the explicit policy, where the blocks lie between two sentinels and the free list holds
  -- exactly the free blocks of the heap but one: `merge` of that one joins it with the free blocks at its
  -- two sides and takes these off the list, and when the joined block is added, the free list holds
  -- exactly the free blocks of the heap.
  pub merge-IsSynced :
      (merged.result ≡ start + total (rest_left xs))
      × (merged.size ≡ n + (gain_left xs + gain_right ys))
      × (fl' : List ℕ) × IsSynced env
          (add_free_block env merged.result merged.mem)
          start
          stop
          (rest_left xs ++ block merged.size free ∷ rest_right ys)
          fl'
  merge-IsSynced =
      let us = rest_left xs in
      let vs = rest_right ys in
      let q = start + total us in
      let d = detached_right in
      let (at, size, tiles, same) =
        joined-Tiles behind_removals start stop n xs ys merged d.synced.blocks merged-IsMerge in
      let (left, rest) = Tiles-split m start xs (block n free ∷ ys) stop s.blocks in
      let grouped =
        regroup xs ys us (at_most_one (gain_left xs)) (at_most_one (gain_right ys)) vs
          (block n free) (left_parts xs m start here left)
          (right_parts ys m (here + n) stop rest.1) in
      let end : merged.result + merged.size ≡ q + total mid = omega (arith, at, size, mid_len) in
      let over =
        replaced_blocks env behind_removals merged.mem start stop us mid
          (block merged.size free ∷ []) vs d.fl d.more (q ∷ [])
          (subst (λ l. IsSyncedBut env behind_removals start stop l d.fl d.more) grouped d.synced)
          (omega (arith, size, mid_len)) mid_off
          (λ a h. elim h [ inl (e, f) ↦ inl e | inr x ↦ absurd x ]) mid_in
          (λ a h. elim h [
            | inl z ↦ (omega (arith, z), omega (arith, z, mid_len, own_size))
            | inr x ↦ absurd x
          ])
          tiles
          (subst (λ z. SameOutside q z behind_removals merged.mem) end
            (subst (λ z. SameOutside z (merged.result + merged.size) behind_removals merged.mem) at
              same)) in
      (
        at,
        size,
        q ∷ d.fl,
        subst
            (λ z.
              IsSynced env (add_free_block env z merged.mem) start stop
                (us ++ block merged.size free ∷ vs) (q ∷ d.fl))
            (sym at)
            (linked env merged.mem start stop (us ++ block merged.size free ∷ vs) d.fl [] q over
              (FreeAt-right start us (block merged.size free ∷ vs) q (inl (refl, refl))) (λ x. x)),
      )

-- ===== src/MemMgr/FreeList/Retile.antt =====
-- PA3/src/memmgr.c: blocks that are rewritten while they are on no free list.
use sysprog.Base.{ℕ, ◌+◌, ◌≤◌, ◌<◌, ◌≡◌, sym, subst, List, ◌++◌, ◌⊎◌, inl, inr, arith}
use sysprog.MemMgr.Words.{Mem}
use sysprog.MemMgr.Blocks.{Env}
use sysprog.MemMgr.Tiles.{Block, total, Tiles, Tiles-total, Tiles-split}
use sysprog.MemMgr.Rewrite.{SameOutside}
use sysprog.MemMgr.FreeList.{Among, SameNode}
use sysprog.MemMgr.FreeList.Sync.{
  FreeAt, Outside, IsSyncedBut, FreeAt-range, FreeAt-append, FreeAt-left, FreeAt-right,
  IsFreeList-same, All-nodes,
}

SameNode-outside :
    (p q : ℕ) (m m' : Mem) (a : ℕ) → SameOutside p q m m' → (a + 24 ≤ p) ⊎ (q ≤ a) → SameNode m m' a
SameNode-outside p q m m' a same (inl h) =
    (same (a + 8) (inl (omega (arith, h))), same (a + 16) (inl (omega (arith, h))))
SameNode-outside p q m m' a same (inr h) =
    (same (a + 8) (inr (omega (arith, h))), same (a + 16) (inr (omega (arith, h))))

-- What holds of the blocks that are rewritten, `len` bytes in all, and of the addresses that are on
-- no list before and after.
pub record Change (q len : ℕ) (mid zs ys : List Block) (ex ex' : List ℕ) : Type 0 where
  pub old_out : (a : ℕ) → FreeAt q mid a → Among a ex
  pub new_out : (a : ℕ) → FreeAt q zs a → Among a ex'
  pub old_in : (a : ℕ) → Among a ex → (q ≤ a) × (a < q + total mid)
  pub new_in : (a : ℕ) → Among a ex' → (q ≤ a) × (a < q + len)
  pub behind : (a : ℕ) → FreeAt (q + total mid) ys a → (q + len ≤ a) × FreeAt (q + total zs) ys a
  pub behind' : (a : ℕ) → FreeAt (q + total zs) ys a → FreeAt (q + total mid) ys a

module _ (env : Env) (m m' : Mem) (start stop stop' len : ℕ) (xs mid zs ys : List Block)
    (fl ex ex' : List ℕ) (s : IsSyncedBut env m start stop (xs ++ (mid ++ ys)) fl ex)
    (c : Change (start + total xs) len mid zs ys ex ex') where
  -- A block on the list is in front of the change or behind it.
  place_of :
      (a : ℕ)
      → Among a fl
      → (FreeAt start xs a × (a + 32 ≤ start + total xs))
        ⊎ (FreeAt (start + total xs + total mid) ys a × (start + total xs + len ≤ a))
  place_of a h =
      let (at, ok) = s.listed a h in
      let (left, rest) = Tiles-split m start xs (mid ++ ys) stop s.blocks in
      elim (FreeAt-append start xs (mid ++ ys) a at) [
        | inl l ↦ inl (l, (FreeAt-range m start xs (start + total xs) a left l).1)
        | inr r ↦ elim (FreeAt-append (start + total xs) mid ys a r) [
          | inl k ↦ absurd (ok (c.old_out a k))
          | inr k ↦ inr (k, (c.behind a k).0)
        ]
      ]

  pub retiled :
      Tiles m' start (xs ++ (zs ++ ys)) stop'
      → SameOutside (start + total xs) (start + total xs + len) m m'
      → SameNode m m' env.first
      → SameNode m m' env.last
      → Outside start stop' env.first
      → Outside start stop' env.last
      → IsSyncedBut env m' start stop' (xs ++ (zs ++ ys)) fl ex'
  retiled t same f l f' l' = record {
    blocks = t;
    list =
        IsFreeList-same env m m' fl
          (All-nodes (SameNode m m') env fl f l (λ a h.
            SameNode-outside (start + total xs) (start + total xs + len) m m' a same
              (elim (place_of a h) [ inl (k, e) ↦ inl (omega (arith, e)) | inr (k, e) ↦ inr e ])))
          s.list;
    listed = λ a h. elim (place_of a h) [
      | inl (k, e) ↦
          (FreeAt-left start xs (zs ++ ys) a k, λ x. absurd (omega (arith, e, (c.new_in a x).0)))
      | inr (k, e) ↦ (
        FreeAt-right start xs (zs ++ ys) a
            (FreeAt-right (start + total xs) zs ys a (c.behind a k).1),
        λ x. absurd (omega (arith, e, (c.new_in a x).1)),
      )
    ];
    all_listed = λ a h. elim (FreeAt-append start xs (zs ++ ys) a h) [
      | inl k ↦ elim (s.all_listed a (FreeAt-left start xs (mid ++ ys) a k)) [
        | inl x ↦
            let (left, rest) = Tiles-split m start xs (mid ++ ys) stop s.blocks in
            absurd (
              omega
                (arith, (c.old_in a x).0, (FreeAt-range m start xs (start + total xs) a left k).1))
        | inr y ↦ inr y
      ]
      | inr r ↦ elim (FreeAt-append (start + total xs) zs ys a r) [
        | inl k ↦ inl (c.new_out a k)
        | inr k ↦
            let k' = c.behind' a k in
            let old =
              FreeAt-right start xs (mid ++ ys) a (FreeAt-right (start + total xs) mid ys a k') in
            elim (s.all_listed a old) [
              | inl x ↦
                  let (_, rest) = Tiles-split m start xs (mid ++ ys) stop s.blocks in
                  let (_, right) = Tiles-split m (start + total xs) mid ys stop rest in
                  absurd (omega (arith, (c.old_in a x).1, (FreeAt-range m _ ys stop a right k').0))
              | inr y ↦ inr y
            ]
      ]
    ];
    first_out = f';
    last_out = l';
  }

-- Blocks that are replaced by others of the same length.
pub replaced_blocks :
    (env : Env) (m m' : Mem) (start stop : ℕ) (xs mid zs ys : List Block) (fl ex ex' : List ℕ)
    → IsSyncedBut env m start stop (xs ++ (mid ++ ys)) fl ex
    → let q = start + total xs in
      total zs ≡ total mid
      → ((a : ℕ) → FreeAt q mid a → Among a ex)
      → ((a : ℕ) → FreeAt q zs a → Among a ex')
      → ((a : ℕ) → Among a ex → (q ≤ a) × (a < q + total mid))
      → ((a : ℕ) → Among a ex' → (q ≤ a) × (a < q + total mid))
      → Tiles m' start (xs ++ (zs ++ ys)) stop
      → SameOutside q (q + total mid) m m'
      → IsSyncedBut env m' start stop (xs ++ (zs ++ ys)) fl ex'
replaced_blocks env m m' start stop xs mid zs ys fl ex ex' s e old new old' new' t same =
    let q = start + total xs in
    let (_, rest) = Tiles-split m start xs (mid ++ ys) stop s.blocks in
    let (_, right) = Tiles-split m q mid ys stop rest in
    let end = Tiles-total m _ ys stop right in
    let static = λ (a : ℕ) (out : Outside start stop a).
      SameNode-outside q (q + total mid) m m' a same
        (elim out [ inl h ↦ inl (omega (arith, h)) | inr h ↦ inr (omega (arith, h, end)) ]) in
    retiled env m m' start stop stop (total mid) xs mid zs ys fl ex ex' s
      record {
        old_out = old;
        new_out = new;
        old_in = old';
        new_in = new';
        behind = λ a k.
            ((FreeAt-range m _ ys stop a right k).0, subst (λ n. FreeAt (q + n) ys a) (sym e) k);
        behind' = λ a k. subst (λ n. FreeAt (q + n) ys a) e k;
      }
      t same (static env.first s.first_out) (static env.last s.last_out) s.first_out s.last_out

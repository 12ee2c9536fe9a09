-- ===== src/MemMgr/FreeList/Steps.antt =====
-- PA3/src/memmgr.c: the steps that `place` and `coalesce` take under the explicit policy.
use sysprog.Base.{ℕ, ◌+◌, ◌≢◌, sym, ◌∙◌, subst, List, [], ◌∷◌, ◌++◌, All, inl, inr, arith}
use sysprog.MemMgr.Words.{Mem}
use sysprog.MemMgr.Blocks.{Env, add_free_block, remove_free_block}
use sysprog.MemMgr.Tiles.{Block, Tiles}
use sysprog.MemMgr.FreeList.{Among, Far, Spaced, nodes, IsFreeList, All-behind}
use sysprog.MemMgr.FreeList.Update.{add_free_block-IsFreeList}
use sysprog.MemMgr.FreeList.Remove.{remove_free_block-IsFreeList}
use sysprog.MemMgr.FreeList.Sync.{
  FreeAt, Outside, IsSyncedBut, FreeAt-range, Beside, Beside-free, Beside-Outside, Tiles-relink,
  All-nodes, Among-split, Among-without, Among-with,
}

-- Two free blocks that begin at different places.
FreeAt-Far :
    (m : Mem) (p : ℕ) (bs : List Block) (q a b : ℕ)
    → Tiles m p bs q
    → FreeAt p bs a
    → FreeAt p bs b
    → a ≢ b
    → Far a b
FreeAt-Far m p [] q a b t h k ne = absurd h
FreeAt-Far m p (c ∷ bs) q a b t (inl (e, s)) (inl (e', s')) ne = absurd (ne (e ∙ sym e'))
FreeAt-Far m p (c ∷ bs) q a b t (inl (e, s)) (inr k) ne =
    inl (omega (arith, e, t.0.2.0, (FreeAt-range m (p + c.size) bs q b t.1 k).0))
FreeAt-Far m p (c ∷ bs) q a b t (inr h) (inl (e, s)) ne =
    inr (omega (arith, e, t.0.2.0, (FreeAt-range m (p + c.size) bs q a t.1 h).0))
FreeAt-Far m p (c ∷ bs) q a b t (inr h) (inr k) ne = FreeAt-Far m (p + c.size) bs q a b t.1 h k ne

-- An element is not there twice.
All-Among : (P : ℕ → Type 0) (xs : List ℕ) (a : ℕ) → All P xs → Among a xs → P a
All-Among P [] a h k = absurd k
All-Among P (x ∷ xs) a h (inl e) = subst P (sym e) h.0
All-Among P (x ∷ xs) a h (inr k) = All-Among P xs a h.1 k

Far-irrefl : (a : ℕ) → Far a a → ⊥
Far-irrefl a (inl h) = absurd (omega (arith, h))
Far-irrefl a (inr h) = absurd (omega (arith, h))

spaced_once :
    (us : List ℕ) (a : ℕ) (vs zs : List ℕ) → Spaced ((us ++ a ∷ vs) ++ zs) → Among a (us ++ vs) → ⊥
spaced_once [] a vs zs s k =
    Far-irrefl a (All-Among (Far a) vs a (All-behind (Far a) vs zs s.0).0 k)
spaced_once (u ∷ us) a vs zs s (inl e) =
    let (near, _) = All-behind (Far u) (us ++ a ∷ vs) zs s.0 in
    let (_, at) = All-behind (Far u) us (a ∷ vs) near in Far-irrefl u (subst (Far u) e at.0)
spaced_once (u ∷ us) a vs zs s (inr k) = spaced_once us a vs zs s.1 k

module _ (env : Env) (m : Mem) (start stop : ℕ) (bs : List Block) (fl ex : List ℕ)
    (s : IsSyncedBut env m start stop bs fl ex) where
  -- The nodes are beside the blocks.
  nodes-Beside : All (Beside start bs) (nodes env fl)
  nodes-Beside =
      All-nodes (Beside start bs) env fl
        (Beside-Outside m start bs stop env.first s.blocks s.first_out)
        (Beside-Outside m start bs stop env.last s.blocks s.last_out)
        (λ a h. Beside-free m start bs stop a s.blocks (s.listed a h).0)

  -- A block is taken off the list, to be changed.
  pub unlinked :
      (p : ℕ)
      → Among p fl
      → (fl' : List ℕ) × IsSyncedBut env (remove_free_block p m) start stop bs fl' (p ∷ ex)
  unlinked p h =
      let (us, vs, e) = Among-split p fl h in
      let list = subst (IsFreeList env m) e s.list in
      let (list', same) = remove_free_block-IsFreeList env m us p vs list in
      (
        us ++ vs,
        record {
          blocks =
              Tiles-relink m (remove_free_block p m) start bs stop (nodes env (us ++ p ∷ vs))
                (subst (λ l. All (Beside start bs) (nodes env l)) e nodes-Beside) same s.blocks;
          list = list';
          listed = λ a k.
              let k' = subst (Among a) (sym e) (Among-without p a us vs k) in
              let (at, ok) = s.listed a k' in
              (
                at,
                λ c. elim c [
                  | inl z ↦
                      spaced_once us p vs (env.last ∷ []) list.spaced.1
                        (subst (λ b. Among b (us ++ vs)) z k)
                  | inr c' ↦ ok c'
                ],
              );
          all_listed = λ a f. elim (s.all_listed a f) [
            | inl c ↦ inl (inr c)
            | inr k ↦ elim (Among-with p a us vs (subst (Among a) e k)) [
              | inl z ↦ inl (inl z)
              | inr k' ↦ inr k'
            ]
          ];
          first_out = s.first_out;
          last_out = s.last_out;
        },
      )

  Outside-Far : (p a : ℕ) → FreeAt start bs p → Outside start stop a → Far p a
  Outside-Far p a f (inl h) = inr (omega (arith, h, (FreeAt-range m start bs stop p s.blocks f).0))
  Outside-Far p a f (inr h) = inl (omega (arith, h, (FreeAt-range m start bs stop p s.blocks f).1))

-- The changed block is put on the list.
pub linked :
    (env : Env) (m : Mem) (start stop : ℕ) (bs : List Block) (fl ex : List ℕ) (p : ℕ)
    → IsSyncedBut env m start stop bs fl (p ∷ ex)
    → FreeAt start bs p
    → (Among p ex → ⊥)
    → IsSyncedBut env (add_free_block env p m) start stop bs (p ∷ fl) ex
linked env m start stop bs fl ex p s f new =
    let far =
      All-nodes (Far p) env fl
        (Outside-Far env m start stop bs fl (p ∷ ex) s p env.first f s.first_out)
        (Outside-Far env m start stop bs fl (p ∷ ex) s p env.last f s.last_out)
        (λ a h.
          let (at, ok) = s.listed a h in
          FreeAt-Far m start bs stop p a s.blocks f at (λ z. ok (inl (sym z)))) in
    let (list', same) = add_free_block-IsFreeList env m fl p s.list far in
    let beside = nodes-Beside env m start stop bs fl (p ∷ ex) s in
    record {
      blocks =
          Tiles-relink m (add_free_block env p m) start bs stop (nodes env (p ∷ fl))
            (beside.0, (Beside-free m start bs stop p s.blocks f, beside.1)) same s.blocks;
      list = list';
      listed = λ a h. elim h [
        | inl z ↦ (subst (FreeAt start bs) (sym z) f, λ c. new (subst (λ b. Among b ex) z c))
        | inr k ↦ ((s.listed a k).0, λ c. (s.listed a k).1 (inr c))
      ];
      all_listed = λ a k. elim (s.all_listed a k) [
        | inl (inl z) ↦ inr (inl z)
        | inl (inr c) ↦ inl c
        | inr k' ↦ inr (inr k')
      ];
      first_out = s.first_out;
      last_out = s.last_out;
    }

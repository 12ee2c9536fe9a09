-- ===== src/Tests/FreeList.antt =====
-- Runs of PA3/src/memmgr.c on the explicit free list.
use sysprog.Base.{ℕ, ◌+◌, ◌^◌, ◌≡◌, refl, ◌⊎◌, ◌++◌, List, inl, inr, some, [], ◌∷◌, arith}
use sysprog.MemMgr.Words.{Mem, free, alloc, pack, put}
use sysprog.MemMgr.Blocks.{
  fp_explicit, add_free_block, place, merge, explicit_loop, bf_get_free_block_explicit,
}
use sysprog.MemMgr.FreeList.{Among, IsFreeList}
use sysprog.MemMgr.FreeList.Sync.{FreeAt, IsSyncedBut, IsSynced}
use sysprog.MemMgr.FreeList.Place.{place-IsSynced}
use sysprog.MemMgr.FreeList.Merge.Joined.{merge-IsSynced}
use sysprog.MemMgr.Place.{placed}
use sysprog.MemMgr.Neighbours.{gain_left, rest_left, gain_right, rest_right}
use sysprog.MemMgr.Tiles.{Block, block, total}
use sysprog.MemMgr.FreeList.Search.{Answer, bf_get_free_block_explicit-Answer}
use sysprog.Tests.Memory.{env, words}

-- The two free blocks of the heap, linked in the order of their addresses.
abbrev linked : Mem
linked = put (2 ^ 40 + 8) 8224 (
    put 8240 (2 ^ 40) (
      put 8232 8384 (
        put 8400 8224
          (put 8392 (2 ^ 40 + 32) (put (2 ^ 40 + 48) 8384 (put (2 ^ 40 + 40) 0 words))))))

linked-IsFreeList : IsFreeList env linked (8224 ∷ 8384 ∷ [])
unfolding put
linked-IsFreeList = record {
  links = (refl, refl, (refl, refl, (refl, refl, tt)));
  end = refl;
  spaced = (
    (inr (omega arith), (inr (omega arith), (inl (omega arith), tt))),
    ((inl (omega arith), (inl (omega arith), tt)), ((inl (omega arith), tt), (tt, tt))),
  );
}

abbrev blocks : List Block
blocks = block 64 free ∷ block 96 alloc ∷ block 65312 free ∷ []

linked-IsSynced : IsSynced env linked 8224 73696 blocks (8224 ∷ 8384 ∷ [])
unfolding put pack
linked-IsSynced = record {
  blocks = (
    (refl, refl, (omega arith, refl)),
    ((refl, refl, (omega arith, refl)), ((refl, refl, (omega arith, refl)), refl)),
  );
  list = linked-IsFreeList;
  listed = λ a h. elim h [
    | inl e ↦ (inl (e, refl), λ x. x)
    | inr k ↦ elim k [ inl e ↦ (inr (inr (inl (e, refl))), λ x. x) | inr x ↦ absurd x ]
  ];
  all_listed = all_listed;
  first_out = inr (omega arith);
  last_out = inr (omega arith);
}
  where
    all_listed : (a : ℕ) → FreeAt 8224 blocks a → Among a [] ⊎ Among a (8224 ∷ 8384 ∷ [])
    all_listed a (inl (e, f)) = inr (inl e)
    all_listed a (inr (inl (e, f))) = absurd cc
    all_listed a (inr (inr (inl (e, f)))) = inr (inr (inl e))
    all_listed a (inr (inr (inr x))) = absurd x

-- 32 bytes are placed on the first block.
place-IsSynced_example :
    (fl : List ℕ) × IsSynced env
      (place env fp_explicit 8224 32 linked)
      8224
      73696
      (placed 64 32 ++ block 96 alloc ∷ block 65312 free ∷ [])
      fl
place-IsSynced_example =
    place-IsSynced env linked 8224 73696 32 64 [] (block 96 alloc ∷ block 65312 free ∷ [])
      (8224 ∷ 8384 ∷ []) linked-IsSynced (omega arith, refl) (omega arith) (omega arith)

-- The second block is marked free.
abbrev marked : Mem
marked = put 8288 96 (put 8376 96 linked)

abbrev free_blocks : List Block
free_blocks = block 64 free ∷ block 96 free ∷ block 65312 free ∷ []

marked-IsSyncedBut : IsSyncedBut env marked 8224 73696 free_blocks (8224 ∷ 8384 ∷ []) (8288 ∷ [])
unfolding put pack
marked-IsSyncedBut = record {
  blocks = (
    (refl, refl, (omega arith, refl)),
    ((refl, refl, (omega arith, refl)), ((refl, refl, (omega arith, refl)), refl)),
  );
  list = record {
    links = (refl, refl, (refl, refl, (refl, refl, tt)));
    end = refl;
    spaced = linked-IsFreeList.spaced;
  };
  listed = λ a h. elim h [
    | inl e ↦ (inl (e, refl), λ x. elim x [ inl z ↦ absurd (omega (arith, e, z)) | inr y ↦ y ])
    | inr k ↦ elim k [
      | inl e ↦ (
        inr (inr (inl (e, refl))),
        λ x. elim x [ inl z ↦ absurd (omega (arith, e, z)) | inr y ↦ y ],
      )
      | inr x ↦ absurd x
    ]
  ];
  all_listed = all_listed;
  first_out = inr (omega arith);
  last_out = inr (omega arith);
}
  where
    all_listed :
        (a : ℕ) → FreeAt 8224 free_blocks a → Among a (8288 ∷ []) ⊎ Among a (8224 ∷ 8384 ∷ [])
    all_listed a (inl (e, f)) = inr (inl e)
    all_listed a (inr (inl (e, f))) = inl (inl e)
    all_listed a (inr (inr (inl (e, f)))) = inr (inr (inl e))
    all_listed a (inr (inr (inr x))) = absurd x

-- It is merged with the blocks at its two sides.
merge-IsSynced_example :
    let r = merge fp_explicit 8288 marked in
    (r.result ≡ 8224 + total (rest_left (block 64 free ∷ [])))
    × (r.size ≡ 96 + (gain_left (block 64 free ∷ []) + gain_right (block 65312 free ∷ [])))
    × (fl : List ℕ) × IsSynced env
        (add_free_block env r.result r.mem)
        8224
        73696
        (rest_left (block 64 free ∷ []) ++ block r.size free ∷ rest_right (block 65312 free ∷ []))
        fl
unfolding put pack
merge-IsSynced_example =
    merge-IsSynced env marked 8224 73696 96 (block 64 free ∷ []) (block 65312 free ∷ [])
      (8224 ∷ 8384 ∷ []) marked-IsSyncedBut refl refl

-- 96 bytes are found in the second block only.
search_run : bf_get_free_block_explicit 5 (2 ^ 40) 96 linked ≡ some 8384
unfolding bf_get_free_block_explicit explicit_loop put
search_run = refl

bf_get_free_block_explicit-Answer_example :
    (r : ℕ) × (bf_get_free_block_explicit 5 (2 ^ 40) 96 linked ≡ some r)
    × Answer linked 96 (8224 ∷ 8384 ∷ []) r
unfolding put
bf_get_free_block_explicit-Answer_example =
    bf_get_free_block_explicit-Answer env 5 linked 96 (8224 ∷ 8384 ∷ []) linked-IsFreeList
      (omega arith, (omega arith, (omega arith, tt))) (omega arith, (omega arith, tt)) refl
      (omega arith) (omega arith) (omega arith)

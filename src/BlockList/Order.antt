-- ===== src/BlockList/Order.antt =====
-- PA3/src/blocklist.c: the order of the list, and what a search finds behind an update.
use sysprog.Base.{
  Option-cases, ◌⊎◌, ◌&&◌, not, ℕ, ◌≤◌, ◌<◌, ◌≡◌, ◌≢◌, refl, ◌∙◌, Bool, true, false, none, some,
  List, [], ◌∷◌, ltb, leb, ◌==◌, if◌then◌else◌, All, arith, Bool-cases, inl, inr,
}
use sysprog.Base.Process.{ok}
use sysprog.BlockList.{
  Block, reserved, insert, insert_block, find_from, find_block, remove_from, delete_block,
}

-- Addresses rise strictly.
abbrev pub Sorted : List Block → Type 0
Sorted [] = Unit {0}
Sorted (b ∷ bs) = All (λ c. b.ptr < c.ptr) bs × Sorted bs

-- No block has the address.
abbrev pub Unused : ℕ → List Block → Type 0
Unused ptr = All (λ c. c.ptr ≢ ptr)

All-insert :
    (p : ℕ) (b : Block) (bs : List Block)
    → p < b.ptr
    → All (λ c. p < c.ptr) bs
    → All (λ c. p < c.ptr) (insert b bs)
unfolding insert
All-insert p b [] h hs = (h, tt)
All-insert p b (s ∷ bs) h hs = elim (Bool-cases (leb s.ptr b.ptr)) [
  | inl t ↦ rw t (hs.0, All-insert p b bs h hs.1)
  | inr t ↦ rw t (h, hs)
]

All-above : (p q : ℕ) (bs : List Block) → p ≤ q → All (λ c. q < c.ptr) bs → All (λ c. p < c.ptr) bs
All-above p q [] h hs = tt
All-above p q (b ∷ bs) h hs = (omega arith, All-above p q bs h hs.1)

insert-Sorted : (b : Block) (bs : List Block) → Unused b.ptr bs → Sorted bs → Sorted (insert b bs)
unfolding insert
insert-Sorted b [] u v = (tt, tt)
insert-Sorted b (s ∷ bs) u v = elim (Bool-cases (leb s.ptr b.ptr)) [
  | inl t ↦ rw t (All-insert s.ptr b bs (ground arith) v.0, insert-Sorted b bs u.1 v.1)
  | inr t ↦ rw t ((ground arith, All-above b.ptr s.ptr bs (ground arith) v.0), v)
]

find_from-insert :
    (ptr : ℕ) (b : Block) (bs : List Block)
    → Unused b.ptr bs
    → find_from ptr (insert b bs) ≡ (if b.ptr == ptr then some b else find_from ptr bs)
unfolding find_from insert
find_from-insert ptr b [] u = ground arith
find_from-insert ptr b (s ∷ bs) u = ground (arith, find_from-insert ptr b bs u.1)

-- On a sorted list, `insert_block` of a valid address that is not in use keeps the list sorted; the
-- search for that address then finds the new block, and every other search what it found before.
pub insert_block_lem :
    (ptr size flags : ℕ) (bs : List Block)
    → reserved ptr ≡ false
    → Unused ptr bs
    → Sorted bs
    → (bs' : List Block) × (insert_block ptr size flags bs ≡ ok bs')
      × Sorted bs'
      × ((other : ℕ)
          → find_block other bs' ≡ (
              if ptr == other && not (reserved other)
              then ok (some record { ptr = ptr; size = size; flags = flags })
              else find_block other bs))
unfolding insert_block find_block
insert_block_lem ptr size flags bs valid u v =
    let b : Block = record { ptr = ptr; size = size; flags = flags } in
    (
      insert b bs,
      rw valid refl,
      insert-Sorted b bs u v,
      λ other. ground (arith, find_from-insert other b bs u),
    )

find_from-above : (ptr : ℕ) (bs : List Block) → All (λ c. ptr < c.ptr) bs → find_from ptr bs ≡ none
unfolding find_from
find_from-above ptr [] h = refl
find_from-above ptr (b ∷ bs) h = ground arith

All-remove_from :
    (p ptr : ℕ) (bs : List Block)
    → All (λ c. p < c.ptr) bs
    → All (λ c. p < c.ptr) (remove_from ptr bs).0
unfolding remove_from
All-remove_from p ptr [] h = tt
All-remove_from p ptr (b ∷ bs) h = elim (Bool-cases (ltb b.ptr ptr)) [
  | inl t ↦ rw t (h.0, All-remove_from p ptr bs h.1)
  | inr t ↦ rw t (elim (Bool-cases (b.ptr == ptr)) [ inl e ↦ rw e h.1 | inr e ↦ rw e h ])
]

remove_from-Sorted : (ptr : ℕ) (bs : List Block) → Sorted bs → Sorted (remove_from ptr bs).0
unfolding remove_from
remove_from-Sorted ptr [] v = tt
remove_from-Sorted ptr (b ∷ bs) v = elim (Bool-cases (ltb b.ptr ptr)) [
  | inl t ↦ rw t (All-remove_from b.ptr ptr bs v.0, remove_from-Sorted ptr bs v.1)
  | inr t ↦ rw t (elim (Bool-cases (b.ptr == ptr)) [ inl e ↦ rw e v.1 | inr e ↦ rw e v ])
]

find_from-remove_from :
    (other ptr : ℕ) (bs : List Block)
    → Sorted bs
    → find_from other (remove_from ptr bs).0 ≡ (if other == ptr then none else find_from other bs)
unfolding find_from remove_from
find_from-remove_from other ptr [] v = ground arith
find_from-remove_from other ptr (b ∷ bs) v = elim (Bool-cases (leb other b.ptr)) [
  | inl t ↦
      let skipped = find_from-above other bs (All-above other b.ptr bs (ground arith) v.0) in
      ground (arith, find_from-remove_from other ptr bs v.1, skipped)
  | inr t ↦ ground (arith, find_from-remove_from other ptr bs v.1)
]

removed-found :
    (ptr : ℕ) (bs : List Block)
    → (remove_from ptr bs).1 ≡ elim (find_from ptr bs) [ none ↦ false | some b ↦ true ]
unfolding find_from remove_from
removed-found ptr [] = refl
removed-found ptr (b ∷ bs) = ground (arith, removed-found ptr bs)

-- On a sorted list, `delete_block` of a valid address keeps the list sorted and answers whether the
-- address was in use; the search for it then finds nothing, and every other search what it found
-- before.
pub delete_block_lem :
    (ptr : ℕ) (bs : List Block)
    → reserved ptr ≡ false
    → Sorted bs
    → (bs' : List Block) × (deleted : Bool) × (delete_block ptr bs ≡ ok (bs', deleted))
      × Sorted bs'
      × ((other : ℕ)
          → find_block other bs' ≡ (if other == ptr then ok none else find_block other bs))
      × (((find_block ptr bs ≡ ok none) × (deleted ≡ false))
          ⊎ ((b : Block) × (find_block ptr bs ≡ ok (some b)) × (deleted ≡ true)))
unfolding delete_block find_block
delete_block_lem ptr bs valid v = (
  (remove_from ptr bs).0,
  (remove_from ptr bs).1,
  rw valid refl,
  remove_from-Sorted ptr bs v,
  λ other. ground (arith, find_from-remove_from other ptr bs v),
  elim (Option-cases (find_from ptr bs)) [
    | inl e ↦ inl (rw (valid, e) refl, removed-found ptr bs ∙ rw e refl)
    | inr (b, e) ↦ inr (b, rw (valid, e) refl, removed-found ptr bs ∙ rw e refl)
  ],
)

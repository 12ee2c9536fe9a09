-- ===== src/BlockList.antt =====
-- PA3/src/blocklist.c: the blocks that a memory test has allocated, in the order of their addresses.
--
-- The list between the two sentinels is a list of records; the sentinels have the lowest and the
-- highest address, so a walk ends at them. `calloc` succeeds. An `assert` on the address is the
-- outcome `aborts`.
pub mod Order
use sysprog.Base.{
  ℕ, zero, suc, ◌+◌, ◌-◌, ◌^◌, Bool, true, false, ◌||◌, Option, none, some, List, [], ◌∷◌, ltb, leb,
  ◌==◌, if◌then◌else◌, length,
}
use sysprog.Base.Process.{Run, ok, aborts}

pub record Block : Type 0 where
  pub ptr : ℕ
  pub size : ℕ
  pub flags : ℕ

-- `NULL` and `(void*)-1`, the addresses of the sentinels, are no addresses of blocks.
abbrev pub reserved : ℕ → Bool
reserved ptr = ptr == 0 || ptr == 2 ^ 64 - 1

abbrev pub init_blocklist : List Block
init_blocklist = []

-- The walk of `insert_block` past the blocks that are not above the new one, and the insertion.
insert : Block → List Block → List Block
insert b [] = b ∷ []
insert b (s ∷ bs) = if leb s.ptr b.ptr then s ∷ insert b bs else b ∷ s ∷ bs

pub insert_block : ℕ → ℕ → ℕ → List Block → Run (List Block)
unfolding insert
insert_block ptr size flags bs =
    if reserved ptr then aborts else ok (insert record { ptr = ptr; size = size; flags = flags } bs)

-- The walk of `find_block` past the blocks below the address.
find_from : ℕ → List Block → Option Block
find_from ptr [] = none
find_from ptr (b ∷ bs) =
    if ltb b.ptr ptr then find_from ptr bs else if b.ptr == ptr then some b else none

pub find_block : ℕ → List Block → Run (Option Block)
unfolding find_from
find_block ptr bs = if reserved ptr then aborts else ok (find_from ptr bs)

pub find_block_by_index : ℕ → List Block → Option Block
find_block_by_index idx [] = none
find_block_by_index zero (b ∷ bs) = some b
find_block_by_index (suc idx) (b ∷ bs) = find_block_by_index idx bs

-- The block that `find_block` answers is taken out of the list.
remove_from : ℕ → List Block → List Block × Bool
remove_from ptr [] = ([], false)
remove_from ptr (b ∷ bs) =
    let rest = remove_from ptr bs in
    if ltb b.ptr ptr
    then (b ∷ rest.0, rest.1)
    else if b.ptr == ptr
    then (bs, true)
    else (b ∷ bs, false)

pub delete_block : ℕ → List Block → Run (List Block × Bool)
unfolding remove_from
delete_block ptr bs = if reserved ptr then aborts else ok (remove_from ptr bs)

pub first_block : List Block → Option Block
unfolding find_block_by_index
first_block bs = find_block_by_index 0 bs

-- The walk of `iterate_blocks`: it ends at the first result that is not 0. A callback answers with
-- that result and the new state behind its pointer.
iterate_from : {S : Type 0} → (Block → ℕ → S → ℕ × S) → ℕ → List Block → S → ℕ × S
iterate_from callback idx [] s = (0, s)
iterate_from callback idx (b ∷ bs) s =
    let rest = iterate_from callback (idx + 1) bs (callback b idx s).1 in
    if (callback b idx s).0 == 0 then rest else callback b idx s

pub iterate_blocks : {S : Type 0} → (Block → ℕ → S → ℕ × S) → List Block → S → ℕ × S
unfolding iterate_from
iterate_blocks callback bs s = iterate_from callback 0 bs s

-- The counter of `num_blocks`.
count : ℕ → List Block → ℕ
count res [] = res
count res (b ∷ bs) = count (res + 1) bs

pub num_blocks : List Block → ℕ
unfolding count
num_blocks bs = count 0 bs

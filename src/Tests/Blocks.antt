-- ===== src/Tests/Blocks.antt =====
-- Runs of PA3/src/blocklist.c.
use sysprog.Base.{
  ℕ, ◌≡◌, ◌⊎◌, refl, Bool, true, false, not, ◌&&◌, none, some, List, [], ◌∷◌, ◌==◌, if◌then◌else◌,
  arith,
}
use sysprog.Base.Process.{ok}
use sysprog.BlockList.{Block, reserved, insert_block, find_block, delete_block}
use sysprog.BlockList.Order.{Sorted, insert_block_lem, delete_block_lem}

abbrev two_blocks : List Block
two_blocks =
    record { ptr = 100; size = 8; flags = 0 } ∷ record { ptr = 300; size = 16; flags = 1 } ∷ []

two_blocks-Sorted : Sorted two_blocks
two_blocks-Sorted = ((omega arith, tt), (tt, tt))

insert_block_lem_example :
    (bs' : List Block) × (insert_block 200 4 0 two_blocks ≡ ok bs')
    × Sorted bs'
    × ((other : ℕ)
        → find_block other bs' ≡ (
            if 200 == other && not (reserved other)
            then ok (some record { ptr = 200; size = 4; flags = 0 })
            else find_block other two_blocks))
insert_block_lem_example =
    insert_block_lem 200 4 0 two_blocks refl (omega arith, (omega arith, tt)) two_blocks-Sorted

delete_block_lem_example :
    (bs' : List Block) × (deleted : Bool) × (delete_block 300 two_blocks ≡ ok (bs', deleted))
    × Sorted bs'
    × ((other : ℕ)
        → find_block other bs' ≡ (if other == 300 then ok none else find_block other two_blocks))
    × (((find_block 300 two_blocks ≡ ok none) × (deleted ≡ false))
        ⊎ ((b : Block) × (find_block 300 two_blocks ≡ ok (some b)) × (deleted ≡ true)))
delete_block_lem_example = delete_block_lem 300 two_blocks refl two_blocks-Sorted

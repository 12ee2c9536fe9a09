-- ===== src/MemMgr/Place.antt =====
-- PA3/src/memmgr.c, `place` under the implicit policy: a free block becomes an allocated one, and
-- what is left over a free one.
use sysprog.Base.{
  ℕ, ◌+◌, ◌-◌, ◌%◌, ◌^◌, ◌≤◌, ◌<◌, ◌≡◌, refl, ap, sym, ◌∙◌, subst, true, false, List, [], ◌∷◌, ◌++◌,
  arith, ◌==◌, inl, inr, if◌then◌else◌, Bool-cases,
}
use sysprog.MemMgr.Words.{Mem, free, alloc, pack, size_of, write_tags}
use sysprog.MemMgr.Blocks.{Env, fp_implicit, place, if_explicit}
use sysprog.MemMgr.Tiles.{Block, block, IsBlock, total, Tiles, size_of-tag}
use sysprog.MemMgr.Rewrite.{Tagged, write_tags-Tagged, SameOutside, Tiles-replace, Tiles-at}

-- What a free block of `n` bytes becomes when `req` of them are allocated.
abbrev pub placed : ℕ → ℕ → List Block
placed n req =
    if n == req then block req alloc ∷ [] else block req alloc ∷ block (n - req) free ∷ []

abbrev pub IsPlaced : ℕ → ℕ → ℕ → Mem → Mem → Type 0
IsPlaced p n req m m' = Tiles m' p (placed n req) (p + n) × SameOutside p (p + n) m m'

pub IsPlaced-whole :
    (p n req : ℕ) (m m' : Mem)
    → IsBlock (block n free)
    → n ≡ req
    → Tagged p req alloc m m'
    → IsPlaced p n req m m'
IsPlaced-whole p n req m m' v e t =
    let same : (n == req) ≡ true = ground arith in
    rw same (
      ((t.header, t.footer, (omega arith, rw (← e) v.1)), omega arith),
      λ a out. t.other a (omega arith) (omega arith),
    )

pub IsPlaced-split :
    (p n req : ℕ) (m m' m'' : Mem)
    → IsBlock (block n free)
    → IsBlock (block req alloc)
    → req < n
    → Tagged p req alloc m m'
    → Tagged (p + req) (n - req) free m' m''
    → IsPlaced p n req m m''
IsPlaced-split p n req m m' m'' v w lt t u =
    let differ : (n == req) ≡ false = ground arith in
    rw differ (
      (
        (
          u.other p (omega arith) (omega arith) ∙ t.header,
          u.other (p + req - 8) (omega arith) (omega arith) ∙ t.footer,
          w,
        ),
        ((u.header, u.footer, (omega arith, omega arith)), omega arith),
      ),
      λ a out. u.other a (omega arith) (omega arith) ∙ t.other a (omega arith) (omega arith),
    )

-- `place` as its two pairs of writes.
place_writes :
    (env : Env) (p n req : ℕ) (m : Mem)
    → m p ≡ pack n free
    → IsBlock (block n free)
    → IsBlock (block req alloc)
    → req ≤ n
    → n < 2 ^ 64
    → place env fp_implicit p req m ≡ (
        if n == req
        then write_tags p req alloc m
        else write_tags (p + req) (n - req) free (write_tags p req alloc m))
unfolding place if_explicit
place_writes env p n req m e v w le small =
    let old : size_of (pack n free) ≡ n = size_of-tag (block n free) v in
    let rest : (n + 2 ^ 64 - req) % 2 ^ 64 ≡ n - req = omega arith in
    let t = write_tags-Tagged p req alloc m w in
    let new : size_of (pack req alloc) ≡ req = size_of-tag (block req alloc) w in
    rw (e, old, rest, t.header, new) (ground arith)

pub place-IsPlaced :
    (env : Env) (p n req : ℕ) (m : Mem)
    → m p ≡ pack n free
    → IsBlock (block n free)
    → IsBlock (block req alloc)
    → req ≤ n
    → n < 2 ^ 64
    → IsPlaced p n req m (place env fp_implicit p req m)
place-IsPlaced env p n req m e v w le small = elim (Bool-cases (n == req)) [
  | inl whole ↦
      let written : place env fp_implicit p req m ≡ write_tags p req alloc m =
        place_writes env p n req m e v w le small ∙ rw whole refl in
      subst (IsPlaced p n req m) (sym written)
        (IsPlaced-whole p n req m _ v (ground arith) (write_tags-Tagged p req alloc m w))
  | inr more ↦
      let written : place env fp_implicit p req m
          ≡ write_tags (p + req) (n - req) free (write_tags p req alloc m) =
        place_writes env p n req m e v w le small ∙ rw more refl in
      subst (IsPlaced p n req m) (sym written) (
        IsPlaced-split p n req m (write_tags p req alloc m) _ v w (ground arith)
          (write_tags-Tagged p req alloc m w)
          (write_tags-Tagged (p + req) (n - req) free _ (ground arith, ground arith)))
]

-- Placing a request on a free block that holds it allocates the front of the block, returns the
-- rest of it to the heap as a free block, and changes nothing outside the block.
pub place-Tiles :
    (env : Env) (m : Mem) (start stop req : ℕ) (xs : List Block) (b : Block) (ys : List Block)
    → Tiles m start (xs ++ b ∷ ys) stop
    → b.status ≡ free
    → IsBlock (block req alloc)
    → req ≤ b.size
    → b.size < 2 ^ 64
    → let m' = place env fp_implicit (start + total xs) req m in
      Tiles m' start (xs ++ (placed b.size req ++ ys)) stop
      × SameOutside (start + total xs) (start + total xs + b.size) m m'
place-Tiles env m start stop req xs b ys t f w le small =
    let at = Tiles-at m start stop xs b ys t in
    let (u, same) =
      place-IsPlaced env (start + total xs) b.size req m (at.0 ∙ ap (pack b.size) f) at.2 w le
        small in
    let len : start + total xs + (b.size + 0) ≡ start + total xs + b.size = omega arith in
    (
      Tiles-replace m _ start stop xs (b ∷ []) (placed b.size req) ys t (rw len u) (rw len same),
      same,
    )

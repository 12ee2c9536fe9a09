-- ===== src/MemMgr/FreeList/Merge.antt =====
-- PA3/src/memmgr.c, the merge of `coalesce` under the explicit policy: the removals, and the tags.
pub mod Joined
use sysprog.Base.{
  ℕ, ◌+◌, ◌-◌, ◌%◌, ◌^◌, ◌≤◌, ◌<◌, ◌≡◌, ◌≢◌, refl, sym, ap, ap₂, ◌∙◌, subst, Bool, true, false,
  List, [], ◌∷◌, ◌++◌, ◌⊎◌, inl, inr, arith, ltb, ◌==◌, if◌then◌else◌, Bool-cases,
}
use sysprog.MemMgr.Words.{Mem, free, alloc, pack, size_of, get_size, write_tags}
use sysprog.MemMgr.Blocks.{
  Env, fp_explicit, Merged, merge, merge_left, merge_right, merge_both, if_explicit, add_free_block,
  remove_free_block,
}
use sysprog.MemMgr.Tiles.{
  Block, block, IsBlock, total, Tiles, size_of-tag, Tiles-split, Tiles-total,
}
use sysprog.MemMgr.Rewrite.{SameOutside, write_tags-Tagged, Tiles-at}
use sysprog.MemMgr.Neighbours.{
  gain_left, rest_left, gain_right, rest_right, at_most_one, gain_left_whole, gain_right_whole,
  left_parts, right_parts, PrevWord, prev_word, NextWord, next_word,
}
use sysprog.MemMgr.Merge.{IsMerge, joined-Tiles, total-at_most_one, total-append, regroup}
use sysprog.MemMgr.FreeList.{Among}
use sysprog.MemMgr.FreeList.Sync.{
  FreeAt, IsSyncedBut, IsSynced, FreeAt-append, FreeAt-left, FreeAt-right,
}
use sysprog.MemMgr.FreeList.Steps.{unlinked, linked}
use sysprog.MemMgr.FreeList.Retile.{replaced_blocks}

-- A block is taken off the list, if the test says so.
abbrev pub off_list : Bool → ℕ → Mem → Mem
off_list b r m = if b then remove_free_block r m else m

-- The outcome of that.
pub record Detached (env : Env) (m : Mem) (start stop : ℕ) (bs : List Block) (ex : List ℕ)
    (b : Bool) (r : ℕ) : Type 0 where
  pub fl : List ℕ
  pub more : List ℕ
  pub synced : IsSyncedBut env (off_list b r m) start stop bs fl more
  pub only : (a : ℕ) → Among a more → Among a ex ⊎ ((b ≡ true) × (a ≡ r))
  pub still : (a : ℕ) → Among a ex → Among a more
  pub too : b ≡ true → Among r more

pub detach :
    (env : Env) (m : Mem) (start stop : ℕ) (bs : List Block) (fl ex : List ℕ) (b : Bool) (r : ℕ)
    → IsSyncedBut env m start stop bs fl ex
    → (b ≡ true → FreeAt start bs r × (Among r ex → ⊥))
    → Detached env m start stop bs ex b r
detach env m start stop bs fl ex false r s h = record {
  fl = fl;
  more = ex;
  synced = s;
  only = λ a k. inl k;
  still = λ a k. k;
  too = λ e. absurd cc;
}
detach env m start stop bs fl ex true r s h =
    let (at, new) = h refl in
    let on_list : Among r fl = elim (s.all_listed r at) [ inl x ↦ absurd (new x) | inr k ↦ k ] in
    let (fl', u) = unlinked env m start stop bs fl ex s r on_list in
    record {
      fl = fl';
      more = r ∷ ex;
      synced = u;
      only = λ a k. elim k [ inl z ↦ inr (refl, z) | inr x ↦ inl x ];
      still = λ a k. inr k;
      too = λ e. inl refl;
    }

-- `merge` is a pair of tag writes behind the removals.
pub merge_explicit :
    (p n gl gr : ℕ) (m : Mem)
    → (let m' = off_list (ltb 0 gr) (p + n) (off_list (ltb 0 gl) (p - gl) m) in
        m p ≡ pack n free
        → m' p ≡ pack n free
        → m' (p + n - 8) ≡ pack n free
        → IsBlock (block n free)
        → (gl % 32 ≡ 0) × (gr % 32 ≡ 0)
        → PrevWord m p gl
        → NextWord m (p + n) gr
        → (0 < gl → get_size m' (p - gl) ≡ gl)
        → (0 < gr → get_size m' (p + n) ≡ gr)
        → IsMerge p n gl gr m' (merge fp_explicit p m))
unfolding merge merge_left merge_right merge_both if_explicit
merge_explicit p n gl gr m header header' footer' v whole prev next left right =
    let own : get_size m p ≡ n = ap size_of header ∙ size_of-tag (block n free) v in
    elim (Bool-cases (ltb 0 gl)) [
      | inl l ↦ elim (Bool-cases (ltb 0 gr)) [
        | inl r ↦
            let some_l : 0 < gl = ground (arith, l) in
            let some_r : 0 < gr = ground (arith, r) in
            let m' = remove_free_block (p + n) (remove_free_block (p - gl) m) in
            let size_l : get_size m' (p - gl) ≡ gl = (rw (l, r) at left) some_l in
            let size_r : get_size m' (p + n) ≡ gr = (rw (l, r) at right) some_r in
            rw (own, prev.status, next.status, l, r, prev.size some_l, size_l, size_r)
              (record {
                result = refl;
                size = omega arith;
                tagged = write_tags-Tagged (p - gl) _ free m' (omega arith, omega arith);
              })
        | inr r ↦
            let some_l : 0 < gl = ground (arith, l) in
            let m' = remove_free_block (p - gl) m in
            let size_l : get_size m' (p - gl) ≡ gl = (rw (l, r) at left) some_l in
            rw (own, prev.status, next.status, l, r, prev.size some_l, size_l)
              (record {
                result = refl;
                size = ground (arith, r);
                tagged = write_tags-Tagged (p - gl) _ free m' (omega arith, omega arith);
              })
      ]
      | inr l ↦ elim (Bool-cases (ltb 0 gr)) [
        | inl r ↦
            let some_r : 0 < gr = ground (arith, r) in
            let m' = remove_free_block (p + n) m in
            let size_r : get_size m' (p + n) ≡ gr = (rw (l, r) at right) some_r in
            rw (own, prev.status, next.status, l, r, size_r)
              (record {
                result = ground (arith, l);
                size = ground (arith, l);
                tagged = write_tags-Tagged p _ free m' (omega arith, omega arith);
              })
        | inr r ↦
            rw (own, prev.status, next.status, l, r)
              (record {
                result = ground (arith, l);
                size = ground (arith, l, r);
                tagged = record {
                  header = header;
                  footer = rw (l, r) at footer';
                  other = λ a _ _. refl;
                };
              })
      ]
    ]

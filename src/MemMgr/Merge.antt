-- ===== src/MemMgr/Merge.antt =====
-- PA3/src/memmgr.c, the four cases of `coalesce` under the implicit policy.
use sysprog.Base.{
  ℕ, ◌+◌, ◌-◌, ◌%◌, ◌≡◌, refl, ap, ap₂, ◌∙◌, subst, List, [], ◌∷◌, ◌++◌, arith, ltb, inl, inr,
  Bool-cases,
}
use mathlib.Core.List.{append_assoc}
use sysprog.MemMgr.Words.{Mem, Status, free, alloc, pack, size_of, get_size}
use sysprog.MemMgr.Blocks.{
  fp_implicit, if_explicit, Merged, merge, merge_left, merge_right, merge_both,
}
use sysprog.MemMgr.Tiles.{Block, block, IsBlock, total, Tiles, size_of-tag, Tiles-split}
use sysprog.MemMgr.Rewrite.{Tagged, write_tags-Tagged, SameOutside, Tiles-replace, Tiles-at}
use sysprog.MemMgr.Neighbours.{
  gain_left, rest_left, gain_right, rest_right, at_most_one, gain_left_whole, gain_right_whole,
  left_parts, right_parts, PrevWord, prev_word, NextWord, next_word,
}

-- A merge of the block at `p` with `gl` bytes before it and `gr` bytes behind it.
pub record IsMerge (p n gl gr : ℕ) (m : Mem) (r : Merged) : Type 0 where
  pub result : r.result ≡ p - gl
  pub size : r.size ≡ n + (gl + gr)
  pub tagged : Tagged r.result r.size free m r.mem

merge_cases :
    (p n gl gr : ℕ) (m : Mem)
    → m p ≡ pack n free
    → m (p + n - 8) ≡ pack n free
    → IsBlock (block n free)
    → (gl % 32 ≡ 0) × (gr % 32 ≡ 0)
    → PrevWord m p gl
    → NextWord m (p + n) gr
    → IsMerge p n gl gr m (merge fp_implicit p m)
unfolding merge merge_left merge_right merge_both if_explicit
merge_cases p n gl gr m header footer v whole prev next =
    let own : get_size m p ≡ n = ap size_of header ∙ size_of-tag (block n free) v in
    elim (Bool-cases (ltb 0 gl)) [
      | inl l ↦ elim (Bool-cases (ltb 0 gr)) [
        | inl r ↦
            rw
              (
                own,
                prev.status,
                next.status,
                l,
                r,
                prev.size (ground arith),
                prev.header (ground arith),
                next.size (ground arith),
              )
              (record {
                result = refl;
                size = omega arith;
                tagged = write_tags-Tagged (p - gl) _ free m (omega arith, omega arith);
              })
        | inr r ↦
            rw
              (
                own,
                prev.status,
                next.status,
                l,
                r,
                prev.size (ground arith),
                prev.header (ground arith),
              )
              (record {
                result = refl;
                size = ground arith;
                tagged = write_tags-Tagged (p - gl) _ free m (omega arith, omega arith);
              })
      ]
      | inr l ↦ elim (Bool-cases (ltb 0 gr)) [
        | inl r ↦
            rw (own, prev.status, next.status, l, r, next.size (ground arith))
              (record {
                result = ground arith;
                size = ground arith;
                tagged = write_tags-Tagged p _ free m (omega arith, omega arith);
              })
        | inr r ↦
            rw (own, prev.status, next.status, l, r)
              (record {
                result = ground arith;
                size = ground arith;
                tagged = record { header = header; footer = footer; other = λ a _ _. refl };
              })
      ]
    ]

pub total-at_most_one : (n : ℕ) → total (at_most_one n) ≡ n
total-at_most_one n = ground arith

pub total-append : (xs ys : List Block) → total (xs ++ ys) ≡ total xs + total ys
total-append [] ys = omega arith
total-append (x ∷ xs) ys = omega (arith, total-append xs ys)

pub regroup :
    (xs ys rl l r rr : List Block) (b : Block)
    → xs ≡ rl ++ l
    → ys ≡ r ++ rr
    → xs ++ b ∷ ys ≡ rl ++ ((l ++ b ∷ r) ++ rr)
regroup xs ys rl l r rr b e e' = rw (e, e') (simp append_assoc)

Tagged-Tiles :
    (q q' n stop : ℕ) (s : Status) (m m' : Mem)
    → Tagged q n s m m'
    → IsBlock (block n s)
    → q ≡ q'
    → q + n ≡ stop
    → Tiles m' q' (block n s ∷ []) stop
Tagged-Tiles q q' n stop s m m' t v e e' =
    subst (λ k. Tiles m' k (block n s ∷ []) stop) e ((t.header, t.footer, v), e')

pub Tagged-SameOutside :
    (q n : ℕ) (s : Status) (m m' : Mem)
    → Tagged q n s m m'
    → IsBlock (block n s)
    → SameOutside q (q + n) m m'
Tagged-SameOutside q n s m m' t v = λ a out. t.other a (omega arith) (omega arith)

-- A merge of the block behind `xs` with the free blocks beside it, in terms of the blocks.
pub joined-Tiles :
    (m : Mem) (start stop n : ℕ) (xs ys : List Block) (r : Merged)
    → Tiles m start (xs ++ block n free ∷ ys) stop
    → IsMerge (start + total xs) n (gain_left xs) (gain_right ys) m r
    → (r.result ≡ start + total (rest_left xs))
      × (r.size ≡ n + (gain_left xs + gain_right ys))
      × Tiles r.mem start (rest_left xs ++ block r.size free ∷ rest_right ys) stop
      × SameOutside r.result (r.result + r.size) m r.mem
joined-Tiles m start stop n xs ys r t merged =
    let p = start + total xs in
    let gl = gain_left xs in
    let gr = gain_right ys in
    let at = Tiles-at m start stop xs (block n free) ys t in
    let (left, rest) = Tiles-split m start xs (block n free ∷ ys) stop t in
    let el = left_parts xs m start p left in
    let er = right_parts ys m (p + n) stop rest.1 in
    let gl_whole = gain_left_whole m start p xs left in
    let gr_whole = gain_right_whole m (p + n) stop ys rest.1 in
    let mid = at_most_one gl ++ block n free ∷ at_most_one gr in
    let len : total xs ≡ total (rest_left xs) + gl =
      ap total el
      ∙ total-append (rest_left xs) (at_most_one gl)
      ∙ ap (λ k. total (rest_left xs) + k) (total-at_most_one gl) in
    let mid_len : total mid ≡ gl + (n + gr) =
      total-append (at_most_one gl) (block n free ∷ at_most_one gr)
      ∙ ap₂ (λ j k. j + (n + k)) (total-at_most_one gl) (total-at_most_one gr) in
    let at_result : r.result ≡ start + total (rest_left xs) = omega (arith, merged.result) in
    let v : IsBlock (block r.size free) =
      (omega (arith, merged.size), omega (arith, merged.size)) in
    let same = Tagged-SameOutside r.result r.size free m r.mem merged.tagged v in
    let end : r.result + r.size ≡ start + total (rest_left xs) + total mid =
      omega (arith, merged.size, at_result, mid_len) in
    (
      at_result,
      merged.size,
      Tiles-replace m r.mem start stop (rest_left xs) mid (block r.size free ∷ []) (rest_right ys)
          (subst (λ bs. Tiles m start bs stop)
            (regroup xs ys (rest_left xs) (at_most_one gl) (at_most_one gr) (rest_right ys)
              (block n free) el er)
            t)
          (Tagged-Tiles r.result _ r.size _ free m r.mem merged.tagged v at_result end)
          (λ a out. same a (omega (arith, at_result, end))),
      same,
    )

-- `coalesce` on a free block merges it with the free blocks beside it: the heap then holds one free
-- block in their place, of their joint size, and memory changes within that block only.
pub merge-Tiles :
    (m : Mem) (start stop n : ℕ) (xs ys : List Block)
    → Tiles m start (xs ++ block n free ∷ ys) stop
    → m (start - 8) ≡ pack 0 alloc
    → m stop ≡ pack 0 alloc
    → let r = merge fp_implicit (start + total xs) m in
      (r.result ≡ start + total (rest_left xs))
      × (r.size ≡ n + (gain_left xs + gain_right ys))
      × Tiles r.mem start (rest_left xs ++ block r.size free ∷ rest_right ys) stop
      × SameOutside r.result (r.result + r.size) m r.mem
merge-Tiles m start stop n xs ys t first_tag last_tag =
    let p = start + total xs in
    let at = Tiles-at m start stop xs (block n free) ys t in
    let (left, rest) = Tiles-split m start xs (block n free ∷ ys) stop t in
    joined-Tiles m start stop n xs ys (merge fp_implicit p m) t (
      merge_cases p n (gain_left xs) (gain_right ys) m at.0 at.1 at.2
        (gain_left_whole m start p xs left, gain_right_whole m (p + n) stop ys rest.1)
        (prev_word m start p xs first_tag left) (next_word m (p + n) stop ys last_tag rest.1))

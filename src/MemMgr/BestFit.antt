-- ===== src/MemMgr/BestFit.antt =====
-- PA3/src/memmgr.c, `bf_get_free_block_implicit`: the walk over the heap ends, and finds a best fit.
use sysprog.Base.{
  ℕ, zero, suc, ◌+◌, ◌-◌, ◌^◌, ◌≤◌, ◌<◌, ◌≡◌, refl, sym, ap, Bool, true, false, ◌&&◌, some, List,
  [], ◌∷◌, ◌++◌, All, length, subst, arith, ltb, ◌==◌, if◌then◌else◌, inl, inr, ◌⊎◌, Bool-cases,
}
use native.Mathlib.Decide.{dec_lt}
use sysprog.MemMgr.Words.{Mem, free, alloc, pack, status_of}
use sysprog.MemMgr.Blocks.{implicit_loop, bf_get_free_block_implicit}
use sysprog.MemMgr.Tiles.{
  Block, tag, IsBlock, total, Tiles, size_of-tag, status_of-tag, Tiles-total,
}

-- The block is no free block that holds `size` bytes in less than `limit`.
abbrev pub NotBetter : ℕ → ℕ → Block → Type 0
NotBetter size limit b = b.status ≡ free → size ≤ b.size → limit ≤ b.size

-- The address `r` is that of a free block of at least `size` and less than `limit` bytes, among
-- blocks from `p` on, and no free block of at least `size` bytes is smaller.
pub record Fit (p size limit : ℕ) (blocks : List Block) (r : ℕ) : Type 0 where
  pub before : List Block
  pub chosen : Block
  pub after : List Block
  pub splits : blocks ≡ before ++ chosen ∷ after
  pub at : r ≡ p + total before
  pub is_free : chosen.status ≡ free
  pub enough : size ≤ chosen.size
  pub below : chosen.size < limit
  pub least : All (NotBetter size chosen.size) blocks

-- What the walk over `blocks` makes of the best fit that it starts with.
data Outcome (p size : ℕ) (blocks : List Block) (best best_size r : ℕ) : Type 0 where
  kept : r ≡ best → All (NotBetter size best_size) blocks → Outcome p size blocks best best_size r
  found : Fit p size best_size blocks r → Outcome p size blocks best best_size r

Fit-cons :
    (p size limit limit' : ℕ) (b : Block) (bs : List Block) (r : ℕ)
    → limit ≤ limit'
    → (b.status ≡ free → size ≤ b.size → limit ≤ b.size + 1)
    → Fit (p + b.size) size limit bs r
    → Fit p size limit' (b ∷ bs) r
Fit-cons p size limit limit' b bs r le not_b fit = record {
  before = b ∷ fit.before;
  chosen = fit.chosen;
  after = fit.after;
  splits = ap (◌∷◌ b) fit.splits;
  at = omega (arith, fit.at);
  is_free = fit.is_free;
  enough = fit.enough;
  below = omega (arith, fit.below);
  least = (λ f h. omega (arith, not_b f h, fit.below), fit.least);
}

Fit-here :
    (p size limit : ℕ) (b : Block) (bs : List Block)
    → b.status ≡ free
    → size ≤ b.size
    → b.size < limit
    → All (NotBetter size b.size) bs
    → Fit p size limit (b ∷ bs) p
Fit-here p size limit b bs is_free enough below rest = record {
  before = [];
  chosen = b;
  after = bs;
  splits = refl;
  at = omega arith;
  is_free = is_free;
  enough = enough;
  below = below;
  least = (λ _ _. omega arith, rest);
}

All-exact : (size limit : ℕ) (bs : List Block) → limit ≡ size → All (NotBetter size limit) bs
All-exact size limit [] e = tt
All-exact size limit (b ∷ bs) e = (λ _ h. omega arith, All-exact size limit bs e)

-- A block that becomes the best fit.
Outcome-better :
    (p size : ℕ) (b : Block) (bs : List Block) (best best_size r : ℕ)
    → b.status ≡ free
    → size < b.size
    → b.size < best_size
    → Outcome (p + b.size) size bs p b.size r
    → Outcome p size (b ∷ bs) best best_size r
Outcome-better p size b bs best best_size r is_free fits less (kept e rest) = found (
    subst (Fit p size best_size (b ∷ bs)) (sym e)
      (Fit-here p size best_size b bs is_free (omega arith) less rest))
Outcome-better p size b bs best best_size r is_free fits less (found fit) =
    found (Fit-cons p size b.size best_size b bs r (omega arith) (λ _ _. omega arith) fit)

Outcome-skip :
    (p size : ℕ) (b : Block) (bs : List Block) (best best_size r : ℕ)
    → NotBetter size best_size b
    → Outcome (p + b.size) size bs best best_size r
    → Outcome p size (b ∷ bs) best best_size r
Outcome-skip p size b bs best best_size r not_b (kept e rest) = kept e (not_b, rest)
Outcome-skip p size b bs best best_size r not_b (found fit) =
    found (
      Fit-cons p size best_size best_size b bs r (omega arith) (λ f h. omega (arith, not_b f h))
        fit)

abbrev is_free_block : Block → Bool
is_free_block b = status_of (pack 0 b.status) == 0

free_of_test : (b : Block) → is_free_block b ≡ true → b.status ≡ free
unfolding pack
free_of_test b h = ground arith

test_of_free : (b : Block) → is_free_block b ≡ false → b.status ≡ free → ⊥
unfolding pack
test_of_free b h f = ground arith

better : ℕ → ℕ → Block → Bool
better size best_size b = is_free_block b && ltb size b.size && ltb b.size best_size

-- One round of the loop, at a block that the memory represents.
implicit_loop_round :
    (f : ℕ) (m : Mem) (size p : ℕ) (b : Block) (best best_size : ℕ)
    → m p ≡ tag b
    → IsBlock b
    → implicit_loop (suc f) m size p best best_size ≡ (
        if is_free_block b && b.size == size
        then some p
        else implicit_loop f m size
            (p + b.size)
            (if better size best_size b then p else best)
            (if better size best_size b then b.size else best_size))
unfolding implicit_loop better
implicit_loop_round f m size p b best best_size header v =
    let nonzero : (b.size == 0) ≡ false = ground arith in
    rw (header, size_of-tag b v, status_of-tag b v, nonzero)

better_parts :
    (size best_size : ℕ) (b : Block)
    → better size best_size b ≡ true
    → (b.status ≡ free) × (size < b.size) × (b.size < best_size)
unfolding better pack
better_parts size best_size b h = ground arith

not_better :
    (size best_size : ℕ) (b : Block)
    → (is_free_block b && b.size == size) ≡ false
    → better size best_size b ≡ false
    → NotBetter size best_size b
unfolding better pack
not_better size best_size b inexact h f le = ground arith

implicit_loop-Outcome :
    (f : ℕ) (m : Mem) (size p : ℕ) (bs : List Block) (stop best best_size : ℕ)
    → Tiles m p bs stop
    → m stop ≡ pack 0 alloc
    → length bs < f
    → size < best_size
    → (r : ℕ) × (implicit_loop f m size p best best_size ≡ some r)
      × Outcome p size bs best best_size r
unfolding implicit_loop pack
implicit_loop-Outcome zero m size p bs stop best best_size t z fuel below = absurd (omega arith)
implicit_loop-Outcome (suc f) m size p [] stop best best_size t z fuel below =
    (best, ground (arith, z), kept refl tt)
implicit_loop-Outcome (suc f) m size p (b ∷ bs) stop best best_size t z fuel below =
    elim (Bool-cases (is_free_block b && b.size == size)) [
      | inl exact ↦ (
        p,
        rw (round, exact),
        found (
            Fit-here p size best_size b bs (free_of_test b (ground arith)) (ground arith)
              (ground arith) (All-exact size b.size bs (ground arith))),
      )
      | inr inexact ↦ elim (Bool-cases (better size best_size b)) [
        | inl wins ↦
            let w = better_parts size best_size b wins in
            let (r, runs, out) =
              implicit_loop-Outcome f m size (p + b.size) bs stop p b.size t.1 z (omega arith)
                w.1 in
            (
              r,
              rw (round, inexact, wins) runs,
              Outcome-better p size b bs best best_size r w.0 w.1 w.2 out,
            )
        | inr loses ↦
            let (r, runs, out) =
              implicit_loop-Outcome f m size (p + b.size) bs stop best best_size t.1 z (omega arith)
                below in
            (
              r,
              rw (round, inexact, loses) runs,
              Outcome-skip p size b bs best best_size r (not_better size best_size b inexact loses)
                  out,
            )
      ]
    ]
  where
    round : implicit_loop (suc f) m size p best best_size ≡ (
        if is_free_block b && b.size == size
        then some p
        else implicit_loop f m size
            (p + b.size)
            (if better size best_size b then p else best)
            (if better size best_size b then b.size else best_size))
    round = implicit_loop_round f m size p b best best_size t.0.0 t.0.2

All-too_small :
    (size : ℕ) (bs : List Block)
    → total bs < 2 ^ 64 - 1
    → All (NotBetter size (2 ^ 64 - 1)) bs
    → All (λ b. b.status ≡ free → b.size < size) bs
All-too_small size [] h n = tt
All-too_small size (b ∷ bs) h n = (
  λ f. elim (dec_lt b.size size) [ yes y ↦ y | no q ↦ absurd (omega (arith, n.0 f (omega arith))) ],
  All-too_small size bs (omega arith) n.1,
)

-- What a search for `size` bytes answers: the address of a best fit, or `NULL` because every free
-- block is too small.
abbrev pub Answer : ℕ → ℕ → List Block → ℕ → Type 0
Answer p size bs r =
    Fit p size (2 ^ 64 - 1) bs r ⊎ ((r ≡ 0) × All (λ b. b.status ≡ free → b.size < size) bs)

-- On a heap whose blocks end at a sentinel of size 0, the implicit search ends after at most one
-- round more than there are blocks, and answers with the address of a smallest free block that is
-- large enough, or with `NULL` where every free block is too small.
pub bf_get_free_block_implicit-Answer :
    (fuel : ℕ) (m : Mem) (size heap_start heap_end : ℕ) (bs : List Block)
    → Tiles m heap_start bs heap_end
    → m heap_end ≡ pack 0 alloc
    → length bs < fuel
    → size < 2 ^ 64 - 1
    → heap_end < 2 ^ 64 - 1
    → (r : ℕ) × (bf_get_free_block_implicit fuel heap_start size m ≡ some r)
      × Answer heap_start size bs r
unfolding bf_get_free_block_implicit
bf_get_free_block_implicit-Answer fuel m size start stop bs t z enough small high =
    let (r, runs, out) =
      implicit_loop-Outcome fuel m size start bs stop 0 (2 ^ 64 - 1) t z enough small in
    (r, runs, answer r out)
  where
    answer : (r : ℕ) → Outcome start size bs 0 (2 ^ 64 - 1) r → Answer start size bs r
    answer r (kept e n) =
        inr (e, All-too_small size bs (omega (arith, Tiles-total m start bs stop t)) n)
    answer r (found fit) = inl fit

-- ===== src/MemMgr/Held/Calls.antt =====
-- PA3/src/memmgr.c: `mm_malloc` and `mm_free` leave the blocks that a program holds alone.
use sysprog.Base.{
  ℕ, ◌+◌, ◌-◌, ◌≤◌, ◌<◌, ◌≡◌, ◌≢◌, refl, sym, ap, ◌∙◌, subst, List, [], ◌∷◌, ◌++◌, arith, ◌⊎◌, inl,
  inr, ◌==◌, Bool-cases,
}
use sysprog.MemMgr.Words.{free, alloc}
use sysprog.MemMgr.Manager.{Manager}
use sysprog.MemMgr.Tiles.{Block, block, total, Tiles-total}
use sysprog.MemMgr.Neighbours.{rest_left, gain_left, gain_right, rest_right, total_left}
use sysprog.MemMgr.Place.{placed}
use sysprog.MemMgr.Heap.{IsHeap}
use sysprog.MemMgr.Obtain.{Origin, fitted, appended}
use sysprog.MemMgr.Malloc.{Malloced, out_of_memory, malloced}
use sysprog.MemMgr.Free.{Freed, kept_size}
use sysprog.MemMgr.Held.{
  Holds, Holds-ends, Holds-append, Holds-left, Holds-right, Holds-rest_left, Holds-rest_right,
}

-- The words of the block of `k` bytes, `off` bytes behind the start of the heap.
abbrev pub SameBlock : Manager → ℕ → ℕ → Manager → Type 0
SameBlock g off k g' =
    (a : ℕ) → g.heap_start + off ≤ a → a < g.heap_start + off + k → g'.mem a ≡ g.mem a

-- The block is still there, with its words.
pub record Kept (g : Manager) (off k : ℕ) (g' : Manager) (bs' : List Block) : Type 0 where
  pub holds : Holds bs' off k
  pub same : SameBlock g off k g'

pub placed-total : (n req : ℕ) → req ≤ n → total (placed n req) ≡ n
placed-total n req le = elim (Bool-cases (n == req)) [
  | inl t ↦ rw t (ground arith)
  | inr t ↦ rw t (omega (arith, le))
]

pub replaced :
    (before zs after : List Block) (n off k : ℕ)
    → total zs ≡ n
    → Holds before off k ⊎ ((total before + n ≤ off) × Holds after (off - total before - n) k)
    → Holds (before ++ (zs ++ after)) off k
replaced before zs after n off k e (inl h) = Holds-left before (zs ++ after) off k h
replaced before zs after n off k e (inr (le, h)) =
    Holds-right before (zs ++ after) off k (omega (arith, le)) (
      Holds-right zs after (off - total before) k (omega (arith, le, e))
        (subst (λ t. Holds after (off - total before - t) k) (sym e) h))

-- A block that is held is before or behind a free one.
pub beside_free :
    (before after : List Block) (n off k : ℕ)
    → Holds (before ++ block n free ∷ after) off k
    → Holds before off k ⊎ ((total before + n ≤ off) × Holds after (off - total before - n) k)
beside_free before after n off k h = elim (Holds-append before (block n free ∷ after) off k h) [
  | inl l ↦ inl l
  | inr (le, inl (z, e)) ↦ absurd cc
  | inr (le, inr (le', r)) ↦ inr (omega (arith, le, le'), r)
]

-- The block of `k` bytes at `off` is clear of the one of `n` bytes at `o`.
abbrev pub Apart : ℕ → ℕ → ℕ → ℕ → Type 0
Apart o n off k = (off + k ≤ o) ⊎ (o + n ≤ off)

pub malloced-Kept :
    (g : Manager) (bs : List Block) (req : ℕ) (g' : Manager) (before : List Block) (size : ℕ)
    (after : List Block)
    → IsHeap g bs
    → Origin bs req before size after
    → req ≤ size
    → ((a : ℕ)
        → (a < g.heap_start + total before)
          ⊎ ((g.heap_start + total before + size ≤ a) × (a < g.heap_end))
        → g'.mem a ≡ g.mem a)
    → (off k : ℕ) → Holds bs off k
    → Kept g off k g' (before ++ (placed size req ++ after)) × Apart (total before) size off k
malloced-Kept g bs req g' before size after h (fitted e fit) enough same off k held =
    let whole = Tiles-total g.mem g.heap_start bs g.heap_end h.blocks in
    let place = beside_free before after size off k (subst (λ l. Holds l off k) e held) in
    let apart : Apart (total before) size off k = elim place [
      | inl l ↦ inl (Holds-ends before off k l)
      | inr (le, r) ↦ inr le
    ] in
    (
      record {
        holds =
            replaced before (placed size req) after size off k (placed-total size req enough) place;
        same = λ a low high. same a (elim apart [
          | inl l ↦ inl (omega (arith, high, l))
          | inr r ↦
              inr (omega (arith, low, r), omega (arith, whole, high, Holds-ends bs off k held))
        ]);
      },
      apart,
    )
malloced-Kept g bs req g' before size after h (appended none_fits e e' s) enough same off k held =
    let held' = subst (λ l. Holds l off k) (sym e) (Holds-rest_left bs off k held) in
    let ends = Holds-ends before off k held' in
    (
      record {
        holds = Holds-left before (placed size req ++ after) off k held';
        same = λ a low high. same a (inl (omega (arith, high, ends)));
      },
      inl ends,
    )

-- The bound of `Malloced` on the addresses that may change, from the start of the heap.
pub from_start :
    (g g' : Manager) (before : List Block) (size ptr : ℕ)
    → ptr ≡ g.heap_start + total before + 8
    → ((a : ℕ) → (a + 8 < ptr) ⊎ ((ptr - 8 + size ≤ a) × (a < g.heap_end)) → g'.mem a ≡ g.mem a)
    → (a : ℕ)
    → (a < g.heap_start + total before)
      ⊎ ((g.heap_start + total before + size ≤ a) × (a < g.heap_end))
    → g'.mem a ≡ g.mem a
from_start g g' before size ptr at same a (inl low) = same a (inl (omega (arith, at, low)))
from_start g g' before size ptr at same a (inr (high, below)) =
    same a (inr (omega (arith, at, high), below))

-- The blocks that the heap held are still there, with their words.
abbrev pub KeepsHeld : Manager → List Block → Manager → List Block → Type 0
KeepsHeld g bs g' bs' = (off k : ℕ) → Holds bs off k → Kept g off k g' bs'

pub Malloced-Keeps :
    (g : Manager) (bs : List Block) (req ptr : ℕ) (g' : Manager)
    → IsHeap g bs
    → Malloced g bs req ptr g'
    → (bs' : List Block) × IsHeap g' bs' × (g'.heap_start ≡ g.heap_start) × KeepsHeld g bs g' bs'
Malloced-Keeps g bs req ptr g' h (out_of_memory z none_fits full heap start m) =
    (bs, heap, start, λ off k held. record { holds = held; same = λ a low high. ap (λ f. f a) m })
Malloced-Keeps g bs req ptr g' h (malloced before size after origin enough at start heap same) =
    let near = from_start g g' before size ptr at same in
    (
      _,
      heap,
      start,
      λ off k held. (malloced-Kept g bs req g' before size after h origin enough near off k held).0,
    )

-- The joined block keeps its size where a held block stands behind it.
behind_joint :
    (g : Manager) (xs : List Block) (n : ℕ) (ys : List Block) (off k size : ℕ)
    → size ≡ kept_size (n + (gain_left xs + gain_right ys)) (rest_right ys)
    → total xs ≤ off
    → n ≤ off - total xs
    → gain_right ys ≤ off - total xs - n
    → Holds (rest_right ys) (off - total xs - n - gain_right ys) k
    → (size ≤ off - total (rest_left xs))
      × Holds (rest_right ys) (off - total (rest_left xs) - size) k
behind_joint g xs n ys off k size joint le le' le'' r =
    let left = total_left xs in
    let whole : size ≡ n + (gain_left xs + gain_right ys) =
      joint ∙ some_behind (rest_right ys) _ _ k r in
    (
      omega (arith, left, le, le', le'', whole),
      subst (λ o. Holds (rest_right ys) o k) (omega (arith, left, le, le', le'', whole)) r,
    )
  where
    some_behind : (zs : List Block) (w o k : ℕ) → Holds zs o k → kept_size w zs ≡ w
    some_behind [] w o k h = absurd h
    some_behind (z ∷ zs) w o k h = refl

pub freed-Kept :
    (g : Manager) (xs : List Block) (n : ℕ) (ys : List Block) (g' : Manager)
    (f : Freed g xs n ys g') (off k : ℕ)
    → off ≢ total xs
    → Holds (xs ++ block n alloc ∷ ys) off k
    → Kept g off k g' (rest_left xs ++ block f.size free ∷ rest_right ys)
freed-Kept g xs n ys g' f off k other held =
    let left = total_left xs in
    elim (Holds-append xs (block n alloc ∷ ys) off k held) [
      | inl l ↦
          let l' = Holds-rest_left xs off k l in
          record {
            holds = Holds-left (rest_left xs) (block f.size free ∷ rest_right ys) off k l';
            same = λ a low high.
                f.same a (inl (omega (arith, high, Holds-ends (rest_left xs) off k l')));
          }
      | inr (le, inl (z, e)) ↦ absurd (other (omega (arith, le, z)))
      | inr (le, inr (le', r)) ↦
          let (le'', r') = Holds-rest_right ys (off - total xs - n) k r in
          record {
            holds =
                Holds-right (rest_left xs) (block f.size free ∷ rest_right ys) off k
                  (omega (arith, left, le))
                  (inr (behind_joint g xs n ys off k f.size f.joint le le' le'' r'));
            same = λ a low high. f.same a (inr (omega (arith, low, le, le', le'', left)));
          }
    ]

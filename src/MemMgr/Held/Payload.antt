-- ===== src/MemMgr/Held/Payload.antt =====
-- PA3/src/memmgr.c: writes to the payload of a block, as `memset` and `memcpy` do them.
use sysprog.Base.{
  ℕ, ◌+◌, ◌-◌, ◌*◌, ◌/◌, ◌^◌, ◌≤◌, ◌<◌, ◌≡◌, refl, sym, ap, ◌∙◌, subst, true, List, [], ◌∷◌, ◌++◌,
  arith, inl, inr, ltb, leb, ◌==◌, Bool-cases,
}
use sysprog.MemMgr.Words.{Mem, alloc}
use sysprog.MemMgr.Manager.{Manager}
use sysprog.MemMgr.Tiles.{Block, block, total}
use sysprog.MemMgr.Rewrite.{SameOutside, Tiles-at}
use sysprog.MemMgr.Place.{placed}
use sysprog.MemMgr.Heap.{IsHeap, rewritten-IsHeap}
use sysprog.MemMgr.Realloc.{clear_bytes, copy_words}
use sysprog.MemMgr.Held.{Holds, Holds-split, Holds-right}
use sysprog.MemMgr.Held.Calls.{Kept, Apart}

-- A request is at the front of what it is placed on.
pub placed-Holds :
    (before : List Block) (size req : ℕ) (after : List Block)
    → Holds (before ++ (placed size req ++ after)) (total before) req
placed-Holds before size req after =
    Holds-right before (placed size req ++ after) (total before) req (omega arith) front
  where
    front : Holds (placed size req ++ after) (total before - total before) req
    front = elim (Bool-cases (size == req)) [
      | inl t ↦ rw t (inl (omega arith, refl))
      | inr t ↦ rw t (inl (omega arith, refl))
    ]

-- A write between the tags of an allocated block.
pub payload-IsHeap :
    (g : Manager) (bs : List Block) (off n : ℕ) (m : Mem)
    → IsHeap g bs
    → Holds bs off n
    → let p = g.heap_start + off in
      SameOutside (p + 8) (p + n - 8) g.mem m → IsHeap (record g { mem = m }) bs
payload-IsHeap g bs off n m h held same =
    let (xs, ys, e, at) = Holds-split bs off n held in
    let h' = subst (IsHeap g) e h in
    let same' =
      subst (λ o. SameOutside (g.heap_start + o + 8) (g.heap_start + o + n - 8) g.mem m) (sym at)
        same in
    let p = g.heap_start + total xs in
    let (header, footer, v) =
      Tiles-at g.mem g.heap_start g.heap_end xs (block n alloc) ys h'.blocks in
    subst (IsHeap (record g { mem = m })) (sym e) (
      rewritten-IsHeap g xs (block n alloc ∷ []) (block n alloc ∷ []) ys m h' (omega (arith, v.0))
        (
          (same' p (inl (omega arith)) ∙ header, same' (p + n - 8) (inr (omega arith)) ∙ footer, v),
          omega arith,
        )
        (λ a out. elim out [
          | inl low ↦ same' a (inl (omega (arith, low)))
          | inr high ↦ same' a (inr (omega (arith, high, v.0)))
        ]))

-- Another block keeps its words over such a write.
pub payload-Kept :
    (g g' : Manager) (bs : List Block) (o n size off k : ℕ) (m : Mem)
    → SameOutside (g.heap_start + o + 8) (g.heap_start + o + n - 8) g'.mem m
    → n ≤ size
    → Apart o size off k
    → Kept g off k g' bs
    → Kept g off k (record g' { mem = m }) bs
payload-Kept g g' bs o n size off k m same le apart kept = record {
  holds = kept.holds;
  same = λ a low high.
      same a (elim apart [
        | inl l ↦ inl (omega (arith, high, l))
        | inr r ↦ inr (omega (arith, low, le, r))
      ])
      ∙ kept.same a low high;
}

pub clear_bytes-inside : (p n a : ℕ) (m : Mem) → p ≤ a → a + 8 ≤ p + n → clear_bytes p n m a ≡ 0
unfolding clear_bytes
clear_bytes-inside p n a m low high = ground arith

pub clear_bytes-outside : (p n q : ℕ) (m : Mem) → p + n ≤ q → SameOutside p q m (clear_bytes p n m)
unfolding clear_bytes
clear_bytes-outside p n q m le a out = ground arith

pub clear_bytes-last :
    (p n a : ℕ) (m : Mem)
    → p ≤ a
    → a < p + n
    → p + n < a + 8
    → clear_bytes p n m a ≡ m a / 256 ^ (p + n - a) * 256 ^ (p + n - a)
unfolding clear_bytes
clear_bytes-last p n a m low high part = ground arith

pub copy_words-inside :
    (to from n i : ℕ) (m : Mem) → i < n → copy_words to from n m (to + i) ≡ m (from + i)
unfolding copy_words
copy_words-inside to from n i m less =
    let e : to + i - to + from ≡ from + i = omega arith in
    let low : leb to (to + i) ≡ true = ground arith in
    let high : ltb (to + i) (to + n) ≡ true = ground arith in rw (low, high) (ap m e)

pub copy_words-outside :
    (to from n q : ℕ) (m : Mem) → to + n ≤ q → SameOutside to q m (copy_words to from n m)
unfolding copy_words
copy_words-outside to from n q m le a out = ground arith

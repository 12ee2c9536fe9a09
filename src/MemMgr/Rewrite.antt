-- ===== src/MemMgr/Rewrite.antt =====
-- Writes of boundary tags, and blocks that replace a run of blocks of the same length.
use sysprog.Base.{ℕ, ◌+◌, ◌-◌, ◌≤◌, ◌<◌, ◌≡◌, ◌≢◌, refl, List, [], ◌∷◌, ◌++◌, arith, ◌⊎◌, inl, inr}
use sysprog.MemMgr.Words.{Mem, Status, free, alloc, pack, put, size_of, write_tags}
use sysprog.MemMgr.Tiles.{
  Block, block, tag, IsBlock, total, Tiles, size_of-tag, Tiles-total, Tiles-frame, Tiles-append,
  Tiles-split,
}

-- What a pair of tag writes leaves behind.
pub record Tagged (p n : ℕ) (s : Status) (m m' : Mem) : Type 0 where
  pub header : m' p ≡ pack n s
  pub footer : m' (p + n - 8) ≡ pack n s
  pub other : (a : ℕ) → a ≢ p → a ≢ p + n - 8 → m' a ≡ m a

pub write_tags-Tagged :
    (p n : ℕ) (s : Status) (m : Mem) → IsBlock (block n s) → Tagged p n s m (write_tags p n s m)
unfolding write_tags put
write_tags-Tagged p n s m v =
    let self : size_of (pack n s) ≡ n = size_of-tag (block n s) v in
    record {
      header = ground (arith, self);
      footer = ground (arith, self);
      other = λ a h h'. ground (arith, self);
    }

-- Memory is the same outside of `p ≤ a < q`.
abbrev pub SameOutside : ℕ → ℕ → Mem → Mem → Type 0
SameOutside p q m m' = (a : ℕ) → (a < p) ⊎ (q ≤ a) → m' a ≡ m a

-- A run of blocks that is rewritten in place.
pub Tiles-replace :
    (m m' : Mem) (start stop : ℕ) (xs mid zs ys : List Block)
    → Tiles m start (xs ++ (mid ++ ys)) stop
    → Tiles m' (start + total xs) zs (start + total xs + total mid)
    → SameOutside (start + total xs) (start + total xs + total mid) m m'
    → Tiles m' start (xs ++ (zs ++ ys)) stop
Tiles-replace m m' start stop xs mid zs ys t u same =
    let (left, rest) = Tiles-split m start xs (mid ++ ys) stop t in
    let (_, right) = Tiles-split m (start + total xs) mid ys stop rest in
    let end = Tiles-total m (start + total xs + total mid) ys stop right in
    Tiles-append m' start (start + total xs) xs (zs ++ ys) stop
      (Tiles-frame m m' start xs (start + total xs) (λ a low high. same a (inl high)) left)
      (Tiles-append m' (start + total xs) (start + total xs + total mid) zs ys stop u (
        Tiles-frame m m' (start + total xs + total mid) ys stop (λ a low high. same a (inr low))
          right))

-- The block at the end of a prefix.
pub Tiles-at :
    (m : Mem) (start stop : ℕ) (xs : List Block) (b : Block) (ys : List Block)
    → Tiles m start (xs ++ b ∷ ys) stop
    → (m (start + total xs) ≡ tag b) × (m (start + total xs + b.size - 8) ≡ tag b) × IsBlock b
Tiles-at m start stop xs b ys t = (Tiles-split m start xs (b ∷ ys) stop t).1.0

-- A last block and the end sentinel behind it, written into memory.
pub record Ended (q n : ℕ) (s : Status) (m m' : Mem) : Type 0 where
  pub header : m' q ≡ pack n s
  pub footer : m' (q + n - 8) ≡ pack n s
  pub sentinel : m' (q + n) ≡ pack 0 alloc
  pub other : (a : ℕ) → a ≢ q → a ≢ q + n - 8 → a ≢ q + n → m' a ≡ m a

pub shrunk-Ended :
    (q n : ℕ) (m : Mem)
    → IsBlock (block n free)
    → Ended q n free m
        (put (q + n - 8) (pack n free) (put q (pack n free) (put (q + n) (pack 0 alloc) m)))
unfolding put
shrunk-Ended q n m v = record {
  header = ground arith;
  footer = ground arith;
  sentinel = ground arith;
  other = λ a x y z. ground arith;
}

pub extended-Ended :
    (q n : ℕ) (m : Mem)
    → IsBlock (block n free)
    → Ended q n free m
        (put (q + n) (pack 0 alloc) (put (q + n - 8) (pack n free) (put q (pack n free) m)))
unfolding put
extended-Ended q n m v = record {
  header = ground arith;
  footer = ground arith;
  sentinel = ground arith;
  other = λ a x y z. ground arith;
}

-- Blocks before the rewritten end stay as they are.
pub Ended-Tiles :
    (start q n : ℕ) (s : Status) (bs : List Block) (m m' : Mem)
    → Ended q n s m m'
    → IsBlock (block n s)
    → Tiles m start bs q
    → Tiles m' start (bs ++ block n s ∷ []) (q + n)
Ended-Tiles start q n s bs m m' e v t =
    Tiles-append m' start q bs (block n s ∷ []) (q + n)
      (Tiles-frame m m' start bs q
        (λ a low high. e.other a (omega arith) (omega arith) (omega arith)) t)
      ((e.header, e.footer, v), refl)

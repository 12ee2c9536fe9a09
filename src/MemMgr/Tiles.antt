-- ===== src/MemMgr/Tiles.antt =====
-- The blocks of the heap as a list, and how the memory represents them: header and footer of each
-- block carry its size and status, and the next block begins where it ends.
use sysprog.Base.{
  ℕ, ◌+◌, ◌-◌, ◌*◌, ◌%◌, ◌≤◌, ◌<◌, ◌≡◌, sym, List, [], ◌∷◌, ◌++◌, length, arith, ◌==◌, ◌∙◌, subst,
}
use sysprog.MemMgr.Words.{Mem, Status, pack, size_of, status_of}

pub record Block : Type 0 where
  pub size : ℕ
  pub status : Status

abbrev pub block : ℕ → Status → Block
block n s = record { size = n; status = s }

abbrev pub tag : Block → ℕ
tag b = pack b.size b.status

-- Blocks come in multiples of 32 bytes.
abbrev pub IsBlock : Block → Type 0
IsBlock b = (32 ≤ b.size) × (b.size % 32 ≡ 0)

abbrev pub total : List Block → ℕ
total [] = 0
total (b ∷ bs) = b.size + total bs

-- The memory between `p` and `stop` holds exactly these blocks.
abbrev pub Tiles : Mem → ℕ → List Block → ℕ → Type 0
Tiles m p [] stop = p ≡ stop
Tiles m p (b ∷ bs) stop =
    ((m p ≡ tag b) × (m (p + b.size - 8) ≡ tag b) × IsBlock b) × Tiles m (p + b.size) bs stop

pub size_of-tag : (b : Block) → IsBlock b → size_of (tag b) ≡ b.size
unfolding pack
size_of-tag b v = ground arith

pub status_of-tag :
    (b : Block) → IsBlock b → (status_of (tag b) == 0) ≡ (status_of (pack 0 b.status) == 0)
unfolding pack
status_of-tag b v = ground arith

pub Tiles-total :
    (m : Mem) (p : ℕ) (bs : List Block) (stop : ℕ) → Tiles m p bs stop → p + total bs ≡ stop
Tiles-total m p [] stop t = omega arith
Tiles-total m p (b ∷ bs) stop t = omega (arith, Tiles-total m (p + b.size) bs stop t.1)

pub length-le-total :
    (m : Mem) (p : ℕ) (bs : List Block) (stop : ℕ) → Tiles m p bs stop → length bs * 32 ≤ total bs
length-le-total m p [] stop t = omega arith
length-le-total m p (b ∷ bs) stop t = omega (arith, length-le-total m (p + b.size) bs stop t.1)

-- Memory outside the range does not matter.
pub Tiles-frame :
    (m m' : Mem) (p : ℕ) (bs : List Block) (stop : ℕ)
    → ((a : ℕ) → p ≤ a → a < stop → m' a ≡ m a)
    → Tiles m p bs stop
    → Tiles m' p bs stop
Tiles-frame m m' p [] stop same t = t
Tiles-frame m m' p (b ∷ bs) stop same t =
    let whole = Tiles-total m (p + b.size) bs stop t.1 in
    (
      (
        same p (omega arith) (omega arith) ∙ t.0.0,
        same (p + b.size - 8) (omega arith) (omega arith) ∙ t.0.1,
        t.0.2,
      ),
      Tiles-frame m m' (p + b.size) bs stop (λ a low high. same a (omega arith) high) t.1,
    )

pub Tiles-append :
    (m : Mem) (p q : ℕ) (xs ys : List Block) (stop : ℕ)
    → Tiles m p xs q
    → Tiles m q ys stop
    → Tiles m p (xs ++ ys) stop
Tiles-append m p q [] ys stop t u = subst (λ r. Tiles m r ys stop) (sym t) u
Tiles-append m p q (b ∷ bs) ys stop t u = (t.0, Tiles-append m (p + b.size) q bs ys stop t.1 u)

pub Tiles-split :
    (m : Mem) (p : ℕ) (xs ys : List Block) (stop : ℕ)
    → Tiles m p (xs ++ ys) stop
    → Tiles m p xs (p + total xs) × Tiles m (p + total xs) ys stop
Tiles-split m p [] ys stop t = let e : p + 0 ≡ p = omega arith in (omega arith, rw e t)
Tiles-split m p (b ∷ bs) ys stop t =
    let e : p + (b.size + total bs) ≡ p + b.size + total bs = omega arith in
    let (u, v) = Tiles-split m (p + b.size) bs ys stop t.1 in rw e ((t.0, u), v)

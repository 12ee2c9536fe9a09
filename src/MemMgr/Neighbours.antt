-- ===== src/MemMgr/Neighbours.antt =====
-- What `coalesce` of PA3/src/memmgr.c reads at the two sides of a block, in terms of the blocks.
use sysprog.Base.{
  ℕ, ◌+◌, ◌-◌, ◌%◌, ◌≤◌, ◌<◌, ◌≡◌, refl, ap, List, [], ◌∷◌, ◌++◌, arith, ltb, ◌==◌, if◌then◌else◌,
}
use sysprog.MemMgr.Words.{Mem, free, alloc, pack, get_size, get_status}
use sysprog.MemMgr.Tiles.{Block, block, total, Tiles}

-- The bytes that a free block at the end of `xs` adds, and the blocks before it.
pub gain_left : List Block → ℕ
gain_left [] = 0
gain_left (c ∷ []) = elim c.status [ free ↦ c.size | alloc ↦ 0 ]
gain_left (c ∷ d ∷ xs) = gain_left (d ∷ xs)

unfoldable pub rest_left : List Block → List Block
rest_left [] = []
rest_left (c ∷ []) = elim c.status [ free ↦ [] | alloc ↦ c ∷ [] ]
rest_left (c ∷ d ∷ xs) = c ∷ rest_left (d ∷ xs)

-- The bytes that a free block at the front of `ys` adds, and the blocks behind it.
unfoldable pub gain_right : List Block → ℕ
gain_right [] = 0
gain_right (c ∷ ys) = elim c.status [ free ↦ c.size | alloc ↦ 0 ]

unfoldable pub rest_right : List Block → List Block
rest_right [] = []
rest_right (c ∷ ys) = elim c.status [ free ↦ ys | alloc ↦ c ∷ ys ]

-- The free block of `n` bytes, if there is one.
abbrev pub at_most_one : ℕ → List Block
at_most_one n = if ltb 0 n then block n free ∷ [] else []

pub left_parts :
    (xs : List Block)
    → (m : Mem) (p q : ℕ) → Tiles m p xs q
    → xs ≡ rest_left xs ++ at_most_one (gain_left xs)
unfolding rest_left gain_left
left_parts [] m p q t = refl
left_parts (c ∷ []) m p q t = ground arith
left_parts (c ∷ d ∷ xs) m p q t = ap (◌∷◌ c) (left_parts (d ∷ xs) m (p + c.size) q t.1)

pub right_parts :
    (ys : List Block)
    → (m : Mem) (p q : ℕ) → Tiles m p ys q
    → ys ≡ at_most_one (gain_right ys) ++ rest_right ys
unfolding rest_right gain_right
right_parts [] m p q t = refl
right_parts (c ∷ ys) m p q t = ground arith

-- The word before a block tells whether the block in front of it is free, and how large it is.
pub record PrevWord (m : Mem) (p gain : ℕ) : Type 0 where
  pub status : (get_status m (p - 8) == 0) ≡ ltb 0 gain
  pub size : 0 < gain → get_size m (p - 8) ≡ gain
  pub header : 0 < gain → get_size m (p - gain) ≡ gain
  pub fits : gain ≤ p

PrevWord-cons :
    (m : Mem) (start p : ℕ) (c : Block) (xs : List Block)
    → Tiles m start (c ∷ xs) p
    → PrevWord m p (gain_left (c ∷ xs))
unfolding gain_left pack
PrevWord-cons m start p c [] t =
    let at : start + c.size ≡ p = t.1 in
    rw (← at) (record {
      status = ground arith;
      size = λ h. ground arith;
      header = λ h. ground arith;
      fits = ground arith;
    })
PrevWord-cons m start p c (d ∷ xs) t = PrevWord-cons m (start + c.size) p d xs t.1

pub prev_word :
    (m : Mem) (start p : ℕ) (xs : List Block)
    → m (start - 8) ≡ pack 0 alloc
    → Tiles m start xs p
    → PrevWord m p (gain_left xs)
unfolding gain_left pack
prev_word m start p [] z t = rw (← t) (record {
  status = ground (arith, z);
  size = λ h. absurd (omega arith);
  header = λ h. absurd (omega arith);
  fits = omega arith;
})
prev_word m start p (c ∷ xs) z t = PrevWord-cons m start p c xs t

pub record NextWord (m : Mem) (q gain : ℕ) : Type 0 where
  pub status : (get_status m q == 0) ≡ ltb 0 gain
  pub size : 0 < gain → get_size m q ≡ gain

pub next_word :
    (m : Mem) (q stop : ℕ) (ys : List Block)
    → m stop ≡ pack 0 alloc
    → Tiles m q ys stop
    → NextWord m q (gain_right ys)
unfolding gain_right pack
next_word m q stop [] z t =
    rw t (record { status = ground (arith, z); size = λ h. absurd (omega arith) })
next_word m q stop (c ∷ ys) z t = record { status = ground arith; size = λ h. ground arith }

pub gain_left_whole : (m : Mem) (p q : ℕ) (xs : List Block) → Tiles m p xs q → gain_left xs % 32 ≡ 0
unfolding gain_left
gain_left_whole m p q [] t = refl
gain_left_whole m p q (c ∷ []) t = ground arith
gain_left_whole m p q (c ∷ d ∷ xs) t = gain_left_whole m (p + c.size) q (d ∷ xs) t.1

pub gain_right_whole :
    (m : Mem) (p q : ℕ) (ys : List Block) → Tiles m p ys q → gain_right ys % 32 ≡ 0
unfolding gain_right
gain_right_whole m p q [] t = refl
gain_right_whole m p q (c ∷ ys) t = ground arith

pub total_left : (xs : List Block) → total (rest_left xs) + gain_left xs ≡ total xs
unfolding rest_left gain_left
total_left [] = refl
total_left (c ∷ []) = ground arith
total_left (c ∷ d ∷ xs) = omega (arith, total_left (d ∷ xs))

-- ===== src/MemMgr/Held.antt =====
-- The allocated blocks of the heap of PA3/src/memmgr.c, by their place.
pub mod Calls
pub mod Unique
pub mod Payload
pub mod Calloc
pub mod Move
pub mod Resized
use sysprog.Base.{
  ℕ, ◌+◌, ◌-◌, ◌≤◌, ◌<◌, ◌≡◌, ◌≢◌, refl, sym, ap, ◌∙◌, subst, List, [], ◌∷◌, ◌++◌, arith, ◌⊎◌, inl,
  inr,
}
use sysprog.MemMgr.Words.{Mem, Status, free, alloc}
use sysprog.MemMgr.Tiles.{Block, block, IsBlock, total, Tiles}
use sysprog.MemMgr.Neighbours.{rest_left, gain_right, rest_right}

-- There is an allocated block of `k` bytes, `off` bytes behind the start of the blocks.
abbrev pub Holds : List Block → ℕ → ℕ → Type 0
Holds [] off k = ⊥
Holds (b ∷ bs) off k =
    ((off ≡ 0) × (b ≡ block k alloc)) ⊎ ((b.size ≤ off) × Holds bs (off - b.size) k)

pub Holds-ends : (bs : List Block) (off k : ℕ) → Holds bs off k → off + k ≤ total bs
Holds-ends [] off k h = absurd h
Holds-ends (b ∷ bs) off k (inl (z, e)) = omega (arith, z, ap (λ c. c.size) e)
Holds-ends (b ∷ bs) off k (inr (le, h)) = omega (arith, le, Holds-ends bs (off - b.size) k h)

pub Holds-size :
    (m : Mem) (p : ℕ) (bs : List Block) (q off k : ℕ) → Tiles m p bs q → Holds bs off k → 32 ≤ k
Holds-size m p [] q off k t h = absurd h
Holds-size m p (b ∷ bs) q off k t (inl (z, e)) = omega (arith, t.0.2.0, ap (λ c. c.size) e)
Holds-size m p (b ∷ bs) q off k t (inr (le, h)) =
    Holds-size m (p + b.size) bs q (off - b.size) k t.1 h

pub Holds-append :
    (xs ys : List Block) (off k : ℕ)
    → Holds (xs ++ ys) off k
    → Holds xs off k ⊎ ((total xs ≤ off) × Holds ys (off - total xs) k)
Holds-append [] ys off k h = inr (omega arith, subst (λ o. Holds ys o k) (omega arith) h)
Holds-append (b ∷ xs) ys off k (inl h) = inl (inl h)
Holds-append (b ∷ xs) ys off k (inr (le, h)) = elim (Holds-append xs ys (off - b.size) k h) [
  | inl l ↦ inl (inr (le, l))
  | inr (le', r) ↦
      let e : off - b.size - total xs ≡ off - (b.size + total xs) = omega arith in
      inr (omega (arith, le, le'), subst (λ o. Holds ys o k) e r)
]

pub Holds-left : (xs ys : List Block) (off k : ℕ) → Holds xs off k → Holds (xs ++ ys) off k
Holds-left [] ys off k h = absurd h
Holds-left (b ∷ xs) ys off k (inl h) = inl h
Holds-left (b ∷ xs) ys off k (inr (le, h)) = inr (le, Holds-left xs ys (off - b.size) k h)

pub Holds-right :
    (xs ys : List Block) (off k : ℕ)
    → total xs ≤ off
    → Holds ys (off - total xs) k
    → Holds (xs ++ ys) off k
Holds-right [] ys off k le h = subst (λ o. Holds ys o k) (omega arith) h
Holds-right (b ∷ xs) ys off k le h =
    let e : off - (b.size + total xs) ≡ off - b.size - total xs = omega arith in
    inr (
      omega (arith, le),
      Holds-right xs ys (off - b.size) k (omega (arith, le)) (subst (λ o. Holds ys o k) e h),
    )

-- The block with the blocks before and behind it.
pub Holds-split :
    (bs : List Block) (off k : ℕ)
    → Holds bs off k
    → (xs : List Block) × (ys : List Block) × (bs ≡ xs ++ block k alloc ∷ ys) × (total xs ≡ off)
Holds-split [] off k h = absurd h
Holds-split (b ∷ bs) off k (inl (z, e)) = ([], bs, ap (λ c. c ∷ bs) e, sym z)
Holds-split (b ∷ bs) off k (inr (le, h)) =
    let (xs, ys, e, at) = Holds-split bs (off - b.size) k h in
    (b ∷ xs, ys, ap (◌∷◌ b) e, omega (arith, le, at))

pub Holds-here : (xs ys : List Block) (k : ℕ) → Holds (xs ++ block k alloc ∷ ys) (total xs) k
Holds-here xs ys k =
    Holds-right xs (block k alloc ∷ ys) (total xs) k (omega arith) (inl (omega arith, refl))

-- A free block at the end, or at the front, is none of them.
pub Holds-rest_left : (xs : List Block) (off k : ℕ) → Holds xs off k → Holds (rest_left xs) off k
unfolding rest_left
Holds-rest_left [] off k h = absurd h
Holds-rest_left (b ∷ []) off k (inl (z, e)) = rw (ap (λ c. c.status) e) (inl (z, e))
Holds-rest_left (b ∷ []) off k (inr (le, h)) = absurd h
Holds-rest_left (b ∷ c ∷ xs) off k (inl h) = inl h
Holds-rest_left (b ∷ c ∷ xs) off k (inr (le, h)) =
    inr (le, Holds-rest_left (c ∷ xs) (off - b.size) k h)

status-cases : (s : Status) → (s ≡ free) ⊎ (s ≡ alloc)
status-cases free = inl refl
status-cases alloc = inr refl

Holds-free :
    (b : Block) (ys : List Block) (off k : ℕ)
    → b.status ≡ free
    → Holds (b ∷ ys) off k
    → (b.size ≤ off) × Holds ys (off - b.size) k
Holds-free b ys off k e (inl (z, w)) = absurd (clash (sym e ∙ ap (λ c. c.status) w))
  where
    clash : free ≢ alloc
    clash e = cc
Holds-free b ys off k e (inr h) = h

pub Holds-rest_right :
    (ys : List Block) (off k : ℕ)
    → Holds ys off k
    → (gain_right ys ≤ off) × Holds (rest_right ys) (off - gain_right ys) k
unfolding gain_right rest_right
Holds-rest_right [] off k h = absurd h
Holds-rest_right (b ∷ ys) off k h = elim (status-cases b.status) [
  | inl e ↦ rw e (Holds-free b ys off k e h)
  | inr e ↦ rw e (omega arith, subst (λ o. Holds (b ∷ ys) o k) (omega arith) h)
]

-- ===== src/MemMgr/FreeList/Sync.antt =====
-- PA3/src/memmgr.c: the heap under the explicit policy, whose free list holds exactly its free blocks.
use sysprog.Base.{
  ℕ, ◌+◌, ◌-◌, ◌≤◌, ◌≡◌, ◌≢◌, refl, sym, ap, ◌∙◌, subst, List, [], ◌∷◌, ◌++◌, All, ◌⊎◌, inl, inr,
  arith,
}
use sysprog.MemMgr.Words.{Mem, free}
use sysprog.MemMgr.Blocks.{Env}
use sysprog.MemMgr.Tiles.{Block, total, Tiles, Tiles-total}
use sysprog.MemMgr.FreeList.{
  Among, nodes, IsFreeList, SameNode, Linked-same, SameLinks-from, All-behind, All-both,
}
use sysprog.MemMgr.FreeList.Update.{NotLink}

-- A free block begins at `a`.
abbrev pub FreeAt : ℕ → List Block → ℕ → Type 0
FreeAt p [] a = ⊥
FreeAt p (b ∷ bs) a = ((a ≡ p) × (b.status ≡ free)) ⊎ FreeAt (p + b.size) bs a

-- The static objects lie outside of the heap and its sentinels.
abbrev pub Outside : ℕ → ℕ → ℕ → Type 0
Outside start stop a = (a + 40 ≤ start) ⊎ (stop + 8 ≤ a)

-- The blocks of the heap, and the free list of the free ones, but for some that are being changed.
pub record IsSyncedBut (env : Env) (m : Mem) (start stop : ℕ) (bs : List Block) (fl ex : List ℕ)
    : Type 0 where
  pub blocks : Tiles m start bs stop
  pub list : IsFreeList env m fl
  pub listed : (a : ℕ) → Among a fl → FreeAt start bs a × (Among a ex → ⊥)
  pub all_listed : (a : ℕ) → FreeAt start bs a → Among a ex ⊎ Among a fl
  pub first_out : Outside start stop env.first
  pub last_out : Outside start stop env.last

-- The free list holds exactly the free blocks of the heap.
abbrev pub IsSynced : Env → Mem → ℕ → ℕ → List Block → List ℕ → Type 0
IsSynced env m start stop bs fl = IsSyncedBut env m start stop bs fl []

pub FreeAt-range :
    (m : Mem) (p : ℕ) (bs : List Block) (q a : ℕ)
    → Tiles m p bs q
    → FreeAt p bs a
    → (p ≤ a) × (a + 32 ≤ q)
FreeAt-range m p [] q a t h = absurd h
FreeAt-range m p (b ∷ bs) q a t (inl (e, s)) =
    (omega (arith, e), omega (arith, e, t.0.2.0, Tiles-total m (p + b.size) bs q t.1))
FreeAt-range m p (b ∷ bs) q a t (inr h) =
    let (low, high) = FreeAt-range m (p + b.size) bs q a t.1 h in (omega (arith, low), high)

pub FreeAt-append :
    (p : ℕ) (xs ys : List Block) (a : ℕ)
    → FreeAt p (xs ++ ys) a
    → FreeAt p xs a ⊎ FreeAt (p + total xs) ys a
FreeAt-append p [] ys a h = inr (subst (λ q. FreeAt q ys a) (omega arith) h)
FreeAt-append p (x ∷ xs) ys a (inl h) = inl (inl h)
FreeAt-append p (x ∷ xs) ys a (inr h) = elim (FreeAt-append (p + x.size) xs ys a h) [
  | inl l ↦ inl (inr l)
  | inr r ↦ inr (subst (λ q. FreeAt q ys a) (omega arith) r)
]

pub FreeAt-left : (p : ℕ) (xs ys : List Block) (a : ℕ) → FreeAt p xs a → FreeAt p (xs ++ ys) a
FreeAt-left p [] ys a h = absurd h
FreeAt-left p (x ∷ xs) ys a (inl h) = inl h
FreeAt-left p (x ∷ xs) ys a (inr h) = inr (FreeAt-left (p + x.size) xs ys a h)

pub FreeAt-right :
    (p : ℕ) (xs ys : List Block) (a : ℕ) → FreeAt (p + total xs) ys a → FreeAt p (xs ++ ys) a
FreeAt-right p [] ys a h = subst (λ q. FreeAt q ys a) (omega arith) h
FreeAt-right p (x ∷ xs) ys a h =
    inr (FreeAt-right (p + x.size) xs ys a (subst (λ q. FreeAt q ys a) (omega arith) h))

-- A node begins where the block begins, or is no part of it.
abbrev pub Beside : ℕ → List Block → ℕ → Type 0
Beside p [] a = Unit {0}
Beside p (b ∷ bs) a = ((a ≡ p) ⊎ ((a + 24 ≤ p) ⊎ (p + b.size ≤ a))) × Beside (p + b.size) bs a

Beside-before : (p : ℕ) (bs : List Block) (a : ℕ) → a + 24 ≤ p → Beside p bs a
Beside-before p [] a h = tt
Beside-before p (b ∷ bs) a h = (inr (inl h), Beside-before (p + b.size) bs a (omega (arith, h)))

Beside-behind :
    (m : Mem) (p : ℕ) (bs : List Block) (q a : ℕ) → Tiles m p bs q → q ≤ a → Beside p bs a
Beside-behind m p [] q a t h = tt
Beside-behind m p (b ∷ bs) q a t h = (
  inr (inr (omega (arith, h, Tiles-total m (p + b.size) bs q t.1))),
  Beside-behind m (p + b.size) bs q a t.1 h,
)

pub Beside-free :
    (m : Mem) (p : ℕ) (bs : List Block) (q a : ℕ) → Tiles m p bs q → FreeAt p bs a → Beside p bs a
Beside-free m p [] q a t h = tt
Beside-free m p (b ∷ bs) q a t (inl (e, s)) =
    (inl e, Beside-before (p + b.size) bs a (omega (arith, e, t.0.2.0)))
Beside-free m p (b ∷ bs) q a t (inr h) = (
  inr (inr (FreeAt-range m (p + b.size) bs q a t.1 h).0),
  Beside-free m (p + b.size) bs q a t.1 h,
)

pub Beside-Outside :
    (m : Mem) (p : ℕ) (bs : List Block) (q a : ℕ) → Tiles m p bs q → Outside p q a → Beside p bs a
Beside-Outside m p bs q a t (inl h) = Beside-before p bs a (omega (arith, h))
Beside-Outside m p bs q a t (inr h) = Beside-behind m p bs q a t (omega (arith, h))

-- The tags are no pointers of the nodes.
header_apart :
    (p n a : ℕ)
    → 32 ≤ n
    → (a ≡ p) ⊎ ((a + 24 ≤ p) ⊎ (p + n ≤ a))
    → (p ≢ a + 8) × (p ≢ a + 16) × (p + n - 8 ≢ a + 8) × (p + n - 8 ≢ a + 16)
header_apart p n a h (inl e) = (
  λ z. omega (arith, z, e),
  λ z. omega (arith, z, e),
  λ z. omega (arith, z, e, h),
  λ z. omega (arith, z, e, h),
)
header_apart p n a h (inr (inl e)) = (
  λ z. omega (arith, z, e),
  λ z. omega (arith, z, e),
  λ z. omega (arith, z, e, h),
  λ z. omega (arith, z, e, h),
)
header_apart p n a h (inr (inr e)) = (
  λ z. omega (arith, z, e, h),
  λ z. omega (arith, z, e, h),
  λ z. omega (arith, z, e, h),
  λ z. omega (arith, z, e, h),
)

tags_apart :
    (p : ℕ) (b : Block) (bs : List Block) (ns : List ℕ)
    → 32 ≤ b.size
    → All (Beside p (b ∷ bs)) ns
    → NotLink ns p × NotLink ns (p + b.size - 8) × All (Beside (p + b.size) bs) ns
tags_apart p b bs [] h k = (tt, tt, tt)
tags_apart p b bs (a ∷ ns) h k =
    let (x, y, z) = tags_apart p b bs ns h k.1 in
    let (s, t, u, v) = header_apart p b.size a h k.0.0 in (((s, t), x), ((u, v), y), (k.0.1, z))

-- Writes to pointers of nodes keep the blocks.
pub Tiles-relink :
    (m m' : Mem) (p : ℕ) (bs : List Block) (q : ℕ) (ns : List ℕ)
    → All (Beside p bs) ns
    → ((w : ℕ) → NotLink ns w → m' w ≡ m w)
    → Tiles m p bs q
    → Tiles m' p bs q
Tiles-relink m m' p [] q ns h same t = t
Tiles-relink m m' p (b ∷ bs) q ns h same t =
    let (x, y, z) = tags_apart p b bs ns t.0.2.0 h in
    (
      (same p x ∙ t.0.0, same (p + b.size - 8) y ∙ t.0.1, t.0.2),
      Tiles-relink m m' (p + b.size) bs q ns z same t.1,
    )

-- Writes elsewhere keep the free list.
pub IsFreeList-same :
    (env : Env) (m m' : Mem) (fl : List ℕ)
    → All (SameNode m m') (nodes env fl)
    → IsFreeList env m fl
    → IsFreeList env m' fl
IsFreeList-same env m m' fl h f =
    let (_, ends) = All-behind (SameNode m m') fl (env.last ∷ []) h.1 in
    record {
      links =
          Linked-same m m' (nodes env fl)
            (SameLinks-from m m' env.first (fl ++ env.last ∷ []) h.0.0 h.1) f.links;
      end = ends.0.0 ∙ f.end;
      spaced = f.spaced;
    }

pub All-among : (P : ℕ → Type 0) (fl : List ℕ) → ((a : ℕ) → Among a fl → P a) → All P fl
All-among P [] h = tt
All-among P (x ∷ fl) h = (h x (inl refl), All-among P fl (λ a k. h a (inr k)))

-- What holds of the static objects and of the free blocks holds of all nodes.
pub All-nodes :
    (P : ℕ → Type 0) (env : Env) (fl : List ℕ)
    → P env.first
    → P env.last
    → ((a : ℕ) → Among a fl → P a)
    → All P (nodes env fl)
All-nodes P env fl f l h = (f, All-both P fl (env.last ∷ []) (All-among P fl h) (l, tt))

pub Among-split :
    (a : ℕ) (fl : List ℕ) → Among a fl → (us : List ℕ) × (vs : List ℕ) × (fl ≡ us ++ a ∷ vs)
Among-split a [] h = absurd h
Among-split a (x ∷ fl) (inl e) = ([], fl, ap (λ y. y ∷ fl) (sym e))
Among-split a (x ∷ fl) (inr h) = let (us, vs, e) = Among-split a fl h in (x ∷ us, vs, ap (◌∷◌ x) e)

pub Among-without : (a b : ℕ) (us vs : List ℕ) → Among b (us ++ vs) → Among b (us ++ a ∷ vs)
Among-without a b [] vs h = inr h
Among-without a b (u ∷ us) vs (inl e) = inl e
Among-without a b (u ∷ us) vs (inr h) = inr (Among-without a b us vs h)

pub Among-with : (a b : ℕ) (us vs : List ℕ) → Among b (us ++ a ∷ vs) → (b ≡ a) ⊎ Among b (us ++ vs)
Among-with a b [] vs h = h
Among-with a b (u ∷ us) vs (inl e) = inr (inl e)
Among-with a b (u ∷ us) vs (inr h) = elim (Among-with a b us vs h) [
  | inl e ↦ inl e
  | inr k ↦ inr (inr k)
]

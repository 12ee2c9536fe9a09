-- ===== src/MemMgr/FreeList.antt =====
-- PA3/src/memmgr.c: the explicit free list, as a doubly linked list in memory. Its nodes lead from
-- the static object `first` over the free blocks to the static object `last`.
pub mod Update
pub mod Remove
pub mod Search
pub mod Sync
pub mod Steps
pub mod Retile
pub mod Place
pub mod Merge
use sysprog.Base.{ℕ, ◌+◌, ◌≤◌, ◌≡◌, refl, ◌∙◌, sym, List, [], ◌∷◌, ◌++◌, All, ◌⊎◌, inl, inr, arith}
use sysprog.MemMgr.Words.{Mem, next_ptr, next_next_ptr}
use sysprog.MemMgr.Blocks.{Env}

-- Each node points to the one behind it, and that one points back.
abbrev pub Linked : Mem → List ℕ → Type 0
Linked m [] = Unit {0}
Linked m (a ∷ []) = Unit {0}
Linked m (a ∷ b ∷ xs) = (m (next_ptr a) ≡ b) × (m (next_next_ptr b) ≡ a) × Linked m (b ∷ xs)

-- A node takes up 32 bytes.
abbrev pub Far : ℕ → ℕ → Type 0
Far a b = (a + 32 ≤ b) ⊎ (b + 32 ≤ a)

abbrev pub Spaced : List ℕ → Type 0
Spaced [] = Unit {0}
Spaced (a ∷ xs) = All (Far a) xs × Spaced xs

abbrev pub nodes : Env → List ℕ → List ℕ
nodes env xs = env.first ∷ (xs ++ env.last ∷ [])

-- `r` is one of the addresses.
abbrev pub Among : ℕ → List ℕ → Type 0
Among r [] = ⊥
Among r (x ∷ xs) = (r ≡ x) ⊎ Among r xs

-- The free list holds these blocks, in this order.
pub record IsFreeList (env : Env) (m : Mem) (xs : List ℕ) : Type 0 where
  pub links : Linked m (nodes env xs)
  pub end : m (next_ptr env.last) ≡ 0
  pub spaced : Spaced (nodes env xs)

-- The pointers that the links are made of are the same.
abbrev pub SameLinks : Mem → Mem → List ℕ → Type 0
SameLinks m m' [] = Unit {0}
SameLinks m m' (a ∷ []) = Unit {0}
SameLinks m m' (a ∷ b ∷ xs) =
    (m' (next_ptr a) ≡ m (next_ptr a))
    × (m' (next_next_ptr b) ≡ m (next_next_ptr b))
    × SameLinks m m' (b ∷ xs)

pub Linked-same : (m m' : Mem) (xs : List ℕ) → SameLinks m m' xs → Linked m xs → Linked m' xs
Linked-same m m' [] s l = tt
Linked-same m m' (a ∷ []) s l = tt
Linked-same m m' (a ∷ b ∷ xs) s l = (s.0 ∙ l.0, s.1 ∙ l.1, Linked-same m m' (b ∷ xs) s.2 l.2)

pub Linked-join :
    (m : Mem) (xs : List ℕ) (p : ℕ) (bs : List ℕ)
    → Linked m (xs ++ p ∷ [])
    → Linked m (p ∷ bs)
    → Linked m (xs ++ p ∷ bs)
Linked-join m [] p bs l r = r
Linked-join m (a ∷ []) p bs l r = (l.0, l.1, r)
Linked-join m (a ∷ b ∷ xs) p bs l r = (l.0, l.1, Linked-join m (b ∷ xs) p bs l.2 r)

pub Linked-cut :
    (m : Mem) (xs : List ℕ) (p : ℕ) (bs : List ℕ)
    → Linked m (xs ++ p ∷ bs)
    → Linked m (xs ++ p ∷ []) × Linked m (p ∷ bs)
Linked-cut m [] p bs l = (tt, l)
Linked-cut m (a ∷ []) p bs l = ((l.0, l.1, tt), l.2)
Linked-cut m (a ∷ b ∷ xs) p bs l =
    let (left, right) = Linked-cut m (b ∷ xs) p bs l.2 in ((l.0, l.1, left), right)

-- Both pointers of a node.
abbrev pub SameNode : Mem → Mem → ℕ → Type 0
SameNode m m' a = (m' (next_ptr a) ≡ m (next_ptr a)) × (m' (next_next_ptr a) ≡ m (next_next_ptr a))

-- The links into a node, up to its pointer back, and those out of one, from its pointer ahead.
pub SameLinks-into :
    (m m' : Mem) (xs : List ℕ) (p : ℕ)
    → All (SameNode m m') xs
    → m' (next_next_ptr p) ≡ m (next_next_ptr p)
    → SameLinks m m' (xs ++ p ∷ [])
SameLinks-into m m' [] p h e = tt
SameLinks-into m m' (a ∷ []) p h e = (h.0.0, e, tt)
SameLinks-into m m' (a ∷ b ∷ xs) p h e = (h.0.0, h.1.0.1, SameLinks-into m m' (b ∷ xs) p h.1 e)

pub SameLinks-from :
    (m m' : Mem) (p : ℕ) (bs : List ℕ)
    → m' (next_ptr p) ≡ m (next_ptr p)
    → All (SameNode m m') bs
    → SameLinks m m' (p ∷ bs)
SameLinks-from m m' p [] e h = tt
SameLinks-from m m' p (b ∷ bs) e h = (e, h.0.1, SameLinks-from m m' b bs h.0.0 h.1)

pub All-behind {ℓ κ} :
    {A : Type ℓ} (P : A → Type κ) (xs ys : List A) → All P (xs ++ ys) → All P xs × All P ys
All-behind P [] ys h = (tt, h)
All-behind P (x ∷ xs) ys h = let (l, r) = All-behind P xs ys h.1 in ((h.0, l), r)

pub All-both {ℓ κ} :
    {A : Type ℓ} (P : A → Type κ) (xs ys : List A) → All P xs → All P ys → All P (xs ++ ys)
All-both P [] ys l r = r
All-both P (x ∷ xs) ys l r = (l.0, All-both P xs ys l.1 r)

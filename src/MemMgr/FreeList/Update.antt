-- ===== src/MemMgr/FreeList/Update.antt =====
-- PA3/src/memmgr.c: `add_free_block` on the explicit free list.
use sysprog.Base.{ℕ, ◌+◌, ◌≡◌, ◌≢◌, ◌∙◌, List, [], ◌∷◌, ◌++◌, All, inl, inr, arith}
use sysprog.MemMgr.Words.{Mem, put, next_ptr, next_next_ptr}
use sysprog.MemMgr.Blocks.{Env, add_free_block}
use sysprog.MemMgr.FreeList.{
  Linked, Far, Spaced, nodes, IsFreeList, Linked-same, SameNode, SameLinks-from, All-behind,
}

-- The links of a node.
abbrev pub NotLink : List ℕ → ℕ → Type 0
NotLink xs w = All (λ a. (w ≢ next_ptr a) × (w ≢ next_next_ptr a)) xs

-- A new node between two.
record Inserted (p b n : ℕ) (m m' : Mem) : Type 0 where
  ahead : m' (p + 8) ≡ b
  back : m' (b + 16) ≡ p
  ahead' : m' (b + 8) ≡ n
  back' : m' (n + 16) ≡ b
  other : (w : ℕ) → w ≢ p + 8 → w ≢ b + 16 → w ≢ b + 8 → w ≢ n + 16 → m' w ≡ m w

add-Inserted :
    (env : Env) (b n : ℕ) (m : Mem)
    → Far env.first b
    → Far b n
    → Far env.first n
    → m (env.first + 8) ≡ n
    → Inserted env.first b n m (add_free_block env b m)
unfolding add_free_block put
add-Inserted env b n m f g h e = record {
  ahead = ground (arith, e);
  back = ground (arith, e);
  ahead' = ground (arith, e);
  back' = ground (arith, e);
  other = λ w x y z t. ground (arith, e);
}

pub Far-sym : (a b : ℕ) → Far a b → Far b a
Far-sym a b (inl h) = inr h
Far-sym a b (inr h) = inl h

-- Nodes away from the three keep their pointers.
abbrev pub FromAll : ℕ → ℕ → ℕ → List ℕ → Type 0
FromAll p b n xs = All (λ a. Far a p × Far a b × Far a n) xs

pub kept_nodes :
    (p b n : ℕ) (m m' : Mem)
    → ((w : ℕ) → w ≢ p + 8 → w ≢ b + 16 → w ≢ b + 8 → w ≢ n + 16 → m' w ≡ m w)
    → (xs : List ℕ) → FromAll p b n xs
    → All (SameNode m m') xs
kept_nodes p b n m m' other [] h = tt
kept_nodes p b n m m' other (a ∷ xs) ((f, g, k), h) = (
  (
    other (a + 8) (away_8 a p f) (away_8_16 a b g) (away_8 a b g) (away_8_16 a n k),
    other (a + 16) (away_16_8 a p f) (away_16 a b g) (away_16_8 a b g) (away_16 a n k),
  ),
  kept_nodes p b n m m' other xs h,
)
  where
    away_8 : (a q : ℕ) → Far a q → a + 8 ≢ q + 8
    away_8 a q (inl f) e = omega (arith, e, f)
    away_8 a q (inr f) e = omega (arith, e, f)

    away_16 : (a q : ℕ) → Far a q → a + 16 ≢ q + 16
    away_16 a q (inl f) e = omega (arith, e, f)
    away_16 a q (inr f) e = omega (arith, e, f)

    away_8_16 : (a q : ℕ) → Far a q → a + 8 ≢ q + 16
    away_8_16 a q (inl f) e = omega (arith, e, f)
    away_8_16 a q (inr f) e = omega (arith, e, f)

    away_16_8 : (a q : ℕ) → Far a q → a + 16 ≢ q + 8
    away_16_8 a q (inl f) e = omega (arith, e, f)
    away_16_8 a q (inr f) e = omega (arith, e, f)

pub All-from :
    (p b n : ℕ) (xs : List ℕ) → All (Far p) xs → All (Far b) xs → All (Far n) xs → FromAll p b n xs
All-from p b n [] f g h = tt
All-from p b n (a ∷ xs) f g h =
    ((Far-sym p a f.0, Far-sym b a g.0, Far-sym n a h.0), All-from p b n xs f.1 g.1 h.1)

-- A node in front of `n`, behind `first`.
record AddedLinks (env : Env) (b n : ℕ) (xs : List ℕ) (m m' : Mem) : Type 0 where
  links : Linked m' (env.first ∷ b ∷ n ∷ xs)
  ends : All (λ a. m' (next_ptr a) ≡ m (next_ptr a)) (n ∷ xs)
  other : (w : ℕ) → NotLink (env.first ∷ b ∷ n ∷ xs) w → m' w ≡ m w

pub ahead_kept :
    (m m' : Mem) (xs : List ℕ)
    → All (SameNode m m') xs
    → All (λ a. m' (next_ptr a) ≡ m (next_ptr a)) xs
ahead_kept m m' [] h = tt
ahead_kept m m' (a ∷ xs) h = (h.0.0, ahead_kept m m' xs h.1)

add-AddedLinks :
    (env : Env) (b n : ℕ) (xs : List ℕ) (m : Mem)
    → Linked m (env.first ∷ n ∷ xs)
    → Spaced (env.first ∷ n ∷ xs)
    → All (Far b) (env.first ∷ n ∷ xs)
    → AddedLinks env b n xs m (add_free_block env b m)
add-AddedLinks env b n xs m l s far =
    let m' = add_free_block env b m in
    let i = add-Inserted env b n m (Far-sym b env.first far.0) far.1.0 s.0.0 l.0 in
    let kept =
      kept_nodes env.first b n m m' i.other xs (All-from env.first b n xs s.0.1 far.1.1 s.1.0) in
    let here : m' (n + 8) ≡ m (n + 8) =
      i.other (n + 8) (elim s.0.0 [ inl f ↦ omega (arith, f) | inr f ↦ omega (arith, f) ])
        (elim far.1.0 [ inl f ↦ omega (arith, f) | inr f ↦ omega (arith, f) ])
        (elim far.1.0 [ inl f ↦ omega (arith, f) | inr f ↦ omega (arith, f) ]) (omega arith) in
    record {
      links = (
        i.ahead,
        i.back,
        (i.ahead', i.back', Linked-same m m' (n ∷ xs) (SameLinks-from m m' n xs here kept) l.2),
      );
      ends = (here, ahead_kept m m' xs kept);
      other = λ w away. i.other w away.0.0 away.1.0.1 away.1.0.0 away.1.1.0.1;
    }

-- Adding a block that is no node yet puts it in front of the explicit free list, and changes no word
-- but the pointers of the nodes.
pub add_free_block-IsFreeList :
    (env : Env) (m : Mem) (xs : List ℕ) (b : ℕ)
    → IsFreeList env m xs
    → All (Far b) (nodes env xs)
    → let m' = add_free_block env b m in
      IsFreeList env m' (b ∷ xs) × ((w : ℕ) → NotLink (nodes env (b ∷ xs)) w → m' w ≡ m w)
add_free_block-IsFreeList env m [] b f far =
    let a = add-AddedLinks env b env.last [] m f.links f.spaced far in
    (
      record {
        links = a.links;
        end = a.ends.0 ∙ f.end;
        spaced = ((Far-sym b env.first far.0, f.spaced.0), (far.1, f.spaced.1));
      },
      a.other,
    )
add_free_block-IsFreeList env m (c ∷ xs) b f far =
    let a = add-AddedLinks env b c (xs ++ env.last ∷ []) m f.links f.spaced far in
    let (_, ends) =
      All-behind (λ q. add_free_block env b m (next_ptr q) ≡ m (next_ptr q)) xs (env.last ∷ [])
        a.ends.1 in
    (
      record {
        links = a.links;
        end = ends.0 ∙ f.end;
        spaced = ((Far-sym b env.first far.0, f.spaced.0), (far.1, f.spaced.1));
      },
      a.other,
    )

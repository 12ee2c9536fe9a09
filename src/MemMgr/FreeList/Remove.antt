-- ===== src/MemMgr/FreeList/Remove.antt =====
-- PA3/src/memmgr.c: `remove_free_block` on the explicit free list.
use sysprog.Base.{
  ℕ, ◌+◌, ◌≡◌, ◌≢◌, refl, sym, ap, ◌∙◌, subst, List, [], ◌∷◌, ◌++◌, All, inl, inr, arith,
  append_one, append_assoc,
}
use sysprog.MemMgr.Words.{Mem, put, next_ptr, next_next_ptr}
use sysprog.MemMgr.Blocks.{Env, remove_free_block}
use sysprog.MemMgr.FreeList.{
  Linked, Far, Spaced, nodes, IsFreeList, Linked-same, Linked-join, Linked-cut, SameLinks-into,
  SameLinks-from, All-behind, All-both,
}
use sysprog.MemMgr.FreeList.Update.{NotLink, Far-sym, FromAll, kept_nodes, All-from, ahead_kept}

-- A node taken out from between two.
record Removed (p b n : ℕ) (m m' : Mem) : Type 0 where
  ahead : m' (p + 8) ≡ n
  back : m' (n + 16) ≡ p
  other : (w : ℕ) → w ≢ p + 8 → w ≢ b + 16 → w ≢ b + 8 → w ≢ n + 16 → m' w ≡ m w

remove-Removed :
    (p b n : ℕ) (m : Mem)
    → Far p b
    → Far b n
    → Far p n
    → m (b + 8) ≡ n
    → m (b + 16) ≡ p
    → Removed p b n m (remove_free_block b m)
unfolding remove_free_block put
remove-Removed p b n m f g h e e' = record {
  ahead = ground (arith, e, e');
  back = ground (arith, e, e');
  other = λ w x y z t. ground (arith, e, e');
}

-- What the distances are around the node that is taken out.
record Around (us : List ℕ) (p b n : ℕ) (vs : List ℕ) : Type 0 where
  before : FromAll p b n us
  behind : FromAll p b n vs
  far : Far p b × Far b n × Far p n
  rest : Spaced (us ++ p ∷ n ∷ vs)

Spaced-Around :
    (us : List ℕ) (p b n : ℕ) (vs : List ℕ) → Spaced (us ++ p ∷ b ∷ n ∷ vs) → Around us p b n vs
Spaced-Around [] p b n vs s = record {
  before = tt;
  behind = All-from p b n vs s.0.1.1 s.1.0.1 s.1.1.0;
  far = (s.0.0, s.1.0.0, s.0.1.0);
  rest = (s.0.1, s.1.1);
}
Spaced-Around (u ∷ us) p b n vs s =
    let r = Spaced-Around us p b n vs s.1 in
    let (near, ends) = All-behind (Far u) us (p ∷ b ∷ n ∷ vs) s.0 in
    record {
      before = ((ends.0, ends.1.0, ends.1.1.0), r.before);
      behind = r.behind;
      far = r.far;
      rest = (All-both (Far u) us (p ∷ n ∷ vs) near (ends.0, ends.1.1), r.rest);
    }

-- The list of nodes behind a removal.
record RemovedLinks (us : List ℕ) (p b n : ℕ) (vs : List ℕ) (m m' : Mem) : Type 0 where
  links : Linked m' (us ++ p ∷ n ∷ vs)
  ends : All (λ a. m' (next_ptr a) ≡ m (next_ptr a)) (n ∷ vs)
  spaced : Spaced (us ++ p ∷ n ∷ vs)
  other : (w : ℕ) → NotLink (us ++ p ∷ b ∷ n ∷ vs) w → m' w ≡ m w

pointers_apart :
    (a q : ℕ) → Far a q → (a + 8 ≢ q + 8) × (a + 8 ≢ q + 16) × (a + 16 ≢ q + 8) × (a + 16 ≢ q + 16)
pointers_apart a q (inl f) = (
  λ e. omega (arith, e, f),
  λ e. omega (arith, e, f),
  λ e. omega (arith, e, f),
  λ e. omega (arith, e, f),
)
pointers_apart a q (inr f) = (
  λ e. omega (arith, e, f),
  λ e. omega (arith, e, f),
  λ e. omega (arith, e, f),
  λ e. omega (arith, e, f),
)

remove-RemovedLinks :
    (us : List ℕ) (p b n : ℕ) (vs : List ℕ) (m : Mem)
    → Linked m (us ++ p ∷ b ∷ n ∷ vs)
    → Spaced (us ++ p ∷ b ∷ n ∷ vs)
    → RemovedLinks us p b n vs m (remove_free_block b m)
remove-RemovedLinks us p b n vs m l s =
    let m' = remove_free_block b m in
    let a = Spaced-Around us p b n vs s in
    let (left, right) = Linked-cut m us p (b ∷ n ∷ vs) l in
    let i = remove-Removed p b n m a.far.0 a.far.1 a.far.2 right.2.0 right.1 in
    let kept = kept_nodes p b n m m' i.other vs a.behind in
    let np = pointers_apart n p (Far-sym p n a.far.2) in
    let nb = pointers_apart n b (Far-sym b n a.far.1) in
    let pb = pointers_apart p b a.far.0 in
    let pn = pointers_apart p n a.far.2 in
    let ahead : m' (n + 8) ≡ m (n + 8) = i.other (n + 8) np.0 nb.1 nb.0 (omega arith) in
    let back : m' (p + 16) ≡ m (p + 16) = i.other (p + 16) (omega arith) pb.3 pb.2 pn.3 in
    record {
      links =
          Linked-join m' us p (n ∷ vs)
            (Linked-same m m' (us ++ p ∷ [])
              (SameLinks-into m m' us p (kept_nodes p b n m m' i.other us a.before) back) left)
            (
              i.ahead,
              i.back,
              Linked-same m m' (n ∷ vs) (SameLinks-from m m' n vs ahead kept) right.2.2,
            );
      ends = (ahead, ahead_kept m m' vs kept);
      spaced = a.rest;
      other = λ w away.
          let (_, at) =
            All-behind (λ q. (w ≢ next_ptr q) × (w ≢ next_next_ptr q)) us (p ∷ b ∷ n ∷ vs) away in
          i.other w at.0.0 at.1.0.1 at.1.0.0 at.1.1.0.1;
    }

-- The last element of a list that is not empty.
with_last : (a : ℕ) (xs : List ℕ) → (us : List ℕ) × (p : ℕ) × (a ∷ xs ≡ us ++ p ∷ [])
with_last a [] = ([], a, refl)
with_last a (x ∷ xs) = let (us, p, e) = with_last x xs in (a ∷ us, p, ap (◌∷◌ a) e)

nodes-cut :
    (env : Env) (xs zs us : List ℕ) (p : ℕ)
    → env.first ∷ xs ≡ us ++ p ∷ []
    → nodes env (xs ++ zs) ≡ us ++ p ∷ (zs ++ env.last ∷ [])
nodes-cut env xs zs us p e =
    ap (◌∷◌ env.first) (append_assoc xs zs (env.last ∷ []))
    ∙ ap (λ l. l ++ (zs ++ env.last ∷ [])) e
    ∙ append_one us p (zs ++ env.last ∷ [])

with_head : (ys : List ℕ) (z : ℕ) → (n : ℕ) × (vs : List ℕ) × (ys ++ z ∷ [] ≡ n ∷ vs)
with_head [] z = (z, [], refl)
with_head (y ∷ ys) z = (y, ys ++ z ∷ [], refl)

-- Taking a block out of the explicit free list leaves the others, in their order, and changes no
-- word but the pointers of the nodes.
pub remove_free_block-IsFreeList :
    (env : Env) (m : Mem) (xs : List ℕ) (b : ℕ) (ys : List ℕ)
    → IsFreeList env m (xs ++ b ∷ ys)
    → let m' = remove_free_block b m in
      IsFreeList env m' (xs ++ ys) × ((w : ℕ) → NotLink (nodes env (xs ++ b ∷ ys)) w → m' w ≡ m w)
remove_free_block-IsFreeList env m xs b ys f =
    let m' = remove_free_block b m in
    let (us, p, e) = with_last env.first xs in
    let (n, vs, e') = with_head ys env.last in
    let whole : nodes env (xs ++ b ∷ ys) ≡ us ++ p ∷ b ∷ n ∷ vs =
      nodes-cut env xs (b ∷ ys) us p e ∙ ap (λ l. us ++ p ∷ b ∷ l) e' in
    let left : us ++ p ∷ n ∷ vs ≡ nodes env (xs ++ ys) =
      sym (nodes-cut env xs ys us p e ∙ ap (λ l. us ++ p ∷ l) e') in
    let r =
      remove-RemovedLinks us p b n vs m (subst (Linked m) whole f.links)
        (subst Spaced whole f.spaced) in
    let Kept = λ (l : List ℕ). All (λ a. m' (next_ptr a) ≡ m (next_ptr a)) l in
    let (_, ends) =
      All-behind (λ a. m' (next_ptr a) ≡ m (next_ptr a)) ys (env.last ∷ [])
        (subst Kept (sym e') r.ends) in
    (
      record {
        links = subst (Linked m') left r.links;
        end = ends.0 ∙ f.end;
        spaced = subst Spaced left r.spaced;
      },
      λ w away. r.other w (subst (λ l. NotLink l w) whole away),
    )

-- ===== src/MemMgr/FreeList/Search.antt =====
-- PA3/src/memmgr.c, `bf_get_free_block_explicit`: the walk along the free list ends, and finds a
-- best fit.
use sysprog.Base.{
  ℕ, zero, suc, ◌+◌, ◌-◌, ◌^◌, ◌≤◌, ◌<◌, ◌≡◌, ◌≢◌, refl, sym, ap, ◌∙◌, subst, Bool, true, false,
  ◌&&◌, some, List, [], ◌∷◌, ◌++◌, All, length, length-append, arith, ltb, ◌==◌, if◌then◌else◌, inl,
  inr, ◌⊎◌, Bool-cases, ne→==, eq→==,
}
use native.Mathlib.Decide.{dec_lt}
use sysprog.MemMgr.Words.{Mem, get_size, get_status, next_ptr}
use sysprog.MemMgr.Blocks.{Env, explicit_loop, bf_get_free_block_explicit}
use sysprog.MemMgr.FreeList.{Among, Linked, IsFreeList}

abbrev pub Free : Mem → ℕ → Type 0
Free m a = get_status m a ≡ 0

-- Not a free block that holds `size` bytes in less than `limit`.
abbrev pub NotBetter : Mem → ℕ → ℕ → ℕ → Type 0
NotBetter m size limit a = Free m a → size ≤ get_size m a → limit ≤ get_size m a

-- The best fit behind a walk over `xs`, from the one that it starts with.
pub record Fit (m : Mem) (size limit : ℕ) (xs : List ℕ) (r : ℕ) : Type 0 where
  pub among : Among r xs
  pub is_free : Free m r
  pub enough : size ≤ get_size m r
  pub below : get_size m r < limit
  pub least : All (NotBetter m size (get_size m r)) xs

data Outcome (m : Mem) (size : ℕ) (xs : List ℕ) (best best_size r : ℕ) : Type 0 where
  kept : r ≡ best → All (NotBetter m size best_size) xs → Outcome m size xs best best_size r
  found : Fit m size best_size xs r → Outcome m size xs best best_size r

-- The walk of a list of nodes, up to the null pointer.
abbrev Along : Mem → List ℕ → ℕ → Type 0
Along m [] p = p ≡ 0
Along m (x ∷ xs) p = (p ≡ x) × (x ≢ 0) × Along m xs (m (next_ptr x))

better : Mem → ℕ → ℕ → ℕ → Bool
better m size best_size a =
    get_status m a == 0 && ltb size (get_size m a) && ltb (get_size m a) best_size

explicit_loop_round :
    (f : ℕ) (m : Mem) (size a best best_size : ℕ)
    → a ≢ 0
    → explicit_loop (suc f) m size a best best_size ≡ (
        if get_status m a == 0 && get_size m a == size
        then some a
        else explicit_loop f m size
            (m (next_ptr a))
            (if better m size best_size a then a else best)
            (if better m size best_size a then get_size m a else best_size))
unfolding explicit_loop better
explicit_loop_round f m size a best best_size h = rw (ne→== a 0 h) refl

better_parts :
    (m : Mem) (size best_size a : ℕ)
    → better m size best_size a ≡ true
    → Free m a × (size < get_size m a) × (get_size m a < best_size)
unfolding better
better_parts m size best_size a h = ground arith

not_better :
    (m : Mem) (size best_size a : ℕ)
    → (get_status m a == 0 && get_size m a == size) ≡ false
    → better m size best_size a ≡ false
    → NotBetter m size best_size a
unfolding better
not_better m size best_size a inexact h f le = ground arith

All-exact :
    (m : Mem) (size limit : ℕ) (xs : List ℕ) → limit ≡ size → All (NotBetter m size limit) xs
All-exact m size limit [] e = tt
All-exact m size limit (x ∷ xs) e = (λ _ h. omega arith, All-exact m size limit xs e)

Fit-cons :
    (m : Mem) (size limit limit' x : ℕ) (xs : List ℕ) (r : ℕ)
    → limit ≤ limit'
    → (Free m x → size ≤ get_size m x → limit ≤ get_size m x + 1)
    → Fit m size limit xs r
    → Fit m size limit' (x ∷ xs) r
Fit-cons m size limit limit' x xs r le not_x fit = record {
  among = inr fit.among;
  is_free = fit.is_free;
  enough = fit.enough;
  below = omega (arith, fit.below, le);
  least = (λ f h. omega (arith, not_x f h, fit.below), fit.least);
}

Fit-here :
    (m : Mem) (size limit x : ℕ) (xs : List ℕ)
    → Free m x
    → size ≤ get_size m x
    → get_size m x < limit
    → All (NotBetter m size (get_size m x)) xs
    → Fit m size limit (x ∷ xs) x
Fit-here m size limit x xs is_free enough below rest = record {
  among = inl refl;
  is_free = is_free;
  enough = enough;
  below = below;
  least = (λ _ _. omega arith, rest);
}

Outcome-better :
    (m : Mem) (size x : ℕ) (xs : List ℕ) (best best_size r : ℕ)
    → Free m x
    → size < get_size m x
    → get_size m x < best_size
    → Outcome m size xs x (get_size m x) r
    → Outcome m size (x ∷ xs) best best_size r
Outcome-better m size x xs best best_size r is_free fits less (kept e rest) = found (
    subst (Fit m size best_size (x ∷ xs)) (sym e)
      (Fit-here m size best_size x xs is_free (omega (arith, fits)) less rest))
Outcome-better m size x xs best best_size r is_free fits less (found fit) =
    found (
      Fit-cons m size (get_size m x) best_size x xs r (omega (arith, less)) (λ _ _. omega arith)
        fit)

Outcome-skip :
    (m : Mem) (size x : ℕ) (xs : List ℕ) (best best_size r : ℕ)
    → NotBetter m size best_size x
    → Outcome m size xs best best_size r
    → Outcome m size (x ∷ xs) best best_size r
Outcome-skip m size x xs best best_size r not_x (kept e rest) = kept e (not_x, rest)
Outcome-skip m size x xs best best_size r not_x (found fit) =
    found (
      Fit-cons m size best_size best_size x xs r (omega arith) (λ f h. omega (arith, not_x f h))
        fit)

exact_parts :
    (m : Mem) (size a : ℕ)
    → (get_status m a == 0 && get_size m a == size) ≡ true
    → Free m a × (get_size m a ≡ size)
exact_parts m size a h = ground arith

explicit_loop-Outcome :
    (f : ℕ) (m : Mem) (size p : ℕ) (xs : List ℕ) (best best_size : ℕ)
    → Along m xs p
    → length xs < f
    → size < best_size
    → (r : ℕ) × (explicit_loop f m size p best best_size ≡ some r)
      × Outcome m size xs best best_size r
explicit_loop-Outcome zero m size p xs best best_size w fuel below = absurd (omega arith)
explicit_loop-Outcome (suc f) m size p [] best best_size w fuel below =
    (best, unfold explicit_loop in rw (eq→== p 0 w) refl, kept refl tt)
explicit_loop-Outcome (suc f) m size p (x ∷ xs) best best_size (here, some_node, w) fuel below =
    let round =
      ap (λ q. explicit_loop (suc f) m size q best best_size) here
      ∙ explicit_loop_round f m size x best best_size some_node in
    elim (Bool-cases (get_status m x == 0 && get_size m x == size)) [
      | inl exact ↦
          let e = exact_parts m size x exact in
          (
            x,
            round ∙ rw exact refl,
            found (
                Fit-here m size best_size x xs e.0 (omega (arith, e.1)) (omega (arith, e.1))
                  (All-exact m size (get_size m x) xs e.1)),
          )
      | inr inexact ↦ elim (Bool-cases (better m size best_size x)) [
        | inl wins ↦
            let b = better_parts m size best_size x wins in
            let (r, runs, out) =
              explicit_loop-Outcome f m size (m (next_ptr x)) xs x (get_size m x) w
                (omega (arith, fuel)) b.1 in
            (
              r,
              round ∙ rw (inexact, wins) runs,
              Outcome-better m size x xs best best_size r b.0 b.1 b.2 out,
            )
        | inr loses ↦
            let (r, runs, out) =
              explicit_loop-Outcome f m size (m (next_ptr x)) xs best best_size w
                (omega (arith, fuel)) below in
            (
              r,
              round ∙ rw (inexact, loses) runs,
              Outcome-skip m size x xs best best_size r
                  (not_better m size best_size x inexact loses) out,
            )
      ]
    ]

-- The links give the walk.
links-Along :
    (m : Mem) (a : ℕ) (xs : List ℕ) (z : ℕ)
    → Linked m (a ∷ (xs ++ z ∷ []))
    → m (next_ptr z) ≡ 0
    → All (λ x. x ≢ 0) (xs ++ z ∷ [])
    → Along m (xs ++ z ∷ []) (m (next_ptr a))
links-Along m a [] z l e h = (l.0, h.0, e)
links-Along m a (x ∷ xs) z l e h = (l.0, h.0, links-Along m x xs z l.2 e h.1)

-- What the search answers: a smallest free block of the list that is large enough, or `NULL` because
-- every free block of the list is too small.
abbrev pub Answer : Mem → ℕ → List ℕ → ℕ → Type 0
Answer m size xs r =
    (Among r xs × Free m r × (size ≤ get_size m r) × All (NotBetter m size (get_size m r)) xs)
    ⊎ ((r ≡ 0) × All (λ a. Free m a → get_size m a < size) xs)

All-front : (P : ℕ → Type 0) (xs : List ℕ) (z : ℕ) → All P (xs ++ z ∷ []) → All P xs
All-front P [] z h = tt
All-front P (x ∷ xs) z h = (h.0, All-front P xs z h.1)

Among-front : (r : ℕ) (xs : List ℕ) (z : ℕ) → Among r (xs ++ z ∷ []) → Among r xs ⊎ (r ≡ z)
Among-front r [] z (inl e) = inr e
Among-front r [] z (inr h) = absurd h
Among-front r (x ∷ xs) z (inl e) = inl (inl e)
Among-front r (x ∷ xs) z (inr h) = elim (Among-front r xs z h) [
  | inl a ↦ inl (inr a)
  | inr e ↦ inr e
]

All-too_small :
    (m : Mem) (size : ℕ) (xs : List ℕ)
    → All (λ a. m a < 2 ^ 64 - 1) xs
    → All (NotBetter m size (2 ^ 64 - 1)) xs
    → All (λ a. Free m a → get_size m a < size) xs
All-too_small m size [] b n = tt
All-too_small m size (x ∷ xs) b n = (
  λ f. elim (dec_lt (get_size m x) size) [
    | yes y ↦ y
    | no q ↦ absurd (omega (arith, n.0 f (omega (arith, q)), b.0))
  ],
  All-too_small m size xs b.1 n.1,
)

-- On an explicit free list, the search ends after at most two rounds more than there are blocks.
pub bf_get_free_block_explicit-Answer :
    (env : Env) (fuel : ℕ) (m : Mem) (size : ℕ) (xs : List ℕ)
    → IsFreeList env m xs
    → All (λ a. a ≢ 0) (xs ++ env.last ∷ [])
    → All (λ a. m a < 2 ^ 64 - 1) xs
    → get_size m env.last ≡ 0
    → length xs + 1 < fuel
    → 0 < size
    → size < 2 ^ 64 - 1
    → (r : ℕ) × (bf_get_free_block_explicit fuel env.first size m ≡ some r) × Answer m size xs r
unfolding bf_get_free_block_explicit
bf_get_free_block_explicit-Answer env fuel m size xs f nonnull words empty enough some_bytes small =
    let ys = xs ++ env.last ∷ [] in
    let (r, runs, out) =
      explicit_loop-Outcome fuel m size (m (next_ptr env.first)) ys 0 (2 ^ 64 - 1)
        (links-Along m env.first xs env.last f.links f.end nonnull)
        (omega (arith, enough, length-append xs (env.last ∷ []))) small in
    (r, runs, answer r out)
  where
    answer : (r : ℕ) → Outcome m size (xs ++ env.last ∷ []) 0 (2 ^ 64 - 1) r → Answer m size xs r
    answer r (kept e n) = inr (e, All-too_small m size xs words (All-front _ xs env.last n))
    answer r (found fit) = inl (
      elim (Among-front r xs env.last fit.among) [
        | inl a ↦ a
        | inr e ↦ absurd (omega (arith, fit.enough, some_bytes, ap (get_size m) e ∙ empty))
      ],
      fit.is_free,
      fit.enough,
      All-front _ xs env.last fit.least,
    )

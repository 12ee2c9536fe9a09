-- ===== src/McDonalds/System/Burgers.antt =====
-- PA5/src/mcdonalds.c: where the burgers of a request are.
use sysprog.Base.{ℕ, ◌≡◌, refl, ap, arith, inl, inr, Bool-cases, ◌==◌, ==→eq, if◌then◌else◌, length}
use sysprog.McDonalds.Orders.{Order}
use sysprog.McDonalds.Threads.{Ctx, Shared, set, Kitchen, cooks, counts, crashed, Client, issues}

-- One for an order of the request `r`.
abbrev pub of_request : ℕ → Order → ℕ
of_request r o = if r == o.request then 1 else 0

-- The burgers of `r` that a kitchen thread has taken from the list and not counted yet.
abbrev pub held : ℕ → Kitchen → ℕ
held r (cooks o) = of_request r o
held r (counts o) = of_request r o
held r _ = 0

-- The burgers of `r` that its client still has to put on the list.
abbrev pub unissued : ℕ → Client → ℕ
unissued r (issues id q ts) = if r == q then length ts else 0
unissued r _ = 0

-- A thread that has not read through a null pointer.
abbrev pub Runs : Kitchen → Type 0
Runs crashed = ⊥
Runs _ = Unit {0}

abbrev pub remain : Ctx → ℕ → ℕ
remain c r = (c.request r).remain_count

-- A write to a request that keeps its count.
pub set-remain :
    (f : ℕ → Shared) (r : ℕ) (s : Shared) (i : ℕ)
    → s.remain_count ≡ (f r).remain_count
    → (set f r s i).remain_count ≡ (f i).remain_count
set-remain f r s i e = elim (Bool-cases (i == r)) [
  | inl t ↦ rw t (omega (arith, e, ap (λ x. (f x).remain_count) (==→eq i r t)))
  | inr t ↦ rw t refl
]

-- ===== src/McDonalds/System/Cooking.antt =====
-- PA5/src/mcdonalds.c: what a step of `kitchen_task` does to the burgers of a request.
use sysprog.Base.{
  ℕ, ◌+◌, ◌-◌, ◌%◌, ◌^◌, ◌≤◌, ◌<◌, ◌≡◌, refl, ap, sym, subst, Bool, true, false, Option, none, some,
  List, [], ◌∷◌, arith, inl, inr, Bool-cases, ◌==◌, ==→eq, eq→==, if◌then◌else◌, Bytes,
}
use sysprog.McDonalds.{max_burgers}
use sysprog.McDonalds.Orders.{Order, Dequeued}
use sysprog.McDonalds.Orders.Fifo.{Holds, Takes, take_order-Takes}
use sysprog.McDonalds.Threads.{
  Ctx, Shared, set, Kitchen, checks, asks, tests, locks, cooks, counts, signals, tallies, ended,
  crashed, take_first, kitchen_step,
}
use sysprog.McDonalds.System.Burgers.{of_request, held, Runs, remain, set-remain}
use sysprog.McDonalds.Places.{total}

-- How a step of a kitchen thread, from `k` to `l`, changes the list, which held `q`, and the counts.
pub record Cooks (c : Ctx) (q : List Order) (k : Kitchen) (d : Ctx) (l : Kitchen) : Type 0 where
  pub queue : List Order
  pub holds : Holds d.list queue
  pub moves :
      (r : ℕ)
      → remain d r + total (of_request r) q + held r k
        ≡ remain c r + total (of_request r) queue + held r l
  pub runs : Runs l
  pub fresh : d.fresh ≡ c.fresh
  pub shrinks : (r : ℕ) → remain d r ≤ remain c r

-- A step that leaves the list and the counts alone.
rests :
    (c : Ctx) (q : List Order) (k : Kitchen) (d : Ctx) (l : Kitchen)
    → Holds d.list q
    → ((r : ℕ) → remain d r ≡ remain c r)
    → ((r : ℕ) → held r k ≡ held r l)
    → Runs l
    → d.fresh ≡ c.fresh
    → Cooks c q k d l
rests c q k d l h same still runs fresh = record {
  queue = q;
  holds = h;
  moves = λ r. omega (arith, same r, still r);
  runs = runs;
  fresh = fresh;
  shrinks = λ r. omega (arith, same r);
}

-- A thread that holds no burger.
abbrev Free : Kitchen → Type 0
Free k = ((r : ℕ) → held r k ≡ 0) × Runs k

Free-if : (b : Bool) (k l : Kitchen) → Free k → Free l → Free (if b then k else l)
Free-if true k l h i = h
Free-if false k l h i = i

Free-head : (h : Option ℕ) → Free (elim h [ none ↦ checks | some a ↦ locks ])
Free-head none = (λ r. refl, tt)
Free-head (some a) = (λ r. refl, tt)

stays :
    (c : Ctx) (q : List Order) (k l : Kitchen) → Holds c.list q → Free k → Free l → Cooks c q k c l
stays c q k l h f g = rests c q k c l h (λ r. refl) (λ r. omega (arith, f.0 r, g.0 r)) g.1 refl

take_first-Cooks :
    (c : Ctx) (q : List Order) (d : Dequeued)
    → Takes d q
    → Cooks c q locks (take_first c (some d)).ctx (take_first c (some d)).kitchen
unfolding take_first Takes total
take_first-Cooks c [] d (target, h) =
    rw target (rests c [] locks _ checks h (λ r. refl) (λ r. refl) tt refl)
take_first-Cooks c (o ∷ q) d (a, target, at, h) = rw target (
    rw at record {
      queue = q;
      holds = h;
      moves = λ r. omega arith;
      runs = tt;
      fresh = refl;
      shrinks = λ r. omega arith;
    })

-- A burger that is counted was one of those that remain.
counted :
    (f : ℕ → Shared) (o : Order) (s : Shared) (r : ℕ)
    → 0 < (f o.request).remain_count
    → s.remain_count + 1 ≡ (f o.request).remain_count
    → (set f o.request s r).remain_count + of_request r o ≡ (f r).remain_count
counted f o s r pos e = elim (Bool-cases (r == o.request)) [
  | inl t ↦ rw t (omega (arith, e, ap (λ x. (f x).remain_count) (==→eq r o.request t)))
  | inr t ↦ rw t (omega arith)
]

counts-Cooks :
    (c : Ctx) (q : List Order) (o : Order)
    → Holds c.list q
    → ((r : ℕ) → of_request r o ≤ remain c r)
    → ((r : ℕ) → remain c r ≤ max_burgers)
    → Cooks c q (counts o) (kitchen_step [] c (counts o)).ctx (kitchen_step [] c (counts o)).kitchen
unfolding kitchen_step
counts-Cooks c q o h le few =
    let some_left : 0 < remain c o.request =
      rw (eq→== o.request o.request refl) at (le o.request) in
    let less : (remain c o.request + (2 ^ 32 - 1)) % 2 ^ 32 + 1 ≡ remain c o.request =
      omega (arith, some_left, few o.request) in
    let s : Shared = record (c.request o.request) {
      remain_count = (remain c o.request + (2 ^ 32 - 1)) % 2 ^ 32;
    } in
    let count = λ (r : ℕ). counted c.request o s r some_left less in
    record {
      queue = q;
      holds = h;
      moves = λ r. omega (arith, count r);
      runs = tt;
      fresh = refl;
      shrinks = λ r. omega (arith, count r);
    }

pub kitchen_step-Cooks :
    (stray : Bytes) (c : Ctx) (q : List Order) (k : Kitchen)
    → Holds c.list q
    → ((r : ℕ) → held r k ≤ remain c r)
    → ((r : ℕ) → remain c r ≤ max_burgers)
    → Runs k
    → Cooks c q k (kitchen_step stray c k).ctx (kitchen_step stray c k).kitchen
unfolding kitchen_step
kitchen_step-Cooks stray c q checks h le few runs =
    stays c q checks _ h (λ r. refl, tt)
      (Free-if c.keep_running tests asks (λ r. refl, tt) (λ r. refl, tt))
kitchen_step-Cooks stray c q asks h le few runs =
    stays c q asks _ h (λ r. refl, tt)
      (Free-if (c.list.count == 0) ended tests (λ r. refl, tt) (λ r. refl, tt))
kitchen_step-Cooks stray c q tests h le few runs =
    stays c q tests _ h (λ r. refl, tt) (Free-head c.list.head)
kitchen_step-Cooks stray c q locks h le few runs =
    let (d, takes, t, count) = take_order-Takes c.list q h in
    subst (λ t. Cooks c q locks (take_first c t).ctx (take_first c t).kitchen) (sym takes)
      (take_first-Cooks c q d t)
kitchen_step-Cooks stray c q (cooks o) h le few runs =
    rests c q (cooks o) _ (counts o) h (λ r. set-remain c.request o.request _ r refl) (λ r. refl) tt
      refl
kitchen_step-Cooks stray c q (counts o) h le few runs = counts-Cooks c q o h le few
kitchen_step-Cooks stray c q (signals o n) h le few runs = elim (Bool-cases (n == 0)) [
  | inl t ↦ rw t (
      rests c q (signals o n) _ (tallies o) h (λ r. set-remain c.request o.request _ r refl)
        (λ r. refl) tt refl)
  | inr t ↦ rw t (rests c q (signals o n) _ (tallies o) h (λ r. refl) (λ r. refl) tt refl)
]
kitchen_step-Cooks stray c q (tallies o) h le few runs =
    rests c q (tallies o) _ checks h (λ r. refl) (λ r. refl) tt refl
kitchen_step-Cooks stray c q ended h le few runs =
    rests c q ended c ended h (λ r. refl) (λ r. refl) tt refl
kitchen_step-Cooks stray c q crashed h le few runs = absurd runs

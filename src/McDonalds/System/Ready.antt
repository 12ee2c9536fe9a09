-- ===== src/McDonalds/System/Ready.antt =====
-- PA5/src/mcdonalds.c: a client is woken only when its order is complete.
use sysprog.Base.{ℕ, ◌≤◌, ◌<◌, ◌≡◌, sym, subst, arith, inl, inr, Bool-cases, ◌==◌, ==→eq}
use sysprog.McDonalds.Threads.{
  Wait, signalled, Shared, set, Ctx, Kitchen, Client, checks, asks, tests, locks, cooks, counts,
  signals, tallies, ended, crashed, arrives, leaves, gone, undefined, welcomes, listens, issues,
  waits, wakes,
}
use sysprog.McDonalds.System.Burgers.{remain}

abbrev pub wait : Ctx → ℕ → Wait
wait c r = (c.request r).wait

-- A request that was issued, and of which no burger remains.
abbrev pub Ready : Ctx → ℕ → Type 0
Ready c r = (r < c.fresh) × (remain c r ≡ 0)

-- A thread of the kitchen that will signal does so for a request that is ready.
abbrev pub WillSignal : Ctx → Kitchen → Type 0
WillSignal c (signals o n) = n ≡ 0 → Ready c o.request
WillSignal c _ = Unit {0}

-- The request of a client that was woken is ready.
abbrev pub Woken : Ctx → Client → Type 0
Woken c (wakes r) = Ready c r
Woken c _ = Unit {0}

abbrev pub Signalled : Ctx → Type 0
Signalled c = (r : ℕ) → wait c r ≡ signalled → Ready c r

-- From `c` to `d`, requests stay allocated and burgers only become fewer.
abbrev pub Shrinks : Ctx → Ctx → Type 0
Shrinks c d = (c.fresh ≤ d.fresh) × ((r : ℕ) → r < c.fresh → remain d r ≤ remain c r)

pub Ready-mono : (c d : Ctx) (r : ℕ) → Shrinks c d → Ready c r → Ready d r
Ready-mono c d r (le, less) (lt, zero_left) =
    (omega (arith, le, lt), omega (arith, less r lt, zero_left))

pub WillSignal-mono : (c d : Ctx) → Shrinks c d → (k : Kitchen) → WillSignal c k → WillSignal d k
WillSignal-mono c d m checks h = tt
WillSignal-mono c d m asks h = tt
WillSignal-mono c d m tests h = tt
WillSignal-mono c d m locks h = tt
WillSignal-mono c d m (cooks o) h = tt
WillSignal-mono c d m (counts o) h = tt
WillSignal-mono c d m (tallies o) h = tt
WillSignal-mono c d m (signals o n) h = λ e. Ready-mono c d o.request m (h e)
WillSignal-mono c d m ended h = tt
WillSignal-mono c d m crashed h = tt

pub Woken-mono : (c d : Ctx) → Shrinks c d → (k : Client) → Woken c k → Woken d k
Woken-mono c d m arrives h = tt
Woken-mono c d m leaves h = tt
Woken-mono c d m gone h = tt
Woken-mono c d m undefined h = tt
Woken-mono c d m (welcomes id) h = tt
Woken-mono c d m (listens id) h = tt
Woken-mono c d m (issues id r ts) h = tt
Woken-mono c d m (waits r) h = tt
Woken-mono c d m (wakes r) h = Ready-mono c d r m h

-- A step that signals nothing.
pub Signalled-mono :
    (c d : Ctx)
    → Shrinks c d
    → ((r : ℕ) → wait d r ≡ signalled → wait c r ≡ signalled)
    → Signalled c
    → Signalled d
Signalled-mono c d m back h r e = Ready-mono c d r m (h r (back r e))

pub set-wait :
    (f : ℕ → Shared) (r : ℕ) (s : Shared) (i : ℕ)
    → (s.wait ≡ signalled → (f r).wait ≡ signalled)
    → (set f r s i).wait ≡ signalled
    → (f i).wait ≡ signalled
set-wait f r s i back e = elim (Bool-cases (i == r)) [
  | inl t ↦ subst (λ x. (f x).wait ≡ signalled) (sym (==→eq i r t)) (back (rw (t) at e))
  | inr t ↦ rw t at e
]

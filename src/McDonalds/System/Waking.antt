-- ===== src/McDonalds/System/Waking.antt =====
-- PA5/src/mcdonalds.c: every step keeps that only ready requests are signalled.
use sysprog.Base.{
  ℕ, ◌+◌, ◌-◌, ◌%◌, ◌^◌, ◌<◌, ◌≡◌, refl, ap, Bool, true, false, ◌||◌, Option, none, some, List, [],
  ◌∷◌, arith, Bytes, inl, inr, Bool-cases, ◌==◌, ==→eq, eq→==, if◌then◌else◌,
}
use sysprog.McDonalds.{BurgerType}
use sysprog.McDonalds.Request.{Request, orders, unknown, overrun, parse_request}
use sysprog.McDonalds.Orders.{Order, Dequeued, take_order}
use sysprog.McDonalds.Threads.{
  Wait, nobody, waiting, signalled, signal, is_signalled, Shared, set, Ctx, Kitchen, kitchen_step,
  take_first, Client, Answer, client_step, serve_request, new_request, checks, asks, tests, locks,
  cooks, counts, signals, tallies, ended, crashed, arrives, leaves, gone, undefined, welcomes,
  listens, issues, waits, wakes, no_memory, fails, sends, spurious, is_spurious, receives,
}
use sysprog.McDonalds.System.Burgers.{held, remain, set-remain}
use sysprog.McDonalds.System.Steps.{BySignal}
use sysprog.McDonalds.System.Ready.{
  wait, Ready, WillSignal, Woken, Signalled, Shrinks, Signalled-mono, set-wait,
}

is_signalled-eq : (w : Wait) → is_signalled w ≡ true → w ≡ signalled
is_signalled-eq nobody e = absurd cc
is_signalled-eq waiting e = absurd cc
is_signalled-eq signalled e = refl

-- What a step of a kitchen thread keeps.
pub record Signals (d : Ctx) (l : Kitchen) : Type 0 where
  pub signalled_ready : Signalled d
  pub will_signal : WillSignal d l

quiet :
    (c d : Ctx) (l : Kitchen)
    → Shrinks c d
    → ((r : ℕ) → wait d r ≡ signalled → wait c r ≡ signalled)
    → WillSignal d l
    → Signalled c
    → Signals d l
quiet c d l m back will h = record {
  signalled_ready = Signalled-mono c d m back h;
  will_signal = will;
}

WillSignal-if :
    (b : Bool) (c : Ctx) (k l : Kitchen)
    → WillSignal c k
    → WillSignal c l
    → WillSignal c (if b then k else l)
WillSignal-if true c k l h i = h
WillSignal-if false c k l h i = i

taken :
    (t : Option ℕ) (c : Ctx) (o : ℕ → Order)
    → WillSignal c (elim t [ none ↦ checks | some a ↦ cooks (o a) ])
taken none c o = tt
taken (some a) c o = tt

looked : (t : Option ℕ) (c : Ctx) → WillSignal c (elim t [ none ↦ checks | some a ↦ locks ])
looked none c = tt
looked (some a) c = tt

take_first-Signals :
    (c : Ctx) (t : Option Dequeued)
    → Signalled c
    → Signals (take_first c t).ctx (take_first c t).kitchen
unfolding take_first
take_first-Signals c none h = record { signalled_ready = h; will_signal = tt }
take_first-Signals c (some d) h = record {
  signalled_ready = h;
  will_signal = taken d.target c (λ a. (d.list.node a).order);
}

fired :
    (c : Ctx) (r : ℕ)
    → Ready c r
    → Signalled c
    → Signalled (record c {
      request = set c.request r record (c.request r) { wait = signal (c.request r).wait };
    })
fired c r ready h i e =
    let s : Shared = record (c.request r) { wait = signal (c.request r).wait } in
    let same = set-remain c.request r s i refl in
    elim (Bool-cases (i == r)) [
      | inl t ↦
          let eq = ==→eq i r t in
          (
            omega (arith, eq, ready.0),
            omega (arith, same, ap (λ x. (c.request x).remain_count) eq, ready.1),
          )
      | inr t ↦
          let (lt, none_left) = h i (rw (t, wait) at e) in (lt, omega (arith, same, none_left))
    ]

pub kitchen_step-Signals :
    (stray : Bytes) (c : Ctx) (k : Kitchen)
    → Shrinks c (kitchen_step stray c k).ctx
    → ((r : ℕ) → held r k ≡ 1 → r < c.fresh)
    → Signalled c
    → WillSignal c k
    → Signals (kitchen_step stray c k).ctx (kitchen_step stray c k).kitchen
unfolding kitchen_step
kitchen_step-Signals stray c checks m born h w = record {
  signalled_ready = h;
  will_signal = WillSignal-if c.keep_running c tests asks tt tt;
}
kitchen_step-Signals stray c asks m born h w = record {
  signalled_ready = h;
  will_signal = WillSignal-if (c.list.count == 0) c ended tests tt tt;
}
kitchen_step-Signals stray c tests m born h w = record {
  signalled_ready = h;
  will_signal = looked c.list.head c;
}
kitchen_step-Signals stray c locks m born h w = take_first-Signals c (take_order c.list) h
kitchen_step-Signals stray c (cooks o) m born h w =
    quiet c (kitchen_step stray c (cooks o)).ctx (counts o) m
      (λ r. set-wait c.request o.request _ r (λ e. e)) tt h
kitchen_step-Signals stray c (counts o) m born h w =
    let n : ℕ = (remain c o.request + (2 ^ 32 - 1)) % 2 ^ 32 in
    let here = eq→== o.request o.request refl in
    quiet c (kitchen_step stray c (counts o)).ctx (signals o n) m
      (λ r.
        set-wait c.request o.request (record (c.request o.request) { remain_count = n }) r (λ e. e))
      (λ e. (born o.request (rw here refl), rw (here, remain) e)) h
kitchen_step-Signals stray c (signals o n) m born h w = elim (Bool-cases (n == 0)) [
  | inl t ↦
      rw t record { signalled_ready = fired c o.request (w (==→eq n 0 t)) h; will_signal = tt }
  | inr t ↦ rw t record { signalled_ready = h; will_signal = tt }
]
kitchen_step-Signals stray c (tallies o) m born h w = record {
  signalled_ready = h;
  will_signal = tt;
}
kitchen_step-Signals stray c ended m born h w = record { signalled_ready = h; will_signal = tt }
kitchen_step-Signals stray c crashed m born h w = record { signalled_ready = h; will_signal = tt }

by_signal : (a : Answer) (b : Bool) → BySignal a → (is_spurious a || b) ≡ true → b ≡ true
by_signal no_memory b q e = e
by_signal fails b q e = e
by_signal sends b q e = e
by_signal spurious b q e = absurd q
by_signal (receives line) b q e = e

-- What a step of a client keeps.
pub record Wakes (d : Ctx) (l : Client) : Type 0 where
  pub signalled_ready : Signalled d
  pub woken : Woken d l

-- A new request is not signalled.
begun :
    (c : Ctx) (id : ℕ) (t : BurgerType) (ts : List BurgerType)
    → Shrinks c (new_request c (t ∷ ts))
    → Signalled c
    → Wakes (new_request c (t ∷ ts)) (issues id c.fresh (t ∷ ts))
begun c id t ts m h = record {
  signalled_ready =
      Signalled-mono c (new_request c (t ∷ ts)) m
        (λ r. set-wait c.request c.fresh _ r (λ e. absurd cc)) h;
  woken = tt;
}

serve_request-Wakes :
    (c : Ctx) (id : ℕ) (a : Request)
    → Shrinks c (serve_request c id a).ctx
    → Signalled c
    → Wakes (serve_request c id a).ctx (serve_request c id a).client
unfolding serve_request
serve_request-Wakes c id (unknown w) m h = record { signalled_ready = h; woken = tt }
serve_request-Wakes c id overrun m h = record { signalled_ready = h; woken = tt }
serve_request-Wakes c id (orders []) m h = record { signalled_ready = h; woken = tt }
serve_request-Wakes c id (orders (t ∷ ts)) m h = begun c id t ts m h

Woken-if :
    (b : Bool) (c : Ctx) (r : ℕ) → (b ≡ true → Ready c r) → Woken c (if b then wakes r else waits r)
Woken-if true c r h = h refl
Woken-if false c r h = tt

pub client_step-Wakes :
    (a : Answer) (c : Ctx) (k : Client)
    → Shrinks c (client_step a c k).ctx
    → BySignal a
    → Signalled c
    → Wakes (client_step a c k).ctx (client_step a c k).client
unfolding client_step
client_step-Wakes a c arrives m q h = record { signalled_ready = h; woken = tt }
client_step-Wakes no_memory c (welcomes id) m q h = record { signalled_ready = h; woken = tt }
client_step-Wakes fails c (welcomes id) m q h = record { signalled_ready = h; woken = tt }
client_step-Wakes sends c (welcomes id) m q h = record { signalled_ready = h; woken = tt }
client_step-Wakes spurious c (welcomes id) m q h = absurd q
client_step-Wakes (receives l) c (welcomes id) m q h = record { signalled_ready = h; woken = tt }
client_step-Wakes no_memory c (listens id) m q h = record { signalled_ready = h; woken = tt }
client_step-Wakes fails c (listens id) m q h = record { signalled_ready = h; woken = tt }
client_step-Wakes sends c (listens id) m q h = record { signalled_ready = h; woken = tt }
client_step-Wakes spurious c (listens id) m q h = absurd q
client_step-Wakes (receives l) c (listens id) m q h = serve_request-Wakes c id (parse_request l) m h
client_step-Wakes a c (issues id r (t ∷ ts)) m q h = record { signalled_ready = h; woken = tt }
client_step-Wakes a c (issues id r []) m q h = record {
  signalled_ready =
      Signalled-mono c (client_step a c (issues id r [])).ctx m
        (λ i. set-wait c.request r _ i (λ e. absurd cc)) h;
  woken = tt;
}
client_step-Wakes a c (waits r) m q h = record {
  signalled_ready = h;
  woken =
      Woken-if (is_spurious a || is_signalled (wait c r)) c r
        (λ e. h r (is_signalled-eq (wait c r) (by_signal a (is_signalled (wait c r)) q e)));
}
client_step-Wakes a c (wakes r) m q h = record { signalled_ready = h; woken = tt }
client_step-Wakes a c leaves m q h = record { signalled_ready = h; woken = tt }
client_step-Wakes a c gone m q h = record { signalled_ready = h; woken = tt }
client_step-Wakes a c undefined m q h = record { signalled_ready = h; woken = tt }

-- ===== src/McDonalds/System/Queueing.antt =====
-- PA5/src/mcdonalds.c: `total_queueing` and the clients that are served.
use sysprog.Base.{
  ℕ, ◌+◌, ◌%◌, ◌^◌, ◌≤◌, ◌≡◌, refl, Bool, true, false, Option, none, some, List, [], ◌∷◌, arith,
  ltb, Bytes,
}
use sysprog.McDonalds.{customer_max}
use sysprog.McDonalds.Request.{Request, orders, unknown, overrun}
use sysprog.McDonalds.Threads.{
  Ctx, Kitchen, kitchen_step, Client, arrives, leaves, gone, undefined, welcomes, listens, issues,
  waits, wakes, Answer, no_memory, fails, sends, spurious, receives, serve_request, client_step,
  Acceptor, accepts, tests_running, closed, server_step, take_first, admit, checks, asks, tests,
  locks, cooks, counts, signals, tallies, ended, crashed,
}
use sysprog.McDonalds.Places.{get_elem?, total, total-set_elem, total-add, get_elem?-total}
use sysprog.McDonalds.System.{
  System, Event, at_server, interrupt, step, run, kitchen_at, client_at, init, add_thread,
}
use sysprog.McDonalds.System.Steps.{Kept, any_answers, run-kept}
use sysprog.McDonalds.Orders.{take_order, Dequeued}

-- A client that has been accepted, until its thread is done with it.
abbrev pub served : Client → ℕ
served gone = 0
served _ = 1

-- At most as many clients are served as are counted, and at most `CUSTOMER_MAX` are counted.
pub record Bounded (s : System) : Type 0 where
  pub counted : total served s.clients ≤ s.ctx.total_queueing
  pub few : s.ctx.total_queueing ≤ customer_max

-- What one step of a client changes.
abbrev Leaves : Ctx → Client → Ctx → Client → Type 0
Leaves c k d l =
    (c.total_queueing + served l ≤ d.total_queueing + served k)
    × (d.total_queueing ≤ c.total_queueing)

serve_request-Leaves :
    (c : Ctx) (id : ℕ) (r : Request)
    → Leaves c (listens id) (serve_request c id r).ctx (serve_request c id r).client
unfolding serve_request
serve_request-Leaves c id (unknown w) = (omega arith, omega arith)
serve_request-Leaves c id overrun = (omega arith, omega arith)
serve_request-Leaves c id (orders []) = (omega arith, omega arith)
serve_request-Leaves c id (orders (t ∷ ts)) = (omega arith, omega arith)

client_step-Leaves :
    (a : Answer) (c : Ctx) (k : Client)
    → served k ≤ c.total_queueing
    → c.total_queueing ≤ customer_max
    → Leaves c k (client_step a c k).ctx (client_step a c k).client
unfolding client_step
client_step-Leaves a c arrives h f = (omega arith, omega arith)
client_step-Leaves no_memory c (welcomes id) h f = (omega arith, omega arith)
client_step-Leaves fails c (welcomes id) h f = (omega arith, omega arith)
client_step-Leaves sends c (welcomes id) h f = (omega arith, omega arith)
client_step-Leaves spurious c (welcomes id) h f = (omega arith, omega arith)
client_step-Leaves (receives line) c (welcomes id) h f = (omega arith, omega arith)
client_step-Leaves no_memory c (listens id) h f = (omega arith, omega arith)
client_step-Leaves fails c (listens id) h f = (omega arith, omega arith)
client_step-Leaves sends c (listens id) h f = (omega arith, omega arith)
client_step-Leaves spurious c (listens id) h f = (omega arith, omega arith)
client_step-Leaves (receives line) c (listens id) h f = serve_request-Leaves c id _
client_step-Leaves a c (issues id r (t ∷ ts)) h f = (omega arith, omega arith)
client_step-Leaves a c (issues id r []) h f = (omega arith, omega arith)
client_step-Leaves a c (waits r) h f = (ground arith, ground arith)
client_step-Leaves a c (wakes r) h f = (omega arith, omega arith)
client_step-Leaves a c leaves h f = (omega arith, omega arith)
client_step-Leaves a c gone h f = (omega arith, omega arith)
client_step-Leaves a c undefined h f = (omega arith, omega arith)

take_first-queueing :
    (c : Ctx) (d : Option Dequeued) → (take_first c d).ctx.total_queueing ≡ c.total_queueing
unfolding take_first
take_first-queueing c none = refl
take_first-queueing c (some d) = refl

kitchen_step-queueing :
    (stray : Bytes) (c : Ctx) (k : Kitchen)
    → (kitchen_step stray c k).ctx.total_queueing ≡ c.total_queueing
unfolding kitchen_step
kitchen_step-queueing stray c checks = refl
kitchen_step-queueing stray c asks = refl
kitchen_step-queueing stray c tests = refl
kitchen_step-queueing stray c locks = take_first-queueing c (take_order c.list)
kitchen_step-queueing stray c (cooks o) = refl
kitchen_step-queueing stray c (counts o) = refl
kitchen_step-queueing stray c (signals o n) = ground arith
kitchen_step-queueing stray c (tallies o) = refl
kitchen_step-queueing stray c ended = refl
kitchen_step-queueing stray c crashed = refl

kitchen_at-Bounded :
    (i : ℕ) (stray : Bytes) (s : System) (k : Kitchen)
    → Bounded s
    → Bounded (kitchen_at i stray s (some k))
unfolding kitchen_at
kitchen_at-Bounded i stray s k b =
    let same = kitchen_step-queueing stray s.ctx k in
    record { counted = omega (arith, same, b.counted); few = omega (arith, same, b.few) }

client_at-Bounded :
    (i : ℕ) (a : Answer) (s : System) (k : Client)
    → get_elem? s.clients i ≡ some k
    → Bounded s
    → Bounded (client_at i a s (some k))
unfolding client_at
client_at-Bounded i a s k e b =
    let here = get_elem?-total served s.clients i k e in
    let m = client_step a s.ctx k in
    let (le, less) = client_step-Leaves a s.ctx k (omega (arith, here, b.counted)) b.few in
    let sum = total-set_elem served s.clients i k m.client e in
    record { counted = omega (arith, le, sum, here, b.counted); few = omega (arith, less, b.few) }

admit-Bounded :
    (c : Ctx) (full : Bool) (ts : List Client)
    → total served ts + 1 ≤ c.total_queueing
    → ltb customer_max c.total_queueing ≡ full
    → c.total_queueing ≤ customer_max + 1
    → (total served (add_thread ts (admit c full).thread) ≤ (admit c full).ctx.total_queueing)
      × ((admit c full).ctx.total_queueing ≤ customer_max)
unfolding admit
admit-Bounded c true ts h e f = (omega (arith, h, f), omega (arith, h, f))
admit-Bounded c false ts h e f = (omega (arith, total-add served ts arrives, h, f), ground arith)

-- What the loop of `start_server` makes of the clients it has.
accepts-Bounded :
    (arrived : Bool) (c : Ctx) (p : Acceptor) (ts : List Client)
    → total served ts ≤ c.total_queueing
    → c.total_queueing ≤ customer_max
    → (total served (add_thread ts (server_step arrived c p).thread)
        ≤ (server_step arrived c p).ctx.total_queueing)
      × ((server_step arrived c p).ctx.total_queueing ≤ customer_max)
unfolding server_step
accepts-Bounded true c accepts ts h f =
    admit-Bounded (record c { total_queueing = (c.total_queueing + 1) % 2 ^ 32 }) _ ts
      (omega (arith, h, f)) refl (omega (arith, f))
accepts-Bounded false c accepts ts h f = (h, f)
accepts-Bounded arrived c tests_running ts h f = (h, f)
accepts-Bounded arrived c closed ts h f = (h, f)

server-Bounded : (arrived : Bool) (s : System) → Bounded s → Bounded (step (at_server arrived) s)
unfolding step
server-Bounded arrived s b =
    let (counted, few) = accepts-Bounded arrived s.ctx s.acceptor s.clients b.counted b.few in
    record { counted = counted; few = few }

interrupt-Bounded : (s : System) → Bounded s → Bounded (step interrupt s)
unfolding step
interrupt-Bounded s b = record { counted = b.counted; few = b.few }

step-Bounded : Kept (λ a. Unit {0}) Bounded
step-Bounded = record {
  by_kitchen = λ i stray s k e b. kitchen_at-Bounded i stray s k b;
  by_client = λ i a s k e u b. client_at-Bounded i a s k e b;
  by_server = server-Bounded;
  by_interrupt = interrupt-Bounded;
}

init-Bounded : Bounded init
unfolding total
init-Bounded = record { counted = omega arith; few = omega arith }

-- Whatever the threads do, in any order, and whatever their library calls answer: the number of
-- clients that are served is at most `total_queueing`, which is at most `CUSTOMER_MAX`.
pub run-Bounded : (es : List Event) → Bounded (run es init)
run-Bounded es = run-kept (λ a. Unit {0}) Bounded step-Bounded es init (any_answers es) init-Bounded

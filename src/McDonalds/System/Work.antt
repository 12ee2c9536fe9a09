-- ===== src/McDonalds/System/Work.antt =====
-- PA5/src/mcdonalds.c: `remain_count` against the burgers that are still to be made.
use sysprog.Base.{
  ℕ, ◌+◌, ◌%◌, ◌^◌, ◌≤◌, ◌≡◌, refl, ap, sym, ◌⊎◌, inl, inr, ◌++◌, subst, ltb, Bool, true, false,
  some, List, [], ◌∷◌, arith, Bytes, All,
}
use sysprog.McDonalds.{max_burgers, customer_max}
use sysprog.McDonalds.Orders.{Order}
use sysprog.McDonalds.Orders.Fifo.{Holds}
use sysprog.McDonalds.Threads.{
  Ctx, Kitchen, kitchen_step, Client, Answer, client_step, Acceptor, accepts, tests_running, closed,
  server_step, admit, checks, arrives,
}
use sysprog.McDonalds.System.{
  System, Event, at_server, interrupt, step, run, init, kitchen_at, client_at, add_thread,
  num_kitchen,
}
use sysprog.McDonalds.System.Burgers.{of_request, held, unissued, remain, Runs}
use sysprog.McDonalds.System.Cooking.{Cooks, kitchen_step-Cooks}
use sysprog.McDonalds.System.Issuing.{client_step-Issues}
use sysprog.McDonalds.System.Steps.{Answered, BySignal, run-kept}
use sysprog.McDonalds.Places.{
  get_elem?, total, total-set_elem, total-add, total-replicate, get_elem?-total, All-get_elem?,
  All-set_elem, All-replicate,
}

-- The list of orders is whole, no kitchen thread has read through a null pointer, and of every
-- request as many burgers remain as are on the list, in the hands of the kitchen, or not issued.
pub record Work (s : System) : Type 0 where
  pub queue : List Order
  pub holds : Holds s.ctx.list queue
  pub balance :
      (r : ℕ)
      → remain s.ctx r
        ≡ total (of_request r) queue + total (held r) s.kitchens + total (unissued r) s.clients
  pub few : (r : ℕ) → remain s.ctx r ≤ max_burgers
  pub unborn : (r : ℕ) → s.ctx.fresh ≤ r → remain s.ctx r ≡ 0
  pub runs : All Runs s.kitchens

pub held-le :
    (s : System) (w : Work s) (i : ℕ) (k : Kitchen)
    → get_elem? s.kitchens i ≡ some k
    → (r : ℕ) → held r k ≤ remain s.ctx r
held-le s w i k e r = omega (arith, w.balance r, get_elem?-total (held r) s.kitchens i k e)

pub Work-Cooks :
    (i : ℕ) (stray : Bytes) (s : System) (k : Kitchen) (w : Work s)
    → get_elem? s.kitchens i ≡ some k
    → Cooks s.ctx w.queue k (kitchen_step stray s.ctx k).ctx (kitchen_step stray s.ctx k).kitchen
Work-Cooks i stray s k w e =
    kitchen_step-Cooks stray s.ctx w.queue k w.holds (held-le s w i k e) w.few
      (All-get_elem? Runs s.kitchens i k w.runs e)

pub kitchen_at-Work :
    (i : ℕ) (stray : Bytes) (s : System) (k : Kitchen)
    → get_elem? s.kitchens i ≡ some k
    → Work s
    → Work (kitchen_at i stray s (some k))
unfolding kitchen_at
kitchen_at-Work i stray s k e w =
    let m = Work-Cooks i stray s k w e in
    let l = (kitchen_step stray s.ctx k).kitchen in
    record {
      queue = m.queue;
      holds = m.holds;
      balance = λ r.
          let sum = total-set_elem (held r) s.kitchens i k l e in
          omega (arith, m.moves r, w.balance r, sum);
      few = λ r. omega (arith, m.shrinks r, w.few r);
      unborn = λ r le. omega (arith, m.shrinks r, w.unborn r (omega (arith, m.fresh, le)));
      runs = All-set_elem Runs s.kitchens i l w.runs m.runs;
    }

pub client_at-Work :
    (i : ℕ) (a : Answer) (s : System) (k : Client)
    → get_elem? s.clients i ≡ some k
    → Work s
    → Work (client_at i a s (some k))
unfolding client_at
client_at-Work i a s k e w =
    let m = client_step-Issues a s.ctx w.queue k w.holds w.few w.unborn in
    let l = (client_step a s.ctx k).client in
    record {
      queue = m.queue;
      holds = m.holds;
      balance = λ r.
          let sum = total-set_elem (unissued r) s.clients i k l e in
          omega (arith, m.moves r, w.balance r, sum);
      few = m.few;
      unborn = m.unborn;
      runs = w.runs;
    }

-- What the loop of `start_server` leaves alone, and the thread that it may create.
pub record Keeps (c : Ctx) (ts : List Client) (d : Ctx) (us : List Client) : Type 0 where
  pub list : d.list ≡ c.list
  pub request : d.request ≡ c.request
  pub fresh : d.fresh ≡ c.fresh
  pub threads : (us ≡ ts) ⊎ (us ≡ ts ++ arrives ∷ [])

admit-Keeps :
    (c : Ctx) (full : Bool) (ts : List Client)
    → Keeps c ts (admit c full).ctx (add_thread ts (admit c full).thread)
unfolding admit
admit-Keeps c true ts = record { list = refl; request = refl; fresh = refl; threads = inl refl }
admit-Keeps c false ts = record { list = refl; request = refl; fresh = refl; threads = inr refl }

pub server_step-Keeps :
    (arrived : Bool) (c : Ctx) (p : Acceptor) (ts : List Client)
    → Keeps c ts (server_step arrived c p).ctx (add_thread ts (server_step arrived c p).thread)
unfolding server_step
server_step-Keeps true c accepts ts =
    let n = (c.total_queueing + 1) % 2 ^ 32 in
    let k = admit-Keeps (record c { total_queueing = n }) (ltb customer_max n) ts in
    record { list = k.list; request = k.request; fresh = k.fresh; threads = k.threads }
server_step-Keeps false c accepts ts = record {
  list = refl;
  request = refl;
  fresh = refl;
  threads = inl refl;
}
server_step-Keeps arrived c tests_running ts = record {
  list = refl;
  request = refl;
  fresh = refl;
  threads = inl refl;
}
server_step-Keeps arrived c closed ts = record {
  list = refl;
  request = refl;
  fresh = refl;
  threads = inl refl;
}

unissued-threads :
    (c : Ctx) (ts : List Client) (d : Ctx) (us : List Client) (r : ℕ)
    → Keeps c ts d us
    → total (unissued r) us ≡ total (unissued r) ts
unissued-threads c ts d us r k = elim k.threads [
  | inl e ↦ ap (total (unissued r)) e
  | inr e ↦ omega (arith, ap (total (unissued r)) e, total-add (unissued r) ts arrives)
]

pub server-Work : (arrived : Bool) (s : System) → Work s → Work (step (at_server arrived) s)
unfolding step
server-Work arrived s w =
    let k = server_step-Keeps arrived s.ctx s.acceptor s.clients in
    let same = λ (r : ℕ). ap (λ f. (f r).remain_count) k.request in
    let clients = λ (r : ℕ). unissued-threads s.ctx s.clients _ _ r k in
    record {
      queue = w.queue;
      holds = subst (λ l. Holds l w.queue) (sym k.list) w.holds;
      balance = λ r. omega (arith, same r, clients r, w.balance r);
      few = λ r. omega (arith, same r, w.few r);
      unborn = λ r le. omega (arith, same r, w.unborn r (omega (arith, k.fresh, le)));
      runs = w.runs;
    }

pub interrupt-Work : (s : System) → Work s → Work (step interrupt s)
unfolding step
interrupt-Work s w = record {
  queue = w.queue;
  holds = w.holds;
  balance = w.balance;
  few = w.few;
  unborn = w.unborn;
  runs = w.runs;
}

pub init-Work : Work init
unfolding Holds total
init-Work = record {
  queue = [];
  holds = (refl, refl);
  balance = λ r. omega (arith, total-replicate (held r) num_kitchen checks refl);
  few = λ r. omega arith;
  unborn = λ r le. refl;
  runs = All-replicate Runs num_kitchen checks tt;
}

-- Whatever the threads do, in any order, and whatever their library calls answer, as long as every
-- wait ends by a signal: the list of orders stays whole, no kitchen thread reads through a null
-- pointer, and of every request exactly the burgers that are on the list, in the hands of the
-- kitchen or not issued yet remain. A request of more burgers than `types` has room for, which the
-- code does not refuse, is not among these: there its client writes outside of the array, and is
-- in the state `undefined`.
pub run-Work : (es : List Event) → All (Answered BySignal) es → Work (run es init)
run-Work es q =
    run-kept BySignal Work
      record {
        by_kitchen = kitchen_at-Work;
        by_client = λ i a s k e u w. client_at-Work i a s k e w;
        by_server = server-Work;
        by_interrupt = interrupt-Work;
      }
      es init q init-Work

-- ===== src/McDonalds/System/Complete.antt =====
-- PA5/src/mcdonalds.c: what is left of the order of a client that was woken.
use sysprog.Base.{
  All-add, ℕ, ◌<◌, ◌≡◌, ap, sym, subst, ◌∙◌, inl, inr, Bool, false, some, List, arith, Bytes, All,
}
use sysprog.McDonalds.Orders.{Order}
use sysprog.McDonalds.Orders.Fifo.{Holds}
use sysprog.McDonalds.Threads.{
  Kitchen, kitchen_step, Client, Answer, client_step, server_step, checks, arrives, wakes,
}
use sysprog.McDonalds.System.{
  System, Event, at_server, interrupt, step, run, init, kitchen_at, client_at, num_kitchen,
  init_ctx,
}
use sysprog.McDonalds.System.Burgers.{of_request, held, unissued, remain}
use sysprog.McDonalds.System.Issuing.{client_step-Issues}
use sysprog.McDonalds.System.Work.{
  Work, held-le, Work-Cooks, kitchen_at-Work, client_at-Work, server-Work, server_step-Keeps,
  interrupt-Work, init-Work,
}
use sysprog.McDonalds.System.Ready.{
  WillSignal, Woken, Signalled, Shrinks, WillSignal-mono, Woken-mono, Signalled-mono,
}
use sysprog.McDonalds.System.Waking.{kitchen_step-Signals, client_step-Wakes}
use sysprog.McDonalds.System.Steps.{Answered, BySignal, run-kept}
use sysprog.McDonalds.Places.{get_elem?, total, All-get_elem?, All-set_elem, All-replicate, All-map}

-- Who may be woken, and was, besides the counts.
record Told (s : System) : Type 0 where
  work : Work s
  signalled_ready : Signalled s.ctx
  will_signal : All (WillSignal s.ctx) s.kitchens
  woken : All (Woken s.ctx) s.clients

kitchen_at-Told :
    (i : ℕ) (stray : Bytes) (s : System) (k : Kitchen)
    → get_elem? s.kitchens i ≡ some k
    → Told s
    → Told (kitchen_at i stray s (some k))
unfolding kitchen_at
kitchen_at-Told i stray s k e t =
    let w = t.work in
    let d = (kitchen_step stray s.ctx k).ctx in
    let m = Work-Cooks i stray s k w e in
    let shrinks : Shrinks s.ctx d = (omega (arith, m.fresh), λ r lt. m.shrinks r) in
    let born : (r : ℕ) → held r k ≡ 1 → r < s.ctx.fresh =
      λ r one. ground (arith, held-le s w i k e r, w.unborn r) in
    let new =
      kitchen_step-Signals stray s.ctx k shrinks born t.signalled_ready
        (All-get_elem? (WillSignal s.ctx) s.kitchens i k t.will_signal e) in
    record {
      work = kitchen_at-Work i stray s k e w;
      signalled_ready = new.signalled_ready;
      will_signal =
          All-set_elem (WillSignal d) s.kitchens i _
            (All-map (WillSignal s.ctx) (WillSignal d) (WillSignal-mono s.ctx d shrinks) s.kitchens
              t.will_signal)
            new.will_signal;
      woken = All-map (Woken s.ctx) (Woken d) (Woken-mono s.ctx d shrinks) s.clients t.woken;
    }

client_at-Told :
    (i : ℕ) (a : Answer) (s : System) (k : Client)
    → get_elem? s.clients i ≡ some k
    → BySignal a
    → Told s
    → Told (client_at i a s (some k))
unfolding client_at
client_at-Told i a s k e q t =
    let w = t.work in
    let d = (client_step a s.ctx k).ctx in
    let m = client_step-Issues a s.ctx w.queue k w.holds w.few w.unborn in
    let shrinks : Shrinks s.ctx d = (m.later, λ r lt. omega (arith, m.same r lt)) in
    let new = client_step-Wakes a s.ctx k shrinks q t.signalled_ready in
    record {
      work = client_at-Work i a s k e w;
      signalled_ready = new.signalled_ready;
      will_signal =
          All-map (WillSignal s.ctx) (WillSignal d) (WillSignal-mono s.ctx d shrinks) s.kitchens
            t.will_signal;
      woken =
          All-set_elem (Woken d) s.clients i _
            (All-map (Woken s.ctx) (Woken d) (Woken-mono s.ctx d shrinks) s.clients t.woken)
            new.woken;
    }

server-Told : (arrived : Bool) (s : System) → Told s → Told (step (at_server arrived) s)
unfolding step
server-Told arrived s t =
    let k = server_step-Keeps arrived s.ctx s.acceptor s.clients in
    let d = (server_step arrived s.ctx s.acceptor).ctx in
    let shrinks : Shrinks s.ctx d =
      (omega (arith, k.fresh), λ r lt. omega (arith, ap (λ f. (f r).remain_count) k.request)) in
    let old = All-map (Woken s.ctx) (Woken d) (Woken-mono s.ctx d shrinks) s.clients t.woken in
    record {
      work = server-Work arrived s t.work;
      signalled_ready =
          Signalled-mono s.ctx d shrinks (λ r e. sym (ap (λ f. (f r).wait) k.request) ∙ e)
            t.signalled_ready;
      will_signal =
          All-map (WillSignal s.ctx) (WillSignal d) (WillSignal-mono s.ctx d shrinks) s.kitchens
            t.will_signal;
      woken = elim k.threads [
        | inl e ↦ subst (All (Woken d)) (sym e) old
        | inr e ↦ subst (All (Woken d)) (sym e) (All-add (Woken d) s.clients arrives old tt)
      ];
    }

interrupt-Told : (s : System) → Told s → Told (step interrupt s)
unfolding step
interrupt-Told s t =
    let d = record (s.ctx) { keep_running = false } in
    let shrinks : Shrinks s.ctx d = (omega arith, λ r lt. omega arith) in
    record {
      work = interrupt-Work s t.work;
      signalled_ready = t.signalled_ready;
      will_signal =
          All-map (WillSignal s.ctx) (WillSignal d) (WillSignal-mono s.ctx d shrinks) s.kitchens
            t.will_signal;
      woken = All-map (Woken s.ctx) (Woken d) (Woken-mono s.ctx d shrinks) s.clients t.woken;
    }

init-Told : Told init
init-Told = record {
  work = init-Work;
  signalled_ready = λ r e. absurd cc;
  will_signal = All-replicate (WillSignal init_ctx) num_kitchen checks tt;
  woken = tt;
}

run-Told : (es : List Event) → All (Answered BySignal) es → Told (run es init)
run-Told es q =
    run-kept BySignal Told
      record {
        by_kitchen = kitchen_at-Told;
        by_client = client_at-Told;
        by_server = server-Told;
        by_interrupt = interrupt-Told;
      }
      es init q init-Told

-- Nothing of the request `r` is left to do: none of its burgers remains, is on the list, is in the
-- hands of the kitchen, or has not been issued.
pub record IsComplete (s : System) (r : ℕ) : Type 0 where
  pub none_remain : remain s.ctx r ≡ 0
  pub queue : List Order
  pub holds : Holds s.ctx.list queue
  pub none_queued : total (of_request r) queue ≡ 0
  pub none_held : total (held r) s.kitchens ≡ 0
  pub none_unissued : total (unissued r) s.clients ≡ 0

-- Whatever the threads do, in any order, and whatever their library calls answer, as long as every
-- wait ends by a signal: when a client has been woken, nothing of its request is left to do; so `remain_count` is 0 at the test behind the
-- wait, and the client is told that the order is ready.
pub run-IsComplete :
    (es : List Event) (i r : ℕ)
    → All (Answered BySignal) es
    → get_elem? (run es init).clients i ≡ some (wakes r)
    → IsComplete (run es init) r
run-IsComplete es i r q e =
    let s = run es init in
    let t = run-Told es q in
    let (lt, none_left) = All-get_elem? (Woken s.ctx) s.clients i (wakes r) t.woken e in
    let b = t.work.balance r in
    record {
      none_remain = none_left;
      queue = t.work.queue;
      holds = t.work.holds;
      none_queued = omega (arith, b, none_left);
      none_held = omega (arith, b, none_left);
      none_unissued = omega (arith, b, none_left);
    }

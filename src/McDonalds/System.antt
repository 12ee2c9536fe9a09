-- ===== src/McDonalds/System.antt =====
-- PA5/src/mcdonalds.c: all threads of the server, interleaved in any order.
pub mod Steps
pub mod Queueing
pub mod Burgers
pub mod Cooking
pub mod Issuing
pub mod Work
pub mod Ready
pub mod Waking
pub mod Complete
use sysprog.Base.{
  ℕ, zero, suc, ◌+◌, Bool, true, false, Option, none, some, List, [], ◌∷◌, ◌++◌, Bytes,
}
use sysprog.McDonalds.Threads.{
  Ctx, Kitchen, Cooked, kitchen_step, Client, Answer, Served, client_step, Acceptor, accepts,
  Accepted, server_step, checks, nobody,
}
use sysprog.McDonalds.Orders.{empty_list}
use sysprog.McDonalds.Places.{get_elem?, set_elem, replicate}
use sysprog.McDonalds.Request.{unset}

abbrev pub num_kitchen : ℕ
num_kitchen = 50

pub record System : Type 0 where
  pub ctx : Ctx
  pub kitchens : List Kitchen
  pub clients : List Client
  pub acceptor : Acceptor

-- Which thread takes a step, by its place, and what its library calls answer; or a first SIGINT.
pub data Event : Type 0 where
  at_kitchen : ℕ → Bytes → Event
  at_client : ℕ → Answer → Event
  at_server : Bool → Event
  interrupt : Event

-- `pthread_create`, when a thread is to be created
abbrev pub add_thread : List Client → Option Client → List Client
add_thread ts none = ts
add_thread ts (some t) = ts ++ t ∷ []

-- A step of the thread at place `i`; a place with no thread takes none.
unfoldable pub kitchen_at : ℕ → Bytes → System → Option Kitchen → System
kitchen_at i stray s none = s
kitchen_at i stray s (some k) =
    let m = kitchen_step stray s.ctx k in
    record s { ctx = m.ctx; kitchens = set_elem s.kitchens i m.kitchen }

unfoldable pub client_at : ℕ → Answer → System → Option Client → System
client_at i a s none = s
client_at i a s (some k) =
    let m = client_step a s.ctx k in
    record s { ctx = m.ctx; clients = set_elem s.clients i m.client }

unfoldable pub step : Event → System → System
step (at_kitchen i stray) s = kitchen_at i stray s (get_elem? s.kitchens i)
step (at_client i a) s = client_at i a s (get_elem? s.clients i)
step (at_server arrived) s =
    let m = server_step arrived s.ctx s.acceptor in
    record s { ctx = m.ctx; clients = add_thread s.clients m.thread; acceptor = m.acceptor }
step interrupt s = record s { ctx = record (s.ctx) { keep_running = false } }

unfoldable pub run : List Event → System → System
run [] s = s
run (e ∷ es) s = run es (step e s)

-- `init_mcdonalds`
abbrev pub init_ctx : Ctx
init_ctx = record {
  total_customers = 0;
  total_burgers = λ t. 0;
  total_queueing = 0;
  list = empty_list;
  keep_running = true;
  request = λ r. record { remain_count = 0; order_str = unset; wait = nobody };
  fresh = 0;
}

abbrev pub init : System
init = record {
  ctx = init_ctx;
  kitchens = replicate num_kitchen checks;
  clients = [];
  acceptor = accepts;
}

-- ===== src/McDonalds/Threads.antt =====
-- PA5/src/mcdonalds.c: what the threads share, and the steps of each: `kitchen_task`,
-- `serve_client`, and the loop of `start_server`.
--
-- A step is what a thread does under one lock, or between two accesses to what is shared.
use sysprog.Base.{
  ℕ, ◌+◌, ◌-◌, ◌%◌, ◌^◌, Bool, true, false, ◌||◌, Option, none, some, List, [], ◌∷◌, Bytes, ltb,
  ◌==◌, if◌then◌else◌, length,
}
use sysprog.McDonalds.{BurgerType, bigmac, cheese, chicken, bulgogi, customer_max}
use sysprog.McDonalds.Orders.{Order, OrderList, issue_order, take_order, order_left, Dequeued}
use sysprog.McDonalds.Request.{
  Request, orders, unknown, overrun, parse_request, OrderStr, unset, make_burger,
}

-- The condition of a request: nobody waits for it, its client waits, or it was signalled since.
pub data Wait : Type 0 where
  nobody waiting signalled : Wait

abbrev pub is_signalled : Wait → Bool
is_signalled nobody = false
is_signalled waiting = false
is_signalled signalled = true

-- What the nodes of a request share.
pub record Shared : Type 0 where
  pub remain_count : ℕ
  pub order_str : OrderStr
  pub wait : Wait

-- `server_ctx`, `keep_running`, and the requests in memory: those from `fresh` on are not allocated.
pub record Ctx : Type 0 where
  pub total_customers : ℕ
  pub total_burgers : BurgerType → ℕ
  pub total_queueing : ℕ
  pub list : OrderList
  pub keep_running : Bool
  pub request : ℕ → Shared
  pub fresh : ℕ

abbrev pub same_type : BurgerType → BurgerType → Bool
same_type bigmac bigmac = true
same_type cheese cheese = true
same_type chicken chicken = true
same_type bulgogi bulgogi = true
same_type _ _ = false

abbrev pub set : (ℕ → Shared) → ℕ → Shared → ℕ → Shared
set f r s i = if i == r then s else f i

-- Where a kitchen thread is; the order it holds keeps its fields until its client is done.
pub data Kitchen : Type 0 where
  -- at the two tests of the loop, at the test of the head, at the lock
  checks asks tests locks : Kitchen
  cooks counts tallies : Order → Kitchen
  signals : Order → ℕ → Kitchen
  ended crashed : Kitchen

pub record Cooked : Type 0 where
  pub ctx : Ctx
  pub kitchen : Kitchen

abbrev pub signal : Wait → Wait
signal nobody = nobody
signal waiting = signalled
signal signalled = signalled

-- A kitchen thread behind the locked part of `get_order`.
unfoldable pub take_first : Ctx → Option Dequeued → Cooked
take_first c none = record { ctx = c; kitchen = crashed }
take_first c (some d) = record {
  ctx = record c { list = d.list };
  kitchen = elim d.target [ none ↦ checks | some a ↦ cooks (d.list.node a).order ];
}

-- One step of `kitchen_task`.
unfoldable pub kitchen_step : Bytes → Ctx → Kitchen → Cooked
kitchen_step stray c checks = record { ctx = c; kitchen = if c.keep_running then tests else asks }
kitchen_step stray c asks = record {
  ctx = c;
  kitchen = if order_left c.list == 0 then ended else tests;
}
kitchen_step stray c tests = record {
  ctx = c;
  kitchen = elim c.list.head [ none ↦ checks | some a ↦ locks ];
}
kitchen_step stray c locks = take_first c (take_order c.list)
kitchen_step stray c (cooks o) =
    let s = c.request o.request in
    record {
      ctx = record c {
        request =
            set c.request o.request record s { order_str = make_burger stray o.burger s.order_str };
      };
      kitchen = counts o;
    }
kitchen_step stray c (counts o) =
    let s = c.request o.request in
    let left = (s.remain_count + (2 ^ 32 - 1)) % 2 ^ 32 in
    record {
      ctx = record c { request = set c.request o.request record s { remain_count = left } };
      kitchen = signals o left;
    }
kitchen_step stray c (signals o left) =
    let s = c.request o.request in
    if left == 0
    then record {
      ctx = record c { request = set c.request o.request record s { wait = signal s.wait } };
      kitchen = tallies o;
    }
    else record { ctx = c; kitchen = tallies o }
kitchen_step stray c (tallies o) = record {
  ctx = record c {
    total_burgers =
        λ t. if same_type t o.burger then (c.total_burgers t + 1) % 2 ^ 32 else c.total_burgers t;
  };
  kitchen = checks;
}
kitchen_step stray c ended = record { ctx = c; kitchen = ended }
kitchen_step stray c crashed = record { ctx = c; kitchen = crashed }

-- Where the thread of a client is. From `undefined` on the code reads or writes outside of an array.
pub data Client : Type 0 where
  arrives leaves gone undefined : Client
  welcomes listens : ℕ → Client
  -- with the number of the customer, the request, and the burgers that are not issued yet
  issues : ℕ → ℕ → List BurgerType → Client
  waits wakes : ℕ → Client

-- What a library call of `serve_client` answers: it is out of memory, it fails, it sends, it
-- receives, or it is a wait for the condition that ends without a signal, as POSIX allows.
pub data Answer : Type 0 where
  no_memory fails sends spurious : Answer
  receives : Bytes → Answer

pub record Served : Type 0 where
  pub ctx : Ctx
  pub client : Client

-- The call of `issue_orders` up to its loop.
abbrev pub new_request : Ctx → List BurgerType → Ctx
new_request c ts = record c {
  request =
      set c.request c.fresh record { remain_count = length ts; order_str = unset; wait = nobody };
  fresh = c.fresh + 1;
}

-- Behind the loop over the words: `order_list[0]` is read even when there are no burgers.
unfoldable pub serve_request : Ctx → ℕ → Request → Served
serve_request c id (unknown w) = record { ctx = c; client = leaves }
serve_request c id overrun = record { ctx = c; client = undefined }
serve_request c id (orders []) = record { ctx = c; client = undefined }
serve_request c id (orders (t ∷ ts)) = record {
  ctx = new_request c (t ∷ ts);
  client = issues id c.fresh (t ∷ ts);
}

abbrev pub is_spurious : Answer → Bool
is_spurious spurious = true
is_spurious _ = false

-- One step of `serve_client`. A call without an answer still waits, and so does a client whose
-- condition is not signalled, unless its wait ends spuriously. The code does not test for that: the
-- client goes on to free its request, which is then still in use.
unfoldable pub client_step : Answer → Ctx → Client → Served
client_step a c arrives = record {
  ctx = record c { total_customers = (c.total_customers + 1) % 2 ^ 32 };
  client = welcomes c.total_customers;
}
client_step a c (welcomes id) = record {
  ctx = c;
  client = elim a [
    | no_memory ↦ gone
    | fails ↦ leaves
    | sends ↦ listens id
    | spurious ↦ welcomes id
    | receives line ↦ welcomes id
  ];
}
client_step fails c (listens id) = record { ctx = c; client = leaves }
client_step (receives line) c (listens id) = serve_request c id (parse_request line)
client_step no_memory c (listens id) = record { ctx = c; client = listens id }
client_step sends c (listens id) = record { ctx = c; client = listens id }
client_step spurious c (listens id) = record { ctx = c; client = listens id }
client_step a c (issues id r (t ∷ ts)) = record {
  ctx = record c { list = issue_order record { customer = id; burger = t; request = r } c.list };
  client = issues id r ts;
}
client_step a c (issues id r []) = record {
  ctx = record c { request = set c.request r record (c.request r) { wait = waiting } };
  client = waits r;
}
client_step a c (waits r) = record {
  ctx = c;
  client = if is_spurious a || is_signalled (c.request r).wait then wakes r else waits r;
}
client_step a c (wakes r) = record { ctx = c; client = leaves }
client_step a c leaves = record {
  ctx = record c { total_queueing = (c.total_queueing + (2 ^ 32 - 1)) % 2 ^ 32 };
  client = gone;
}
client_step a c gone = record { ctx = c; client = gone }
client_step a c undefined = record { ctx = c; client = undefined }

-- Where the loop of `start_server` is: at `accept`, at its test, or behind it.
pub data Acceptor : Type 0 where
  accepts tests_running closed : Acceptor

pub record Accepted : Type 0 where
  pub ctx : Ctx
  pub acceptor : Acceptor
  pub thread : Option Client

-- A client whose socket is accepted, when `full` tells that there are more than `CUSTOMER_MAX`.
unfoldable pub admit : Ctx → Bool → Accepted
admit c true = record {
  ctx = record c { total_queueing = (c.total_queueing + (2 ^ 32 - 1)) % 2 ^ 32 };
  acceptor = tests_running;
  thread = none;
}
admit c false = record { ctx = c; acceptor = tests_running; thread = some arrives }

-- One step of the loop; `arrived` tells whether `accept` gives a socket.
unfoldable pub server_step : Bool → Ctx → Acceptor → Accepted
server_step true c accepts =
    let n = (c.total_queueing + 1) % 2 ^ 32 in
    admit (record c { total_queueing = n }) (ltb customer_max n)
server_step false c accepts = record { ctx = c; acceptor = closed; thread = none }
server_step arrived c tests_running = record {
  ctx = c;
  acceptor = if c.keep_running then accepts else closed;
  thread = none;
}
server_step arrived c closed = record { ctx = c; acceptor = closed; thread = none }

-- ===== src/McDonalds/Orders.antt =====
-- PA5/src/mcdonalds.c: the list of orders, `issue_orders`, `get_order` and `order_left`.
--
-- Nodes are in memory under their addresses; `malloc` succeeds and gives an address that no node
-- had before.
pub mod Fifo
pub mod Queue
use sysprog.Base.{
  ℕ, ◌+◌, ◌-◌, ◌%◌, ◌^◌, Bool, true, false, Option, none, some, List, [], ◌∷◌, ◌==◌, if◌then◌else◌,
}
use sysprog.McDonalds.{BurgerType, bigmac}

-- The fields of a node that nobody changes. The mutexes, the condition and the string of a request
-- are known by one number, `request`.
pub record Order : Type 0 where
  pub customer : ℕ
  pub burger : BurgerType
  pub request : ℕ

pub record Node : Type 0 where
  pub next : Option ℕ
  pub order : Order

abbrev pub Nodes : Type 0
Nodes = ℕ → Node

abbrev pub write : Nodes → ℕ → Node → Nodes
write node a n b = if b == a then n else node b

-- `server_ctx.list`, and the memory with its nodes.
pub record OrderList : Type 0 where
  pub head : Option ℕ
  pub tail : Option ℕ
  pub count : ℕ
  pub node : Nodes
  pub fresh : ℕ

-- The list of a program that starts: static memory is zero.
abbrev pub empty_list : OrderList
empty_list = record {
  head = none;
  tail = none;
  count = 0;
  node = λ a. record { next = none; order = record { customer = 0; burger = bigmac; request = 0 } };
  fresh = 0;
}

-- One round of the loop of `issue_orders`.
unfoldable pub issue_order : Order → OrderList → OrderList
issue_order o l =
    let new = l.fresh in
    let node = write l.node new record { next = none; order = o } in
    let count = (l.count + 1) % 2 ^ 32 in
    elim l.tail [
      | none ↦ record {
        head = some new;
        tail = some new;
        count = count;
        node = node;
        fresh = new + 1;
      }
      | some last ↦ record {
        head = l.head;
        tail = some new;
        count = count;
        node = write node last record { next = some new; order = (node last).order };
        fresh = new + 1;
      }
    ]

-- `p == q` on pointers to nodes
abbrev pub same : Option ℕ → Option ℕ → Bool
same none none = true
same none (some b) = false
same (some a) none = false
same (some a) (some b) = a == b

-- What the locked part of `get_order` gives, and the list behind it.
pub record Dequeued : Type 0 where
  pub target : Option ℕ
  pub list : OrderList

-- The locked part of `get_order`; `none` when it reads through a null pointer.
unfoldable pub take_order : OrderList → Option Dequeued
take_order l =
    let count = (l.count + (2 ^ 32 - 1)) % 2 ^ 32 in
    if same l.head l.tail
    then some record {
      target = l.head;
      list = record { head = none; tail = none; count = count; node = l.node; fresh = l.fresh };
    }
    else elim l.head [
      | none ↦ none
      | some a ↦ some record {
        target = l.head;
        list = record {
          head = (l.node a).next;
          tail = l.tail;
          count = count;
          node = l.node;
          fresh = l.fresh;
        };
      }
    ]

abbrev pub order_left : OrderList → ℕ
order_left l = l.count

-- `get_order` when no other thread runs between its test of the head and its lock.
unfoldable pub get_order : OrderList → Option Dequeued
get_order l = elim l.head [ none ↦ some record { target = none; list = l } | some a ↦ take_order l ]

-- The loop of `issue_orders` when no other thread runs in it.
unfoldable pub issue_orders : List Order → OrderList → OrderList
issue_orders [] l = l
issue_orders (o ∷ os) l = issue_orders os (issue_order o l)

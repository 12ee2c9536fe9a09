-- ===== src/McDonalds/Orders/Queue.antt =====
-- PA5/src/mcdonalds.c: the list of orders and its count as a queue.
use sysprog.Base.{
  append_one, append-nil, ℕ, ◌%◌, ◌^◌, ◌≡◌, refl, sym, ap, ◌∙◌, subst, Option, none, some, List, [],
  ◌∷◌, ◌++◌, length, length-append, arith, Option-cases, inl, inr,
}
use sysprog.McDonalds.Orders.{
  Order, OrderList, issue_order, Dequeued, issue_orders, get_order, take_order,
}
use sysprog.McDonalds.Orders.Fifo.{Holds, Takes, take_order-Takes, issue_order-Holds}

-- The list as a queue: its orders, and as many as `count` says.
pub record IsQueue (l : OrderList) (q : List Order) : Type 0 where
  pub holds : Holds l q
  pub counted : l.count ≡ length q % 2 ^ 32

abbrev pub rest : List Order → List Order
rest [] = []
rest (o ∷ q) = q

-- The answer of `get_order` for the orders `q`.
pub Answers : Dequeued → List Order → Type 0
Answers d [] = d.target ≡ none
Answers d (o ∷ q) = (a : ℕ) × (d.target ≡ some a) × ((d.list.node a).order ≡ o)

issue_order-count :
    (l : OrderList) (q : List Order) (o : Order)
    → l.count ≡ length q % 2 ^ 32
    → (issue_order o l).count ≡ length (q ++ o ∷ []) % 2 ^ 32
unfolding issue_order
issue_order-count l q o e = elim (Option-cases l.tail) [
  | inl t ↦ rw t (omega (arith, e, length-append q (o ∷ [])))
  | inr (z, t) ↦ rw t (omega (arith, e, length-append q (o ∷ [])))
]

-- The list of orders is a queue: `issue_orders` puts the orders of a request behind the others, in
-- their order, and the count goes with it.
pub issue_orders-IsQueue :
    (os : List Order) (l : OrderList) (q : List Order)
    → IsQueue l q
    → IsQueue (issue_orders os l) (q ++ os)
unfolding issue_orders
issue_orders-IsQueue [] l q is = subst (IsQueue l) (sym (append-nil q)) is
issue_orders-IsQueue (o ∷ os) l q is =
    subst (IsQueue (issue_orders os (issue_order o l))) (append_one q o os) (
      issue_orders-IsQueue os (issue_order o l) (q ++ o ∷ []) record {
        holds = issue_order-Holds l q o is.holds;
        counted = issue_order-count l q o is.counted;
      })

get_order-head :
    (l : OrderList) (h : Option ℕ)
    → l.head ≡ h
    → get_order l
      ≡ elim h [ none ↦ some record { target = none; list = l } | some a ↦ take_order l ]
unfolding get_order
get_order-head l h e =
    ap {B = Option Dequeued}
      (λ x. elim x [ none ↦ some record { target = none; list = l } | some a ↦ take_order l ]) e

-- The list of orders is a queue: `get_order`, when no other thread comes between its test and its
-- lock, answers the first order and leaves the others, or answers NULL when there is none; the
-- count goes with it.
pub get_order-IsQueue :
    (l : OrderList) (q : List Order)
    → IsQueue l q
    → (d : Dequeued) × (get_order l ≡ some d) × Answers d q × IsQueue d.list (rest q)
unfolding get_order Takes Answers Holds
get_order-IsQueue l [] is = (_, get_order-head l none is.holds.0, refl, is)
get_order-IsQueue l (o ∷ q) is =
    let (a, z, h, t, lt, c) = is.holds in
    let (d, runs, (b, target, at, holds), count) = take_order-Takes l (o ∷ q) is.holds in
    (
      d,
      get_order-head l (some a) h ∙ runs,
      (b, target, at),
      record { holds = holds; counted = omega (arith, count, is.counted) },
    )

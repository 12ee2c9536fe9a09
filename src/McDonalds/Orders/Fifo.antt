-- ===== src/McDonalds/Orders/Fifo.antt =====
-- PA5/src/mcdonalds.c: the linked list of orders as a first-in, first-out queue.
use sysprog.Base.{
  ℕ, ◌+◌, ◌-◌, ◌%◌, ◌^◌, ◌≤◌, ◌<◌, ◌≡◌, ◌≢◌, refl, sym, ap, ◌∙◌, subst, none, some, List, [], ◌∷◌,
  ◌++◌, arith, ne→==, eq→==,
}
use sysprog.McDonalds.Orders.{
  Order, Node, Nodes, write, OrderList, issue_order, Dequeued, take_order,
}

-- From the node `a`, whose order is `o`, links lead through the orders `q` to the last node `z`.
-- Nodes are linked in the order in which they were allocated.
unfoldable pub Chain : Nodes → ℕ → ℕ → Order → List Order → Type 0
Chain node a z o [] = ((node a).order ≡ o) × (a ≡ z) × ((node a).next ≡ none)
Chain node a z o (p ∷ q) =
    ((node a).order ≡ o) × ((b : ℕ) × ((node a).next ≡ some b) × (a < b) × Chain node b z p q)

-- The list holds the orders `q`, from its head to its tail.
unfoldable pub Holds : OrderList → List Order → Type 0
Holds l [] = (l.head ≡ none) × (l.tail ≡ none)
Holds l (o ∷ q) =
    (a : ℕ) × (z : ℕ) × (l.head ≡ some a) × (l.tail ≡ some z) × (z < l.fresh) × Chain l.node a z o q

write-other : (node : Nodes) (a b : ℕ) (n : Node) → b ≢ a → write node a n b ≡ node b
write-other node a b n h = rw (ne→== b a h)

write-same : (node : Nodes) (a : ℕ) (n : Node) → write node a n a ≡ n
write-same node a n = rw (eq→== a a refl)

Chain-le : (node : Nodes) (a z : ℕ) (o : Order) (q : List Order) → Chain node a z o q → a ≤ z
unfolding Chain
Chain-le node a z o [] c = omega (arith, c.1)
Chain-le node a z o (p ∷ q) (e, (b, n, lt, c)) = omega (arith, Chain-le node b z p q c)

-- A node at an address past the chain is not in it.
Chain-write :
    (node : Nodes) (a z : ℕ) (o : Order) (q : List Order) (new : ℕ) (n : Node)
    → z < new
    → Chain node a z o q
    → Chain (write node new n) a z o q
unfolding Chain
Chain-write node a z o [] new n lt c =
    let e = write-other node new a n (omega (arith, c.1)) in
    (ap (λ n. n.order) e ∙ c.0, c.1, ap (λ n. n.next) e ∙ c.2)
Chain-write node a z o (p ∷ q) new n lt (at, (b, link, step, c)) =
    let e = write-other node new a n (omega (arith, step, Chain-le node b z p q c)) in
    (
      ap (λ n. n.order) e ∙ at,
      (b, ap (λ n. n.next) e ∙ link, step, Chain-write node b z p q new n lt c),
    )

-- The memory behind the last link to a new node.
abbrev linked : Nodes → ℕ → ℕ → Order → Nodes
linked node z new o =
    let node' = write node new record { next = none; order = o } in
    write node' z record { next = some new; order = (node' z).order }

linked-last :
    (node : Nodes) (z new : ℕ) (o : Order)
    → z < new
    → linked node z new o z ≡ record { next = some new; order = (node z).order }
linked-last node z new o lt =
    let node' = write node new record { next = none; order = o } in
    write-same node' z record { next = some new; order = (node' z).order }
    ∙ ap (λ n. record { next = some new; order = n.order })
        (write-other node new z record { next = none; order = o } (omega arith))

linked-new :
    (node : Nodes) (z new : ℕ) (o : Order)
    → z < new
    → linked node z new o new ≡ record { next = none; order = o }
linked-new node z new o lt =
    let n : Node = record { next = none; order = o } in
    let node' = write node new n in
    write-other node' z new record { next = some new; order = (node' z).order } (omega arith)
    ∙ write-same node new n

linked-before :
    (node : Nodes) (a z new : ℕ) (o : Order) → a < z → z < new → linked node z new o a ≡ node a
linked-before node a z new o lt below =
    let n : Node = record { next = none; order = o } in
    let node' = write node new n in
    write-other node' z a record { next = some new; order = (node' z).order } (omega arith)
    ∙ write-other node new a n (omega arith)

Chain-linked :
    (node : Nodes) (a z : ℕ) (p : Order) (q : List Order) (new : ℕ) (o : Order)
    → z < new
    → Chain node a z p q
    → Chain (linked node z new o) a new p (q ++ o ∷ [])
unfolding Chain
Chain-linked node a z p [] new o lt (at, eq, link) =
    let here =
      subst (λ x. linked node z new o x ≡ record { next = some new; order = (node z).order })
        (sym eq) (linked-last node z new o lt) in
    let there = linked-new node z new o lt in
    (
      ap (λ n. n.order) here ∙ subst (λ x. (node x).order ≡ p) eq at,
      (
        new,
        ap (λ n. n.next) here,
        omega (arith, eq),
        (ap (λ n. n.order) there, refl, ap (λ n. n.next) there),
      ),
    )
Chain-linked node a z p (r ∷ q) new o lt (at, (b, link, step, c)) =
    let e = linked-before node a z new o (omega (arith, Chain-le node b z r q c)) lt in
    (
      ap (λ n. n.order) e ∙ at,
      (b, ap (λ n. n.next) e ∙ link, step, Chain-linked node b z r q new o lt c),
    )

-- One round of `issue_orders` puts its order behind all the others.
pub issue_order-Holds :
    (l : OrderList) (q : List Order) (o : Order) → Holds l q → Holds (issue_order o l) (q ++ o ∷ [])
unfolding Holds issue_order Chain
issue_order-Holds l [] o (h, t) =
    let new = write-same l.node l.fresh record { next = none; order = o } in
    rw t (
      l.fresh,
      l.fresh,
      refl,
      refl,
      omega arith,
      (ap (λ n. n.order) new, refl, ap (λ n. n.next) new),
    )
issue_order-Holds l (p ∷ q) o (a, z, h, t, lt, c) =
    rw t (a, l.fresh, h, refl, omega arith, Chain-linked l.node a z p q l.fresh o lt c)

-- What the locked part of `get_order` takes from the orders `q`.
unfoldable pub Takes : Dequeued → List Order → Type 0
Takes d [] = (d.target ≡ none) × Holds d.list []
Takes d (o ∷ q) = (a : ℕ) × (d.target ≡ some a) × ((d.list.node a).order ≡ o) × Holds d.list q

-- Even when the list has become empty since the test, the locked part of `get_order` reads through
-- no null pointer; it takes the first order, if there is one, and leaves the others in their order.
pub take_order-Takes :
    (l : OrderList) (q : List Order)
    → Holds l q
    → (d : Dequeued) × (take_order l ≡ some d)
      × Takes d q
      × (d.list.count ≡ (l.count + (2 ^ 32 - 1)) % 2 ^ 32)
unfolding Takes Holds take_order Chain
take_order-Takes l [] (h, t) = rw h (rw t (_, refl, (refl, (refl, refl)), refl))
take_order-Takes l (o ∷ []) (a, z, h, t, lt, (at, eq, link)) =
    rw h (rw t (rw (eq→== a z eq) (_, refl, (a, refl, at, (refl, refl)), refl)))
take_order-Takes l (o ∷ p ∷ q) (a, z, h, t, lt, (at, (b, link, step, c))) =
    let ne = ne→== a z (omega (arith, Chain-le l.node b z p q c)) in
    rw h (rw t (rw ne (_, refl, (a, h, at, (b, z, link, refl, lt, c)), refl)))

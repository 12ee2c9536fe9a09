-- ===== src/Tests/Burgers.antt =====
-- Runs of PA5/src/mcdonalds.c and PA5/src/client.c.
use sysprog.Base.{All, ◌<◌, ◌≤◌, ◌≡◌, ◌+◌, true, refl, some, List, [], ◌∷◌, codes, length}
use sysprog.McDonalds.{bigmac, chicken, cheese}
use sysprog.McDonalds.Orders.{Order, empty_list, issue_order, issue_orders, Dequeued, get_order}
use sysprog.McDonalds.Orders.Fifo.{Holds}
use sysprog.McDonalds.Orders.Queue.{IsQueue, Answers, rest, issue_orders-IsQueue, get_order-IsQueue}
use sysprog.McDonalds.Request.{
  words, starts_with, find_type, parse_words, parse_request, orders, unknown, overrun, printed,
  unset, make_burger,
}
use sysprog.McDonalds.Request.RoundTrip.{parse_request-request_line}
use sysprog.McDonalds.Request.Text.{make_burgers, make_burgers-text}
use sysprog.McDonalds.Customer.{choices, request_line}
use sysprog.McDonalds.Threads.{
  sends, receives, wakes, kitchen_step, take_first, client_step, serve_request, server_step, admit,
}
use sysprog.McDonalds.Orders.{take_order}
use sysprog.McDonalds.Places.{get_elem?, replicate}
use sysprog.McDonalds.System.{
  Event, at_kitchen, at_client, at_server, step, kitchen_at, client_at, run, init,
}
use sysprog.McDonalds.System.Queueing.{Bounded, run-Bounded}
use sysprog.McDonalds.System.Steps.{Answered, BySignal}
use sysprog.McDonalds.System.Work.{Work, run-Work}
use sysprog.McDonalds.System.Complete.{IsComplete, run-IsComplete}

abbrev two_orders : List Order
two_orders =
    record { customer = 0; burger = bigmac; request = 0 }
    ∷ record { customer = 0; burger = chicken; request = 0 }
    ∷ []

empty_list-IsQueue : IsQueue empty_list []
unfolding Holds
empty_list-IsQueue = record { holds = (refl, refl); counted = refl }

issue_orders-IsQueue_example : IsQueue (issue_orders two_orders empty_list) two_orders
issue_orders-IsQueue_example = issue_orders-IsQueue two_orders empty_list [] empty_list-IsQueue

two-IsQueue : IsQueue (issue_orders two_orders empty_list) two_orders
two-IsQueue = issue_orders-IsQueue two_orders empty_list [] empty_list-IsQueue

get_order-IsQueue_example :
    (d : Dequeued) × (get_order (issue_orders two_orders empty_list) ≡ some d)
    × Answers d two_orders
    × IsQueue d.list (rest two_orders)
get_order-IsQueue_example =
    get_order-IsQueue (issue_orders two_orders empty_list) two_orders two-IsQueue

-- A client that orders one burger, and a kitchen thread that makes it.
abbrev one_burger : List Event
one_burger =
    at_server true
    ∷ at_client 0 sends
    ∷ at_client 0 sends
    ∷ at_client 0 (receives (codes "bigmac\n"))
    ∷ at_client 0 sends
    ∷ at_client 0 sends
    ∷ at_kitchen 7 []
    ∷ at_kitchen 7 []
    ∷ at_kitchen 7 []
    ∷ at_kitchen 7 []
    ∷ at_kitchen 7 []
    ∷ at_kitchen 7 []
    ∷ at_client 0 sends
    ∷ []

by_signals : All (Answered BySignal) one_burger
by_signals = (tt, (tt, (tt, (tt, (tt, (tt, (tt, (tt, (tt, (tt, (tt, (tt, (tt, tt)))))))))))))

woken : get_elem? (run one_burger init).clients 0 ≡ some (wakes 0)
unfolding run step kitchen_at client_at replicate kitchen_step take_first client_step serve_request
    server_step admit words starts_with find_type parse_words issue_order take_order make_burger
woken = refl

run-IsComplete_example : IsComplete (run one_burger init) 0
run-IsComplete_example = run-IsComplete one_burger 0 0 by_signals woken

run-Work_example : Work (run one_burger init)
run-Work_example = run-Work one_burger by_signals

run-Bounded_example : Bounded (run one_burger init)
run-Bounded_example = run-Bounded one_burger

-- A client with three burgers.
parse_request-request_line_example :
    (parse_request (request_line (λ i. i + 2) (codes "hi")) ≡ orders (choices (λ i. i + 2) 0 3))
    × (0 < length (choices (λ i. i + 2) 0 3))
    × (length (choices (λ i. i + 2) 0 3) ≤ 5)
parse_request-request_line_example = parse_request-request_line (λ i. i + 2) (codes "hi")

make_burgers-text_example :
    printed [] (make_burgers [] (bigmac ∷ cheese ∷ []) unset) ≡ codes "bigmac cheese"
make_burgers-text_example = make_burgers-text [] bigmac (cheese ∷ [])

-- A word that only starts with the name of a burger is taken for it.
prefix : parse_request (codes "bigmacs\n") ≡ orders (bigmac ∷ [])
unfolding words starts_with find_type parse_words
prefix = refl

unknown_word : parse_request (codes "cheese fish") ≡ unknown (codes "fish")
unfolding words starts_with find_type parse_words
unknown_word = refl

-- The sixth burger is behind the end of `types`.
six : parse_request (codes "bigmac bigmac bigmac bigmac bigmac bigmac") ≡ overrun
unfolding words starts_with find_type parse_words
six = refl

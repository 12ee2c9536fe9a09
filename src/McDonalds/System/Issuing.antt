-- ===== src/McDonalds/System/Issuing.antt =====
-- PA5/src/mcdonalds.c: what a step of `serve_client` does to the burgers of a request.
use sysprog.Base.{
  ℕ, ◌+◌, ◌≤◌, ◌<◌, ◌≡◌, ◌≢◌, refl, sym, Bool, true, false, ◌||◌, List, [], ◌∷◌, ◌++◌, arith, inl,
  inr, Option-cases, Bool-cases, ◌==◌, ==→eq, ne→==, if◌then◌else◌, length, length-append, Bytes,
}
use sysprog.McDonalds.{BurgerType, max_burgers, burger_types}
use sysprog.McDonalds.Request.{
  Request, orders, unknown, overrun, parse_words, parse_request, find_type,
}
use sysprog.McDonalds.Orders.{Order}
use sysprog.McDonalds.Orders.Fifo.{Holds, issue_order-Holds}
use sysprog.McDonalds.Threads.{
  Ctx, Client, arrives, leaves, gone, undefined, welcomes, listens, issues, waits, wakes, Answer,
  no_memory, fails, sends, spurious, is_spurious, receives, serve_request, client_step, new_request,
  is_signalled,
}
use sysprog.McDonalds.System.Burgers.{of_request, unissued, remain, set-remain}
use sysprog.McDonalds.Places.{total, total-add}

-- How a step of a client, from `k` to `l`, changes the list, which held `q`, and the counts.
pub record Issues (c : Ctx) (q : List Order) (k : Client) (d : Ctx) (l : Client) : Type 0 where
  pub queue : List Order
  pub holds : Holds d.list queue
  pub moves :
      (r : ℕ)
      → remain d r + total (of_request r) q + unissued r k
        ≡ remain c r + total (of_request r) queue + unissued r l
  pub few : (r : ℕ) → remain d r ≤ max_burgers
  pub unborn : (r : ℕ) → d.fresh ≤ r → remain d r ≡ 0
  pub later : c.fresh ≤ d.fresh
  pub same : (r : ℕ) → r < c.fresh → remain d r ≡ remain c r

-- A step that leaves the list and the counts alone.
idles :
    (c : Ctx) (q : List Order) (k : Client) (d : Ctx) (l : Client)
    → Holds d.list q
    → ((r : ℕ) → remain d r ≡ remain c r)
    → ((r : ℕ) → unissued r k ≡ unissued r l)
    → d.fresh ≡ c.fresh
    → ((r : ℕ) → remain c r ≤ max_burgers)
    → ((r : ℕ) → c.fresh ≤ r → remain c r ≡ 0)
    → Issues c q k d l
idles c q k d l h same still fresh few unborn = record {
  queue = q;
  holds = h;
  moves = λ r. omega (arith, same r, still r);
  few = λ r. omega (arith, same r, few r);
  unborn = λ r le. omega (arith, same r, unborn r (omega (arith, fresh, le)));
  later = omega (arith, fresh);
  same = λ r lt. same r;
}

-- A request of no more burgers than `types` has room for.
abbrev Fits : Request → Type 0
Fits (orders ts) = length ts ≤ max_burgers
Fits (unknown w) = Unit {0}
Fits overrun = Unit {0}

==→ne : (a b : ℕ) → (a == b) ≡ false → a ≢ b
==→ne a b h = ground arith

parse_words-Fits :
    (ws : List Bytes) (ts : List BurgerType) → length ts ≤ max_burgers → Fits (parse_words ws ts)
unfolding parse_words
parse_words-Fits [] ts h = h
parse_words-Fits (w ∷ ws) ts h = elim (Option-cases (find_type burger_types w)) [
  | inl e ↦ rw (e, Fits) tt
  | inr (t, e) ↦
      rw (e, Fits)
        (elim (Bool-cases (length ts == max_burgers)) [
          | inl b ↦ rw (b, Fits) tt
          | inr b ↦
              rw (b, Fits)
                (parse_words-Fits ws (ts ++ t ∷ [])
                  (omega (arith, length-append ts (t ∷ []), h, ==→ne (length ts) max_burgers b)))
        ])
]

born :
    (c : Ctx) (q : List Order) (id : ℕ) (t : BurgerType) (ts : List BurgerType)
    → Holds c.list q
    → ((r : ℕ) → remain c r ≤ max_burgers)
    → ((r : ℕ) → c.fresh ≤ r → remain c r ≡ 0)
    → length (t ∷ ts) ≤ max_burgers
    → Issues c q (listens id) (new_request c (t ∷ ts)) (issues id c.fresh (t ∷ ts))
born c q id t ts h few unborn small = record {
  queue = q;
  holds = h;
  moves = λ r. elim (Bool-cases (r == c.fresh)) [
    | inl e ↦ rw (e, remain) (omega (arith, unborn r (omega (arith, ==→eq r c.fresh e))))
    | inr e ↦ rw (e, remain) (omega arith)
  ];
  few = λ r. elim (Bool-cases (r == c.fresh)) [
    | inl e ↦ rw (e, remain) small
    | inr e ↦ rw (e, remain) (few r)
  ];
  unborn = λ r le. rw (ne→== r c.fresh (omega (arith, le)), remain) (unborn r (omega (arith, le)));
  later = omega arith;
  same = λ r lt. rw (ne→== r c.fresh (omega (arith, lt)), remain) refl;
}

issues-Issues :
    (c : Ctx) (q : List Order) (id r : ℕ) (t : BurgerType) (ts : List BurgerType)
    → Holds c.list q
    → ((r : ℕ) → remain c r ≤ max_burgers)
    → ((r : ℕ) → c.fresh ≤ r → remain c r ≡ 0)
    → Issues c q
        (issues id r (t ∷ ts))
        (client_step sends c (issues id r (t ∷ ts))).ctx
        (issues id r ts)
unfolding client_step
issues-Issues c q id r t ts h few unborn =
    let o : Order = record { customer = id; burger = t; request = r } in
    record {
      queue = q ++ o ∷ [];
      holds = issue_order-Holds c.list q o h;
      moves = λ i. let sum = total-add (of_request i) q o in ground (arith, sum);
      few = few;
      unborn = unborn;
      later = omega arith;
      same = λ r lt. refl;
    }

serve_request-Issues :
    (c : Ctx) (q : List Order) (id : ℕ) (a : Request)
    → Fits a
    → Holds c.list q
    → ((r : ℕ) → remain c r ≤ max_burgers)
    → ((r : ℕ) → c.fresh ≤ r → remain c r ≡ 0)
    → Issues c q (listens id) (serve_request c id a).ctx (serve_request c id a).client
unfolding serve_request
serve_request-Issues c q id (unknown w) fits h few unborn =
    idles c q (listens id) c leaves h (λ r. refl) (λ r. refl) refl few unborn
serve_request-Issues c q id overrun fits h few unborn =
    idles c q (listens id) c undefined h (λ r. refl) (λ r. refl) refl few unborn
serve_request-Issues c q id (orders []) fits h few unborn =
    idles c q (listens id) c undefined h (λ r. refl) (λ r. refl) refl few unborn
serve_request-Issues c q id (orders (t ∷ ts)) fits h few unborn = born c q id t ts h few unborn fits

-- A client that issues nothing in this step, or has issued everything.
abbrev Idle : Client → Type 0
Idle k = (r : ℕ) → unissued r k ≡ 0

welcomed : (a : Answer) (c : Ctx) (id : ℕ) → Idle (client_step a c (welcomes id)).client
unfolding client_step
welcomed no_memory c id r = refl
welcomed fails c id r = refl
welcomed sends c id r = refl
welcomed spurious c id r = refl
welcomed (receives line) c id r = refl

Idle-if : (b : Bool) (r : ℕ) → Idle (if b then wakes r else waits r)
Idle-if true r i = refl
Idle-if false r i = refl

unissued-none : (r i : ℕ) → unissued i (issues 0 r []) ≡ 0
unissued-none r i = ground arith

pub client_step-Issues :
    (a : Answer) (c : Ctx) (q : List Order) (k : Client)
    → Holds c.list q
    → ((r : ℕ) → remain c r ≤ max_burgers)
    → ((r : ℕ) → c.fresh ≤ r → remain c r ≡ 0)
    → Issues c q k (client_step a c k).ctx (client_step a c k).client
unfolding client_step
client_step-Issues a c q arrives h few unborn =
    idles c q arrives _ (welcomes c.total_customers) h (λ r. refl) (λ r. refl) refl few unborn
client_step-Issues a c q (welcomes id) h few unborn =
    idles c q (welcomes id) c _ h (λ r. refl) (λ r. sym (welcomed a c id r)) refl few unborn
client_step-Issues no_memory c q (listens id) h few unborn =
    idles c q (listens id) c (listens id) h (λ r. refl) (λ r. refl) refl few unborn
client_step-Issues fails c q (listens id) h few unborn =
    idles c q (listens id) c leaves h (λ r. refl) (λ r. refl) refl few unborn
client_step-Issues sends c q (listens id) h few unborn =
    idles c q (listens id) c (listens id) h (λ r. refl) (λ r. refl) refl few unborn
client_step-Issues spurious c q (listens id) h few unborn =
    idles c q (listens id) c (listens id) h (λ r. refl) (λ r. refl) refl few unborn
client_step-Issues (receives line) c q (listens id) h few unborn =
    serve_request-Issues c q id (parse_request line) (parse_words-Fits _ [] (omega arith)) h few
      unborn
client_step-Issues a c q (issues id r (t ∷ ts)) h few unborn =
    issues-Issues c q id r t ts h few unborn
client_step-Issues a c q (issues id r []) h few unborn =
    idles c q (issues id r []) _ (waits r) h (λ i. set-remain c.request r _ i refl)
      (unissued-none r) refl few unborn
client_step-Issues a c q (waits r) h few unborn =
    idles c q (waits r) c _ h (λ i. refl)
      (λ i. sym (Idle-if (is_spurious a || is_signalled (c.request r).wait) r i)) refl few unborn
client_step-Issues a c q (wakes r) h few unborn =
    idles c q (wakes r) c leaves h (λ i. refl) (λ i. refl) refl few unborn
client_step-Issues a c q leaves h few unborn =
    idles c q leaves _ gone h (λ i. refl) (λ i. refl) refl few unborn
client_step-Issues a c q gone h few unborn =
    idles c q gone c gone h (λ i. refl) (λ i. refl) refl few unborn
client_step-Issues a c q undefined h few unborn =
    idles c q undefined c undefined h (λ i. refl) (λ i. refl) refl few unborn

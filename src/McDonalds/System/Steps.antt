-- ===== src/McDonalds/System/Steps.antt =====
-- PA5/src/mcdonalds.c: what every step of every thread keeps, every run keeps.
use sysprog.Base.{ℕ, Bool, ◌≡◌, refl, Option, none, some, List, [], ◌∷◌, Bytes, All}
use sysprog.McDonalds.Threads.{Kitchen, Client, Answer, spurious}
use sysprog.McDonalds.Places.{get_elem?}
use sysprog.McDonalds.System.{
  System, Event, at_kitchen, at_client, at_server, interrupt, kitchen_at, client_at, step, run,
}

-- An event whose answer is one of `Q`.
abbrev pub Answered : (Answer → Type 0) → Event → Type 0
Answered Q (at_client i a) = Q a
Answered Q (at_kitchen i stray) = Unit {0}
Answered Q (at_server arrived) = Unit {0}
Answered Q interrupt = Unit {0}

pub any_answers : (es : List Event) → All (Answered (λ a. Unit {0})) es
any_answers [] = tt
any_answers (at_client i a ∷ es) = (tt, any_answers es)
any_answers (at_kitchen i stray ∷ es) = (tt, any_answers es)
any_answers (at_server arrived ∷ es) = (tt, any_answers es)
any_answers (interrupt ∷ es) = (tt, any_answers es)

-- Every wait ends by a signal.
abbrev pub BySignal : Answer → Type 0
BySignal spurious = ⊥
BySignal _ = Unit {0}

-- A property that each kind of step keeps, for answers of `Q`.
pub record Kept (Q : Answer → Type 0) (P : System → Type 0) : Type 0 where
  pub by_kitchen :
      (i : ℕ) (stray : Bytes) (s : System) (k : Kitchen)
      → get_elem? s.kitchens i ≡ some k
      → P s
      → P (kitchen_at i stray s (some k))
  pub by_client :
      (i : ℕ) (a : Answer) (s : System) (k : Client)
      → get_elem? s.clients i ≡ some k
      → Q a
      → P s
      → P (client_at i a s (some k))
  pub by_server : (arrived : Bool) (s : System) → P s → P (step (at_server arrived) s)
  pub by_interrupt : (s : System) → P s → P (step interrupt s)

module _ (Q : Answer → Type 0) (P : System → Type 0) (kept : Kept Q P) where
  kitchen_at-kept :
      (i : ℕ) (stray : Bytes) (s : System) (o : Option Kitchen)
      → get_elem? s.kitchens i ≡ o
      → P s
      → P (kitchen_at i stray s o)
  unfolding kitchen_at
  kitchen_at-kept i stray s none e p = p
  kitchen_at-kept i stray s (some k) e p = kept.by_kitchen i stray s k e p

  client_at-kept :
      (i : ℕ) (a : Answer) (s : System) (o : Option Client)
      → get_elem? s.clients i ≡ o
      → Q a
      → P s
      → P (client_at i a s o)
  unfolding client_at
  client_at-kept i a s none e q p = p
  client_at-kept i a s (some k) e q p = kept.by_client i a s k e q p

  step-kept : (e : Event) (s : System) → Answered Q e → P s → P (step e s)
  unfolding step
  step-kept (at_kitchen i stray) s q p = kitchen_at-kept i stray s _ refl p
  step-kept (at_client i a) s q p = client_at-kept i a s _ refl q p
  step-kept (at_server arrived) s q p = kept.by_server arrived s p
  step-kept interrupt s q p = kept.by_interrupt s p

  pub run-kept : (es : List Event) (s : System) → All (Answered Q) es → P s → P (run es s)
  unfolding run
  run-kept [] s q p = p
  run-kept (e ∷ es) s q p = run-kept es (step e s) q.1 (step-kept e s q.0 p)

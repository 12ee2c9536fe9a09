-- ===== src/Shell/Eval/Prompt.antt =====
-- PA4/src/csapsh.c: the job list when `eval` is back at the prompt.
use sysprog.Base.{
  ℕ, ◌≡◌, Bool, true, false, Option, none, some, List, [], ◌∷◌, All, arith, inl, inr, Bool-cases,
  Option-cases,
}
use sysprog.JobControl.{Job, is_foreground}
use sysprog.Shell.Signals.{
  Status, Wait, over, waiting, fault, sigchld_handler, waitfg, left_foreground,
}
use sysprog.Shell.Signals.Reap.{Inv, sigchld_handler-Inv}
use sysprog.Shell.Eval.{Evaluated, prompt, still_waits, quits, faults, asserts, deliver}
use sysprog.Shell.Eval.Foreground.{Only, Behind, sigchld_handler-Only, left-Behind}

-- The job list at the prompt.
pub record AtPrompt (js : List Job) : Type 0 where
  pub inv : Inv js
  pub behind : All Behind js

-- What each outcome of `eval` says of the job list.
abbrev pub Settled : Evaluated → Type 0
Settled (prompt js out) = AtPrompt js
Settled (still_waits js) = Inv js
Settled quits = Unit {0}
Settled faults = Unit {0}
Settled asserts = ⊥

All-map {ℓ κ} :
    {A : Type ℓ} (P Q : A → Type κ) → ((x : A) → P x → Q x) → (xs : List A) → All P xs → All Q xs
All-map P Q f [] h = tt
All-map P Q f (x ∷ xs) h = (f x h.0, All-map P Q f xs h.1)

Behind-Only : (jid : ℕ) (j : Job) → Behind j → Only jid j
Behind-Only jid j h = λ e. absurd (clash (is_foreground j) e h)
  where
    clash : (b : Bool) → b ≡ true → b ≡ false → ⊥
    clash true e f = cc
    clash false e f = cc

pub all_Only : (jid : ℕ) (js : List Job) → All Behind js → All (Only jid) js
all_Only jid js h = All-map Behind (Only jid) (Behind-Only jid) js h

-- A job that could only be `0`, and only be `1`, is not in the foreground.
Only-Behind : (js : List Job) → All (Only 0) js → All (Only 1) js → All Behind js
Only-Behind [] h i = tt
Only-Behind (j ∷ js) h i = (
  elim (Bool-cases (is_foreground j)) [ inl t ↦ absurd (omega (arith, h.0 t, i.0 t)) | inr t ↦ t ],
  Only-Behind js h.1 i.1,
)

-- What becomes of a wait for `jid`, when no other job is in the foreground.
abbrev pub Waited : Wait → Type 0
Waited (over js) = AtPrompt js
Waited (waiting js) = Inv js
Waited fault = Unit {0}

pub waitfg-Waited :
    (jid : ℕ) (batches : List (List (ℕ × Status))) (js : List Job)
    → Inv js
    → All (Only jid) js
    → Waited (waitfg jid batches js)
unfolding waitfg
waitfg-Waited jid [] js v o = elim (Bool-cases (left_foreground jid js)) [
  | inl t ↦ rw (t, Waited) record { inv = v; behind = left-Behind jid js v.distinct o t }
  | inr t ↦ rw (t, Waited) v
]
waitfg-Waited jid (batch ∷ batches) js v o = elim (Bool-cases (left_foreground jid js)) [
  | inl t ↦ rw (t, Waited) record { inv = v; behind = left-Behind jid js v.distinct o t }
  | inr t ↦
      rw (t, Waited)
        (elim (Option-cases (sigchld_handler batch js)) [
          | inl e ↦ rw (e, Waited) tt
          | inr ((js', sent), e) ↦
              rw (e, Waited)
                (waitfg-Waited jid batches js' (sigchld_handler-Inv batch js js' sent v e)
                  (sigchld_handler-Only jid batch js js' sent o e))
        ])
]

handler-AtPrompt :
    (batch : List (ℕ × Status)) (js js' : List Job) (sent : List _)
    → AtPrompt js
    → sigchld_handler batch js ≡ some (js', sent)
    → AtPrompt js'
handler-AtPrompt batch js js' sent a e = record {
  inv = sigchld_handler-Inv batch js js' sent a.inv e;
  behind =
      Only-Behind js' (sigchld_handler-Only 0 batch js js' sent (all_Only 0 js a.behind) e)
        (sigchld_handler-Only 1 batch js js' sent (all_Only 1 js a.behind) e);
}

-- The list behind the reports, if no handler faults.
abbrev pub Delivered : Option (List Job) → Type 0
Delivered none = Unit {0}
Delivered (some js) = AtPrompt js

pub deliver-Delivered :
    (batches : List (List (ℕ × Status))) (js : List Job)
    → AtPrompt js
    → Delivered (deliver batches js)
unfolding deliver
deliver-Delivered [] js a = a
deliver-Delivered (batch ∷ batches) js a = elim (Option-cases (sigchld_handler batch js)) [
  | inl e ↦ rw (e, Delivered) tt
  | inr ((js', sent), e) ↦
      rw (e, Delivered) (deliver-Delivered batches js' (handler-AtPrompt batch js js' sent a e))
]

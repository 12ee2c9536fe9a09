-- ===== src/Shell/Signals/Waiting.antt =====
-- PA4/src/csapsh.c, `waitfg`: when the busy wait ends.
use sysprog.Base.{
  ◌∙◌, false, ℕ, ◌≡◌, refl, true, false, none, some, List, [], ◌∷◌, length, arith, inl, inr,
  Bool-cases, Option-cases,
}
use sysprog.JobControl.{Job, getjob_jid, foreground}
use sysprog.Shell.Signals.{
  Call, Status, sigchld_handler, left_foreground, Wait, over, waiting, fault, waitfg,
}
use sysprog.Shell.Signals.Reap.{Inv, GoneFrom, sigchld_handler-Inv, sigchld_handler_gone}

-- What each outcome of the wait says of the job list at that moment.
abbrev pub Outcome : ℕ → Wait → Type 0
Outcome jid (over js) = Inv js × (left_foreground jid js ≡ true)
Outcome jid (waiting js) = Inv js × (left_foreground jid js ≡ false)
Outcome jid fault = Unit {0}

-- `waitfg` ends only when the job has left the foreground, still waits only while it is there, and
-- the job list keeps its invariant throughout.
pub waitfg-Outcome :
    (jid : ℕ) (batches : List (List (ℕ × Status))) (js : List Job)
    → Inv js
    → Outcome jid (waitfg jid batches js)
unfolding waitfg
waitfg-Outcome jid [] js v = elim (Bool-cases (left_foreground jid js)) [
  | inl t ↦ rw t (v, t)
  | inr t ↦ rw t (v, t)
]
waitfg-Outcome jid (batch ∷ batches) js v = elim (Bool-cases (left_foreground jid js)) [
  | inl t ↦ rw t (v, t)
  | inr t ↦ rw t (elim (Option-cases (sigchld_handler batch js)) [
    | inl e ↦ rw e tt
    | inr ((js', sent), e) ↦
        rw e (waitfg-Outcome jid batches js' (sigchld_handler-Inv batch js js' sent v e))
  ])
]

waitfg_done :
    (jid : ℕ) (bs : List (List (ℕ × Status))) (js : List Job)
    → left_foreground jid js ≡ true
    → waitfg jid bs js ≡ over js
unfolding waitfg
waitfg_done jid [] js e = rw e
waitfg_done jid (b ∷ bs) js e = rw e

waitfg_round :
    (jid : ℕ) (batch : List (ℕ × Status)) (bs : List (List (ℕ × Status))) (js js' : List Job)
    (sent : List Call)
    → left_foreground jid js ≡ false
    → sigchld_handler batch js ≡ some (js', sent)
    → waitfg jid (batch ∷ bs) js ≡ waitfg jid bs js'
unfolding waitfg
waitfg_round jid batch bs js js' sent e h = rw e (rw h)

-- A wait for a foreground job ends once all of its processes are reported gone, and the job is
-- then no longer listed.
pub waitfg_gone :
    (batch : List (ℕ × Status)) (batches : List (List (ℕ × Status))) (js : List Job) (j : Job)
    → Inv js
    → getjob_jid j.jid js ≡ some j
    → j.state ≡ foreground
    → GoneFrom js j batch
    → length batch ≡ j.nproc_cur
    → (js' : List Job) × (waitfg j.jid (batch ∷ batches) js ≡ over js')
      × (getjob_jid j.jid js' ≡ none)
unfolding waitfg
waitfg_gone batch batches js j v h fg g n =
    let (js', runs, left) = sigchld_handler_gone batch js j v h g (ground arith) in
    let none_left : getjob_jid j.jid js' ≡ none = ground arith in
    let there : left_foreground j.jid js ≡ false = rw (h, left_foreground) (rw fg refl) in
    (
      js',
      waitfg_round j.jid batch batches js js' [] there runs
          ∙ waitfg_done j.jid batches js' (rw (none_left, left_foreground) refl),
      none_left,
    )

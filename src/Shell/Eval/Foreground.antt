-- ===== src/Shell/Eval/Foreground.antt =====
-- PA4/src/csapsh.c: which job is in the foreground while the handlers run.
use sysprog.Base.{
  ℕ, ◌≡◌, ◌≢◌, refl, subst, Bool, true, false, not, Option, none, some, List, [], ◌∷◌, All, arith,
  ◌==◌, inl, inr, Bool-cases, Option-cases, ==→eq,
}
use sysprog.JobControl.{Job, undefined, stopped, update, has_pid, getjob_pid, find, is_foreground}
use sysprog.JobControl.Ids.{Distinct}
use sysprog.JobControl.Update.{foreground_count, All-deletejob}
use sysprog.Shell.Signals.{
  Status, if_exited, if_stopped, if_continued, if_signaled, Call, dec, one_less, set_state,
  finish_in, finish, stop_in, continue_in, reap, sigchld_handler, ◌>>=◌, left_foreground,
}

All-update {ℓ} :
    (P : Job → Type ℓ) (f : Job → Job) (test : Job → Bool) (js : List Job)
    → ((j : Job) → P j → P (f j))
    → All P js
    → All P (update test f js)
unfolding update
All-update P f test [] k h = tt
All-update P f test (j ∷ js) k h = elim (Bool-cases (test j)) [
  | inl t ↦ rw (t, update) (k j h.0, h.1)
  | inr t ↦ rw (t, update) (h.0, All-update P f test js k h.1)
]

-- In the foreground there is no job but `jid`.
abbrev pub Only : ℕ → Job → Type 0
Only jid j = is_foreground j ≡ true → j.jid ≡ jid

module _ (jid : ℕ) where
  finish_in-Only :
      (p : ℕ) (o : Option Job) (js : List Job)
      → All (Only jid) js
      → All (Only jid) (finish_in p o js)
  unfolding finish_in
  finish_in-Only p none js h = h
  finish_in-Only p (some j) js h =
      let less = All-update (Only jid) one_less (has_pid p) js (λ i k. k) h in
      elim (Bool-cases (dec j.nproc_cur == 0)) [
        | inl t ↦
            rw (t, finish_in)
              (All-deletejob (Only jid) j.jid _ (
                All-update (Only jid) (set_state undefined) (has_pid p) _ (λ i k e. absurd cc)
                  less))
        | inr t ↦ rw (t, finish_in) less
      ]

  stop_in-Only :
      (p : ℕ) (o : Option Job) (js js' : List Job) (sent : List Call)
      → All (Only jid) js
      → stop_in p o js ≡ some (js', sent)
      → All (Only jid) js'
  unfolding stop_in
  stop_in-Only p none js js' sent h e = cc
  stop_in-Only p (some j) js js' sent h e =
      let stops = All-update (Only jid) (set_state stopped) (has_pid p) js (λ i k e. absurd cc) h in
      ground (arith, h, stops)

  reap-Only :
      (p : ℕ) (s : Status) (js js' : List Job) (sent : List Call)
      → All (Only jid) js
      → reap p s js ≡ some (js', sent)
      → All (Only jid) js'
  unfolding reap finish
  reap-Only p if_exited js js' sent h e = ground (arith, finish_in-Only p (getjob_pid p js) js h)
  reap-Only p if_signaled js js' sent h e = ground (arith, finish_in-Only p (getjob_pid p js) js h)
  reap-Only p if_continued js js' sent h e = ground (arith, continue_in)
  reap-Only p if_stopped js js' sent h e = stop_in-Only p (getjob_pid p js) js js' sent h e

  pub sigchld_handler-Only :
      (reports : List (ℕ × Status)) (js js' : List Job) (sent : List Call)
      → All (Only jid) js
      → sigchld_handler reports js ≡ some (js', sent)
      → All (Only jid) js'
  unfolding sigchld_handler
  sigchld_handler-Only [] js js' sent h e = ground arith
  sigchld_handler-Only ((p, s) ∷ rs) js js' sent h e = elim (Option-cases (reap p s js)) [
    | inl r ↦ cc (rw (r, ◌>>=◌) at e)
    | inr ((mid, early), r) ↦ elim (Option-cases (sigchld_handler rs mid)) [
      | inl r' ↦ cc (rw (r, ◌>>=◌, r') at e)
      | inr ((last, later), r') ↦
          subst (All (Only jid)) (ground arith)
            (sigchld_handler-Only rs mid last later (reap-Only p s js mid early h r) r')
    ]
  ]

-- No job is in the foreground.
abbrev pub Behind : Job → Type 0
Behind j = is_foreground j ≡ false

pub foreground_count-none : (js : List Job) → All Behind js → foreground_count js ≡ 0
unfolding foreground_count
foreground_count-none [] h = refl
foreground_count-none (j ∷ js) h = rw (h.0) (omega (arith, foreground_count-none js h.1))

pub none-Behind : (js : List Job) → foreground_count js ≡ 0 → All Behind js
unfolding foreground_count
none-Behind [] h = tt
none-Behind (j ∷ js) h = (ground arith, none-Behind js (omega arith))

others : (jid : ℕ) (js : List Job) → All (λ k. k.jid ≢ jid) js → All (Only jid) js → All Behind js
others jid [] d h = tt
others jid (j ∷ js) d h = (
  elim (Bool-cases (is_foreground j)) [ inl t ↦ absurd (d.0 (h.0 t)) | inr t ↦ t ],
  others jid js d.1 h.1,
)

not-true : (b : Bool) → not b ≡ true → b ≡ false
not-true true e = absurd cc
not-true false e = refl

==→ne : (a b : ℕ) → (a == b) ≡ false → a ≢ b
==→ne a b h = ground arith

-- When the only job that may be in the foreground has left it, no job is there.
pub left-Behind :
    (jid : ℕ) (js : List Job)
    → Distinct js
    → All (Only jid) js
    → left_foreground jid js ≡ true
    → All Behind js
unfolding find
left-Behind jid [] d h e = tt
left-Behind jid (j ∷ js) d h e = elim (Bool-cases (j.jid == jid)) [
  | inl t ↦
      let away : not (is_foreground j) ≡ true = rw (t, left_foreground) at e in
      (
        not-true (is_foreground j) away,
        others jid js (subst (λ x. All (λ k. k.jid ≢ x) js) (==→eq j.jid jid t) d.0) h.1,
      )
  | inr t ↦ (
    elim (Bool-cases (is_foreground j)) [ inl f ↦ absurd (==→ne j.jid jid t (h.0 f)) | inr f ↦ f ],
    left-Behind jid js d.1 h.1 (rw (t, left_foreground) at e),
  )
]

-- ===== src/Shell/Signals/Reap.antt =====
-- PA4/src/csapsh.c, `sigchld_handler`: what the reports of `waitpid` do to the job list.
use sysprog.Base.{
  ℕ, ◌-◌, ◌^◌, ◌≤◌, ◌<◌, ◌≡◌, refl, ◌∙◌, true, false, Option, none, some, List, [], ◌∷◌, All, arith,
  ◌==◌, subst, inl, inr, Bool-cases, Option-cases, if◌then◌else◌, length, ◌⊎◌,
}
use sysprog.JobControl.{
  Job, JobState, undefined, stopped, state_eq, update, deletejob, has_pid, getjob_jid, getjob_pid,
}
use sysprog.JobControl.Ids.{Distinct, deletejob-Distinct, deletejob_lem}
use sysprog.JobControl.Update.{
  KeepsIds, All-find, update-Distinct, getjob_jid-update, getjob_pid-update, deletejob-update,
  All-update_found, foreground_count, foreground_count-update, All-deletejob,
  foreground_count-deletejob,
}
use sysprog.Shell.Signals.{
  Status, if_exited, if_stopped, if_continued, if_signaled, Call, kill, sigstop, dec, one_less,
  set_state, finish_in, finish, stop_in, continue_in, reap, sigchld_handler, ◌>>=◌,
}

one_less-KeepsIds : KeepsIds one_less
one_less-KeepsIds = record { same_jid = λ j. refl; same_pid = λ j. refl; same_tot = λ j. refl }

pub set_state-KeepsIds : (s : JobState) → KeepsIds (set_state s)
set_state-KeepsIds s = record { same_jid = λ j. refl; same_pid = λ j. refl; same_tot = λ j. refl }

-- A job in the list has a process left, and counts no more than it started with.
abbrev pub Counted : Job → Type 0
Counted j = (0 < j.nproc_cur) × (j.nproc_cur ≤ j.nproc_tot) × (j.nproc_tot < 2 ^ 31)

-- The job list between two events.
pub record Inv (jobs : List Job) : Type 0 where
  pub distinct : Distinct jobs
  pub counted : All Counted jobs
  pub one_foreground : foreground_count jobs ≤ 1

-- The two outcomes of a process that is gone, without the writes that a deletion undoes.
pub finish-cases :
    (p : ℕ) (js : List Job) (j : Job)
    → Inv js
    → getjob_pid p js ≡ some j
    → finish p js
      ≡ (if j.nproc_cur == 1 then (deletejob j.jid js).0 else update (has_pid p) one_less js)
unfolding finish
finish-cases p js j v e =
    let c = All-find Counted (has_pid p) js j v.counted e in
    let found = getjob_pid-update one_less one_less-KeepsIds p p js j v.distinct e e in
    let gone = deletejob-update one_less one_less-KeepsIds p js j v.distinct e in
    let cleared =
      deletejob-update (set_state undefined) (set_state-KeepsIds undefined) p
        (update (has_pid p) one_less js) (one_less j)
        (update-Distinct one_less one_less-KeepsIds (has_pid p) js v.distinct) found in
    rw (e, finish_in)
      (elim (Bool-cases (j.nproc_cur == 1)) [
        | inl t ↦
            let last : (dec j.nproc_cur == 0) ≡ true = ground arith in rw (t, last) (cleared ∙ gone)
        | inr t ↦ let more : (dec j.nproc_cur == 0) ≡ false = ground arith in rw (t, more) refl
      ])

deletejob-Inv : (jid : ℕ) (js : List Job) → Inv js → Inv (deletejob jid js).0
deletejob-Inv jid js v = record {
  distinct = deletejob-Distinct jid js v.distinct;
  counted = All-deletejob Counted jid js v.counted;
  one_foreground = omega (arith, foreground_count-deletejob jid js, v.one_foreground);
}

finish-Inv : (p : ℕ) (js : List Job) → Inv js → Inv (finish p js)
finish-Inv p js v = elim (Option-cases (getjob_pid p js)) [
  | inl e ↦ unfold finish in rw (e, finish_in) v
  | inr (j, e) ↦ rw (finish-cases p js j v e) (elim (Bool-cases (j.nproc_cur == 1)) [
    | inl t ↦ rw t (deletejob-Inv j.jid js v)
    | inr t ↦ rw t (record {
      distinct = update-Distinct one_less one_less-KeepsIds (has_pid p) js v.distinct;
      counted =
          let c = All-find Counted (has_pid p) js j v.counted e in
          All-update_found one_less one_less-KeepsIds Counted (has_pid p) js j e v.counted
            (ground arith);
      one_foreground = omega (
        arith,
        foreground_count-update one_less one_less-KeepsIds (has_pid p) js (λ i h. h),
        v.one_foreground,
      );
    })
  ])
]

stop-Inv :
    (p : ℕ) (js : List Job) (j : Job)
    → getjob_pid p js ≡ some j
    → Inv js
    → Inv (update (has_pid p) (set_state stopped) js)
stop-Inv p js j e v = record {
  distinct =
      update-Distinct (set_state stopped) (set_state-KeepsIds stopped) (has_pid p) js v.distinct;
  counted =
      All-update_found (set_state stopped) (set_state-KeepsIds stopped) Counted (has_pid p) js j e
        v.counted (All-find Counted (has_pid p) js j v.counted e);
  one_foreground = omega (
    arith,
    foreground_count-update (set_state stopped) (set_state-KeepsIds stopped) (has_pid p) js
        (λ i h. cc),
    v.one_foreground,
  );
}

stop_in-Inv :
    (p : ℕ) (o : Option Job) (js js' : List Job) (sent : List Call)
    → getjob_pid p js ≡ o
    → Inv js
    → stop_in p o js ≡ some (js', sent)
    → Inv js'
unfolding stop_in
stop_in-Inv p none js js' sent e v h = cc
stop_in-Inv p (some j) js js' sent e v h = ground (arith, stop-Inv p js j e v)

reap-Inv :
    (p : ℕ) (s : Status) (js js' : List Job) (sent : List Call)
    → Inv js
    → reap p s js ≡ some (js', sent)
    → Inv js'
unfolding reap
reap-Inv p if_exited js js' sent v e = ground (arith, finish-Inv p js v)
reap-Inv p if_signaled js js' sent v e = ground (arith, finish-Inv p js v)
reap-Inv p if_continued js js' sent v e = ground (arith, continue_in)
reap-Inv p if_stopped js js' sent v e = stop_in-Inv p (getjob_pid p js) js js' sent refl v e

-- Whatever `waitpid` reports, and in whatever order: if the handler returns, job ids stay
-- distinct, every listed job has between one and all of its processes left, and at most one job is
-- in the foreground.
pub sigchld_handler-Inv :
    (reports : List (ℕ × Status)) (js js' : List Job) (sent : List Call)
    → Inv js
    → sigchld_handler reports js ≡ some (js', sent)
    → Inv js'
unfolding sigchld_handler
sigchld_handler-Inv [] js js' sent v e = ground arith
sigchld_handler-Inv ((p, s) ∷ rs) js js' sent v e = elim (Option-cases (reap p s js)) [
  | inl h ↦ cc (rw (h, ◌>>=◌) at e)
  | inr ((mid, early), h) ↦ elim (Option-cases (sigchld_handler rs mid)) [
    | inl h' ↦ cc (rw (h, ◌>>=◌, h') at e)
    | inr ((last, later), h') ↦
        let v' = sigchld_handler-Inv rs mid last later (reap-Inv p s js mid early v h) h' in
        subst Inv (ground arith) v'
  ]
]

-- A report that a process is gone: it exited, or a signal ended it.
abbrev pub IsGone : Status → Type 0
IsGone s = (s ≡ if_exited) ⊎ (s ≡ if_signaled)

-- The reports are of processes of `j` that are gone.
abbrev pub GoneFrom : List Job → Job → List (ℕ × Status) → Type 0
GoneFrom js j = All (λ r. (getjob_pid r.0 js ≡ some j) × IsGone r.1)

GoneFrom-finish :
    (p : ℕ) (js : List Job) (j : Job) (rs : List (ℕ × Status))
    → Inv js
    → getjob_pid p js ≡ some j
    → GoneFrom js j rs
    → GoneFrom (update (has_pid p) one_less js) (one_less j) rs
GoneFrom-finish p js j [] v e g = tt
GoneFrom-finish p js j (r ∷ rs) v e g = (
  (getjob_pid-update one_less one_less-KeepsIds p r.0 js j v.distinct e g.0.0, g.0.1),
  GoneFrom-finish p js j rs v e g.1,
)

reap_gone : (p : ℕ) (s : Status) (js : List Job) → IsGone s → reap p s js ≡ some (finish p js, [])
unfolding reap
reap_gone p s js g = ground arith

-- The list after the handler, and what a search for the job finds there.
abbrev pub Leaves : Job → List (ℕ × Status) → List Job → Type 0
Leaves j reports js =
    (js' : List Job) × (sigchld_handler reports js ≡ some (js', []))
    × (getjob_jid j.jid js' ≡ (
        if j.nproc_cur == length reports
        then none
        else some (record j { nproc_cur = j.nproc_cur - length reports })))

Leaves-cons :
    (p : ℕ) (s : Status) (rs : List (ℕ × Status)) (js : List Job) (j : Job)
    → 1 < j.nproc_cur
    → j.nproc_cur < 2 ^ 31
    → IsGone s
    → finish p js ≡ update (has_pid p) one_less js
    → Leaves (one_less j) rs (update (has_pid p) one_less js)
    → Leaves j ((p, s) ∷ rs) js
unfolding sigchld_handler
Leaves-cons p s rs js j many small gone out (js', runs, left) =
    (js', rw (reap_gone p s js gone, out) (rw runs), rw left (ground arith))

Leaves-last :
    (p : ℕ) (s : Status) (js : List Job) (j : Job)
    → j.nproc_cur ≡ 1
    → Inv js
    → IsGone s
    → finish p js ≡ (deletejob j.jid js).0
    → Leaves j ((p, s) ∷ []) js
unfolding sigchld_handler
Leaves-last p s js j one v gone out = (
  (deletejob j.jid js).0,
  rw (reap_gone p s js gone, out),
  ground (arith, (deletejob_lem j.jid js v.distinct).0),
)

-- Each report that a process of a job is gone takes one off the job's count, and the report that
-- takes the last one off removes the job.
pub sigchld_handler_gone :
    (reports : List (ℕ × Status)) (js : List Job) (j : Job)
    → Inv js
    → getjob_jid j.jid js ≡ some j
    → GoneFrom js j reports
    → length reports ≤ j.nproc_cur
    → Leaves j reports js
unfolding sigchld_handler
sigchld_handler_gone [] js j v h g le =
    let c = All-find Counted _ js j v.counted h in (js, refl, ground (arith, h, c))
sigchld_handler_gone ((p, s) ∷ rs) js j v h g le =
    let c = All-find Counted _ js j v.counted h in
    let e = finish-cases p js j v g.0.0 in
    elim (Bool-cases (j.nproc_cur == 1)) [
      | inl t ↦ last rs (rw t at e) (ground arith) (ground arith)
      | inr t ↦
          let out : finish p js ≡ update (has_pid p) one_less js = rw t at e in
          Leaves-cons p s rs js j (ground arith) (omega arith) g.0.1 out (
            sigchld_handler_gone rs (update (has_pid p) one_less js) (one_less j)
              (rw out at (finish-Inv p js v))
              (getjob_jid-update one_less one_less-KeepsIds (has_pid p) js j v.distinct g.0.0)
              (GoneFrom-finish p js j rs v g.0.0 g.1) (ground arith))
    ]
  where
    last :
        (rs : List (ℕ × Status))
        → finish p js ≡ (deletejob j.jid js).0
        → j.nproc_cur ≡ 1
        → length rs < 1
        → Leaves j ((p, s) ∷ rs) js
    last [] out one le = Leaves-last p s js j one v g.0.1 out
    last (r ∷ rs) out one le = absurd (omega arith)

-- A stop report stops the job and sends SIGSTOP to its whole process group.
pub reap_stopped :
    (p : ℕ) (js : List Job) (j : Job)
    → Distinct js
    → getjob_jid j.jid js ≡ some j
    → getjob_pid p js ≡ some j
    → (js' : List Job) × (reap p if_stopped js ≡ some (js', kill j.pgid sigstop ∷ []))
      × (getjob_jid j.jid js' ≡ some (set_state stopped j))
unfolding reap stop_in
reap_stopped p js j d h e = elim (Bool-cases (state_eq j.state stopped)) [
  | inl t ↦ (js, rw (e, stop_in, t), ground (arith, h))
  | inr t ↦ (
    update (has_pid p) (set_state stopped) js,
    rw (e, stop_in, t),
    getjob_jid-update (set_state stopped) (set_state-KeepsIds stopped) (has_pid p) js j d e,
  )
]

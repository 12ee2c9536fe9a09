-- ===== src/Shell/Builtin/Jobs.antt =====
-- PA4/src/csapsh.c: what `bg` and `fg` do to the job list.
use sysprog.Base.{
  ℕ, ◌≡◌, refl, Bool, none, some, List, [], ◌∷◌, arith, inl, inr, Bool-cases, Option-cases,
  if◌then◌else◌, Bytes, codes, bytes_eq, ne→==, ◌≢◌,
}
use sysprog.JobControl.{
  Job, JobState, foreground, background, stopped, state_eq, find, update, getjob_jid, getjob_pgid,
  getjob_pid,
}
use sysprog.JobControl.Update.{
  All-find, update-Distinct, getjob_jid-update, All-update_found, foreground_count,
  foreground_count-update-suc,
}
use sysprog.Shell.Signals.{kill, sigcont, set_state}
use sysprog.Shell.Signals.Reap.{Inv, Counted, set_state-KeepsIds}
use sysprog.Shell.Builtin.{target, resume, resume_found, do_bgfg}

set_state-Inv :
    (s : JobState) (test : Job → Bool) (js : List Job) (j : Job)
    → find test js ≡ some j
    → foreground_count js ≡ 0
    → Inv js
    → Inv (update test (set_state s) js)
set_state-Inv s test js j e z v = record {
  distinct = update-Distinct (set_state s) (set_state-KeepsIds s) test js v.distinct;
  counted =
      All-update_found (set_state s) (set_state-KeepsIds s) Counted test js j e v.counted
        (All-find Counted test js j v.counted e);
  one_foreground =
      omega (arith, foreground_count-update-suc (set_state s) (set_state-KeepsIds s) test js);
}

-- What the README says of the argument: `%` stands in front of a job id, `@` in front of a process
-- group id, and a number alone is a process id.
pub data Named (atoi : Bytes → ℕ) : Bytes → List Job → Job → Type 0 where
  by_number :
      {js : List Job} {j : Job} (s : Bytes)
      → getjob_jid (atoi s) js ≡ some j
      → Named atoi (b'%' ∷ s) js j
  by_group :
      {js : List Job} {j : Job} (s : Bytes)
      → getjob_pgid (atoi s) js ≡ some j
      → Named atoi (b'@' ∷ s) js j
  by_process :
      {js : List Job} {j : Job} (c : ℕ) (s : Bytes)
      → c ≢ b'%'
      → c ≢ b'@'
      → getjob_pid (atoi (c ∷ s)) js ≡ some j
      → Named atoi (c ∷ s) js j

module _ (atoi : Bytes → ℕ) (emit_prompt : Bool) where
  -- With no job in the foreground, as at the prompt, `bg` and `fg` with any arguments keep the
  -- invariant of the job list: in particular at most one job is in the foreground afterwards.
  pub do_bgfg-Inv :
      (name : Bytes) (args : List Bytes) (js : List Job)
      → Inv js
      → foreground_count js ≡ 0
      → Inv (do_bgfg atoi emit_prompt name args js).jobs
  unfolding do_bgfg resume_found resume
  do_bgfg-Inv name [] js v z = v
  do_bgfg-Inv name (arg ∷ rest) js v z =
      elim (Option-cases (find (target atoi emit_prompt arg).test js)) [
        | inl e ↦ rw (e, resume_found) v
        | inr (j, e) ↦
            rw (e, resume_found)
              (elim (Bool-cases (bytes_eq name (codes "bg"))) [
                | inl b ↦ rw b (set_state-Inv background _ js j e z v)
                | inr b ↦ rw b (set_state-Inv foreground _ js j e z v)
              ])
      ]

  found_job :
      (name arg : Bytes) (rest : List Bytes) (js : List Job) (j : Job)
      → Inv js
      → find (target atoi emit_prompt arg).test js ≡ some j
      → let is_bg = bytes_eq name (codes "bg") in
        let effect = do_bgfg atoi emit_prompt name (arg ∷ rest) js in
        (getjob_jid j.jid effect.jobs
          ≡ some (set_state (if is_bg then background else foreground) j))
        × (effect.sent ≡ (if state_eq j.state stopped then kill j.pgid sigcont ∷ [] else []))
        × (effect.waits ≡ (if is_bg then none else some j.jid))
  unfolding do_bgfg resume_found resume
  found_job name arg rest js j v e =
      rw (e, resume_found)
        (elim (Bool-cases (bytes_eq name (codes "bg"))) [
          | inl b ↦ rw b (
            getjob_jid-update (set_state background) (set_state-KeepsIds background) _ js j
                v.distinct e,
            refl,
            refl,
          )
          | inr b ↦ rw b (
            getjob_jid-update (set_state foreground) (set_state-KeepsIds foreground) _ js j
                v.distinct e,
            refl,
            refl,
          )
        ])

  Named-found :
      (arg : Bytes) (js : List Job) (j : Job)
      → Named atoi arg js j
      → find (target atoi emit_prompt arg).test js ≡ some j
  unfolding target
  Named-found _ js j (by_number s e) = e
  Named-found _ js j (by_group s e) = e
  Named-found _ js j (by_process c s not_percent not_at e) =
      rw (ne→== c b'%' not_percent, ne→== c b'@' not_at) e

  -- When the argument names a job, as `%` and a job id, as `@` and a process group, or as a process
  -- id, then `bg` puts the job in the background and returns to the prompt, and `fg` puts it in the
  -- foreground and waits for it; both send SIGCONT to its process group if, and only if, it was
  -- stopped.
  pub do_bgfg_lem :
      (name arg : Bytes) (rest : List Bytes) (js : List Job) (j : Job)
      → Inv js
      → Named atoi arg js j
      → let is_bg = bytes_eq name (codes "bg") in
        let effect = do_bgfg atoi emit_prompt name (arg ∷ rest) js in
        (getjob_jid j.jid effect.jobs
          ≡ some (set_state (if is_bg then background else foreground) j))
        × (effect.sent ≡ (if state_eq j.state stopped then kill j.pgid sigcont ∷ [] else []))
        × (effect.waits ≡ (if is_bg then none else some j.jid))
  do_bgfg_lem name arg rest js j v n = found_job name arg rest js j v (Named-found arg js j n)

  -- An argument that leads to no job: a complaint, and nothing else.
  pub do_bgfg_missing :
      (name arg : Bytes) (rest : List Bytes) (js : List Job)
      → find (target atoi emit_prompt arg).test js ≡ none
      → do_bgfg atoi emit_prompt name (arg ∷ rest) js ≡ record {
        jobs = js;
        sent = [];
        printed = (target atoi emit_prompt arg).missing ∷ [];
        waits = none;
      }
  unfolding do_bgfg resume_found
  do_bgfg_missing name arg rest js e = rw (e, resume_found)

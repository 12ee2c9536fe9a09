-- ===== src/Shell/Builtin.antt =====
-- PA4/src/csapsh.c: `builtin_cmd` and `do_bgfg`. `atoi` is a parameter. A line that the shell
-- prints is a value; `perror` lines are left out.
pub mod Jobs
use sysprog.Base.{
  ℕ, Bool, true, false, ◌||◌, Option, none, some, List, [], ◌∷◌, ◌==◌, if◌then◌else◌, Bytes, codes,
  bytes_eq, map,
}
use sysprog.JobControl.{
  Job, JobState, foreground, background, stopped, state_eq, Line, find, update, has_jid, has_pgid,
  has_pid, printjob, listjobs,
}
use sysprog.Shell.Signals.{Call, kill, sigcont, set_state}

-- What the shell prints: a line of the job list, or a complaint of `do_bgfg`.
pub data Message : Type 0 where
  line : Line → Message
  argument_required : Bytes → Message
  no_such_job no_such_process_group no_such_process : ℕ → Message

-- The job list after a command, what it sent and printed, and the job that `waitfg` then waits for.
pub record Effect : Type 0 where
  pub jobs : List Job
  pub sent : List Call
  pub printed : List Message
  pub waits : Option ℕ

-- A command only prints.
abbrev pub prints : List Job → List Message → Effect
prints jobs ms = record { jobs = jobs; sent = []; printed = ms; waits = none }

-- What a built-in command does to the shell: nothing, since it is none; an effect; or its end.
pub data Builtin : Type 0 where
  not_builtin : Builtin
  builtin : Effect → Builtin
  quit : Builtin

-- How `do_bgfg` reads its argument: the search it makes, and the complaint when that fails.
pub record Target : Type 0 where
  pub test : Job → Bool
  pub missing : Message

abbrev pub by_jid : ℕ → Target
by_jid id = record { test = has_jid id; missing = no_such_job id }

abbrev pub by_pgid : ℕ → Target
by_pgid id = record { test = has_pgid id; missing = no_such_process_group id }

abbrev pub by_pid : ℕ → Target
by_pid id = record { test = has_pid id; missing = no_such_process id }

-- The part of `do_bgfg` behind the searches, for the job that one of them found.
unfoldable pub resume : Bool → Bool → (Job → Bool) → Job → List Job → Effect
resume emit_prompt is_bg test j jobs =
    let sent : List Call = if state_eq j.state stopped then kill j.pgid sigcont ∷ [] else [] in
    if is_bg
    then record {
      jobs = update test (set_state background) jobs;
      sent = sent;
      printed = line (printjob emit_prompt j.jid (update test (set_state background) jobs)) ∷ [];
      waits = none;
    }
    else record {
      jobs = update test (set_state foreground) jobs;
      sent = sent;
      printed = [];
      waits = some j.jid;
    }

unfoldable pub resume_found : Bool → Bool → Target → Option Job → List Job → Effect
unfolding resume
resume_found emit_prompt is_bg t none jobs = prints jobs (t.missing ∷ [])
resume_found emit_prompt is_bg t (some j) jobs = resume emit_prompt is_bg t.test j jobs

module _ (atoi : Bytes → ℕ) (emit_prompt : Bool) where
  unfoldable pub target : Bytes → Target
  target [] = by_pid (atoi [])
  target (c ∷ s) =
      if c == b'%'
      then by_jid (atoi s)
      else if c == b'@'
      then by_pgid (atoi s)
      else by_pid (atoi (c ∷ s))

  unfoldable pub do_bgfg : Bytes → List Bytes → List Job → Effect
  unfolding target
  do_bgfg name [] jobs = prints jobs (argument_required name ∷ [])
  do_bgfg name (arg ∷ rest) jobs =
      let t = target arg in
      resume_found emit_prompt (bytes_eq name (codes "bg")) t (find t.test jobs) jobs

  -- `builtin_cmd` on `argv[0]` and the words behind it.
  unfoldable pub builtin_cmd : Bytes → List Bytes → List Job → Builtin
  builtin_cmd name args jobs =
      if bytes_eq name (codes "quit")
      then quit
      else if bytes_eq name (codes "jobs")
      then builtin (prints jobs (map line (listjobs emit_prompt jobs)))
      else if bytes_eq name (codes "bg") || bytes_eq name (codes "fg")
      then builtin (do_bgfg name args jobs)
      else not_builtin

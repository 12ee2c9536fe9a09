-- ===== src/Shell/Eval.antt =====
-- PA4/src/csapsh.c: `eval`, as the shell itself runs it; what a child does is in Shell/Pipes.
--
-- For each job of the line, the process ids that `fork` gave and the batches of reports that
-- arrive while the shell waits for the job, or in front of the line that it prints for it, are an
-- argument. SIGCHLD is blocked from the first fork to the end of `addjob`.
-- The signals that handlers and built-in commands send are in Shell/Signals and Shell/Builtin.
pub mod Foreground
pub mod Prompt
pub mod Jobs
pub mod Line
use sysprog.Base.{
  ℕ, zero, suc, ◌+◌, Bool, true, false, not, ◌&&◌, Option, none, some, List, [], ◌∷◌, ◌++◌, ◌==◌,
  if◌then◌else◌, length, Bytes,
}
use sysprog.JobControl.{Job, JobState, foreground, state_eq, addjob, printjob}
use sysprog.Shell.Signals.{Status, Wait, over, waiting, fault, sigchld_handler, waitfg}
use sysprog.Shell.Builtin.{Message, line, Effect, Builtin, not_builtin, builtin, quit, builtin_cmd}
use sysprog.Shell.Parser.{Command, Parsed, parsed, refused, unfinished, parse_cmdline, is_empty}
use sysprog.Shell.Parser

-- What the kernel does for one job.
pub record Launch : Type 0 where
  pub pids : List ℕ
  pub batches : List (List (ℕ × Status))

-- `eval` is back at the prompt, still waits, or is stopped: by the built-in command `quit`, by a
-- null pointer, or by `addjob`: by an assertion, or by a text that is too long for a job.
pub data Evaluated : Type 0 where
  prompt : List Job → List Message → Evaluated
  still_waits : List Job → Evaluated
  quits faults asserts : Evaluated

-- `pid[0]`
abbrev pub first_pid : List ℕ → ℕ
first_pid [] = 0
first_pid (p ∷ ps) = p

-- The batches of reports, one after the other; `none` when a handler faults.
unfoldable pub deliver : List (List (ℕ × Status)) → List Job → Option (List Job)
deliver [] jobs = some jobs
deliver (batch ∷ batches) jobs = elim (sigchld_handler batch jobs) [
  | none ↦ none
  | some (jobs', sent) ↦ deliver batches jobs'
]

-- How `eval` goes on behind one job.
abbrev pub Rest : Type 0
Rest = List Job → List Message → Evaluated

abbrev pub after_wait : Wait → List Message → Rest → Evaluated
after_wait (over jobs) out rest = rest jobs out
after_wait (waiting jobs) out rest = still_waits jobs
after_wait fault out rest = faults

abbrev pub after_reports : Bool → ℕ → Option (List Job) → List Message → Rest → Evaluated
after_reports emit_prompt jid none out rest = faults
after_reports emit_prompt jid (some jobs) out rest =
    rest jobs (out ++ line (printjob emit_prompt jid jobs) ∷ [])

-- Behind `addjob`: the shell waits for a job in the foreground and prints one in the background.
unfoldable pub after_addjob :
    Bool → JobState → Launch → Option (List Job × ℕ) → List Message → Rest → Evaluated
after_addjob emit_prompt mode world none out rest = asserts
after_addjob emit_prompt mode world (some (jobs, jid)) out rest =
    if state_eq mode foreground
    then after_wait (waitfg jid world.batches jobs) out rest
    else after_reports emit_prompt jid (deliver world.batches jobs) out rest

-- The loop over the jobs, from the job number `i` on.
unfoldable pub eval_jobs : Bool → (ℕ → Launch) → ℕ → List Command → Rest
eval_jobs emit_prompt world i [] jobs out = prompt jobs out
eval_jobs emit_prompt world i (c ∷ cs) jobs out =
    let pids = (world i).pids in
    after_addjob emit_prompt c.mode (world i)
      (addjob (first_pid pids) pids (length c.argv) c.mode c.text jobs) out
      (eval_jobs emit_prompt world (suc i) cs)

-- A single command without an output file may be a built-in command.
abbrev pub is_single : List Command → Option (List Bytes)
is_single [] = none
is_single (c ∷ d ∷ cs) = none
is_single (c ∷ []) = elim c.outfile [
  | some file ↦ none
  | none ↦ elim c.argv [ [] ↦ none | args ∷ more ↦ if is_empty more then some args else none ]
]

module _ (atoi : Bytes → ℕ) (emit_prompt : Bool) (world : ℕ → Launch) where
  -- A built-in command that waits does so with the reports of the first job.
  abbrev pub after_builtin : Builtin → List Command → List Job → Evaluated
  after_builtin not_builtin cs jobs = eval_jobs emit_prompt world 0 cs jobs []
  after_builtin quit cs jobs = quits
  after_builtin (builtin e) cs jobs = elim e.waits [
    | none ↦ prompt e.jobs e.printed
    | some jid ↦ after_wait (waitfg jid (world 0).batches e.jobs) e.printed prompt
  ]

  unfoldable pub try_builtin : Option (List Bytes) → List Command → List Job → Evaluated
  try_builtin none cs jobs = eval_jobs emit_prompt world 0 cs jobs []
  try_builtin (some []) cs jobs = faults
  try_builtin (some (name ∷ args)) cs jobs =
      after_builtin (builtin_cmd atoi emit_prompt name args jobs) cs jobs

  unfoldable pub eval_parsed : Parsed → List Job → Evaluated
  eval_parsed (parsed []) jobs = prompt jobs []
  eval_parsed (parsed (c ∷ cs)) jobs = try_builtin (is_single (c ∷ cs)) (c ∷ cs) jobs
  eval_parsed (refused pos error) jobs = prompt jobs []
  eval_parsed Parser.fault jobs = faults
  eval_parsed unfinished jobs = still_waits jobs

  unfoldable pub eval : Bytes → List Job → Evaluated
  unfolding parse_cmdline
  eval cmdline jobs = eval_parsed (parse_cmdline cmdline) jobs

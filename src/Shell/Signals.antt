-- ===== src/Shell/Signals.antt =====
-- PA4/src/csapsh.c: `sigchld_handler`, `sigint_handler`, `sigtstp_handler` and `waitfg`.
--
-- A handler takes the job list and returns the new one with the signals it sends. The reports of
-- `waitpid` are an argument. `none` is the fault of a read through a null `Job *`. The results of
-- `kill` are not modelled: they only decide whether `perror` writes a line.
pub mod Reap
pub mod Waiting
use sysprog.Base.{
  ℕ, ◌+◌, ◌-◌, ◌%◌, ◌^◌, Bool, true, false, not, ◌&&◌, Option, none, some, List, [], ◌∷◌, ◌++◌,
  ◌==◌, if◌then◌else◌,
}
use sysprog.JobControl.{
  Job, JobState, undefined, foreground, stopped, state_eq, update, deletejob, has_pid, getjob_jid,
  getjob_pid, getjob_foreground,
}

-- The cases of a wait status: `WIFEXITED`, `WIFSTOPPED`, `WIFCONTINUED`, and death by a signal.
pub data Status : Type 0 where
  if_exited if_stopped if_continued if_signaled : Status

pub data Signal : Type 0 where
  sigint sigtstp sigstop sigcont : Signal

-- `kill(-pgid, signal)`
pub data Call : Type 0 where
  kill : ℕ → Signal → Call

-- `nproc_cur--` on an `int` pattern.
abbrev pub dec : ℕ → ℕ
dec n = (n + 2 ^ 32 - 1) % 2 ^ 32

abbrev pub one_less : Job → Job
one_less j = record j { nproc_cur = dec j.nproc_cur }

abbrev pub set_state : JobState → Job → Job
set_state s j = record j { state = s }

-- The branches of a process that is gone, for the job that `getjob_pid` found.
unfoldable pub finish_in : ℕ → Option Job → List Job → List Job
finish_in wpid none jobs = jobs
finish_in wpid (some j) jobs =
    let less = update (has_pid wpid) one_less jobs in
    if dec j.nproc_cur == 0
    then (deletejob j.jid (update (has_pid wpid) (set_state undefined) less)).0
    else less

unfoldable pub finish : ℕ → List Job → List Job
unfolding finish_in
finish wpid jobs = finish_in wpid (getjob_pid wpid jobs) jobs

unfoldable pub stop_in : ℕ → Option Job → List Job → Option (List Job × List Call)
stop_in wpid none jobs = none
stop_in wpid (some j) jobs = some (
  (if not (state_eq j.state stopped) then update (has_pid wpid) (set_state stopped) jobs else jobs),
  kill j.pgid sigstop ∷ [],
)

abbrev pub continue_in : Option Job → List Job → Option (List Job × List Call)
continue_in none jobs = none
continue_in (some j) jobs = some (jobs, kill j.pgid sigcont ∷ [])

-- One round of the loop of `sigchld_handler`.
unfoldable pub reap : ℕ → Status → List Job → Option (List Job × List Call)
unfolding stop_in
reap wpid if_exited jobs = some (finish wpid jobs, [])
reap wpid if_stopped jobs = stop_in wpid (getjob_pid wpid jobs) jobs
reap wpid if_continued jobs = continue_in (getjob_pid wpid jobs) jobs
reap wpid if_signaled jobs = some (finish wpid jobs, [])

infixl 5 ◌>>=◌
abbrev pub ◌>>=◌ {ℓ κ} : {A : Type ℓ} {B : Type κ} → Option A → (A → Option B) → Option B
none >>= f = none
some a >>= f = f a

-- The loop: one report for each positive result of `waitpid`.
unfoldable pub sigchld_handler : List (ℕ × Status) → List Job → Option (List Job × List Call)
sigchld_handler [] jobs = some (jobs, [])
sigchld_handler ((wpid, status) ∷ reports) jobs = do
  (jobs', sent) ← reap wpid status jobs
  (jobs'', later) ← sigchld_handler reports jobs'
  some (jobs'', sent ++ later)

abbrev pub forward : Signal → Option Job → List Call
forward signal none = []
forward signal (some j) = kill j.pgid signal ∷ []

pub sigint_handler : List Job → List Call
sigint_handler jobs = forward sigint (getjob_foreground jobs)

pub sigtstp_handler : List Job → List Call
sigtstp_handler jobs = forward sigtstp (getjob_foreground jobs)

-- The exit test of `waitfg`.
abbrev pub left_foreground : ℕ → List Job → Bool
left_foreground jid jobs = elim (getjob_jid jid jobs) [
  | none ↦ true
  | some j ↦ not (state_eq j.state foreground)
]

-- What became of a busy wait: it is over, or it goes on, or a handler faulted.
pub data Wait : Type 0 where
  over : List Job → Wait
  waiting : List Job → Wait
  fault : Wait

-- `waitfg`: during each `usleep` the reports of one batch arrive.
unfoldable pub waitfg : ℕ → List (List (ℕ × Status)) → List Job → Wait
waitfg jid [] jobs = if left_foreground jid jobs then over jobs else waiting jobs
waitfg jid (batch ∷ batches) jobs =
    if left_foreground jid jobs then over jobs else elim (sigchld_handler batch jobs) [
      | none ↦ fault
      | some (jobs', sent) ↦ waitfg jid batches jobs'
    ]

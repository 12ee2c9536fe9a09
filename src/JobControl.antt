-- ===== src/JobControl.antt =====
-- PA4/src/jobcontrol.c: the job list of the shell, newest job first.
--
-- An `int` or `pid_t` is its 32-bit pattern as a number; job ids stay far below 2 ^ 31, so the
-- comparison of `getmaxid` is that of numbers. A `Job *` that a search returns is used at once, so
-- a write through it is `update` of the first job that the same search finds.
pub mod Ids
pub mod Update
use sysprog.Base.{
  ℕ, zero, suc, ◌+◌, Bool, true, false, not, ◌&&◌, Option, none, some, List, [], ◌∷◌, map, ltb,
  ◌==◌, if◌then◌else◌, take, Bytes, length, ◌^◌,
}
use sysprog.Base.Int.{ℤ, pos, negsuc}

pub data JobState : Type 0 where
  undefined foreground background stopped : JobState

abbrev pub state_eq : JobState → JobState → Bool
state_eq undefined undefined = true
state_eq foreground foreground = true
state_eq background background = true
state_eq stopped stopped = true
state_eq _ _ = false

pub record Job : Type 0 where
  pub jid : ℕ
  pub pgid : ℕ
  pub pid : List ℕ
  pub nproc_tot : ℕ
  pub nproc_cur : ℕ
  pub state : JobState
  pub cmdline : Bytes

abbrev pub maxline : ℕ
maxline = 1024

-- The loop of `getmaxid`, at the id found so far.
unfoldable pub maxid_from : ℕ → List Job → ℕ
maxid_from id [] = id
maxid_from id (j ∷ js) = maxid_from (if ltb id j.jid then j.jid else id) js

unfoldable pub getmaxid : List Job → ℕ
unfolding maxid_from
getmaxid jobs = maxid_from 0 jobs

-- `n > 0` for an `int`
abbrev pub positive : ℕ → Bool
positive n = ltb 0 n && ltb n (2 ^ 31)

abbrev pub new_job : ℕ → ℕ → List ℕ → ℕ → JobState → Bytes → Job
new_job jid pgid pid nproc state cmdline = record {
  jid = jid;
  pgid = pgid;
  pid = pid;
  nproc_tot = nproc;
  nproc_cur = nproc;
  state = state;
  cmdline = take 1023 cmdline;
}

-- The new list and the id of the new job; `none` is a failed assertion on `pgid` or `nproc`, or a
-- text of more than MAXLINE bytes, which `memcpy` copies behind the end of its array.
unfoldable pub addjob : ℕ → List ℕ → ℕ → JobState → Bytes → List Job → Option (List Job × ℕ)
addjob pgid pid nproc state cmdline jobs =
    let jid = getmaxid jobs + 1 in
    if positive pgid && positive nproc && ltb (length cmdline) (maxline + 1)
    then some (new_job jid pgid pid nproc state cmdline ∷ jobs, jid)
    else none

-- The new list, and whether there was such a job.
unfoldable pub deletejob : ℕ → List Job → List Job × Bool
deletejob jid [] = ([], false)
deletejob jid (j ∷ js) =
    let rest = deletejob jid js in if j.jid == jid then (js, true) else (j ∷ rest.0, rest.1)

-- The walk that the searches share: the first job that passes the test.
unfoldable pub find : (Job → Bool) → List Job → Option Job
find test [] = none
find test (j ∷ js) = if test j then some j else find test js

-- A write through the pointer to that job.
unfoldable pub update : (Job → Bool) → (Job → Job) → List Job → List Job
update test f [] = []
update test f (j ∷ js) = if test j then f j ∷ js else j ∷ update test f js

abbrev pub has_jid : ℕ → Job → Bool
has_jid jid j = j.jid == jid

abbrev pub has_pgid : ℕ → Job → Bool
has_pgid pgid j = j.pgid == pgid

-- The loop over `j->pid[0 .. nproc_tot - 1]`.
unfoldable pub pid_among : ℕ → List ℕ → ℕ → Bool
pid_among zero pids pid = false
pid_among (suc n) [] pid = false
pid_among (suc n) (p ∷ ps) pid = if p == pid then true else pid_among n ps pid

abbrev pub has_pid : ℕ → Job → Bool
has_pid pid j = pid_among j.nproc_tot j.pid pid

abbrev pub is_foreground : Job → Bool
is_foreground j = state_eq j.state foreground

abbrev pub getjob_jid : ℕ → List Job → Option Job
getjob_jid jid = find (has_jid jid)

abbrev pub getjob_pgid : ℕ → List Job → Option Job
getjob_pgid pgid = find (has_pgid pgid)

abbrev pub getjob_pid : ℕ → List Job → Option Job
getjob_pid pid = find (has_pid pid)

abbrev pub getjob_foreground : List Job → Option Job
getjob_foreground = find is_foreground

-- What `print_job`, `printjob` and `listjobs` write; process ids are shown with a prompt only.
pub data Line : Type 0 where
  job_line : ℕ → ℤ → List ℤ → JobState → Bytes → Line
  job_not_found : ℕ → Line
  no_jobs : Line

abbrev shown : Bool → ℕ → ℤ
shown emit_prompt n = if emit_prompt then pos n else negsuc 0

abbrev pub print_job : Bool → Job → Line
print_job emit_prompt j =
    job_line j.jid (shown emit_prompt j.pgid) (map (shown emit_prompt) (take j.nproc_tot j.pid))
      j.state j.cmdline

pub printjob : Bool → ℕ → List Job → Line
printjob emit_prompt jid jobs = elim (getjob_jid jid jobs) [
  | none ↦ job_not_found jid
  | some j ↦ print_job emit_prompt j
]

pub listjobs : Bool → List Job → List Line
listjobs emit_prompt [] = no_jobs ∷ []
listjobs emit_prompt (j ∷ js) = map (print_job emit_prompt) (j ∷ js)

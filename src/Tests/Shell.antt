-- ===== src/Tests/Shell.antt =====
-- Runs of PA4/src: the job list, its signal handlers and built-in commands, and the pipes.
use sysprog.Base.{
  ℕ, ◌≡◌, inl, inr, refl, true, false, none, some, List, [], ◌∷◌, arith, Bytes, codes,
}
use sysprog.JobControl.{Job, foreground, stopped, deletejob, find, getjob_jid, pid_among, update}
use sysprog.JobControl.Update.{foreground_count}
use sysprog.Shell.Signals.{
  Status, if_exited, if_signaled, kill, sigcont, set_state, reap, finish, finish_in,
  sigchld_handler, over, waitfg,
}
use sysprog.Shell.Signals.Reap.{Inv, GoneFrom, Leaves, sigchld_handler-Inv, sigchld_handler_gone}
use sysprog.Shell.Signals.Waiting.{waitfg_gone}
use sysprog.Shell.Builtin.{target, do_bgfg}
use sysprog.Shell.Builtin.Jobs.{by_number, do_bgfg_lem}
use sysprog.Shell.Pipes.{p_read, p_write, child_calls}
use sysprog.Shell.Pipes.Plumbing.{closed, run, wired, start, run-child_calls, closed-child_calls}

-- A pipeline of two processes in the foreground, and a stopped job.
abbrev pipeline : Job
pipeline = record {
  jid = 2;
  pgid = 100;
  pid = 100 ∷ 101 ∷ [];
  nproc_tot = 2;
  nproc_cur = 2;
  state = foreground;
  cmdline = codes "ls | wc";
}

abbrev editor : Job
editor = record {
  jid = 1;
  pgid = 90;
  pid = 90 ∷ [];
  nproc_tot = 1;
  nproc_cur = 1;
  state = stopped;
  cmdline = codes "vi";
}

abbrev jobs : List Job
jobs = pipeline ∷ editor ∷ []

jobs-Inv : Inv jobs
unfolding foreground_count
jobs-Inv = record {
  distinct = ((omega arith, tt), (tt, tt));
  counted =
      ((omega arith, omega arith, omega arith), ((omega arith, omega arith, omega arith), tt));
  one_foreground = omega arith;
}

editor-Inv : Inv (editor ∷ [])
unfolding foreground_count
editor-Inv = record {
  distinct = (tt, tt);
  counted = ((omega arith, omega arith, omega arith), tt);
  one_foreground = omega arith;
}

abbrev both_gone : List (ℕ × Status)
both_gone = (101, if_exited) ∷ (100, if_signaled) ∷ []

both_gone-GoneFrom : GoneFrom jobs pipeline both_gone
unfolding find pid_among
both_gone-GoneFrom = ((refl, inl refl), ((refl, inr refl), tt))

handler_run : sigchld_handler both_gone jobs ≡ some (editor ∷ [], [])
unfolding sigchld_handler reap finish finish_in find pid_among update deletejob
handler_run = refl

-- After both processes of the pipeline are gone, the invariant holds.
sigchld_handler-Inv_example : Inv (editor ∷ [])
sigchld_handler-Inv_example =
    sigchld_handler-Inv both_gone jobs (editor ∷ []) [] jobs-Inv handler_run

-- The two reports take the pipeline off the list.
sigchld_handler_gone_example : Leaves pipeline both_gone jobs
unfolding find
sigchld_handler_gone_example =
    sigchld_handler_gone both_gone jobs pipeline jobs-Inv refl both_gone-GoneFrom (omega arith)

-- The wait for the pipeline while its processes end.
waitfg_gone_example :
    (js' : List Job) × (waitfg 2 (both_gone ∷ []) jobs ≡ over js') × (getjob_jid 2 js' ≡ none)
unfolding find
waitfg_gone_example =
    waitfg_gone both_gone [] jobs pipeline jobs-Inv refl refl both_gone-GoneFrom refl

-- An `atoi` for the argument of the runs below.
abbrev one : Bytes → ℕ
one s = 1

abbrev after_fg : List Job
after_fg = (do_bgfg one true (codes "fg") (codes "%1" ∷ []) (editor ∷ [])).jobs

-- `fg %1` wakes the editor and waits for it.
do_bgfg_lem_example :
    (getjob_jid 1 after_fg ≡ some (set_state foreground editor))
    × ((do_bgfg one true (codes "fg") (codes "%1" ∷ []) (editor ∷ [])).sent ≡ kill 90 sigcont ∷ [])
    × ((do_bgfg one true (codes "fg") (codes "%1" ∷ []) (editor ∷ [])).waits ≡ some 1)
unfolding find target
do_bgfg_lem_example =
    do_bgfg_lem one true (codes "fg") (codes "%1") [] (editor ∷ []) editor editor-Inv
      (by_number (codes "1") refl)

-- The last command of three, whose output file opens.
run-child_calls_example :
    run (λ f. true) (λ f. true) (child_calls 3 2 (some (codes "in")) (some (codes "out"))) [] start
    ≡ wired (λ f. true) (λ f. true) 3 2 (some (codes "in")) (some (codes "out"))
run-child_calls_example =
    run-child_calls (λ f. true) (λ f. true) 3 2 (some (codes "in")) (some (codes "out"))
      (omega arith)

-- The middle command of three keeps the read end of the pipe that it writes.
closed-child_calls_example :
    (closed (p_write 1) (child_calls 3 1 none none) ≡ true)
    × (closed (p_read 1) (child_calls 3 1 none none) ≡ false)
closed-child_calls_example = closed-child_calls 3 1 1 none none (omega arith) (omega arith)

-- ===== src/Tests/Eval.antt =====
-- Runs of PA4/src/csapsh.c, `eval`, on whole lines.
use sysprog.Base.{ℕ, ◌≡◌, refl, false, some, inl, inr, [], ◌∷◌, Bytes, codes, arith}
use sysprog.JobControl.{
  Job, stopped, find, update, deletejob, pid_among, addjob, getmaxid, maxid_from,
}
use sysprog.JobControl.Update.{foreground_count}
use sysprog.Shell.Signals.{if_exited, if_signaled, reap, finish, finish_in, sigchld_handler, waitfg}
use sysprog.Shell.Builtin.{builtin_cmd}
use sysprog.Shell.Parser.{
  isdelim, skip_whitespace, word, close_job, store, pipe_case, redirection_case, background_case,
  end_quote, read_word, word_case, newline_case, byte_case, round, finish_line, parse_loop,
  parse_cmdline,
}
use sysprog.Shell.Eval.{Launch, prompt, after_addjob, eval_jobs, try_builtin, eval_parsed, eval}
use sysprog.Shell.Eval.Prompt.{AtPrompt, Settled}
use sysprog.Shell.Main.{Turn, main}
use sysprog.Shell.Main.Sessions.{SettledMain, main-Settled}
use sysprog.Shell.Eval.Line.{Short, eval-Settled}

abbrev editor : Job
editor = record {
  jid = 1;
  pgid = 90;
  pid = 90 ∷ [];
  nproc_tot = 1;
  nproc_cur = 1;
  state = stopped;
  cmdline = codes "vi";
}

editor-AtPrompt : AtPrompt (editor ∷ [])
unfolding foreground_count
editor-AtPrompt = record {
  inv = record {
    distinct = (tt, tt);
    counted = ((omega arith, omega arith, omega arith), tt);
    one_foreground = omega arith;
  };
  behind = (refl, tt);
}

-- An `atoi` for lines without numbers.
abbrev atoi : Bytes → ℕ
atoi s = 0

-- Two processes, which end while the shell waits for them.
abbrev world : ℕ → Launch
world i = record {
  pids = 100 ∷ 101 ∷ [];
  batches = ((101, if_exited) ∷ (100, if_signaled) ∷ []) ∷ [];
}

-- A pipeline in the foreground, next to a stopped editor.
pipeline_run : eval atoi false world (codes "a|b\n") (editor ∷ []) ≡ prompt (editor ∷ []) []
unfolding isdelim skip_whitespace word close_job store pipe_case redirection_case background_case
    end_quote read_word word_case newline_case byte_case round finish_line parse_loop parse_cmdline
    eval eval_parsed try_builtin builtin_cmd eval_jobs after_addjob addjob getmaxid maxid_from
    waitfg sigchld_handler reap finish finish_in find pid_among update deletejob
pipeline_run = refl

short : Short (parse_cmdline (codes "a|b\n"))
unfolding isdelim skip_whitespace word close_job store pipe_case redirection_case background_case
    end_quote read_word word_case newline_case byte_case round finish_line parse_loop parse_cmdline
short = ((omega arith, omega arith), tt)

-- Behind the pipeline the shell is at the prompt.
eval-Settled_example : Settled (eval atoi false world (codes "a|b\n") (editor ∷ []))
eval-Settled_example =
    eval-Settled atoi false world (λ k. (omega arith, omega arith)) (codes "a|b\n") (editor ∷ [])
      (inr (cc, inr (cc, inr (cc, inl refl)))) short editor-AtPrompt

-- A session of one line, without a prompt.
abbrev turn : Turn
turn = record {
  arrived = [];
  input = record { line = some (codes "a|b\n"); ferror = false; feof = false };
  world = world;
}

main-Settled_example : SettledMain (main atoi (b'p' ∷ []) (turn ∷ []))
main-Settled_example =
    main-Settled atoi (b'p' ∷ []) (turn ∷ [])
      ((((inr (cc, inr (cc, inr (cc, inl refl)))), short), (λ i. (omega arith, omega arith))), tt)

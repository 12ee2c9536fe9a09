-- ===== src/Shell/Main/Sessions.antt =====
-- PA4/src/csapsh.c: the job list over a session of the shell.
use sysprog.Base.{
  ℕ, Bool, true, false, ◌||◌, ◌≡◌, refl, Option, none, some, List, [], ◌∷◌, All, inl, inr,
  Bool-cases, Option-cases, Bytes, arith,
}
use sysprog.JobControl.{Job}
use sysprog.JobControl.Update.{foreground_count}
use sysprog.Shell.Builtin.{Message}
use sysprog.Shell.Signals.Reap.{Inv}
use sysprog.Shell.Parser.{parse_cmdline}
use sysprog.Shell.Parser.Results.{Terminated}
use sysprog.Shell.Eval.{
  Evaluated, prompt, still_waits, quits, faults, asserts, first_pid, deliver, eval,
}
use sysprog.Shell.Eval.Prompt.{AtPrompt, Settled, Delivered, deliver-Delivered}
use sysprog.Shell.Eval.Jobs.{IsPid}
use sysprog.Shell.Eval.Line.{Short, eval-Settled}
use sysprog.Shell.Main.{
  Input, Turn, Session, asks, ends, waits, app_error, quit_called, null_pointer, assertion,
  after_eval, read_line, main_loop, main, read_options,
}

-- A line that ends with its newline, and is short.
abbrev pub IsLine : Bytes → Type 0
IsLine line = Terminated line × Short (parse_cmdline line)

-- `fgets` gives such a line, or NULL at the end of the input or after an error.
abbrev pub IsInput : Option Bytes → Input → Type 0
IsInput none input = (input.ferror || input.feof) ≡ true
IsInput (some line) input = IsLine line

-- What a round may bring: such a line, and process ids.
abbrev pub IsTurn : Turn → Type 0
IsTurn t = IsInput t.input.line t.input × ((i : ℕ) → IsPid (first_pid (t.world i).pids))

-- What each outcome of a session says of the job list.
abbrev pub SettledSession : Session → Type 0
SettledSession (asks jobs out) = AtPrompt jobs
SettledSession (ends jobs out) = AtPrompt jobs
SettledSession (waits jobs) = Inv jobs
SettledSession app_error = Unit {0}
SettledSession quit_called = Unit {0}
SettledSession null_pointer = Unit {0}
SettledSession assertion = ⊥

after_eval-Settled :
    (e : Evaluated) (rest : List Job → List Message → Session)
    → Settled e
    → ((jobs : List Job) (out : List Message) → AtPrompt jobs → SettledSession (rest jobs out))
    → SettledSession (after_eval e rest)
after_eval-Settled (prompt jobs out) rest s g = g jobs out s
after_eval-Settled (still_waits jobs) rest s g = s
after_eval-Settled quits rest s g = tt
after_eval-Settled faults rest s g = tt
after_eval-Settled asserts rest s g = s

module _ (atoi : Bytes → ℕ) (emit_prompt : Bool) where
  read_line-Settled :
      (input : Input) (l : Option Bytes) (cmdline : Bytes) (o : Option (List Job))
      (out : List (List Message)) (rest : Bytes → List Job → Session)
      → input.line ≡ l
      → IsInput l input
      → Delivered o
      → ((line : Bytes) (jobs : List Job)
          → IsLine line
          → AtPrompt jobs
          → SettledSession (rest line jobs))
      → SettledSession (read_line atoi emit_prompt input cmdline o out rest)
  unfolding read_line
  read_line-Settled input l cmdline none out rest e h d g = tt
  read_line-Settled input none cmdline (some jobs) out rest e h d g =
      elim (Bool-cases input.ferror) [
        | inl t ↦ rw (e, t, SettledSession) tt
        | inr t ↦ let at_end : input.feof ≡ true = rw t at h in rw (e, t, at_end, SettledSession) d
      ]
  read_line-Settled input (some line) cmdline (some jobs) out rest e h d g =
      elim (Bool-cases input.feof) [
        | inl t ↦ rw (e, t, SettledSession) d
        | inr t ↦ rw (e, t) (g line jobs h d)
      ]

  main_loop-Settled :
      (ts : List Turn) (cmdline : Bytes) (jobs : List Job) (out : List (List Message))
      → All IsTurn ts
      → AtPrompt jobs
      → SettledSession (main_loop atoi emit_prompt ts cmdline jobs out)
  unfolding main_loop
  main_loop-Settled [] cmdline jobs out h a = a
  main_loop-Settled (t ∷ ts) cmdline jobs out h a =
      read_line-Settled t.input t.input.line cmdline (deliver t.arrived jobs) out _ refl h.0.0
        (deliver-Delivered t.arrived jobs a)
        (λ line jobs' l a'.
          after_eval-Settled (eval atoi emit_prompt t.world line jobs') _
            (eval-Settled atoi emit_prompt t.world h.0.1 line jobs' l.0 l.1 a')
            (λ jobs'' printed a''. main_loop-Settled ts line jobs'' _ h.1 a''))

no_jobs-AtPrompt : AtPrompt []
unfolding foreground_count
no_jobs-AtPrompt = record {
  inv = record { distinct = tt; counted = tt; one_foreground = omega arith };
  behind = tt;
}

-- The outcome of `main`, if `usage` does not end it.
abbrev pub SettledMain : Option Session → Type 0
SettledMain none = Unit {0}
SettledMain (some s) = SettledSession s

-- Whatever options the shell gets, over any rounds in which `fgets` gives a line that has a newline, and no
-- null byte in front of it, or NULL at an end or an error, whose jobs have fewer than 2 ^ 31 commands and a text of at most 1024 bytes each, with ids
-- from 1 to 2 ^ 31 - 1 from `fork`, and any reports in front of each line, while the shell waits for
-- a job, and in front of the line that it prints for one, but none while a built-in command changes
-- the list: the assertions of `addjob` hold, and the text of each job fits in. When the shell asks
-- for a line, or is at the end of its input, the invariant of the job list holds and no job is in
-- the foreground; while it waits for a job, the invariant holds. A read error, `quit` or a null
-- pointer ends it.
pub main-Settled :
    (atoi : Bytes → ℕ) (options : List ℕ) (turns : List Turn)
    → All IsTurn turns
    → SettledMain (main atoi options turns)
unfolding main
main-Settled atoi options turns h =
    elim (Option-cases (read_options options (record { emit_prompt = true; verbose = false }))) [
      | inl e ↦ rw (e, SettledMain) tt
      | inr (o, e) ↦
          rw (e, SettledMain)
            (main_loop-Settled atoi o.emit_prompt turns [] [] [] h no_jobs-AtPrompt)
    ]

-- ===== src/Shell/Main.antt =====
-- PA4/src/csapsh.c: `main`, with its options and its read/eval loop, and `stripnewline`.
--
-- What `getopt` and `fgets` answer is an argument, and so are the reports that arrive while the shell
-- waits for a line. The calls that set up the streams and install the handlers are left out.
pub mod Sessions
use sysprog.Base.{
  ℕ, Bool, true, false, ◌&&◌, Option, none, some, List, [], ◌∷◌, ◌++◌, ◌==◌, if◌then◌else◌, Bytes,
}
use sysprog.JobControl.{Job}
use sysprog.Shell.Signals.{Status}
use sysprog.Shell.Builtin.{Message}
use sysprog.Shell.Eval.{
  Launch, Evaluated, prompt, still_waits, quits, faults, asserts, deliver, eval,
}

-- The string behind `str`, changed up to its null byte: a newline at its end is the new null byte.
pub stripnewline : Bytes → Bytes
stripnewline [] = []
stripnewline (c ∷ []) = if c == b'\n' then [] else c ∷ []
stripnewline (c ∷ d ∷ str) =
    let rest = stripnewline (d ∷ str) in if c == b'\n' then b' ' ∷ rest else c ∷ rest

-- The globals that the options set; `none` when `usage` ends the program.
pub record ShellOptions : Type 0 where
  pub emit_prompt : Bool
  pub verbose : Bool

unfoldable pub read_options : List ℕ → ShellOptions → Option ShellOptions
read_options [] o = some o
read_options (c ∷ cs) o =
    let with_v = read_options cs (record o { verbose = true }) in
    let with_p = read_options cs (record o { emit_prompt = false }) in
    if c == b'h' then none else if c == b'v' then with_v else if c == b'p' then with_p else none

-- What `fgets`, `ferror` and `feof` answer.
pub record Input : Type 0 where
  pub line : Option Bytes
  pub ferror : Bool
  pub feof : Bool

-- One round: the reports that arrive in front of the line, the line, and what the kernel does for
-- its jobs.
pub record Turn : Type 0 where
  pub arrived : List (List (ℕ × Status))
  pub input : Input
  pub world : ℕ → Launch

-- The shell asks for a line, has come to the end of the input, still waits for a job, or is stopped:
-- by `app_error`, by `quit`, by a null pointer, or by `addjob`.
pub data Session : Type 0 where
  asks ends : List Job → List (List Message) → Session
  waits : List Job → Session
  app_error quit_called null_pointer assertion : Session

-- The buffer behind a call of `fgets`, which leaves it alone when it answers `NULL`.
abbrev pub buffer : Option Bytes → Bytes → Bytes
buffer none cmdline = cmdline
buffer (some line) cmdline = line

-- How the loop goes on behind `eval`.
abbrev pub after_eval : Evaluated → (List Job → List Message → Session) → Session
after_eval (prompt jobs out) rest = rest jobs out
after_eval (still_waits jobs) rest = waits jobs
after_eval quits rest = quit_called
after_eval faults rest = null_pointer
after_eval asserts rest = assertion

abbrev pub is_none {ℓ} : {A : Type ℓ} → Option A → Bool
is_none none = true
is_none (some x) = false

module _ (atoi : Bytes → ℕ) (emit_prompt : Bool) where
  -- The test behind `fgets`, for the list that the reports leave.
  unfoldable pub read_line :
      Input
      → Bytes
      → Option (List Job)
      → List (List Message)
      → (Bytes → List Job → Session)
      → Session
  read_line input cmdline none out rest = null_pointer
  read_line input cmdline (some jobs) out rest =
      if is_none input.line && input.ferror
      then app_error
      else if input.feof
      then ends jobs out
      else rest (buffer input.line cmdline) jobs

  -- The loop of `main`.
  unfoldable pub main_loop : List Turn → Bytes → List Job → List (List Message) → Session
  main_loop [] cmdline jobs out = asks jobs out
  main_loop (t ∷ ts) cmdline jobs out =
      read_line t.input cmdline (deliver t.arrived jobs) out (λ line jobs'.
        after_eval (eval atoi emit_prompt t.world line jobs')
          (λ jobs'' printed. main_loop ts line jobs'' (out ++ printed ∷ [])))

-- `main`: the options, and then the loop, at first with no job and an empty buffer. `none` is an exit through `usage`.
unfoldable pub main : (Bytes → ℕ) → List ℕ → List Turn → Option Session
unfolding read_options
main atoi options turns =
    elim (read_options options (record { emit_prompt = true; verbose = false })) [
      | none ↦ none
      | some o ↦ some (main_loop atoi o.emit_prompt turns [] [] [])
    ]

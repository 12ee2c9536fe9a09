-- ===== src/Shell/Eval/Line.antt =====
-- PA4/src/csapsh.c: the job list behind a whole line.
use sysprog.Base.{
  ℕ, refl, Bool, ◌||◌, Option, none, some, List, [], ◌∷◌, All, inl, inr, Bool-cases, Option-cases,
  Bytes, bytes_eq, length, codes,
}
use sysprog.JobControl.{Job, foreground, background, find}
use sysprog.JobControl.Update.{All-update_found}
use sysprog.Shell.Signals.{set_state, waitfg}
use sysprog.Shell.Signals.Reap.{Inv, set_state-KeepsIds}
use sysprog.Shell.Builtin.{
  Builtin, not_builtin, builtin, quit, builtin_cmd, do_bgfg, resume, resume_found, target,
}
use sysprog.Shell.Builtin.Jobs.{do_bgfg-Inv}
use sysprog.Shell.Parser.{Command, Parsed, parsed, refused, unfinished, parse_cmdline, is_empty}
use sysprog.Shell.Parser
use sysprog.Shell.Parser.Results.{IsJob, NonEmpty, Terminated, Returned}
use sysprog.Shell.Parser.Returns.{parse_cmdline-Returned}
use sysprog.Shell.Eval.{
  Launch, first_pid, is_single, after_wait, after_builtin, try_builtin, eval_parsed, eval, prompt,
}
use sysprog.Shell.Eval.Foreground.{Only, Behind, foreground_count-none}
use sysprog.Shell.Eval.Prompt.{AtPrompt, Settled, waitfg-Waited, all_Only}
use sysprog.Shell.Eval.Jobs.{IsPid, IsShort, after_wait-Settled, eval_jobs-Settled}

-- Ready for what a built-in command does next: the prompt, or a wait for one job.
abbrev Ready : Option ℕ → List Job → Type 0
Ready none js = All Behind js
Ready (some jid) js = All (Only jid) js

abbrev Built : Builtin → Type 0
Built not_builtin = Unit {0}
Built quit = Unit {0}
Built (builtin e) = Inv e.jobs × Ready e.waits e.jobs

-- The jobs of a parsed line have fewer than 2 ^ 31 commands and at most 1024 bytes each.
abbrev pub Short : Parsed → Type 0
Short (parsed cs) = All IsShort cs
Short _ = Unit {0}

-- A single command has a word for the program.
abbrev Named : Option (List Bytes) → Type 0
Named none = Unit {0}
Named (some args) = NonEmpty args

module _ (atoi : Bytes → ℕ) (emit_prompt : Bool) where
  do_bgfg-Ready :
      (name : Bytes) (args : List Bytes) (js : List Job)
      → All Behind js
      → let e = do_bgfg atoi emit_prompt name args js in Ready e.waits e.jobs
  unfolding do_bgfg resume_found resume
  do_bgfg-Ready name [] js b = b
  do_bgfg-Ready name (arg ∷ rest) js b =
      elim (Option-cases (find (target atoi emit_prompt arg).test js)) [
        | inl e ↦ rw (e, resume_found) b
        | inr (j, e) ↦
            rw (e, resume_found)
              (elim (Bool-cases (bytes_eq name (codes "bg"))) [
                | inl t ↦ rw t (
                    All-update_found (set_state background) (set_state-KeepsIds background) Behind _
                      js j e b refl)
                | inr t ↦ rw t (
                    All-update_found (set_state foreground) (set_state-KeepsIds foreground)
                      (Only j.jid) _ js j e (all_Only j.jid js b) (λ i. refl))
              ])
      ]

  builtin_cmd-Built :
      (name : Bytes) (args : List Bytes) (js : List Job)
      → AtPrompt js
      → Built (builtin_cmd atoi emit_prompt name args js)
  unfolding builtin_cmd
  builtin_cmd-Built name args js a = elim (Bool-cases (bytes_eq name (codes "quit"))) [
    | inl q ↦ rw (q, Built) tt
    | inr q ↦ rw q (elim (Bool-cases (bytes_eq name (codes "jobs"))) [
      | inl l ↦ rw (l, Built) (a.inv, a.behind)
      | inr l ↦ rw l (elim (Bool-cases (bytes_eq name (codes "bg") || bytes_eq name (codes "fg"))) [
        | inl t ↦
            rw (t, Built)
              (
                do_bgfg-Inv atoi emit_prompt name args js a.inv (foreground_count-none js a.behind),
                do_bgfg-Ready name args js a.behind,
              )
        | inr t ↦ rw (t, Built) tt
      ])
    ])
  ]

  module _ (world : ℕ → Launch) (forks : (k : ℕ) → IsPid (first_pid (world k).pids)) where
    after_builtin-Settled :
        (b : Builtin) (cs : List Command) (js : List Job)
        → Built b
        → All IsJob cs
        → All IsShort cs
        → AtPrompt js
        → Settled (after_builtin atoi emit_prompt world b cs js)
    after_builtin-Settled not_builtin cs js u h s a =
        eval_jobs-Settled emit_prompt world 0 cs js [] forks h s a
    after_builtin-Settled quit cs js u h s a = tt
    after_builtin-Settled (builtin e) cs js u h s a = waits e.waits u.1
      where
        waits :
            (o : Option ℕ)
            → Ready o e.jobs
            → Settled (elim o [
              | none ↦ prompt e.jobs e.printed
              | some jid ↦ after_wait (waitfg jid (world 0).batches e.jobs) e.printed prompt
            ])
        waits none r = record { inv = u.0; behind = r }
        waits (some jid) r =
            after_wait-Settled (waitfg jid (world 0).batches e.jobs) e.printed prompt
              (waitfg-Waited jid (world 0).batches e.jobs u.0 r) (λ js' out' a'. a')

    try_builtin-Settled :
        (o : Option (List Bytes)) (cs : List Command) (js : List Job)
        → All IsJob cs
        → All IsShort cs
        → AtPrompt js
        → Settled (try_builtin atoi emit_prompt world o cs js)
    unfolding try_builtin
    try_builtin-Settled none cs js h s a =
        eval_jobs-Settled emit_prompt world 0 cs js [] forks h s a
    try_builtin-Settled (some []) cs js h s a = tt
    try_builtin-Settled (some (name ∷ args)) cs js h s a =
        after_builtin-Settled (builtin_cmd atoi emit_prompt name args js) cs js
          (builtin_cmd-Built name args js a) h s a

    eval_parsed-Settled :
        (p : Parsed) (n : ℕ) (js : List Job)
        → Returned n p
        → Short p
        → AtPrompt js
        → Settled (eval_parsed atoi emit_prompt world p js)
    unfolding eval_parsed
    eval_parsed-Settled (parsed []) n js h s a = a
    eval_parsed-Settled (parsed (c ∷ cs)) n js h s a =
        try_builtin-Settled (is_single (c ∷ cs)) (c ∷ cs) js h s a
    eval_parsed-Settled (refused pos error) n js h s a = a
    eval_parsed-Settled Parser.fault n js h s a = tt
    eval_parsed-Settled unfinished n js h s a = absurd h

    -- At the prompt, where the invariant of the job list holds and no job is in the foreground,
    -- `eval` gets a line that has a newline, and no null byte in front of it, whose jobs have fewer than
    -- 2 ^ 31 commands and a text of at most 1024 bytes each, `fork` gives ids from 1 to 2 ^ 31 - 1,
    -- and no reports arrive while a built-in command changes the list. Then the assertions of
    -- `addjob` hold for every job of the line, and its text fits in. If `eval` is back at the prompt, the invariant holds and no job is in the foreground;
    -- if it still waits for a job, the invariant holds. A quit or a null pointer ends the shell.
    pub eval-Settled :
        (line : Bytes) (js : List Job)
        → Terminated line
        → Short (parse_cmdline line)
        → AtPrompt js
        → Settled (eval atoi emit_prompt world line js)
    unfolding eval
    eval-Settled line js h s a =
        eval_parsed-Settled (parse_cmdline line) (length line) js (parse_cmdline-Returned line h) s
          a

-- ===== src/Shell/Eval/Jobs.antt =====
-- PA4/src/csapsh.c: the loop of `eval` over the jobs of a line.
use sysprog.Base.{
  ℕ, suc, ◌<◌, ◌^◌, ◌≡◌, refl, Bool, false, Option, none, some, List, [], ◌∷◌, All, arith, inl, inr,
  Bool-cases, length, ◌≤◌,
}
use sysprog.JobControl.{Job, JobState, foreground, state_eq}
use sysprog.JobControl.Ids.{Added, addjob-Added}
use sysprog.JobControl.Update.{foreground_count}
use sysprog.Shell.Signals.{Wait, over, waiting, fault, waitfg}
use sysprog.Shell.Signals.Reap.{Inv}
use sysprog.Shell.Builtin.{Message}
use sysprog.Shell.Parser.{Command}
use sysprog.Shell.Parser.Results.{IsJob, NonEmpty}
use sysprog.Shell.Eval.{
  Launch, first_pid, deliver, Rest, after_wait, after_reports, after_addjob, eval_jobs,
}
use sysprog.Shell.Eval.Foreground.{Only, Behind, foreground_count-none}
use sysprog.Shell.Eval.Prompt.{
  AtPrompt, Settled, Waited, waitfg-Waited, Delivered, deliver-Delivered, all_Only,
}

-- A process id that `fork` gives to the shell: a positive `int`.
abbrev pub IsPid : ℕ → Type 0
IsPid p = (0 < p) × (p < 2 ^ 31)

-- A job of fewer than 2 ^ 31 commands, and of a text that `addjob` has room for.
abbrev pub IsShort : Command → Type 0
IsShort c = (length c.argv < 2 ^ 31) × (length c.text ≤ 1024)

-- The rest of the loop settles at the prompt.
abbrev pub Goes : Rest → Type 0
Goes rest = (js : List Job) (out : List Message) → AtPrompt js → Settled (rest js out)

pub after_wait-Settled :
    (w : Wait) (out : List Message) (rest : Rest)
    → Waited w
    → Goes rest
    → Settled (after_wait w out rest)
after_wait-Settled (over js) out rest a g = g js out a
after_wait-Settled (waiting js) out rest v g = v
after_wait-Settled fault out rest u g = tt

module _ (emit_prompt : Bool) where
  after_reports-Settled :
      (jid : ℕ) (o : Option (List Job)) (out : List Message) (rest : Rest)
      → Delivered o
      → Goes rest
      → Settled (after_reports emit_prompt jid o out rest)
  after_reports-Settled jid none out rest u g = tt
  after_reports-Settled jid (some js) out rest a g = g js _ a

  after_addjob-Settled :
      (mode : JobState) (world : Launch) (js : List Job) (jid : ℕ) (out : List Message)
      (rest : Rest)
      → Inv js
      → All (Only jid) js
      → (state_eq mode foreground ≡ false → All Behind js)
      → Goes rest
      → Settled (after_addjob emit_prompt mode world (some (js, jid)) out rest)
  unfolding after_addjob
  after_addjob-Settled mode world js jid out rest v o b g =
      elim (Bool-cases (state_eq mode foreground)) [
        | inl t ↦ rw t (
            after_wait-Settled (waitfg jid world.batches js) out rest
              (waitfg-Waited jid world.batches js v o) g)
        | inr t ↦ rw t (
            after_reports-Settled jid (deliver world.batches js) out rest
              (deliver-Delivered world.batches js record { inv = v; behind = b t }) g)
      ]

  length-pos {ℓ} : {A : Type ℓ} (xs : List A) → NonEmpty xs → 0 < length xs
  length-pos [] h = absurd h
  length-pos (x ∷ xs) h = omega arith

  pushed-Inv :
      (pgid : ℕ) (pid : List ℕ) (n : ℕ) (mode : JobState) (text : List _) (js js' : List Job)
      (jid : ℕ)
      → AtPrompt js
      → 0 < n
      → n < 2 ^ 31
      → Added pgid pid n mode text js js' jid
      → Inv js'
  unfolding foreground_count
  pushed-Inv pgid pid n mode text js js' jid a h k d = record {
    distinct = d.distinct;
    counted = rw (d.pushed) ((omega arith, omega arith, omega arith), a.inv.counted);
    one_foreground = let z = foreground_count-none js a.behind in rw (d.pushed) (ground (arith, z));
  }

  pub eval_jobs-Settled :
      (world : ℕ → Launch) (i : ℕ) (cs : List Command) (js : List Job) (out : List Message)
      → ((k : ℕ) → IsPid (first_pid (world k).pids))
      → All IsJob cs
      → All IsShort cs
      → AtPrompt js
      → Settled (eval_jobs emit_prompt world i cs js out)
  unfolding eval_jobs
  eval_jobs-Settled world i [] js out f h s a = a
  eval_jobs-Settled world i (c ∷ cs) js out f h s a =
      let pids = (world i).pids in
      let n = length-pos c.argv h.0.commands in
      let added =
        addjob-Added (first_pid pids) pids (length c.argv) c.mode c.text js (f i) (n, s.0.0) s.0.1
          a.inv.distinct in
      let d = added.3 in
      rw (added.2) (
        after_addjob-Settled c.mode (world i) added.0 added.1 out _
          (pushed-Inv _ pids (length c.argv) c.mode c.text js added.0 added.1 a n s.0.0 d)
          (rw (d.pushed) ((λ e. refl), all_Only added.1 js a.behind))
          (λ e. rw (d.pushed) (e, a.behind))
          (λ js' out' a'. eval_jobs-Settled world (suc i) cs js' out' f h.1 s.1 a'))

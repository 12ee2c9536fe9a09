-- ===== src/Shell/Pipes/Plumbing.antt =====
-- PA4/src/csapsh.c: what the set-up of a child leaves open and where its input and output lead.
use mathlib.Core.Bool.{or_assoc}
use sysprog.Base.{
  inl, inr, Bool-cases, ap, ◌∙◌, ℕ, zero, suc, ◌+◌, ◌-◌, ◌<◌, ◌≡◌, refl, Bool, true, false, not,
  ◌&&◌, ◌||◌, Option, none, some, List, [], ◌∷◌, ◌++◌, ltb, leb, ◌==◌, if◌then◌else◌, Bytes, arith,
}
use sysprog.Shell.Pipes.{
  close_neighbours, dup_ends, End, p_read, p_write, end_eq, ChildCall, redirect_in, redirect_out,
  close, dup2_stdin, dup2_stdout, close_loop, close_unused_pipes, redirections, connections,
  child_calls,
}

-- Whether the calls close an end.
unfoldable pub closed : End → List ChildCall → Bool
closed e [] = false
closed e (close d ∷ cs) = end_eq d e || closed e cs
closed e (_ ∷ cs) = closed e cs

-- Where a child's input comes from or its output goes.
pub data Stream : Type 0 where
  inherited : Stream
  file : Bytes → Stream
  pipe : End → Stream

pub record Streams : Type 0 where
  pub stdin : Stream
  pub stdout : Stream

-- Whether an end is in a list of ends.
unfoldable pub is_among : End → List End → Bool
is_among e [] = false
is_among e (d ∷ ds) = end_eq d e || is_among e ds

-- The ends that are closed behind the calls, when those of a list were before.
unfoldable pub closing : List ChildCall → List End → List End
closing [] done = done
closing (close e ∷ cs) done = closing cs (e ∷ done)
closing (_ ∷ cs) done = closing cs done

-- The streams behind the calls, at the ends that are closed so far: `dup2` of a closed end fails and
-- changes nothing, and so does a redirection whose `open` fails. `reads` and `writes` tell for which
-- files it succeeds.
module _ (reads writes : Bytes → Bool) where
  unfoldable pub run : List ChildCall → List End → Streams → Streams
  unfolding is_among
  run [] done s = s
  run (redirect_in f ∷ cs) done s = run cs done (if reads f then record s { stdin = file f } else s)
  run (redirect_out f ∷ cs) done s =
      run cs done (if writes f then record s { stdout = file f } else s)
  run (close e ∷ cs) done s = run cs (e ∷ done) s
  run (dup2_stdin e ∷ cs) done s =
      run cs done (if is_among e done then s else record s { stdin = pipe e })
  run (dup2_stdout e ∷ cs) done s =
      run cs done (if is_among e done then s else record s { stdout = pipe e })

  run-append :
      (cs ds : List ChildCall) (done : List End) (s : Streams)
      → run (cs ++ ds) done s ≡ run ds (closing cs done) (run cs done s)
  unfolding run closing
  run-append [] ds done s = refl
  run-append (redirect_in f ∷ cs) ds done s = run-append cs ds done _
  run-append (redirect_out f ∷ cs) ds done s = run-append cs ds done _
  run-append (close e ∷ cs) ds done s = run-append cs ds (e ∷ done) s
  run-append (dup2_stdin e ∷ cs) ds done s = run-append cs ds done _
  run-append (dup2_stdout e ∷ cs) ds done s = run-append cs ds done _

  run-close_loop : (n i c : ℕ) (done : List End) (s : Streams) → run (close_loop n i c) done s ≡ s
  unfolding run close_loop
  run-close_loop zero i c done s = refl
  run-close_loop (suc n) i c done s = elim (Bool-cases (i == c || i + 1 == c)) [
    | inl t ↦ rw (t, run) (run-close_loop n (i + 1) c done s)
    | inr t ↦ rw (t, run) (run-close_loop n (i + 1) c _ s)
  ]

  run-close_neighbours :
      (n c : ℕ) (done : List End) (s : Streams) → run (close_neighbours n c) done s ≡ s
  unfolding run close_neighbours
  run-close_neighbours n c done s = ground arith

  run-close_unused :
      (n c : ℕ) (done : List End) (s : Streams) → run (close_unused_pipes n c) done s ≡ s
  unfolding close_unused_pipes
  run-close_unused n c done s =
      run-append (close_loop n 0 c) (close_neighbours n c) done s
      ∙ run-close_neighbours n c _ _
      ∙ run-close_loop n 0 c done s

among-closing :
    (e : End) (cs : List ChildCall) (done : List End)
    → is_among e (closing cs done) ≡ (closed e cs || is_among e done)
unfolding is_among closing closed
among-closing e [] done = refl
among-closing e (close d ∷ cs) done = ground (arith, among-closing e cs (d ∷ done))
among-closing e (redirect_in f ∷ cs) done = among-closing e cs done
among-closing e (redirect_out f ∷ cs) done = among-closing e cs done
among-closing e (dup2_stdin d ∷ cs) done = among-closing e cs done
among-closing e (dup2_stdout d ∷ cs) done = among-closing e cs done

closed-append :
    (e : End) (cs ds : List ChildCall) → closed e (cs ++ ds) ≡ (closed e cs || closed e ds)
unfolding closed
closed-append e [] ds = refl
closed-append e (close d ∷ cs) ds = ground (arith, closed-append e cs ds)
closed-append e (redirect_in f ∷ cs) ds = closed-append e cs ds
closed-append e (redirect_out f ∷ cs) ds = closed-append e cs ds
closed-append e (dup2_stdin d ∷ cs) ds = closed-append e cs ds
closed-append e (dup2_stdout d ∷ cs) ds = closed-append e cs ds

-- The loop closes both ends of the pipes that the command does not use.
abbrev in_loop : ℕ → ℕ → ℕ → ℕ → Bool
in_loop n i c k = leb i k && ltb k (i + n) && not (k == c) && not (k + 1 == c)

closed-close_loop_read : (n i c k : ℕ) → closed (p_read k) (close_loop n i c) ≡ in_loop n i c k
unfolding closed close_loop
closed-close_loop_read zero i c k = ground arith
closed-close_loop_read (suc n) i c k = ground (arith, closed-close_loop_read n (i + 1) c k)

closed-close_loop_write : (n i c k : ℕ) → closed (p_write k) (close_loop n i c) ≡ in_loop n i c k
unfolding closed close_loop
closed-close_loop_write zero i c k = ground arith
closed-close_loop_write (suc n) i c k = ground (arith, closed-close_loop_write n (i + 1) c k)

abbrev pub start : Streams
start = record { stdin = inherited; stdout = inherited }

-- `close_unused_pipes` leaves the end that the command reads, and the one that it writes.
keeps_read : (n c k : ℕ) → k + 1 ≡ c → closed (p_read k) (close_unused_pipes n c) ≡ false
unfolding close_unused_pipes close_neighbours closed
keeps_read n c k e =
    closed-append (p_read k) (close_loop n 0 c) (close_neighbours n c)
    ∙ rw (closed-close_loop_read n 0 c k) (ground arith)

keeps_write : (n c : ℕ) → closed (p_write c) (close_unused_pipes n c) ≡ false
unfolding close_unused_pipes close_neighbours closed
keeps_write n c =
    closed-append (p_write c) (close_loop n 0 c) (close_neighbours n c)
    ∙ rw (closed-close_loop_write n 0 c c) (ground arith)

module _ (reads writes : Bytes → Bool) where
  -- The wiring that a pipeline is meant to have, as the code builds it: every command but the first
  -- reads the pipe before it, every command but the last writes the pipe behind it, the output file
  -- is the last command's, and an input file is read only where there is no pipe. A file that does
  -- not open leaves the stream alone.
  abbrev pub wired : ℕ → ℕ → Option Bytes → Option Bytes → Streams
  wired num_cmd cmd_idx infile outfile = record {
    stdin =
        if ltb 0 cmd_idx
        then pipe (p_read (cmd_idx - 1))
        else if num_cmd == 1
        then elim infile [ none ↦ inherited | some f ↦ if reads f then file f else inherited ]
        else inherited;
    stdout =
        if ltb (cmd_idx + 1) num_cmd
        then pipe (p_write cmd_idx)
        else elim outfile [ none ↦ inherited | some f ↦ if writes f then file f else inherited ];
  }

  run-connections :
      (n c : ℕ) (s : Streams)
      → run reads writes (connections n c) [] s ≡ (
          if ltb 1 n
          then run reads writes (dup_ends n c) (closing (close_unused_pipes (n - 1) c) []) s
          else s)
  unfolding run connections
  run-connections n c s = elim (Bool-cases (ltb 1 n)) [
    | inl t ↦
        rw (t, connections)
          (run-append reads writes (close_unused_pipes (n - 1) c) (dup_ends n c) [] s
            ∙ ap (run reads writes (dup_ends n c) (closing (close_unused_pipes (n - 1) c) []))
                (run-close_unused reads writes (n - 1) c [] s))
    | inr t ↦ rw (t, connections) refl
  ]

  run-wired :
      (n c : ℕ) (infile outfile : Option Bytes) (done : List End)
      → c < n
      → (ltb 0 c && is_among (p_read (c - 1)) done) ≡ false
      → is_among (p_write c) done ≡ false
      → let s = run reads writes (redirections n c infile outfile) [] start in
        (if ltb 1 n then run reads writes (dup_ends n c) done s else s) ≡ wired n c infile outfile
  unfolding run redirections dup_ends
  run-wired n c none none done h r w = ground arith
  run-wired n c none (some o) done h r w = ground arith
  run-wired n c (some i) none done h r w = ground arith
  run-wired n c (some i) (some o) done h r w = ground arith

  closing-redirections :
      (n c : ℕ) (infile outfile : Option Bytes) → closing (redirections n c infile outfile) [] ≡ []
  unfolding closing redirections
  closing-redirections n c none none = ground arith
  closing-redirections n c none (some o) = ground arith
  closing-redirections n c (some i) none = ground arith
  closing-redirections n c (some i) (some o) = ground arith

  read_open :
      (n c : ℕ)
      → (ltb 0 c && is_among (p_read (c - 1)) (closing (close_unused_pipes n c) [])) ≡ false
  unfolding is_among
  read_open n c = elim (Bool-cases (ltb 0 c)) [
    | inl t ↦ rw t (
        among-closing (p_read (c - 1)) (close_unused_pipes n c) []
        ∙ rw (keeps_read n c (c - 1) (ground arith)) refl)
    | inr t ↦ rw t refl
  ]

  write_open : (n c : ℕ) → is_among (p_write c) (closing (close_unused_pipes n c) []) ≡ false
  unfolding is_among
  write_open n c = among-closing (p_write c) (close_unused_pipes n c) [] ∙ rw (keeps_write n c) refl

  -- Whatever files open: the calls that the child of a command issues, where `dup2` of an end that is
  -- closed already fails, leave its input and output as `wired` says.
  pub run-child_calls :
      (num_cmd cmd_idx : ℕ) (infile outfile : Option Bytes)
      → cmd_idx < num_cmd
      → run reads writes (child_calls num_cmd cmd_idx infile outfile) [] start
        ≡ wired num_cmd cmd_idx infile outfile
  unfolding child_calls
  run-child_calls n c infile outfile h =
      let s = run reads writes (redirections n c infile outfile) [] start in
      run-append reads writes (redirections n c infile outfile) (connections n c) [] start
      ∙ ap (λ d. run reads writes (connections n c) d s) (closing-redirections n c infile outfile)
      ∙ run-connections n c s
      ∙ run-wired n c infile outfile (closing (close_unused_pipes (n - 1) c) []) h
          (read_open (n - 1) c) (write_open (n - 1) c)

closed-redirections :
    (e : End) (n c : ℕ) (infile outfile : Option Bytes)
    → closed e (redirections n c infile outfile) ≡ false
unfolding closed redirections
closed-redirections e n c none none = ground arith
closed-redirections e n c none (some o) = ground arith
closed-redirections e n c (some i) none = ground arith
closed-redirections e n c (some i) (some o) = ground arith

closed-child_calls_parts :
    (e : End) (n c : ℕ) (infile outfile : Option Bytes)
    → 1 < n
    → closed e (child_calls n c infile outfile) ≡ (
        closed e (close_loop (n - 1) 0 c)
        || (closed e (close_neighbours (n - 1) c) || closed e (dup_ends n c)))
unfolding closed child_calls connections
closed-child_calls_parts e n c infile outfile h =
    let t : ltb 1 n ≡ true = ground arith in
    closed-append e (redirections n c infile outfile) (connections n c)
    ∙ rw (closed-redirections e n c infile outfile, t)
        (closed-append e (close_unused_pipes (n - 1) c) (dup_ends n c)
          ∙ rw (closed-append e (close_loop (n - 1) 0 c) (close_neighbours (n - 1) c)) (
              or_assoc (closed e (close_loop (n - 1) 0 c)) (closed e (close_neighbours (n - 1) c))
                (closed e (dup_ends n c))))

-- Every pipe end is closed in a child before its command runs, but for one: the second to last
-- command keeps the read end of the last pipe, the one that it writes.
pub closed-child_calls :
    (num_cmd cmd_idx k : ℕ) (infile outfile : Option Bytes)
    → cmd_idx < num_cmd
    → k + 1 < num_cmd
    → let calls = child_calls num_cmd cmd_idx infile outfile in
      (closed (p_write k) calls ≡ true)
      × (closed (p_read k) calls ≡ not (k == cmd_idx && k + 2 == num_cmd))
unfolding closed close_neighbours dup_ends
closed-child_calls n c k infile outfile h g = (
  rw
      (
        closed-child_calls_parts (p_write k) n c infile outfile (omega arith),
        closed-close_loop_write (n - 1) 0 c k,
      )
      (ground arith),
  rw
      (
        closed-child_calls_parts (p_read k) n c infile outfile (omega arith),
        closed-close_loop_read (n - 1) 0 c k,
      )
      (ground arith),
)

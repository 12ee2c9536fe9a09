-- ===== src/Shell/Parser.antt =====
-- PA4/src/parser.c: `parse_cmdline`.
--
-- The line is its bytes up to the closing null byte, which is the end of the list. The arrays that
-- the source grows are lists, so its allocations do not fail; a read through an array that is not
-- there yet, or behind the null byte, is the outcome `fault`.
pub mod Results
pub mod Returns
use sysprog.Base.{
  ℕ, zero, suc, ◌+◌, ◌-◌, Bool, true, false, not, ◌&&◌, ◌||◌, Option, none, some, List, [], ◌∷◌,
  ◌++◌, ◌==◌, if◌then◌else◌, length, take, Bytes,
}
use sysprog.JobControl.{JobState, foreground, background}

-- The values of `state`; `code` is the error code of each.
pub data Phase : Type 0 where
  argument_required optional filename redirected job_ended : Phase

abbrev pub code : Phase → ℕ
code argument_required = 0
code optional = 1
code filename = 2
code redirected = 3
code job_ended = 4

abbrev pub takes_redirection : Phase → Bool
takes_redirection optional = true
takes_redirection redirected = true
takes_redirection _ = false

-- What `argv`, `infile`, `outfile`, `mode` and `sep_cmds` hold for one job.
pub record Command : Type 0 where
  pub argv : List (List Bytes)
  pub infile : Option Bytes
  pub outfile : Option Bytes
  pub mode : JobState
  pub text : Bytes

-- The variables of the loop. The finished jobs, the finished commands of this job and the arguments
-- of this command are in order; `begin` is the line from the start of the job on.
pub record Parse : Type 0 where
  pub rest : Bytes
  pub phase : Phase
  pub inout : Bool
  pub jobs : List Command
  pub cmds : List (List Bytes)
  pub args : List Bytes
  pub infile : Option Bytes
  pub outfile : Option Bytes
  pub begin : Bytes
  pub allocated : Bool

pub data Parsed : Type 0 where
  parsed : List Command → Parsed
  -- the position and the code of `parseline_error`
  refused : ℕ → ℕ → Parsed
  fault : Parsed
  -- the loop runs for ever
  unfinished : Parsed

unfoldable pub isdelim : ℕ → ℕ → Bool
isdelim c extra =
    (extra == 0 && (c == b' ' || c == b'\t' || c == b'|' || c == b'<' || c == b'>')) || c == extra

unfoldable pub skip_whitespace : Bytes → Bytes
skip_whitespace [] = []
skip_whitespace (c ∷ cs) =
    let rest = skip_whitespace cs in if c == b' ' || c == b'\t' then rest else c ∷ cs

-- The bytes up to the end of the argument, and the line from there on. A delimiter of `extra` is not
-- the null byte, so that behind a quote the end of the list is no end of the argument.
unfoldable pub word : ℕ → Bytes → Bytes × Bytes
unfolding isdelim
word extra [] = ([], [])
word extra (c ∷ cs) =
    let (arg, rest) = word extra cs in
    if c == b'\n' || isdelim c extra then ([], c ∷ cs) else (c ∷ arg, rest)

-- The job that ends here.
unfoldable pub close_job : JobState → Parse → Command
close_job mode p = record {
  argv = p.cmds ++ p.args ∷ [];
  infile = p.infile;
  outfile = p.outfile;
  mode = mode;
  text = take (length p.begin - length p.rest) p.begin;
}

-- A word that was read: an argument, or the name of a file.
unfoldable pub store : Bytes → Bytes → Parse → Parse
store argument rest p = elim p.phase [
  | filename ↦ record p {
    rest = rest;
    phase = redirected;
    infile = if p.inout then p.infile else some argument;
    outfile = if p.inout then some argument else p.outfile;
  }
  | _ ↦ record p { rest = rest; phase = optional; args = p.args ++ argument ∷ []; allocated = true }
]

-- A round of the loop goes on or returns.
pub data Round : Type 0 where
  goes : Parse → Round
  returns : Parsed → Round

abbrev pub is_empty {ℓ} : {A : Type ℓ} → List A → Bool
is_empty [] = true
is_empty (x ∷ xs) = false

abbrev pub there {ℓ} : {A : Type ℓ} → Option A → Bool
there none = false
there (some x) = true

abbrev pub needs_word : Phase → Bool
needs_word argument_required = true
needs_word filename = true
needs_word _ = false

-- The cases of the `switch`; `n` is the length of the line, so the position is `n - length p.rest`.
unfoldable pub pipe_case : ℕ → Bytes → Parse → Round
pipe_case n cs p = elim p.phase [
  | optional ↦
      goes
        record p { rest = cs; phase = argument_required; cmds = p.cmds ++ p.args ∷ []; args = [] }
  | _ ↦ returns (refused (n - length p.rest) (code p.phase))
]

unfoldable pub redirection_case : ℕ → Bool → Bytes → Parse → Round
redirection_case n output cs p =
    if not p.allocated
    then returns fault
    else if there (if output then p.outfile else p.infile)
    then returns (refused (n - length p.rest) (if output then 8 else 7))
    else if takes_redirection p.phase
    then goes (record p { rest = cs; phase = filename; inout = output })
    else returns (refused (n - length p.rest) (code p.phase))

unfoldable pub background_case : ℕ → Bytes → Parse → Round
unfolding close_job
background_case n cs p =
    if takes_redirection p.phase
    then goes record p {
      rest = cs;
      phase = job_ended;
      jobs = p.jobs ++ close_job background p ∷ [];
      cmds = [];
      args = [];
      infile = none;
      outfile = none;
    }
    else returns (refused (n - length p.rest) (code p.phase))

-- The first word of a job marks where the job begins.
abbrev pub begin_job : Parse → Parse
begin_job p = if is_empty p.cmds && is_empty p.args then record p { begin = p.rest } else p

-- Behind a quoted argument, the next byte is its closing quote or the newline; with neither, the
-- search has gone on behind the null byte.
unfoldable pub end_quote : ℕ → ℕ → Bytes → Bytes → Parse → Round
unfolding store
end_quote start extra argument [] p = returns fault
end_quote start extra argument (c ∷ rest) p =
    if c == extra then goes (store argument rest p) else returns (refused start 5)

unfoldable pub read_word : ℕ → ℕ → Bytes → Parse → Round
unfolding end_quote store
read_word n c cs p =
    let quoted = word c cs in
    let plain = word 0 p.rest in
    if c == b'\'' || c == b'"'
    then end_quote (n - length cs) c quoted.0 quoted.1 (begin_job p)
    else goes (store plain.0 plain.1 (begin_job p))

unfoldable pub word_case : ℕ → ℕ → Bytes → Parse → Round
unfolding read_word
word_case n c cs p = elim p.phase [
  | redirected ↦ returns (refused (n - length p.rest) 3)
  | _ ↦ read_word n c cs p
]

unfoldable pub newline_case : ℕ → Parse → Round
newline_case n p =
    if needs_word p.phase then returns (refused (n - length p.rest) (code p.phase)) else goes p

-- The `switch` at the byte `c`, in front of the bytes `cs`.
unfoldable pub byte_case : ℕ → ℕ → Bytes → Parse → Round
unfolding pipe_case redirection_case background_case word_case
byte_case n c cs p =
    if c == b'|'
    then pipe_case n cs p
    else if c == b'<'
    then redirection_case n false cs p
    else if c == b'>'
    then redirection_case n true cs p
    else if c == b'&'
    then background_case n cs p
    else word_case n c cs p

-- At the null byte, the default case reads a word of no byte.
unfoldable pub round : ℕ → Parse → Round
unfolding newline_case byte_case word_case
round n p = elim p.rest [
  | [] ↦ word_case n 0 [] p
  | c ∷ cs ↦ if c == b'\n' then newline_case n p else byte_case n c cs p
]

-- The part of `parse_cmdline` behind the loop.
unfoldable pub finish_line : ℕ → Parse → Parsed
unfolding close_job
finish_line n p =
    if p.allocated && needs_word p.phase
    then refused (n - length p.rest) (code p.phase)
    else if takes_redirection p.phase
    then parsed (p.jobs ++ close_job foreground p ∷ [])
    else parsed p.jobs

abbrev pub at_newline : Bytes → Bool
at_newline [] = false
at_newline (c ∷ cs) = c == b'\n'

-- The loop.
unfoldable pub parse_loop : ℕ → ℕ → Parse → Parsed
unfolding finish_line round
parse_loop zero n p = unfinished
parse_loop (suc f) n p =
    if at_newline p.rest
    then finish_line n p
    else elim (round n (record p { rest = skip_whitespace p.rest })) [
      | goes p' ↦ parse_loop f n p'
      | returns r ↦ r
    ]

-- A round uses a byte of the line, or is at its null byte; from the third round there on, every round
-- is like the one before it, and the loop runs for ever.
unfoldable pub parse_cmdline : Bytes → Parsed
unfolding parse_loop
parse_cmdline line = parse_loop (length line + 3) (length line) record {
  rest = line;
  phase = argument_required;
  inout = false;
  jobs = [];
  cmds = [];
  args = [];
  infile = none;
  outfile = none;
  begin = line;
  allocated = false;
}

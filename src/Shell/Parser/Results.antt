-- ===== src/Shell/Parser/Results.antt =====
-- PA4/src/parser.c: what `parse_cmdline` returns, and that it returns.
use sysprog.Base.{
  ℕ, ◌-◌, ◌≤◌, ◌<◌, ◌≡◌, ◌≢◌, refl, sym, ap, subst, Bool, true, false, not, ◌&&◌, ◌||◌, List, [],
  ◌∷◌, ◌++◌, ◌==◌, if◌then◌else◌, length, Bytes, All, All-add, arith, Bool-cases, inl, inr, ◌⊎◌,
}
use sysprog.JobControl.{JobState, background}
use sysprog.Shell.Parser.{
  Phase, argument_required, optional, filename, redirected, job_ended, code, takes_redirection,
  Command, Parse, Parsed, parsed, refused, fault, unfinished, isdelim, word, close_job, store,
  Round, goes, returns, is_empty, there, pipe_case, redirection_case, background_case, begin_job,
  end_quote, read_word, word_case,
}

abbrev pub NonEmpty {ℓ} : {A : Type ℓ} → List A → Type 0
NonEmpty [] = ⊥
NonEmpty (x ∷ xs) = Unit {0}

-- A job with commands, and in each of them a word for the program.
pub record IsJob (j : Command) : Type 0 where
  pub commands : NonEmpty j.argv
  pub programs : All NonEmpty j.argv

-- What the parser may return on a line of `n` bytes.
abbrev pub Returned : ℕ → Parsed → Type 0
Returned n (parsed jobs) = All IsJob jobs
Returned n (refused pos error) = (pos ≤ n) × (error ≤ 8)
Returned n fault = Unit {0}
Returned n unfinished = ⊥

abbrev pub HasArgs : Phase → List Bytes → Type 0
HasArgs argument_required args = Unit {0}
HasArgs job_ended args = Unit {0}
HasArgs _ args = NonEmpty args

-- The line has a newline, and no null byte in front of it.
abbrev pub Terminated : Bytes → Type 0
Terminated [] = ⊥
Terminated (c ∷ cs) = (c ≡ b'\n') ⊎ ((c ≢ 0) × Terminated cs)

pub behind :
    (c : ℕ) (cs : Bytes) → (c == b'\n') ≡ false → Terminated (c ∷ cs) → (c ≢ 0) × Terminated cs
behind c cs nl (inl e) = absurd (ground arith)
behind c cs nl (inr h) = h

-- The variables of the loop between two rounds.
pub record Sound (p : Parse) : Type 0 where
  pub terminated : Terminated p.rest
  pub jobs : All IsJob p.jobs
  pub programs : All NonEmpty p.cmds
  pub args : HasArgs p.phase p.args

-- A round that goes on has used a byte of the `m` that were left.
abbrev pub Advances : ℕ → ℕ → Round → Type 0
Advances n m (goes p) = Sound p × (length p.rest < m)
Advances n m (returns r) = Returned n r

NonEmpty-add {ℓ} : {A : Type ℓ} (xs : List A) (y : A) → NonEmpty (xs ++ y ∷ [])
NonEmpty-add [] y = tt
NonEmpty-add (x ∷ xs) y = tt

pub close_job-IsJob :
    (mode : JobState) (p : Parse) → All NonEmpty p.cmds → NonEmpty p.args → IsJob (close_job mode p)
unfolding close_job
close_job-IsJob mode p c a = record {
  commands = NonEmpty-add p.cmds p.args;
  programs = All-add NonEmpty p.cmds p.args c a;
}

pub code-le : (ph : Phase) → code ph ≤ 8
code-le argument_required = omega arith
code-le optional = omega arith
code-le filename = omega arith
code-le redirected = omega arith
code-le job_ended = omega arith

pub takes-HasArgs :
    (ph : Phase) (args : List Bytes) → takes_redirection ph ≡ true → HasArgs ph args → NonEmpty args
takes-HasArgs argument_required args e h = absurd cc
takes-HasArgs optional args e h = h
takes-HasArgs filename args e h = absurd cc
takes-HasArgs redirected args e h = h
takes-HasArgs job_ended args e h = absurd cc

pub pipe_case-Advances :
    (n : ℕ) (c : ℕ) (cs : Bytes) (p : Parse) (ph : Phase)
    → p.phase ≡ ph
    → p.rest ≡ c ∷ cs
    → (c == b'\n') ≡ false
    → Sound p
    → Advances n (length p.rest) (pipe_case n cs p)
unfolding pipe_case
pipe_case-Advances n c cs p optional e r nl s = rw e (
  record {
    terminated = (behind c cs nl (subst Terminated r s.terminated)).1;
    jobs = s.jobs;
    programs = All-add NonEmpty p.cmds p.args s.programs (subst (λ h. HasArgs h p.args) e s.args);
    args = tt;
  },
  omega (arith, ap length r),
)
pipe_case-Advances n c cs p argument_required e r nl s = rw e (omega arith, omega arith)
pipe_case-Advances n c cs p filename e r nl s = rw e (omega arith, omega arith)
pipe_case-Advances n c cs p redirected e r nl s = rw e (omega arith, omega arith)
pipe_case-Advances n c cs p job_ended e r nl s = rw e (omega arith, omega arith)

twice : (output : Bool) → (if output then 8 else 7) ≤ 8
twice true = omega arith
twice false = omega arith

pub redirection_case-Advances :
    (n : ℕ) (output : Bool) (c : ℕ) (cs : Bytes) (p : Parse)
    → p.rest ≡ c ∷ cs
    → (c == b'\n') ≡ false
    → Sound p
    → Advances n (length p.rest) (redirection_case n output cs p)
unfolding redirection_case
redirection_case-Advances n output c cs p r nl s = elim (Bool-cases (not p.allocated)) [
  | inl a ↦ rw (a, Advances) tt
  | inr a ↦
      rw (a, Advances)
        (elim (Bool-cases (there (if output then p.outfile else p.infile))) [
          | inl t ↦ rw (t, Advances) (omega arith, twice output)
          | inr t ↦
              rw (t, Advances)
                (elim (Bool-cases (takes_redirection p.phase)) [
                  | inl k ↦
                      rw (k, Advances)
                        (
                          record {
                            terminated = (behind c cs nl (subst Terminated r s.terminated)).1;
                            jobs = s.jobs;
                            programs = s.programs;
                            args = takes-HasArgs p.phase p.args k s.args;
                          },
                          omega (arith, ap length r),
                        )
                  | inr k ↦ rw (k, Advances) (omega arith, code-le p.phase)
                ])
        ])
]

pub background_case-Advances :
    (n : ℕ) (c : ℕ) (cs : Bytes) (p : Parse)
    → p.rest ≡ c ∷ cs
    → (c == b'\n') ≡ false
    → Sound p
    → Advances n (length p.rest) (background_case n cs p)
unfolding background_case
background_case-Advances n c cs p r nl s = elim (Bool-cases (takes_redirection p.phase)) [
  | inl k ↦
      rw (k, Advances)
        (
          record {
            terminated = (behind c cs nl (subst Terminated r s.terminated)).1;
            jobs =
                All-add IsJob p.jobs (close_job background p) s.jobs
                  (close_job-IsJob background p s.programs (takes-HasArgs p.phase p.args k s.args));
            programs = tt;
            args = tt;
          },
          omega (arith, ap length r),
        )
  | inr k ↦ rw (k, Advances) (omega arith, code-le p.phase)
]

stored :
    (argument rest : Bytes) (p : Parse)
    → Terminated rest
    → Sound p
    → Sound (record p {
      rest = rest;
      phase = optional;
      args = p.args ++ argument ∷ [];
      allocated = true;
    })
      × (length rest ≡ length rest)
stored argument rest p nn s = (
  record {
    terminated = nn;
    jobs = s.jobs;
    programs = s.programs;
    args = NonEmpty-add p.args argument;
  },
  refl,
)

store-Sound :
    (argument rest : Bytes) (p : Parse) (ph : Phase)
    → p.phase ≡ ph
    → Terminated rest
    → Sound p
    → Sound (store argument rest p) × (length (store argument rest p).rest ≡ length rest)
unfolding store
store-Sound argument rest p filename e nn s = rw e (
  record {
    terminated = nn;
    jobs = s.jobs;
    programs = s.programs;
    args = subst (λ h. HasArgs h p.args) e s.args;
  },
  refl,
)
store-Sound argument rest p argument_required e nn s = rw e (stored argument rest p nn s)
store-Sound argument rest p optional e nn s = rw e (stored argument rest p nn s)
store-Sound argument rest p redirected e nn s = rw e (stored argument rest p nn s)
store-Sound argument rest p job_ended e nn s = rw e (stored argument rest p nn s)

or-left : (a b : Bool) → (a || b) ≡ false → a ≡ false
or-left true b e = e
or-left false b e = refl

word-rest :
    (extra : ℕ) (bs : Bytes)
    → Terminated bs
    → Terminated (word extra bs).1 × (length (word extra bs).1 ≤ length bs)
unfolding word
word-rest extra [] h = absurd h
word-rest extra (c ∷ cs) h = elim (Bool-cases (c == b'\n' || isdelim c extra)) [
  | inl d ↦ rw (d, word) (h, omega arith)
  | inr d ↦
      rw (d, word)
        (let (nn, le) = word-rest extra cs (behind c cs (or-left _ _ d) h).1 in
          (nn, omega (arith, le)))
]

-- A word that starts with no delimiter has a byte.
word-advances :
    (c : ℕ) (cs : Bytes)
    → isdelim c 0 ≡ false
    → (c == b'\n') ≡ false
    → Terminated (c ∷ cs)
    → length (word 0 (c ∷ cs)).1 < length (c ∷ cs)
unfolding word
word-advances c cs d nl h =
    let more : (c == b'\n' || isdelim c 0) ≡ false = rw nl d in
    rw (more, word) (omega (arith, (word-rest 0 cs (behind c cs nl h).1).1))

begin_job-Sound : (p : Parse) → Sound p → Sound (begin_job p) × ((begin_job p).phase ≡ p.phase)
begin_job-Sound p s = elim (Bool-cases (is_empty p.cmds && is_empty p.args)) [
  | inl b ↦
      rw (b, begin_job)
        (
          record { terminated = s.terminated; jobs = s.jobs; programs = s.programs; args = s.args },
          refl,
        )
  | inr b ↦ rw (b, begin_job) (s, refl)
]

-- A word of `m` bytes or more, with what is behind it.
goes-Advances :
    (n m : ℕ) (argument rest : Bytes) (p : Parse)
    → Terminated rest
    → length rest < m
    → Sound p
    → Advances n m (goes (store argument rest p))
goes-Advances n m argument rest p nn lt s =
    let (sound, len) = store-Sound argument rest p p.phase refl nn s in
    (sound, omega (arith, len, lt))

end_quote-Advances :
    (n m start extra : ℕ) (argument after : Bytes) (p : Parse)
    → (extra == b'\n') ≡ false
    → Terminated after
    → start ≤ n
    → length after < m
    → Sound p
    → Advances n m (end_quote start extra argument after p)
unfolding end_quote
end_quote-Advances n m start extra argument [] p nl nn le lt s = absurd nn
end_quote-Advances n m start extra argument (q ∷ rest) p nl nn le lt s =
    elim (Bool-cases (q == extra)) [
      | inl e ↦
          let same : q ≡ extra = ground arith in
          rw (e, Advances)
            (goes-Advances n m argument rest p
              (behind q rest (subst (λ x. (x == b'\n') ≡ false) (sym same) nl) nn).1
              (omega (arith, lt)) s)
      | inr e ↦ rw (e, Advances) (le, omega arith)
    ]

read_word-Advances :
    (n c : ℕ) (cs : Bytes) (p : Parse)
    → p.rest ≡ c ∷ cs
    → isdelim c 0 ≡ false
    → (c == b'\n') ≡ false
    → Sound p
    → Advances n (length p.rest) (read_word n c cs p)
unfolding read_word
read_word-Advances n c cs p r d nl s =
    let nn = subst Terminated r s.terminated in
    let quoted = word-rest c cs (behind c cs nl nn).1 in
    let (sound, same) = begin_job-Sound p s in
    elim (Bool-cases (c == b'\'' || c == b'"')) [
      | inl q ↦
          rw (q, Advances)
            (end_quote-Advances n (length p.rest) (n - length cs) c (word c cs).0 (word c cs).1
              (begin_job p) nl quoted.0 (omega arith) (omega (arith, ap length r, quoted.1)) sound)
      | inr q ↦
          rw (q, Advances)
            (goes-Advances n (length p.rest) (word 0 p.rest).0 (word 0 p.rest).1 (begin_job p)
              (word-rest 0 p.rest s.terminated).0
              (subst (λ bs. length (word 0 bs).1 < length bs) (sym r) (word-advances c cs d nl nn))
              sound)
    ]

unless_redirected :
    (n m : ℕ) (ph : Phase) (x y : Round)
    → Advances n m x
    → Advances n m y
    → Advances n m (elim ph [ redirected ↦ x | _ ↦ y ])
unless_redirected n m argument_required x y h i = i
unless_redirected n m optional x y h i = i
unless_redirected n m filename x y h i = i
unless_redirected n m redirected x y h i = h
unless_redirected n m job_ended x y h i = i

pub word_case-Advances :
    (n c : ℕ) (cs : Bytes) (p : Parse)
    → p.rest ≡ c ∷ cs
    → isdelim c 0 ≡ false
    → (c == b'\n') ≡ false
    → Sound p
    → Advances n (length p.rest) (word_case n c cs p)
unfolding word_case
word_case-Advances n c cs p r d nl s =
    unless_redirected n (length p.rest) p.phase (returns (refused (n - length p.rest) 3))
      (read_word n c cs p) (omega arith, omega arith) (read_word-Advances n c cs p r d nl s)

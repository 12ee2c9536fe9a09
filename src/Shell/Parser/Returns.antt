-- ===== src/Shell/Parser/Returns.antt =====
-- PA4/src/parser.c: the loop of `parse_cmdline` ends.
use sysprog.Base.{
  ℕ, zero, suc, ◌+◌, ◌≤◌, ◌<◌, ◌≡◌, ◌≢◌, refl, ap, ◌∙◌, if◌then◌else◌, subst, Bool, true, false,
  ◌&&◌, ◌||◌, [], ◌∷◌, ◌==◌, length, Bytes, All-add, arith, Bool-cases, inl, inr,
}
use sysprog.JobControl.{foreground}
use sysprog.Shell.Parser.{
  takes_redirection, needs_word, Parse, isdelim, skip_whitespace, close_job, Round, goes, returns,
  at_newline, word_case, round, finish_line, parse_loop, parse_cmdline, newline_case, byte_case,
}
use sysprog.Shell.Parser.Results.{
  IsJob, Returned, Terminated, Sound, Advances, behind, close_job-IsJob, takes-HasArgs, code-le,
  pipe_case-Advances, redirection_case-Advances, background_case-Advances, word_case-Advances,
}

abbrev is_space : ℕ → Bool
is_space c = c == b' ' || c == b'\t'

heads-eq : (b c : ℕ) (bs cs : Bytes) → b ∷ bs ≡ c ∷ cs → b ≡ c
heads-eq b c bs cs e = cc

-- The line behind white space starts with none, and it is shorter when it starts with the newline
-- and the line did not.
skip_whitespace-lem :
    (bs : Bytes)
    → Terminated bs
    → Terminated (skip_whitespace bs)
      × (length (skip_whitespace bs) ≤ length bs)
      × ((c : ℕ) (cs : Bytes) → skip_whitespace bs ≡ c ∷ cs → is_space c ≡ false)
      × (at_newline bs ≡ false
          → at_newline (skip_whitespace bs) ≡ true
          → length (skip_whitespace bs) < length bs)
unfolding skip_whitespace
skip_whitespace-lem [] h = absurd h
skip_whitespace-lem (b ∷ bs) h = elim (Bool-cases (b == b' ' || b == b'\t')) [
  | inl t ↦
      rw (t, skip_whitespace)
        (let (nn, le, none_left, shorter) =
            skip_whitespace-lem bs (behind b bs (ground arith) h).1 in
          (nn, omega (arith, le), none_left, λ e f. omega (arith, le)))
  | inr t ↦
      rw (t, skip_whitespace)
        (
          h,
          omega arith,
          λ c cs e. subst (λ x. is_space x ≡ false) (heads-eq b c bs cs e) t,
          λ e f. absurd cc,
        )
]

-- A byte that no case of the `switch` takes, and no null byte, is no delimiter.
not_delimiter :
    (c : ℕ)
    → c ≢ 0
    → is_space c ≡ false
    → (c == b'|') ≡ false
    → (c == b'<') ≡ false
    → (c == b'>') ≡ false
    → isdelim c 0 ≡ false
unfolding isdelim
not_delimiter c nn sp pi lt gt = ground arith

Advances-le : (n l m : ℕ) (r : Round) → l ≤ m → Advances n l r → Advances n m r
Advances-le n l m (goes p) le h = (h.0, omega (arith, h.1, le))
Advances-le n l m (returns r) le h = h

byte_case-Advances :
    (n : ℕ) (c : ℕ) (cs : Bytes) (p : Parse)
    → p.rest ≡ c ∷ cs
    → is_space c ≡ false
    → (c == b'\n') ≡ false
    → Sound p
    → Advances n (length p.rest) (byte_case n c cs p)
unfolding byte_case
byte_case-Advances n c cs p r sp nl s = elim (Bool-cases (c == b'|')) [
  | inl a ↦ rw (a, byte_case) (pipe_case-Advances n c cs p p.phase refl r nl s)
  | inr a ↦
      rw (a, byte_case)
        (elim (Bool-cases (c == b'<')) [
          | inl b ↦ rw (b, byte_case) (redirection_case-Advances n false c cs p r nl s)
          | inr b ↦
              rw (b, byte_case)
                (elim (Bool-cases (c == b'>')) [
                  | inl d ↦ rw (d, byte_case) (redirection_case-Advances n true c cs p r nl s)
                  | inr d ↦
                      rw (d, byte_case)
                        (elim (Bool-cases (c == b'&')) [
                          | inl e ↦ rw (e, byte_case) (background_case-Advances n c cs p r nl s)
                          | inr e ↦
                              rw (e, byte_case)
                                (word_case-Advances n c cs p r
                                  (not_delimiter c
                                    (behind c cs nl (subst Terminated r s.terminated)).0 sp a b d)
                                  nl s)
                        ])
                ])
        ])
]

newline_case-Advances :
    (n m : ℕ) (p : Parse) → length p.rest < m → Sound p → Advances n m (newline_case n p)
unfolding newline_case
newline_case-Advances n m p lt s = elim (Bool-cases (needs_word p.phase)) [
  | inl a ↦ rw (a, Advances) (omega arith, code-le p.phase)
  | inr a ↦ rw (a, Advances) (s, lt)
]

at_rest :
    (n m : ℕ) (bs : Bytes) (x : Round) (f : ℕ → Bytes → Round)
    → (bs ≡ [] → Advances n m x)
    → ((c : ℕ) (cs : Bytes) → bs ≡ c ∷ cs → Advances n m (f c cs))
    → Advances n m (elim bs [ [] ↦ x | c ∷ cs ↦ f c cs ])
at_rest n m [] x f h i = h refl
at_rest n m (c ∷ cs) x f h i = i c cs refl

round-Advances :
    (n m : ℕ) (p : Parse)
    → ((c : ℕ) (cs : Bytes) → p.rest ≡ c ∷ cs → is_space c ≡ false)
    → length p.rest ≤ m
    → (at_newline p.rest ≡ true → length p.rest < m)
    → Sound p
    → Advances n m (round n p)
unfolding round
round-Advances n m p sp le short s =
    at_rest n m p.rest (word_case n 0 [] p)
      (λ c cs. if c == b'\n' then newline_case n p else byte_case n c cs p)
      (λ r. absurd (subst Terminated r s.terminated))
      (λ c cs r. elim (Bool-cases (c == b'\n')) [
        | inl nl ↦ rw nl (newline_case-Advances n m p (short (ap at_newline r ∙ nl)) s)
        | inr nl ↦ rw nl (
            Advances-le n (length p.rest) m (byte_case n c cs p) le
              (byte_case-Advances n c cs p r (sp c cs r) nl s))
      ])

finish_line-Returned : (n : ℕ) (p : Parse) → Sound p → Returned n (finish_line n p)
unfolding finish_line
finish_line-Returned n p s = elim (Bool-cases (p.allocated && needs_word p.phase)) [
  | inl a ↦ rw (a, Returned) (omega arith, code-le p.phase)
  | inr a ↦
      rw (a, Returned)
        (elim (Bool-cases (takes_redirection p.phase)) [
          | inl b ↦
              rw (b, Returned)
                (All-add IsJob p.jobs (close_job foreground p) s.jobs
                  (close_job-IsJob foreground p s.programs (takes-HasArgs p.phase p.args b s.args)))
          | inr b ↦ rw (b, Returned) s.jobs
        ])
]

-- The variables at the `switch`.
skipped-Sound : (p : Parse) → Sound p → Sound (record p { rest = skip_whitespace p.rest })
skipped-Sound p s = record {
  terminated = (skip_whitespace-lem p.rest s.terminated).0;
  jobs = s.jobs;
  programs = s.programs;
  args = s.args;
}

after_round :
    (f n m : ℕ) (r : Round)
    → ((p : Parse) → length p.rest < f → Sound p → Returned n (parse_loop f n p))
    → m ≤ f
    → Advances n m r
    → Returned n (elim r [ goes p' ↦ parse_loop f n p' | returns r ↦ r ])
after_round f n m (goes p) h le a = h p (omega (arith, a.1, le)) a.0
after_round f n m (returns r) h le a = a

parse_loop-Returned :
    (f n : ℕ) (p : Parse) → length p.rest < f → Sound p → Returned n (parse_loop f n p)
unfolding parse_loop
parse_loop-Returned zero n p lt s = absurd (omega arith)
parse_loop-Returned (suc f) n p lt s = elim (Bool-cases (at_newline p.rest)) [
  | inl a ↦ rw (a, parse_loop) (finish_line-Returned n p s)
  | inr a ↦
      rw (a, parse_loop)
        (let (nn, le, sp, shorter) = skip_whitespace-lem p.rest s.terminated in
          let q = record p { rest = skip_whitespace p.rest } in
          after_round f n (length p.rest) (round n q) (parse_loop-Returned f n) (omega (arith, lt))
            (round-Advances n (length p.rest) q sp le (shorter a) (skipped-Sound p s)))
]

-- On a line that has a newline, and no null byte in front of it, `parse_cmdline` returns: it reads through an array that is not
-- there, refuses the line at a position in it and with a code of `parseline_error`, or gives the
-- jobs, each with a command, and each of their commands with a program.
pub parse_cmdline-Returned :
    (line : Bytes) → Terminated line → Returned (length line) (parse_cmdline line)
unfolding parse_cmdline
parse_cmdline-Returned line h =
    parse_loop-Returned (length line + 3) (length line) _ (omega arith)
      record { terminated = h; jobs = tt; programs = tt; args = tt }

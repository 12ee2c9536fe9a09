-- ===== src/Tests/Parser.antt =====
-- Runs of PA4/src/parser.c.
use sysprog.Base.{◌≡◌, refl, inl, inr, none, some, [], ◌∷◌, codes, arith}
use sysprog.JobControl.{foreground, background}
use sysprog.Shell.Parser.Results.{Returned}
use sysprog.Shell.Parser.Returns.{parse_cmdline-Returned}
use sysprog.Shell.Parser.{
  parsed, refused, fault, unfinished, isdelim, skip_whitespace, word, close_job, store, pipe_case,
  redirection_case, background_case, end_quote, read_word, word_case, newline_case, byte_case,
  round, finish_line, parse_loop, parse_cmdline,
}

-- A pipeline with an output file in the background, and a job behind it.
two_jobs :
    parse_cmdline (codes "ls -l | wc > f & vi\n")
    ≡ parsed (
        record {
          argv = (codes "ls" ∷ codes "-l" ∷ []) ∷ (codes "wc" ∷ []) ∷ [];
          infile = none;
          outfile = some (codes "f");
          mode = background;
          text = codes "ls -l | wc > f ";
        }
        ∷ record {
          argv = (codes "vi" ∷ []) ∷ [];
          infile = none;
          outfile = none;
          mode = foreground;
          text = codes "vi";
        }
        ∷ [])
unfolding isdelim skip_whitespace word close_job store pipe_case redirection_case background_case
    end_quote read_word word_case newline_case byte_case round finish_line parse_loop parse_cmdline
two_jobs = refl

quoted : parse_cmdline (codes "echo 'a | b\n") ≡ refused 6 5
unfolding isdelim skip_whitespace word close_job store pipe_case redirection_case background_case
    end_quote read_word word_case newline_case byte_case round finish_line parse_loop parse_cmdline
quoted = refl

redirection_first : parse_cmdline (codes "< f\n") ≡ fault
unfolding isdelim skip_whitespace word close_job store pipe_case redirection_case background_case
    end_quote read_word word_case newline_case byte_case round finish_line parse_loop parse_cmdline
redirection_first = refl

-- A chunk of a line, without a newline, keeps the parser in its loop.
no_newline : parse_cmdline (codes "ls -l") ≡ unfinished
unfolding isdelim skip_whitespace word close_job store pipe_case redirection_case background_case
    end_quote read_word word_case newline_case byte_case round finish_line parse_loop parse_cmdline
no_newline = refl

-- A pipe of two commands.
parse_cmdline-Returned_example : Returned 4 (parse_cmdline (codes "a|b\n"))
parse_cmdline-Returned_example =
    parse_cmdline-Returned (codes "a|b\n")
      (inr (omega arith, inr (omega arith, inr (omega arith, inl refl))))

-- ===== src/Shell/Pipes.antt =====
-- PA4/src/csapsh.c: the set-up of a child in `eval`, with `close_unused_pipes`. A job of `num_cmd`
-- commands has `num_cmd - 1` pipes; the child of index `cmd_idx` issues the calls listed here.
pub mod Plumbing
use sysprog.Base.{
  ℕ, zero, suc, ◌+◌, ◌-◌, Bool, true, false, ◌&&◌, ◌||◌, Option, none, some, List, [], ◌∷◌, ◌++◌,
  ltb, ◌==◌, if◌then◌else◌, Bytes,
}

-- `pipefd[i][P_READ]` and `pipefd[i][P_WRITE]`
pub data End : Type 0 where
  p_read p_write : ℕ → End

abbrev pub end_eq : End → End → Bool
end_eq (p_read i) (p_read j) = i == j
end_eq (p_write i) (p_write j) = i == j
end_eq _ _ = false

-- The calls of a child: a redirection is `open`, `dup2` on stdin or stdout, and `close`.
pub data ChildCall : Type 0 where
  redirect_in redirect_out : Bytes → ChildCall
  close dup2_stdin dup2_stdout : End → ChildCall

-- The loop of `close_unused_pipes`, from `i` on; `i == cmd_idx - 1` is never true at index 0.
close_loop : ℕ → ℕ → ℕ → List ChildCall
close_loop zero i cmd_idx = []
close_loop (suc n) i cmd_idx =
    let rest = close_loop n (i + 1) cmd_idx in
    if i == cmd_idx || i + 1 == cmd_idx then rest else close (p_read i) ∷ close (p_write i) ∷ rest

-- The two calls behind the loop.
close_neighbours : ℕ → ℕ → List ChildCall
close_neighbours num_pipes cmd_idx =
    (if ltb (cmd_idx + 1) num_pipes then close (p_read cmd_idx) ∷ [] else [])
    ++ (if ltb 0 cmd_idx then close (p_write (cmd_idx - 1)) ∷ [] else [])

pub close_unused_pipes : ℕ → ℕ → List ChildCall
unfolding close_loop close_neighbours
close_unused_pipes num_pipes cmd_idx =
    close_loop num_pipes 0 cmd_idx ++ close_neighbours num_pipes cmd_idx

opened : (Bytes → ChildCall) → Option Bytes → List ChildCall
opened redirect none = []
opened redirect (some f) = redirect f ∷ []

redirections : ℕ → ℕ → Option Bytes → Option Bytes → List ChildCall
unfolding opened
redirections num_cmd cmd_idx infile outfile =
    if cmd_idx + 1 == num_cmd then opened redirect_in infile ++ opened redirect_out outfile else []

-- The ends that become the command's input and output; the originals are closed.
dup_ends : ℕ → ℕ → List ChildCall
dup_ends num_cmd cmd_idx =
    if cmd_idx == 0
    then dup2_stdout (p_write 0) ∷ close (p_write 0) ∷ []
    else if cmd_idx + 1 == num_cmd
    then dup2_stdin (p_read (num_cmd - 2)) ∷ close (p_read (num_cmd - 2)) ∷ []
    else dup2_stdin (p_read (cmd_idx - 1))
      ∷ dup2_stdout (p_write cmd_idx)
      ∷ close (p_read (cmd_idx - 1))
      ∷ close (p_write cmd_idx)
      ∷ []

connections : ℕ → ℕ → List ChildCall
unfolding close_unused_pipes dup_ends
connections num_cmd cmd_idx =
    if ltb 1 num_cmd
    then close_unused_pipes (num_cmd - 1) cmd_idx ++ dup_ends num_cmd cmd_idx
    else []

-- All calls of the child before it joins its process group and runs the command.
pub child_calls : ℕ → ℕ → Option Bytes → Option Bytes → List ChildCall
unfolding redirections connections
child_calls num_cmd cmd_idx infile outfile =
    redirections num_cmd cmd_idx infile outfile ++ connections num_cmd cmd_idx

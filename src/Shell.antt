-- ===== src/Shell.antt =====
-- PA4/src/csapsh.c: the shell over the job list of `JobControl`. The kernel enters as lists of what
-- its calls return; the calls that the shell makes come out as lists.
pub mod Signals
pub mod Builtin
pub mod Pipes
pub mod Parser
pub mod Eval
pub mod Main

-- ===== src/Tests.antt =====
-- Concrete runs: the theorems of the development at inputs where their hypotheses hold.
pub mod Shell
pub mod Memory
pub mod Session
pub mod Segment
pub mod Parser
pub mod Lines
pub mod Blocks
pub mod Burgers
pub mod Trees
pub mod Eval
pub mod FreeList

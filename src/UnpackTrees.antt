-- ===== src/UnpackTrees.antt =====
-- src/lib/unpack-trees.ts: the layer that moves the index and the worktree from one tree to another.
-- State has the types, Merge the decision tables, Check the preconditions, Build the path states and
-- the result, and Unpack the entry points. The proofs are in Table and Safety.
pub mod State
pub mod Merge
pub mod Check
pub mod Build
pub mod Unpack
pub mod Table
pub mod Safety
mod Examples

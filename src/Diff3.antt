-- ===== src/Diff3.antt =====
-- The three-way merge of lines, src/lib/diff3.ts. The flags of the changed lines, which
-- src/lib/diff-algorithm.ts computes, are an argument. Indices has the differences of two texts, Regions the first
-- pass of a merge, Blocks what follows it, Merge the lines with markers; the other modules have the proofs.
pub mod Indices
pub mod Blocks
pub mod Regions
pub mod Merge
pub mod Sides
pub mod Progress
pub mod Refined
pub mod Kept
pub mod Absorbed
pub mod Apart
pub mod Found
pub mod Run
pub mod OneSided
pub mod Finished
pub mod Turned
pub mod Differs
pub mod Hunks
pub mod Pulled
pub mod Cut
pub mod InStep
pub mod Recovered
pub mod Loop
pub mod Whole
pub mod Returned
mod Examples

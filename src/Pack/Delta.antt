-- ===== src/Pack/Delta.antt =====
-- Deltas: src/lib/pack/delta.ts and `applyDelta` of src/lib/pack/packfile.ts. Tables, Match, Create, Index and
-- Search are the former, Apply the latter; the other modules have the proofs.
pub mod Tables
pub mod Apply
pub mod Match
pub mod Create
pub mod Commands
pub mod Ops
pub mod Matches
pub mod Written
pub mod Copied
pub mod Correct
pub mod Steps
pub mod Pieces
pub mod Laid
pub mod Fits
pub mod Whole
pub mod Index
pub mod Search
pub mod Best
pub mod Window
pub mod Based
mod Examples

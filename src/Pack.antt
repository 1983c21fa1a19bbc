-- ===== src/Pack.antt =====
-- The numbers in packs: src/lib/pack/delta.ts and src/lib/pack/packfile.ts. Sizes has the encoders and
-- the readers of sizes, ReadBack and Header their proofs, Offsets the offset of a base with its proof,
-- Delta the deltas.
pub mod Sizes
pub mod ReadBack
pub mod Header
pub mod Offsets
pub mod Delta
mod Examples

-- ===== src/Objects.antt =====
-- Objects as bytes: src/lib/hex.ts and src/lib/objects. Tree, Commit, Tag and Identity have the formats,
-- HexBytes, ReadBack, IdentityReadBack, Lines, CommitReadBack, TagReadBack, Names and Done the proofs.
pub mod Hex
pub mod Tree
pub mod HexBytes
pub mod ReadBack
pub mod Identity
pub mod Commit
pub mod IdentityReadBack
pub mod Lines
pub mod CommitReadBack
pub mod Tag
pub mod TagReadBack
pub mod Names
pub mod Done
mod HeaderExamples
mod Examples

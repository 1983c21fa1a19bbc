-- ===== src/Server.antt =====
-- The server's storage and pushes: Memory is src/server/memory-storage.ts, Adapter the adapter of
-- src/server/storage.ts, Receive the ref updates of src/server/operations.ts. The proofs are in
-- Observe, Swap, Rollback, Push, Settled, Race and Fork.
pub mod Memory
pub mod Adapter
pub mod Receive
pub mod Observe
pub mod Swap
pub mod Rollback
pub mod Push
pub mod Settled
pub mod Race
pub mod Fork
mod Examples

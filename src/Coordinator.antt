-- ===== src/Coordinator.antt =====
-- oxana/src/coordinator.rs: how claimed jobs are put together in batches and handed to a worker.
pub mod Batcher
pub mod Invalid
pub mod Batches
pub mod Split
pub mod Pending
pub mod Apart
pub mod Safe
pub mod Kept
pub mod Watcher
pub mod Watching

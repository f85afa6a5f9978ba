-- ===== src/Examples.antt =====
-- Concrete instances.
pub mod Codec
pub mod Text
pub mod World
pub mod Lossless
pub mod Effects
pub mod Parts
pub mod Records
pub mod Deletion
pub mod Counts
pub mod Taking
pub mod Batch
pub mod Watch

-- ===== src/Storage.antt =====
-- The log of a partition (internal/storage): its errors, and the loops over the bytes of a file.
pub mod Runs
pub mod Batch
pub mod Index
pub mod Segment
pub mod Partition
pub mod Compaction
pub mod Producing

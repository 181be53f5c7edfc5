-- ===== src/Examples.antt =====
-- Tests of the models on concrete data, and the theorems applied to it: a group of two consumers
-- (internal/coordinator/group.go), and a log and a store of committed offsets
-- (internal/coordinator/offset_wal.go, internal/coordinator/offset_store.go), and a producer
-- (internal/coordinator/producer.go, internal/storage/idempotence.go).
pub mod Frames
pub mod Groups
pub mod Rebalances
pub mod Logs
pub mod Stores
pub mod Segments
pub mod Partitions
pub mod Records
pub mod Senders
pub mod Requests
pub mod Guards

-- ===== src/Lib.antt =====
-- PocketKafka, a broker that speaks the Kafka protocol: the log of its partitions, the group
-- coordinator with its committed offsets, the producers' identifiers and sequence numbers, and the
-- rate limiters.
--
-- The program. A topic's partition is a log of record batches, in segments with an index each; the
-- active segment takes the batches that are produced, and gives them their offsets. A consumer joins its group with JoinGroup, waits there until the members have joined
-- or the rebalance has expired, takes its partitions with SyncGroup, and stays with Heartbeat until
-- it leaves or the reaper removes it. It commits offsets to a store that keeps them in memory, in a
-- write-ahead log and in a snapshot. A producer takes an identifier and an epoch from the
-- coordinator, and a partition checks the sequence numbers of its batches. Two rate limiters guard
-- the broker's other interfaces.
--
-- The files.
--   Group.antt      internal/coordinator/group.go: a group, and the begin, the completion
--                   (beginRebalanceLocked, completeJoinLocked, chooseProtocol) and the expiry
--                   (expireRebalanceLocked) of a rebalance
--   Group/Messages  the requests and responses of pkg/protocol/group.go that the handlers read
--   Group/Join      JoinGroup, with fillJoinResponseLocked and sameMemberMetadata
--   Group/Sync      SyncGroup and Heartbeat
--   Group/Leave     LeaveGroup and reapExpired
--   Group/Roster, Group/Invariant, Group/History, Group/Members, Group/Protocols, Group/Fencing,
--                   Group/Waits: the proofs
--   Wal.antt        internal/coordinator/offset_wal.go: encodeWALRecord, decodeWALPayload,
--                   appendBatch and replay; the proofs are in Wal/
--   Offsets.antt    internal/coordinator/offset_store.go: CommitBatch, Fetch, compactLocked,
--                   DeleteGroup, Close and NewOffsetStore; the proofs are in Offsets/
--   Commits.antt    internal/coordinator/group.go: OffsetCommit and OffsetFetch, with GroupTopics and
--                   Partitions of the store; the proofs are in Commits/Fences
--   Manager.antt    internal/coordinator/group.go: the table of groups, with DeleteGroup, ResetOffsets,
--                   ReapExpiredSessions and CommittedGroups, with GroupOffsets and Groups of the
--                   store; the proofs are in Manager/Deletion and Manager/Listing
--   Producers.antt  internal/coordinator/producer.go: Next and Validate; the proofs are in
--                   Producers/Epochs
--   Producers/Sequences  internal/storage/idempotence.go: ValidateAndAppend; the proofs are in
--                   Producers/Retries
--   Storage.antt    internal/storage: Storage/Runs has results and loops, Storage/Batch the header of a
--                   batch (record.go), Storage/Index the index of a segment (index.go)
--   Storage/Segment  internal/storage/segment.go: a segment on the bytes of its files; the proofs are
--                   in its children, and those on the search of the index in Storage/Index/Search
--   Storage/Partition  internal/storage/partition.go: append, read and the queries, with TruncateTo in
--                   Storage/Partition/Truncate and retention.go in Storage/Partition/Retention; the
--                   proofs are in Blocks, Append, Reading, Served and Plan
--   Storage/Producing  AppendIdempotentSynced of partition.go, which joins Producers/Sequences to the
--                   append of a partition; the proof is in Storage/Producing/Once
--   Storage/Compaction  internal/storage/compaction.go: planCompaction, stageCompaction and the choice
--                   in Compact, on the records of a partition; the proofs are in Latest and Once
--   Frames.antt     pkg/protocol/frame.go: ReadRequestFrame and WriteResponseFrame on the bytes of a
--                   connection; the proof is in Frames/Pipeline
--   Records.antt    pkg/protocol/record_batch.go: EncodeRecord, decodeRecord, with the varints in
--                   Records/Varint; the proofs are in Records/RoundTrip and Records/Hostile
--   Limits.antt     internal/fleet/ratelimit.go and internal/ratelimit/ratelimit.go: the rate
--                   limiters; the proofs are in Limits/Window, against a window over all requests,
--                   and Limits/Bounds
--   Prelude.antt    what the others share: tests, lists, Go's integers and maps, bytes and words
--   Examples.antt   tests, and the theorems at concrete data
--
-- The model. A handler is a function from the state to the state and its answer. It is cut where it
-- releases the lock: JoinGroup and SyncGroup answer, or wait until a deadline, and what they do when
-- the wait ends is a function of its own (`join_wake`, `sync_loop`). `Step` in Group/History is one
-- such stretch, by any client at any time, and `Reach` the states after any sequence of them. The
-- clock is read once for each stretch; a time is its nanoseconds since Go's zero time, which a
-- deadline of zero stands for. A channel that is closed and made anew is a counter. `none` in place
-- of a handler's result is a panic: an index out of range, or a nil pointer. A set of strings is the
-- list of its elements, and a map is an association list in the order of insertion; Go's order of
-- iteration is free, and nothing that is stated depends on it, as the loops over members collect a
-- set, a maximum or what the join order already orders.
--
-- The numbers of a group are signed, and its generation wraps as an int32 does; those in the log
-- and the store are the bit patterns of their words. The log is its bytes, with the number of those
-- that a sync has put on disk, and the snapshot the table that gob decodes from it: encoding/gob
-- does not send a pointer to an empty string, so that metadata of the empty string is nil
-- (`gob_table`). A crash is a cut of the bytes that a commit has added. Replay runs on fuel, one
-- more round than the log has bytes; a record has nine bytes at least, so the fuel is never used
-- up.
--
-- A log file is the list of its bytes, and a loop over it runs on fuel, one more round than the file
-- has bytes; every round passes a byte at least, so the fuel is never used up. Offsets are signed, and
-- their sums are taken not to leave an int64; what the code cuts to 32 bits is cut. A segment whose
-- files are in the object store is its keys, and the store that fetches them is a parameter. The
-- theorems on a partition are about one whose segments are all on disk.
--
-- Not modelled: writes and syncs that fail, the locks of the manager (the deletion of a group
-- against its handlers), the pruning of the offsets and the listings for the dashboard; the table
-- of topics, the writer of a compaction, with the batches that it cannot decode and passes over,
-- and the moving of segments to the object store; the wire protocol but for its records and frames,
-- the server, the fleet control, the gateways and the dashboard. hash/crc32, encoding/binary and
-- sort.Search are written out, and of encoding/gob what it does to a table.
pub mod Prelude
pub mod Group
pub mod Wal
pub mod Offsets
pub mod Commits
pub mod Manager
pub mod Limits
pub mod Frames
pub mod Producers
pub mod Storage
pub mod Records
pub mod Examples

-- ===== src/Offsets.antt =====
-- The store of committed offsets (internal/coordinator/offset_store.go): the table in memory, the
-- snapshot file, and the write-ahead log. The snapshot file is the table that gob decodes it to;
-- writes and syncs that fail are not modelled. An int32 or an int64 is its bit pattern.
pub mod Table
pub mod Durable
pub mod Crash
pub mod Snapshots
pub mod Lost
use pocketkafka.Prelude.{
  ℕ, zero, suc, ◌+◌, ◌^◌, ◌%◌, Bool, true, false, not, ◌&&◌, Option, none, some, List, [], ◌∷◌,
  ◌++◌, ltb, leb, Bytes, ◌==◌, bytes_eq, nat_eq, if◌then◌else◌, length,
}
use pocketkafka.Prelude.Dict.{Dict, get, put, remove, has, map_values}
use pocketkafka.Wal.{
  WalRecord, wal_record_commit, append_batch, reset, Replayed, finished, failed, out_of_fuel,
  replay,
}

abbrev pub wal_compact_threshold : ℕ
wal_compact_threshold = 1024

pub record CommittedOffset : Type 0 where
  pub offset : ℕ
  pub metadata : Option Bytes
  pub leader_epoch : ℕ
  pub updated_at : ℕ

abbrev pub Parts : Type 0
Parts = Dict ℕ CommittedOffset

abbrev pub Topics : Type 0
Topics = Dict Bytes Parts

abbrev pub Table : Type 0
Table = Dict Bytes Topics

-- `wal` and `snapshot` are the files, used only if the backend is a file; a sync has put the first
-- `wal_synced` bytes of the log on disk.
pub record OffsetStore : Type 0 where
  pub file_backed : Bool
  pub offsets : Table
  pub wal_n : ℕ
  pub compacting : Bool
  pub closed : Bool
  pub snapshot : Table
  pub wal : Bytes
  pub wal_synced : ℕ

pub record OffsetCommitRecord : Type 0 where
  pub group : Bytes
  pub topic : Bytes
  pub partition : ℕ
  pub offset : CommittedOffset

-- A map that is missing is made where it is written to.
abbrev pub or_new {ℓ} : {A : Type ℓ} → Option (List A) → List A
or_new none = []
or_new (some d) = d

-- offsets[group][topic][partition] = off
unfoldable pub put_offset : Table → Bytes → Bytes → ℕ → CommittedOffset → Table
put_offset table group topic partition off =
    let gt = or_new (get table group) in
    let tp = or_new (get gt topic) in put table group (put gt topic (put tp partition off))

-- Fetch
unfoldable pub fetch : Table → Bytes → Bytes → ℕ → Option CommittedOffset
fetch table group topic partition = get (or_new (get (or_new (get table group)) topic)) partition

-- The record's offset with the time of the commit, unless it has one.
unfoldable pub stamped : ℕ → CommittedOffset → CommittedOffset
stamped now off = if off.updated_at == 0 then record off { updated_at = now } else off

unfoldable pub wal_record_of : ℕ → OffsetCommitRecord → WalRecord
unfolding stamped
wal_record_of now r = record {
  record_type = wal_record_commit;
  group = r.group;
  topic = r.topic;
  partition = r.partition;
  offset = r.offset.offset;
  leader_epoch = r.offset.leader_epoch;
  metadata = r.offset.metadata;
  timestamp = (stamped now r.offset).updated_at;
}

unfoldable pub wal_records_of : ℕ → List OffsetCommitRecord → List WalRecord
wal_records_of now [] = []
wal_records_of now (r ∷ rs) = wal_record_of now r ∷ wal_records_of now rs

-- The loop of CommitBatch over the table.
unfoldable pub commit_loop : ℕ → List OffsetCommitRecord → Table → Table
commit_loop now [] table = table
commit_loop now (r ∷ rs) table =
    commit_loop now rs (put_offset table r.group r.topic r.partition (stamped now r.offset))

-- appendAndMaybeCompact, with whether it starts a compaction.
unfoldable pub append_and_maybe_compact : List WalRecord → OffsetStore → OffsetStore × Bool
append_and_maybe_compact recs s =
    let n = s.wal_n + length recs in
    let file = append_batch recs (s.wal, s.wal_synced) in
    let trigger = leb wal_compact_threshold n && (not s.compacting && not s.closed) in
    (
      record s {
        wal = file.0;
        wal_synced = file.1;
        wal_n = n;
        compacting = if trigger then true else s.compacting;
      },
      trigger,
    )

-- CommitBatch at the clock's reading `now`.
unfoldable pub commit_batch : ℕ → List OffsetCommitRecord → OffsetStore → OffsetStore × Bool
commit_batch now [] s = (s, false)
commit_batch now (r ∷ rs) s =
    let s' = record s { offsets = commit_loop now (r ∷ rs) s.offsets } in
    if s.file_backed then append_and_maybe_compact (wal_records_of now (r ∷ rs)) s' else (s', false)

-- gob sends no pointer to an empty string, and decodes its absence as nil.
unfoldable pub gob_metadata : Option Bytes → Option Bytes
gob_metadata none = none
gob_metadata (some []) = none
gob_metadata (some (b ∷ bs)) = some (b ∷ bs)

unfoldable pub gob_offset : CommittedOffset → CommittedOffset
gob_offset off = record off { metadata = gob_metadata off.metadata }

-- The table that gob decodes from the encoding of a table.
unfoldable pub gob_table : Table → Table
gob_table table = map_values (map_values (map_values gob_offset)) table

-- compactLocked, in its two writes to disk.
unfoldable pub write_snapshot : OffsetStore → OffsetStore
write_snapshot s = record s { snapshot = gob_table s.offsets }

unfoldable pub reset_wal : OffsetStore → OffsetStore
reset_wal s =
    let file = reset (s.wal, s.wal_synced) in
    record s { wal = file.0; wal_synced = file.1; wal_n = 0 }

unfoldable pub compact : OffsetStore → OffsetStore
compact s = if s.file_backed then reset_wal (write_snapshot s) else record s { wal_n = 0 }

-- compactAsync
unfoldable pub compact_async : OffsetStore → OffsetStore
compact_async s = record (compact s) { compacting = false }

-- DeleteGroup
unfoldable pub delete_group : Bytes → OffsetStore → OffsetStore
delete_group group s =
    let s' = record s { offsets = remove s.offsets group } in
    if has s.offsets group && s.file_backed then compact s' else s'

-- Close, up to the closing of the files.
unfoldable pub close : OffsetStore → OffsetStore
close s = if s.file_backed then compact (record s { closed = true }) else s

-- The callback of replayWAL: the table after one record of the log.
unfoldable pub apply_record : Table → WalRecord → Table
apply_record table r =
    if r.record_type == wal_record_commit
    then put_offset table r.group r.topic r.partition (record {
      offset = r.offset;
      metadata = r.metadata;
      leader_epoch = r.leader_epoch;
      updated_at = r.timestamp;
    })
    else table

unfoldable pub apply_records : Table → List WalRecord → Table
apply_records table [] = table
apply_records table (r ∷ rs) = apply_records (apply_record table r) rs

unfoldable pub count_commits : List WalRecord → ℕ
count_commits [] = 0
count_commits (r ∷ rs) = (if r.record_type == wal_record_commit then 1 else 0) + count_commits rs

-- The table and the counter after replayWAL; `none` where the log is corrupt.
unfoldable pub replayed : Table → Replayed → Option (Table × ℕ)
replayed table (finished rs) = some (apply_records table rs, count_commits rs)
replayed table (failed rs e) = none
replayed table out_of_fuel = none

-- The last step of NewOffsetStore. What it finds in the log is on disk.
unfoldable pub maybe_compact : OffsetStore → OffsetStore
maybe_compact s = if leb wal_compact_threshold s.wal_n then compact s else s

unfoldable pub opened : Table → Bytes → Table × ℕ → OffsetStore
opened snapshot wal (table, n) = maybe_compact (record {
  file_backed = true;
  offsets = table;
  wal_n = n;
  compacting = false;
  closed = false;
  snapshot = snapshot;
  wal = wal;
  wal_synced = length wal;
})

unfoldable pub open_with : Table → Bytes → Option (Table × ℕ) → Option OffsetStore
open_with snapshot wal none = none
open_with snapshot wal (some r) = some (opened snapshot wal r)

-- NewOffsetStore on the files that it finds, with the file backend; `none` is its error.
unfoldable pub new_offset_store : Table → Bytes → Option OffsetStore
new_offset_store snapshot wal = open_with snapshot wal (replayed snapshot (replay wal))

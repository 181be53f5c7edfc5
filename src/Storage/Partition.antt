-- ===== src/Storage/Partition.antt =====
-- A partition (internal/storage/partition.go): its segments, the closed ones and the active one, with
-- the operations that append, read and truncate; retention is in the child. A segment whose files are
-- in the object store is `remote`: its keys and its offsets.
pub mod Truncate
pub mod Retention
pub mod Plan
pub mod Blocks
pub mod Append
pub mod Reading
pub mod Served
use pocketkafka.Prelude.{
  ℕ, suc, ◌+◌, ◌-◌, ◌<◌, Bool, true, false, ◌&&◌, not, Bytes, ltb, leb, eqb, if◌then◌else◌, length,
  List, [], ◌∷◌, ◌++◌, Option, none, some, keep,
}
use pocketkafka.Prelude.Ints.{ℤ, pos, negsuc, ◌+ℤ◌, ◌-ℤ◌, ltb_ℤ, leb_ℤ, eqb_ℤ, signed}
use pocketkafka.Storage.Runs.{
  Run, done, failed, StorageError, nil_pointer, segment_remote, no_fetcher, fetch_failed,
  invalid_file, ◌>>=◌,
}
use pocketkafka.Storage.Batch.{parse_record_batch_header, RecordBatchHeader}
use pocketkafka.Storage.Index.{IndexFile}
use pocketkafka.Storage.Segment
use pocketkafka.Storage.Segment.{open_segment, full, sync}

-- A moved segment: what its stub holds, the keys of its objects and the next offset, and what is still
-- in memory.
pub record RemoteSegment : Type 0 where
  pub base_offset : ℤ
  pub next_offset : ℤ
  pub max_segment_bytes : ℤ
  pub interval : ℤ
  pub synced_offset : ℤ
  pub last_sync_ms : ℤ
  pub log_key : Bytes
  pub index_key : Bytes

pub data StoredSegment : Type 0 where
  local : Segment.Segment → StoredSegment
  remote : RemoteSegment → StoredSegment

pub record Partition : Type 0 where
  pub closed_segments : List StoredSegment
  pub active_segment : StoredSegment
  pub next_offset : ℤ
  pub high_watermark : ℤ
  pub max_segment_bytes : ℤ
  pub index_interval : ℤ

abbrev pub base_of : StoredSegment → ℤ
base_of (local s) = s.base_offset
base_of (remote r) = r.base_offset

abbrev pub log_end_offset : StoredSegment → ℤ
log_end_offset (local s) = s.next_offset
log_end_offset (remote r) = r.next_offset

abbrev pub is_remote : StoredSegment → Bool
is_remote (local s) = false
is_remote (remote r) = true

-- The size of a moved segment is 0.
abbrev pub size_bytes : StoredSegment → ℕ
size_bytes (local s) = length s.log
size_bytes (remote r) = 0

unfoldable pub ordered_segments : Partition → List StoredSegment
ordered_segments p = p.closed_segments ++ p.active_segment ∷ []

unfoldable pub stored_full : StoredSegment → Bool
stored_full (local s) = full s
stored_full (remote r) = leb_ℤ r.max_segment_bytes (pos 0)

-- A partition with the segments, whose next offset and high watermark are the active one's.
unfoldable pub with_active : Partition → List StoredSegment → StoredSegment → ℤ → Partition
with_active p closed active n = record {
  closed_segments = closed;
  active_segment = active;
  next_offset = n;
  high_watermark = n;
  max_segment_bytes = p.max_segment_bytes;
  index_interval = p.index_interval;
}

-- roll: the files of the new segment do not exist yet.
unfoldable pub roll : Partition → Run (List StoredSegment × StoredSegment)
roll p = do
  s ← open_segment [] [] p.next_offset p.max_segment_bytes p.index_interval
  done (ordered_segments p, local s)

unfoldable pub room : Partition → Run (List StoredSegment × StoredSegment)
room p = if stored_full p.active_segment then roll p else done (p.closed_segments, p.active_segment)

unfoldable pub append_stored : StoredSegment → Bytes → Run (Segment.Segment × ℤ)
append_stored (local s) raw = Segment.append s raw
append_stored (remote r) raw = do h ← parse_record_batch_header raw; failed invalid_file

-- A failed append behind a roll leaves the new segment in place.
unfoldable pub append : Partition → Bytes → Run (Partition × ℤ)
append p raw = do
  (closed, active) ← room p
  (s, assigned) ← append_stored active raw
  done (with_active p closed (local s) s.next_offset, assigned)

-- Sync at the time `now`.
unfoldable pub synced : StoredSegment → ℤ → StoredSegment
synced (local s) now = if eqb s.synced_bytes (length s.log) then local s else local (sync s now)
synced (remote r) now = remote r

unfoldable pub sync_partition : Partition → ℤ → Partition
sync_partition p now = record {
  closed_segments = p.closed_segments;
  active_segment = synced p.active_segment now;
  next_offset = p.next_offset;
  high_watermark = p.high_watermark;
  max_segment_bytes = p.max_segment_bytes;
  index_interval = p.index_interval;
}

unfoldable pub append_synced : Partition → Bytes → Bool → ℤ → Run (Partition × ℤ)
append_synced p raw do_sync now = do
  (p', assigned) ← append p raw
  done ((if do_sync then sync_partition p' now else p'), assigned)

-- The loop of readLocked from the segment on in which the read begins.
unfoldable pub read_segments : List StoredSegment → ℤ → ℤ → Bytes → Run Bytes
read_segments [] start max_bytes out = done out
read_segments (remote r ∷ segs) start max_bytes out =
    if leb_ℤ max_bytes (signed 32 (length out)) then done out else failed segment_remote
read_segments (local s ∷ segs) start max_bytes out =
    let rest = λ (d : Bytes). read_segments segs s.next_offset max_bytes (out ++ d) in
    if leb_ℤ max_bytes (signed 32 (length out))
    then done out
    else Segment.read s start (max_bytes -ℤ signed 32 (length out)) >>= rest

unfoldable pub segments_from : ℤ → List StoredSegment → List StoredSegment
segments_from start [] = []
segments_from start (s ∷ segs) =
    if ltb_ℤ start (log_end_offset s) then s ∷ segs else segments_from start segs

unfoldable pub read_locked : List StoredSegment → ℤ → ℤ → Run Bytes
read_locked segs start max_bytes = read_segments (segments_from start segs) start max_bytes []

-- restoreSegmentLocked, with the partition's function that fetches an object.
unfoldable pub fetched : Option (Bytes → Option Bytes) → Bytes → Run Bytes
fetched none key = failed no_fetcher
fetched (some fetch) key = elim (fetch key) [ none ↦ failed fetch_failed | some bytes ↦ done bytes ]

unfoldable pub restore : Option (Bytes → Option Bytes) → RemoteSegment → Run StoredSegment
restore fetch r = do
  log ← fetched fetch r.log_key
  index ← fetched fetch r.index_key
  s ← open_segment log index r.base_offset r.max_segment_bytes r.interval
  done (local s)

unfoldable pub restore_if : Option (Bytes → Option Bytes) → ℤ → StoredSegment → Run StoredSegment
restore_if fetch start (local s) = done (local s)
restore_if fetch start (remote r) =
    if ltb_ℤ start r.next_offset then restore fetch r else done (remote r)

unfoldable pub restored :
    Option (Bytes → Option Bytes) → ℤ → List StoredSegment → Run (List StoredSegment)
restored fetch start [] = done []
restored fetch start (s ∷ segs) = do
  s' ← restore_if fetch start s
  rest ← restored fetch start segs
  done (s' ∷ rest)

-- Read, which answers with the high watermark too; the segments that are restored stay so.
unfoldable pub read :
    Option (Bytes → Option Bytes) → Partition → ℤ → ℤ → Run (Partition × Bytes × ℤ)
read fetch p offset max_bytes =
    let start = if ltb_ℤ offset (pos 0) then pos 0 else offset in
    if leb_ℤ p.high_watermark start then done (p, [], p.high_watermark) else do
      closed ← restored fetch start p.closed_segments
      active ← restore_if fetch start p.active_segment
      out ← read_locked (closed ++ active ∷ []) start max_bytes
      done (
        record {
          closed_segments = closed;
          active_segment = active;
          next_offset = p.next_offset;
          high_watermark = p.high_watermark;
          max_segment_bytes = p.max_segment_bytes;
          index_interval = p.index_interval;
        },
        out,
        p.high_watermark,
      )

unfoldable pub earliest_offset : Partition → ℤ
earliest_offset p = elim p.closed_segments [ [] ↦ base_of p.active_segment | s ∷ segs ↦ base_of s ]

unfoldable pub get_offset : Partition → ℤ → ℤ
get_offset p target =
    if eqb_ℤ target (negsuc 0)
    then p.high_watermark
    else if eqb_ℤ target (negsuc 1)
    then earliest_offset p
    else negsuc 0

-- ===== src/Storage/Partition/Truncate.antt =====
-- Truncation of a partition (internal/storage/partition.go: TruncateTo).
use pocketkafka.Prelude.{not, if◌then◌else◌, List, [], ◌∷◌, keep, Option, none, some}
use pocketkafka.Prelude.Ints.{ℤ, pos, leb_ℤ}
use pocketkafka.Storage.Runs.{Run, done, failed, nil_pointer, ◌>>=◌}
use pocketkafka.Storage.Segment
use pocketkafka.Storage.Segment.{open_segment}
use pocketkafka.Storage.Partition.{Partition, StoredSegment, local, remote, base_of, with_active}

-- The last segment, and those before it.
unfoldable pub split_last : List StoredSegment → Option (List StoredSegment × StoredSegment)
split_last [] = none
split_last (s ∷ segs) = elim (split_last segs) [
  | none ↦ some ([], s)
  | some (before, last) ↦ some (s ∷ before, last)
]

-- The closed segments and the active one that are left; where none is, a segment from offset 0 on is
-- opened, whose files do not exist.
unfoldable pub reopened : Partition → List StoredSegment → Run (List StoredSegment × StoredSegment)
reopened p closed = elim (split_last closed) [
  | none ↦ do
    s ← open_segment [] [] (pos 0) p.max_segment_bytes p.index_interval
    done ([], local s)
  | some r ↦ done r
]

unfoldable pub remaining : Partition → ℤ → Run (List StoredSegment × StoredSegment)
remaining p target =
    let kept = keep (λ (s : StoredSegment). not (leb_ℤ target (base_of s))) p.closed_segments in
    if leb_ℤ target (base_of p.active_segment)
    then reopened p kept
    else done (kept, p.active_segment)

-- truncateTo of a segment without files: at its base or below, nothing but the offset is set, and
-- otherwise the code reads the index, which is nil.
unfoldable pub truncate_stored : StoredSegment → ℤ → Run StoredSegment
truncate_stored (local s) target = do s' ← Segment.truncate_to s target; done (local s')
truncate_stored (remote r) target =
    if leb_ℤ target r.base_offset
    then done (
        remote (record {
          base_offset = r.base_offset;
          next_offset = r.base_offset;
          max_segment_bytes = r.max_segment_bytes;
          interval = r.interval;
          synced_offset = r.synced_offset;
          last_sync_ms = r.last_sync_ms;
          log_key = r.log_key;
          index_key = r.index_key;
        }))
    else failed nil_pointer

unfoldable pub truncate_partition : Partition → ℤ → Run Partition
truncate_partition p target = do
  (closed, active) ← remaining p target
  active' ← truncate_stored active target
  done (with_active p closed active' target)

unfoldable pub truncate_to : Partition → ℤ → Run Partition
truncate_to p wanted =
    let target = if leb_ℤ wanted (pos 0) then pos 0 else wanted in
    if leb_ℤ p.next_offset target then done p else truncate_partition p target

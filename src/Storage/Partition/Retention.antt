-- ===== src/Storage/Partition/Retention.antt =====
-- Retention of a partition (internal/storage/retention.go) and its sizes (partition.go: Durability,
-- CompactionDebt). A modification time that cannot be read is none.
use pocketkafka.Prelude.{
  ℕ, zero, suc, ◌+◌, ◌-◌, Bool, false, if◌then◌else◌, List, [], ◌∷◌, length, drop, Option, none,
  some, map,
}
use pocketkafka.Prelude.Ints.{ℤ, pos, ◌-ℤ◌, ltb_ℤ}
use pocketkafka.Storage.Partition.{
  Partition, StoredSegment, local, remote, base_of, is_remote, size_bytes, ordered_segments,
}

pub record Retention : Type 0 where
  pub retention_time : ℤ
  pub retention_bytes : ℤ

unfoldable pub sizes_of : List StoredSegment → ℕ
sizes_of [] = 0
sizes_of (s ∷ segs) = size_bytes s + sizes_of segs

unfoldable pub total_size : Partition → ℕ
total_size p = sizes_of p.closed_segments + size_bytes p.active_segment

abbrev pub is_older : Option ℤ → ℤ → Bool
is_older none cutoff = false
is_older (some mtime) cutoff = ltb_ℤ mtime cutoff

-- The loop over the ages: how many segments from the first one on are in the plan.
unfoldable pub expired_count : (StoredSegment → Option ℤ) → ℤ → List StoredSegment → ℕ
expired_count mod_time cutoff [] = 0
expired_count mod_time cutoff (s ∷ segs) =
    let rest = expired_count mod_time cutoff segs in
    if is_older (mod_time s) cutoff then suc rest else 0

-- The loop over the sizes, from the segments on that are not in the plan yet.
unfoldable pub oversize_count : ℤ → ℤ → List StoredSegment → ℕ
oversize_count bytes total [] = 0
oversize_count bytes total (s ∷ segs) =
    let rest = oversize_count bytes (total -ℤ pos (size_bytes s)) segs in
    if ltb_ℤ bytes total then suc rest else 0

unfoldable pub old_count : Partition → Retention → (StoredSegment → Option ℤ) → ℤ → ℕ
old_count p ret mod_time now =
    if ltb_ℤ (pos 0) ret.retention_time
    then expired_count mod_time (now -ℤ ret.retention_time) p.closed_segments
    else 0

unfoldable pub first : ℕ → List StoredSegment → List StoredSegment
first zero segs = []
first (suc n) [] = []
first (suc n) (s ∷ segs) = s ∷ first n segs

-- The plan is always the first segments, so it is their count.
unfoldable pub retention_plan : Partition → Retention → (StoredSegment → Option ℤ) → ℤ → ℕ
retention_plan p ret mod_time now =
    let old = old_count p ret mod_time now in
    let total = pos (total_size p) -ℤ pos (sizes_of (first old p.closed_segments)) in
    if ltb_ℤ (pos 0) ret.retention_bytes
    then old + oversize_count ret.retention_bytes total (drop old p.closed_segments)
    else old

unfoldable pub enforce_retention :
    Partition → Retention → (StoredSegment → Option ℤ) → ℤ → Partition
enforce_retention p ret mod_time now = record {
  closed_segments = drop (retention_plan p ret mod_time now) p.closed_segments;
  active_segment = p.active_segment;
  next_offset = p.next_offset;
  high_watermark = p.high_watermark;
  max_segment_bytes = p.max_segment_bytes;
  index_interval = p.index_interval;
}

unfoldable pub retention_debt : Partition → Retention → (StoredSegment → Option ℤ) → ℤ → ℕ
retention_debt p ret mod_time now =
    sizes_of (first (retention_plan p ret mod_time now) p.closed_segments)

-- The durable offset, the bytes at risk, and the time of the last sync; of a moved segment, whose
-- size is 0, nothing is at risk.
unfoldable pub durability : Partition → ℤ × ℕ × ℤ
durability p = elim p.active_segment [
  | local s ↦ (s.synced_offset, length s.log - s.synced_bytes, s.last_sync_ms)
  | remote r ↦ (r.synced_offset, 0, r.last_sync_ms)
]

-- The bytes that have come since the last compaction, and its time.
unfoldable pub compaction_debt : Partition → ℤ → ℕ → ℕ × ℤ
compaction_debt p last_compact_ms bytes_at_compact =
    let before = if ltb_ℤ (pos 0) last_compact_ms then bytes_at_compact else 0 in
    (total_size p - before, last_compact_ms)

pub record SegmentInfo : Type 0 where
  pub base_offset : ℤ
  pub size : ℕ
  pub in_store : Bool

unfoldable pub info_of : StoredSegment → SegmentInfo
info_of s = record { base_offset = base_of s; size = size_bytes s; in_store = is_remote s }

unfoldable pub segment_infos : Partition → List SegmentInfo
segment_infos p = map info_of (ordered_segments p)

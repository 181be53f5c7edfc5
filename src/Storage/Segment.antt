-- ===== src/Storage/Segment.antt =====
-- A segment of a partition's log (internal/storage/segment.go): the bytes of its log file, its index
-- and the next offset. The code's `size` is the length of the log file at every moment. The state of
-- a segment that has been moved to the object store is in the partition.
pub mod Log
pub mod Scan
pub mod Recovery
pub mod Ends
pub mod Append
pub mod Reading
pub mod Served
pub mod Cutting
pub mod Truncation
pub mod Unsized
pub mod Below
use pocketkafka.Prelude.{
  ℕ, suc, ◌+◌, ◌<◌, Bool, ◌||◌, not, Bytes, ltb, leb, eqb, if◌then◌else◌, length, drop, [], ◌++◌,
  none, some,
}
use pocketkafka.Prelude.Ints.{
  ℤ, pos, pos_part, ◌+ℤ◌, ◌-ℤ◌, ltb_ℤ, leb_ℤ, signed, unsigned, max_int32,
}
use pocketkafka.Prelude.Words.{be_bytes}
use pocketkafka.Prelude.Slices.{slice, read_at, resize}
use pocketkafka.Storage.Runs.{
  Run, done, failed, running, StorageError, segment_overflow, eof, Turn, next, leave, abort, repeat,
  ◌>>=◌,
}
use pocketkafka.Storage.Batch.{
  RecordBatchHeader, batch_header_size, int32_at, int64_at, parse_record_batch_header,
}
use pocketkafka.Storage.Index
use pocketkafka.Storage.Index.{IndexFile, open_index, maybe_append, position_for_offset, reset}

pub record Segment : Type 0 where
  pub base_offset : ℤ
  pub log : Bytes
  pub index : IndexFile
  pub next_offset : ℤ
  pub max_segment_bytes : ℤ
  pub synced_offset : ℤ
  pub synced_bytes : ℕ
  pub last_sync_ms : ℤ

-- The test of every loop over the log that a batch of the length ends within it.
unfoldable pub is_whole : Bytes → ℕ → ℤ → Bool
is_whole log p len = not (leb_ℤ len (pos 0) || ltb_ℤ (pos (length log)) (pos (p + 12) +ℤ len))

-- The loop of recover: the position, and the next offset.
unfoldable pub recover_batch : Bytes → ℕ → ℤ → ℤ → Turn (ℕ × ℤ)
recover_batch log p n len =
    if is_whole log p len
    then elim (read_at 4 (p + 23) log) [
      | none ↦ abort eof
      | some delta ↦ next (p + 12 + pos_part len, n +ℤ int32_at 0 delta +ℤ pos 1)
    ]
    else leave (p, n)

unfoldable pub recover_turn : Bytes → ℕ × ℤ → Turn (ℕ × ℤ)
recover_turn log (p, n) =
    if ltb p (length log)
    then elim (read_at 12 p log) [
      | none ↦ abort eof
      | some prefix ↦ recover_batch log p n (int32_at 8 prefix)
    ]
    else leave (p, n)

unfoldable pub recover : Bytes → ℤ → Run (ℕ × ℤ)
recover log base_offset = repeat (suc (length log)) (recover_turn log) (0, base_offset)

-- openSegment on the bytes of the two files, for a segment that is not in the object store; the log
-- is cut at the position that recover has reached.
unfoldable pub open_segment : Bytes → Bytes → ℤ → ℤ → ℤ → Run Segment
open_segment log index base_offset max_segment_bytes interval = do
  idx ← open_index index base_offset interval
  (p, n) ← recover log base_offset
  done (record {
    base_offset = base_offset;
    log = resize p log;
    index = idx;
    next_offset = n;
    max_segment_bytes = max_segment_bytes;
    synced_offset = n;
    synced_bytes = p;
    last_sync_ms = pos 0;
  })

-- The batch with the offset that it is given in place of its own.
unfoldable pub stamp : ℤ → Bytes → Bytes
stamp assigned raw = be_bytes 8 (unsigned 64 assigned) ++ drop 8 raw

unfoldable pub written : Segment → Bytes → ℤ → Segment
written s raw delta = record {
  base_offset = s.base_offset;
  log = s.log ++ raw;
  index = maybe_append s.index s.next_offset (length s.log);
  next_offset = s.next_offset +ℤ delta +ℤ pos 1;
  max_segment_bytes = s.max_segment_bytes;
  synced_offset = s.synced_offset;
  synced_bytes = s.synced_bytes;
  last_sync_ms = s.last_sync_ms;
}

unfoldable pub append_batch : Segment → Bytes → RecordBatchHeader → Run (Segment × ℤ)
append_batch s raw h =
    if ltb_ℤ (pos max_int32) (s.next_offset +ℤ h.last_offset_delta +ℤ pos 1 -ℤ s.base_offset)
    then failed segment_overflow
    else done (written s (stamp s.next_offset raw) h.last_offset_delta, s.next_offset)

unfoldable pub append : Segment → Bytes → Run (Segment × ℤ)
append s raw = do h ← parse_record_batch_header raw; append_batch s raw h

unfoldable pub full : Segment → Bool
full s = leb_ℤ s.max_segment_bytes (pos (length s.log))

-- The loop of read: the position, and the bytes that are read. A batch that ends before the offset
-- is left out.
unfoldable pub read_batch : Bytes → ℤ → ℕ → Bytes → ℤ → Turn (ℕ × Bytes)
read_batch log offset p out len =
    let total = 12 + pos_part len in
    let chunk = slice p total log in
    if not (is_whole log p len) || ltb total batch_header_size
    then leave (p, out)
    else if ltb_ℤ (int64_at 0 chunk +ℤ int32_at 23 chunk) offset
    then next (p + total, out)
    else next (p + total, out ++ chunk)

unfoldable pub read_turn : Bytes → ℤ → ℤ → ℕ × Bytes → Turn (ℕ × Bytes)
read_turn log offset max_bytes (p, out) =
    if ltb p (length log)
    then if ltb_ℤ (signed 32 (length out)) max_bytes
      then elim (read_at 12 p log) [
        | none ↦ leave (p, out)
        | some prefix ↦ read_batch log offset p out (int32_at 8 prefix)
      ]
      else leave (p, out)
    else leave (p, out)

unfoldable pub read_from : Bytes → ℤ → ℤ → ℕ → Run Bytes
read_from log offset max_bytes p = do
  (q, out) ← repeat (suc (length log)) (read_turn log offset max_bytes) (p, [])
  done out

unfoldable pub read : Segment → ℤ → ℤ → Run Bytes
read s offset max_bytes =
    if leb_ℤ max_bytes (pos 0)
    then done []
    else read_from s.log offset max_bytes (position_for_offset s.index offset)

-- The loop of truncateTo that finds where to cut; a delta that cannot be read is taken for zero.
unfoldable pub delta_at : Bytes → ℕ → ℤ
delta_at log p = elim (read_at 4 (p + 23) log) [ none ↦ pos 0 | some delta ↦ int32_at 0 delta ]

unfoldable pub cut_batch : Bytes → ℤ → ℕ → Bytes → Turn ℕ
cut_batch log target p prefix =
    if is_whole log p (int32_at 8 prefix)
    then if leb_ℤ target (int64_at 0 prefix +ℤ delta_at log p)
      then leave p
      else next (p + 12 + pos_part (int32_at 8 prefix))
    else leave p

unfoldable pub cut_turn : Bytes → ℤ → ℕ → Turn ℕ
cut_turn log target p =
    if ltb p (length log)
    then elim (read_at 12 p log) [ none ↦ abort eof | some prefix ↦ cut_batch log target p prefix ]
    else leave p

-- The loop of truncateTo that fills the index again.
unfoldable pub rebuild_batch : Bytes → ℕ → IndexFile → Bytes → Turn (ℕ × IndexFile)
rebuild_batch log p idx prefix =
    if is_whole log p (int32_at 8 prefix)
    then next (p + 12 + pos_part (int32_at 8 prefix), maybe_append idx (int64_at 0 prefix) p)
    else leave (p, idx)

unfoldable pub rebuild_turn : Bytes → ℕ × IndexFile → Turn (ℕ × IndexFile)
rebuild_turn log (p, idx) =
    if ltb p (length log)
    then elim (read_at 12 p log) [
      | none ↦ leave (p, idx)
      | some prefix ↦ rebuild_batch log p idx prefix
    ]
    else leave (p, idx)

unfoldable pub with_log : Segment → Bytes → IndexFile → ℤ → Segment
with_log s log idx n = record {
  base_offset = s.base_offset;
  log = log;
  index = idx;
  next_offset = n;
  max_segment_bytes = s.max_segment_bytes;
  synced_offset = s.synced_offset;
  synced_bytes = s.synced_bytes;
  last_sync_ms = s.last_sync_ms;
}

unfoldable pub rebuild : Bytes → IndexFile → Run (ℕ × IndexFile)
rebuild log idx = repeat (suc (length log)) (rebuild_turn log) (0, reset idx)

unfoldable pub cut_to : Segment → ℤ → Run Segment
cut_to s target = do
  p ← repeat (suc (length s.log)) (cut_turn s.log target) (position_for_offset s.index target)
  (q, idx) ← rebuild (resize p s.log) s.index
  done (with_log s (resize p s.log) idx target)

unfoldable pub truncate_to : Segment → ℤ → Run Segment
truncate_to s target =
    if leb_ℤ target s.base_offset
    then done (with_log s [] (reset s.index) s.base_offset)
    else cut_to s target

-- sync at the time `now`; close does the same to the segment.
unfoldable pub sync : Segment → ℤ → Segment
sync s now = record {
  base_offset = s.base_offset;
  log = s.log;
  index = s.index;
  next_offset = s.next_offset;
  max_segment_bytes = s.max_segment_bytes;
  synced_offset = s.next_offset;
  synced_bytes = length s.log;
  last_sync_ms = now;
}

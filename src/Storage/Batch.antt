-- ===== src/Storage/Batch.antt =====
-- The header of a record batch (internal/storage/record.go).
use pocketkafka.Prelude.{ℕ, Bytes, ltb, eqb, not, if◌then◌else◌, length}
use pocketkafka.Prelude.Ints.{ℤ, pos, signed, ◌+ℤ◌}
use pocketkafka.Prelude.Words.{be_value}
use pocketkafka.Prelude.Slices.{slice}
use pocketkafka.Storage.Runs.{Run, done, failed, batch_too_short, unsupported_magic}

pub record RecordBatchHeader : Type 0 where
  pub base_offset : ℤ
  pub batch_length : ℤ
  pub last_offset_delta : ℤ
  pub count : ℤ

abbrev pub batch_header_size : ℕ
batch_header_size = 61

-- int32(binary.BigEndian.Uint32(bs[i:i+4])), and int64 of Uint64
unfoldable pub int32_at : ℕ → Bytes → ℤ
int32_at i bs = signed 32 (be_value (slice i 4 bs))

unfoldable pub int64_at : ℕ → Bytes → ℤ
int64_at i bs = signed 64 (be_value (slice i 8 bs))

unfoldable pub header_of : Bytes → RecordBatchHeader
header_of raw = record {
  base_offset = int64_at 0 raw;
  batch_length = int32_at 8 raw;
  last_offset_delta = int32_at 23 raw;
  count = int32_at 57 raw;
}

-- The header is returned with the error of the magic byte too, but no caller reads it then.
unfoldable pub parse_record_batch_header : Bytes → Run RecordBatchHeader
parse_record_batch_header raw =
    if ltb (length raw) batch_header_size
    then failed batch_too_short
    else if not (eqb (be_value (slice 16 1 raw)) 2)
    then failed unsupported_magic
    else done (header_of raw)

unfoldable pub batch_total_size : RecordBatchHeader → ℤ
batch_total_size h = pos 12 +ℤ h.batch_length

-- ===== src/Storage/Producing.antt =====
-- An append of an idempotent producer to a partition (internal/storage/partition.go:
-- AppendIdempotentSynced), which is idempotence.go's check around AppendSynced.
pub mod Once
use pocketkafka.Prelude.{Bool, Bytes, Option, none, some, ◌++◌, ◌∷◌, []}
use pocketkafka.Prelude.Ints.{ℤ}
use pocketkafka.Producers.Sequences.{Tracker, Appended, validate_and_append}
use pocketkafka.Storage.Runs.{Run, done, failed, running}
use pocketkafka.Storage.Partition.{Partition, room, append_synced}

-- What a failed append leaves: the segment that has been begun stays.
unfoldable pub after_failure : Partition → Partition
after_failure p = elim (room p) [
  | done (closed, active) ↦ record p { closed_segments = closed; active_segment = active }
  | failed e ↦ p
  | running ↦ p
]

-- The function that is passed to ValidateAndAppend.
unfoldable pub append_or_error : Bytes → Bool → ℤ → Partition → Partition × Option ℤ
append_or_error raw do_sync now p = elim (append_synced p raw do_sync now) [
  | done (p', assigned) ↦ (p', some assigned)
  | failed e ↦ (after_failure p, none)
  | running ↦ (p, none)
]

unfoldable pub append_idempotent :
    ℤ → ℤ → ℤ → Bytes → Bool → ℤ → Tracker × Partition → (Tracker × Partition) × Appended
append_idempotent pid epoch seq raw do_sync now s =
    validate_and_append (append_or_error raw do_sync now) pid epoch seq s

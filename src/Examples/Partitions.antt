-- ===== src/Examples/Partitions.antt =====
-- A partition of two segments, the first full (internal/storage/partition.go, retention.go).
use pocketkafka.Prelude.{true, ◌+◌, ◌≤◌, ◌≡◌, ◌⊎◌, refl, arith, [], ◌∷◌, ◌++◌, none, some}
use pocketkafka.Prelude.Ints.{pos, max_int32}
use pocketkafka.Prelude.Words.{be_value, be_from}
use pocketkafka.Prelude.Dict.{get}
use pocketkafka.Prelude.Slices.{slice}
use pocketkafka.Storage.Runs.{done}
use pocketkafka.Storage.Segment.{Segment, stamp}
use pocketkafka.Storage.Segment.Log.{bytes_of, end_of, delta_of}
use pocketkafka.Storage.Segment.Append.{IsSegment}
use pocketkafka.Storage.Segment.Reading.{from_offset, limited}
use pocketkafka.Storage.Partition
use pocketkafka.Storage.Partition.{Partition, StoredSegment, local, ordered_segments}
use pocketkafka.Storage.Partition.Blocks.{Holds}
use pocketkafka.Storage.Partition.Append
use pocketkafka.Storage.Partition.Served
use pocketkafka.Storage.Partition.Plan
use pocketkafka.Storage.Producing.{append_idempotent}
use pocketkafka.Storage.Producing.Once.{append_idempotent-once}
use pocketkafka.Producers.Sequences.{Tracker, at_offset}
use pocketkafka.Storage.Partition.Retention.{Retention, total_size, enforce_retention}
use pocketkafka.Examples.Segments.{
  batch, two_batches, two_segment, two_segment-IsSegment, batch-IsProduced, two_end,
}

abbrev next_segment : Segment
next_segment = record {
  base_offset = pos 10;
  log = [];
  index = record { base_offset = pos 10; interval = pos 1; entries = []; file = [] };
  next_offset = pos 10;
  max_segment_bytes = pos 1000;
  synced_offset = pos 10;
  synced_bytes = 0;
  last_sync_ms = pos 0;
}

next_IsSegment : IsSegment 10 [] next_segment
unfolding end_of bytes_of
next_IsSegment = record {
  based = refl;
  chain = tt;
  logged = refl;
  ended = refl;
  index_based = refl;
  pointed = tt;
}

abbrev the_partition : Partition
the_partition = record {
  closed_segments = local two_segment ∷ [];
  active_segment = local next_segment;
  next_offset = pos 10;
  high_watermark = pos 10;
  max_segment_bytes = pos 1000;
  index_interval = pos 1;
}

the_partition-Holds : Holds 5 two_batches the_partition
unfolding end_of delta_of slice be_value be_from ordered_segments
the_partition-Holds = record {
  linked = (
    two_batches,
    [],
    refl,
    (two_segment-IsSegment, omega arith, omega arith),
    ([], [], refl, (next_IsSegment, omega arith, omega arith), refl),
  );
  ended = refl;
  visible = refl;
}

the_room : end_of 5 two_batches + delta_of (batch 0 49 3) + 1 ≤ 10 + max_int32
unfolding end_of delta_of slice be_value be_from
the_room = omega arith

append-Holds_example :
    (p' : Partition) × (Partition.append the_partition (batch 0 49 3)
      ≡ done (p', pos (end_of 5 two_batches)))
    × Holds 5 (two_batches ++ stamp (pos (end_of 5 two_batches)) (batch 0 49 3) ∷ []) p'
append-Holds_example =
    Append.append-Holds 5 two_batches the_partition 10 (batch 0 49 3) the_partition-Holds
      batch-IsProduced refl (omega (arith, two_end)) the_room (omega arith)

read-Holds_example :
    Partition.read none the_partition (pos 8) (pos 100)
    ≡ done (the_partition, limited 100 (from_offset 8 two_batches), pos (end_of 5 two_batches))
read-Holds_example =
    Served.read-Holds none 5 8 100 two_batches the_partition the_partition-Holds (omega arith)
      (omega arith) (omega arith) (omega arith, (omega arith, tt))

abbrev one_hundred_bytes : Retention
one_hundred_bytes = record { retention_time = pos 0; retention_bytes = pos 100 }

enforce_retention-within_example :
    (total_size (enforce_retention the_partition one_hundred_bytes (λ s. some (pos 1)) (pos 9))
      ≤ 100)
    ⊎ ((enforce_retention the_partition one_hundred_bytes
          (λ s. some (pos 1))
          (pos 9)).closed_segments
        ≡ [])
enforce_retention-within_example =
    Plan.enforce_retention-within the_partition one_hundred_bytes (λ s. some (pos 1)) (pos 9) 100
      refl (omega arith)

append_idempotent-once_example :
    (s : Tracker × Partition) × (append_idempotent
        (pos 4)
        (pos 0)
        (pos 0)
        (batch 0 49 3)
        true
        (pos 900)
        ([], the_partition)
      ≡ (s, at_offset (pos (end_of 5 two_batches))))
    × (append_idempotent (pos 4) (pos 0) (pos 0) (batch 0 49 3) true (pos 900) s
        ≡ (s, at_offset (pos (end_of 5 two_batches))))
    × Holds 5 (two_batches ++ stamp (pos (end_of 5 two_batches)) (batch 0 49 3) ∷ []) s.1
unfolding get
append_idempotent-once_example =
    append_idempotent-once 5 10 two_batches the_partition (batch 0 49 3) true (pos 900)
      the_partition-Holds batch-IsProduced refl (omega (arith, two_end)) the_room (omega arith)
      (pos 4) (pos 0) (pos 0) [] refl refl

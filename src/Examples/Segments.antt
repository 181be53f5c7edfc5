-- ===== src/Examples/Segments.antt =====
-- Segments, their index and their recovery at concrete data (internal/storage).
use pocketkafka.Prelude.{
  ℕ, ◌+◌, ◌-◌, ◌≤◌, ◌<◌, ◌≡◌, ◌≢◌, refl, arith, true, Bytes, length, List, [], ◌∷◌, ◌++◌, take,
}
use pocketkafka.Prelude.Ints.{pos, unsigned, ◌-ℤ◌, ltb_ℤ, max_int32}
use pocketkafka.Prelude.Words.{be_value, be_from}
use pocketkafka.Prelude.Slices.{slice}
use pocketkafka.Storage.Runs.{done, failed, running, eof}
use pocketkafka.Storage.Index.{IndexFile, IndexEntry, position_for_offset}
use pocketkafka.Storage.Index.Search
use pocketkafka.Storage.Index.Search.{Ascending, floor_position}
use pocketkafka.Storage.Segment.{Segment, open_segment, append, read, truncate_to}
use pocketkafka.Storage.Segment.Log.{IsBatch, Chain, bytes_of, end_of, delta_of, base_of}
use pocketkafka.Storage.Segment.Recovery
use pocketkafka.Storage.Segment.Recovery.{IsTorn, clean, torn}
use pocketkafka.Storage.Segment.Append.{IsSegment, IsProduced}
use pocketkafka.Storage.Segment.Ends
use pocketkafka.Storage.Segment.Truncation
use pocketkafka.Storage.Segment.Truncation.{up_to}
use pocketkafka.Storage.Segment.Unsized
use pocketkafka.Storage.Segment.Unsized.{IsUnsized}
use pocketkafka.Storage.Segment.Below
use pocketkafka.Storage.Segment.Reading.{limited}

-- Thirty-four bytes of the rest of a header.
abbrev header_rest : Bytes
header_rest =
    0 ∷ 0 ∷ 0 ∷ 0 ∷ 0 ∷ 0 ∷ 0 ∷ 0 ∷ 0 ∷ 0 ∷ 0 ∷ 0 ∷ 0 ∷ 0 ∷ 0 ∷ 0 ∷ 0 ∷ 0 ∷ 0 ∷ 0 ∷ 0 ∷ 0 ∷ 0 ∷ 0
    ∷ 0 ∷ 0 ∷ 0 ∷ 0 ∷ 0 ∷ 0 ∷ 0 ∷ 0 ∷ 0 ∷ 0 ∷ []

-- A batch without bytes for its records: the base offset, the length, and the last offset's delta.
abbrev pub batch : ℕ → ℕ → ℕ → Bytes
batch base len delta =
    0 ∷ 0 ∷ 0 ∷ 0 ∷ 0 ∷ 0 ∷ 0 ∷ base ∷ 0 ∷ 0 ∷ 0 ∷ len ∷ 0 ∷ 0 ∷ 0 ∷ 0 ∷ 2 ∷ 0 ∷ 0 ∷ 0 ∷ 0 ∷ 0 ∷ 0
    ∷ 0 ∷ 0 ∷ 0 ∷ delta ∷ header_rest

-- Two batches, of three records and of two, from the offset 5 on.
abbrev pub two_batches : List Bytes
two_batches = batch 5 49 2 ∷ batch 8 49 1 ∷ []

abbrev no_index : IndexFile
no_index = record { base_offset = pos 5; interval = pos 1; entries = []; file = [] }

abbrev second_entry : IndexEntry
second_entry = record { relative_offset = 3; position = 61 }

abbrev the_index : IndexFile
the_index = record {
  base_offset = pos 5;
  interval = pos 1;
  entries = second_entry ∷ [];
  file = 0 ∷ 0 ∷ 0 ∷ 3 ∷ 0 ∷ 0 ∷ 0 ∷ 61 ∷ [];
}

abbrev two_log : Bytes
two_log = batch 5 49 2 ++ batch 8 49 1

abbrev pub two_segment : Segment
two_segment = record {
  base_offset = pos 5;
  log = two_log;
  index = the_index;
  next_offset = pos 10;
  max_segment_bytes = pos 1000;
  synced_offset = pos 5;
  synced_bytes = 0;
  last_sync_ms = pos 0;
}

first_IsBatch : IsBatch 5 (batch 5 49 2)
unfolding slice be_value be_from delta_of base_of
first_IsBatch = record {
  header = omega arith;
  sized = refl;
  small = omega arith;
  based = refl;
  in_range = omega arith;
  delta_in_range = omega arith;
}

second_IsBatch : IsBatch 8 (batch 8 49 1)
unfolding slice be_value be_from delta_of base_of
second_IsBatch = record {
  header = omega arith;
  sized = refl;
  small = omega arith;
  based = refl;
  in_range = omega arith;
  delta_in_range = omega arith;
}

pub two_Chain : Chain 5 two_batches
unfolding slice be_value be_from delta_of
two_Chain = (first_IsBatch, (second_IsBatch, tt))

pub two_segment-IsSegment : IsSegment 5 two_batches two_segment
unfolding slice be_value be_from delta_of end_of bytes_of
two_segment-IsSegment = record {
  based = refl;
  chain = two_Chain;
  logged = refl;
  ended = refl;
  index_based = refl;
  pointed = (
    record {
      before = batch 5 49 2 ∷ [];
      behind = batch 8 49 1 ∷ [];
      split = refl;
      placed = refl;
      offset = refl;
    },
    tt,
  );
}

-- A third batch, of four records, as its producer sends it.
pub batch-IsProduced : IsProduced (batch 0 49 3)
unfolding slice be_value be_from delta_of
batch-IsProduced = record {
  header = omega arith;
  sized = refl;
  small = omega arith;
  magic = refl;
  delta_in_range = omega arith;
}

third_IsBatch : IsBatch 10 (batch 10 49 0)
unfolding slice be_value be_from delta_of base_of
third_IsBatch = record {
  header = omega arith;
  sized = refl;
  small = omega arith;
  based = refl;
  in_range = omega arith;
  delta_in_range = omega arith;
}

pub two_end : end_of 5 two_batches ≡ 10
unfolding end_of delta_of slice be_value be_from
two_end = refl

take-IsTorn : IsTorn (end_of 5 two_batches) (take 20 (batch 10 49 0))
unfolding end_of delta_of slice be_value be_from
take-IsTorn = torn (batch 10 49 0) 20 third_IsBatch (omega arith) (omega arith) refl

open_segment-torn_example :
    (s : Segment) × (open_segment
        (bytes_of two_batches ++ take 20 (batch 10 49 0))
        []
        (pos 5)
        (pos 1000)
        (pos 1)
      ≡ done s)
    × (s.log ≡ bytes_of two_batches)
    × (s.next_offset ≡ pos (end_of 5 two_batches))
    × (s.base_offset ≡ pos 5)
open_segment-torn_example =
    Recovery.open_segment-torn 5 two_batches (take 20 (batch 10 49 0)) [] (pos 1000) (pos 1)
      two_Chain take-IsTorn

open_segment-torn_header_example :
    open_segment (bytes_of two_batches ++ take 11 (batch 10 49 0)) [] (pos 5) (pos 1000) (pos 1)
    ≡ failed eof
open_segment-torn_header_example =
    Recovery.open_segment-torn_header 5 two_batches (take 11 (batch 10 49 0)) [] (pos 1000) (pos 1)
      two_Chain (omega arith) (omega arith)

segment-ends_example :
    (open_segment (7 ∷ 7 ∷ []) [] (pos 5) (pos 1) (pos 1) ≢ running)
    × (read two_segment (pos 6) (pos 1) ≢ running)
    × (truncate_to two_segment (pos 6) ≢ running)
segment-ends_example = Ends.segment-ends (7 ∷ 7 ∷ []) [] two_segment (pos 5) (pos 1) (pos 1) (pos 6)

position_for_offset-floor_position_example :
    position_for_offset the_index (pos 9)
    ≡ floor_position (unsigned 32 (pos 9 -ℤ the_index.base_offset)) the_index.entries 0
position_for_offset-floor_position_example =
    Search.position_for_offset-floor_position the_index (pos 9) (tt, tt)

two_room : end_of 5 two_batches + delta_of (batch 0 49 3) + 1 - 5 ≤ max_int32
unfolding end_of delta_of slice be_value be_from
two_room = omega arith

-- A batch of 61 bytes whose length says that there are 100 behind it.
batch-IsUnsized : IsUnsized (batch 0 100 0)
unfolding slice be_value be_from delta_of
batch-IsUnsized = record {
  header = omega arith;
  too_large = omega arith;
  in_range = omega arith;
  magic = refl;
  delta_in_range = omega arith;
}

unsized_room : end_of 5 two_batches + delta_of (batch 0 100 0) + 1 - 5 ≤ max_int32
unfolding end_of delta_of slice be_value be_from
unsized_room = omega arith

append-unsized_example :
    (s' : Segment) × (s'' : Segment) × (append two_segment (batch 0 100 0)
      ≡ done (s', pos (end_of 5 two_batches)))
    × (open_segment s'.log [] (pos 5) (pos 1000) (pos 1) ≡ done s'')
    × (s''.log ≡ two_log)
    × (s''.next_offset ≡ pos (end_of 5 two_batches))
append-unsized_example =
    Unsized.append-unsized two_segment 5 two_batches (batch 0 100 0) [] (pos 1000) (pos 1)
      two_segment-IsSegment batch-IsUnsized unsized_room refl

up_to_eight : end_of 5 (up_to 8 two_batches) ≡ 8
unfolding end_of delta_of slice be_value be_from up_to base_of
up_to_eight = refl

truncate_to-IsSegment_example :
    (s' : Segment) × (truncate_to two_segment (pos 8) ≡ done s')
    × IsSegment 5 (up_to 8 two_batches) s'
truncate_to-IsSegment_example =
    Truncation.truncate_to-IsSegment two_segment 5 8 two_batches two_segment-IsSegment (omega arith)
      (omega arith) (omega arith) up_to_eight

up_to_nine : end_of 5 (up_to 9 two_batches) < 9
unfolding end_of delta_of slice be_value be_from up_to base_of
up_to_nine = omega arith

truncate_to-gap_example :
    (s' : Segment) × (s'' : Segment) × (truncate_to two_segment (pos 9) ≡ done s')
    × (s'.next_offset ≡ pos 9)
    × (s'.log ≡ bytes_of (up_to 9 two_batches))
    × (open_segment s'.log [] (pos 5) (pos 1000) (pos 1) ≡ done s'')
    × (s''.log ≡ s'.log)
    × (s''.next_offset ≡ pos (end_of 5 (up_to 9 two_batches)))
    × (ltb_ℤ s''.next_offset s'.next_offset ≡ true)
truncate_to-gap_example =
    Truncation.truncate_to-gap two_segment 5 9 two_batches [] (pos 1000) (pos 1)
      two_segment-IsSegment (omega arith) (omega arith) (omega arith) up_to_nine refl

read-below_example :
    (xs : List Bytes) × (ys : List Bytes) × (two_batches ≡ xs ++ ys)
    × (length (bytes_of xs) ≡ 61)
    × (read two_segment (pos 0) (pos 100) ≡ done (limited 100 ys))
read-below_example =
    Below.read-below two_segment 5 0 100 two_batches [] second_entry two_segment-IsSegment refl
      (tt, tt) (omega arith) (omega arith) (omega (arith, two_end)) (omega arith) (omega arith)

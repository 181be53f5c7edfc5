-- ===== src/Examples/Stores.antt =====
-- The theorems on the store of committed offsets, at a store with one commit in its log and one in
-- its snapshot (internal/coordinator/offset_store.go).
use pocketkafka.Prelude.{
  ℕ, ◌<◌, ◌≤◌, ◌++◌, ◌≡◌, refl, true, false, none, some, List, [], ◌∷◌, Bytes, bytes_eq, nat_eq,
  arith, take, length, All,
}
use pocketkafka.Prelude.Words.{be_bytes}
use pocketkafka.Wal.{
  WalRecord, wal_record_commit, encode_batch, encode_wal_record, wal_payload, append_wal_string,
  append_wal_nullable_string,
}
use pocketkafka.Wal.Codec.{IsEncodable}
use pocketkafka.Offsets.{
  CommittedOffset, OffsetStore, OffsetCommitRecord, Table, wal_record_of, wal_records_of,
  commit_loop, commit_batch, new_offset_store, stamped, count_commits, wal_compact_threshold,
}
use pocketkafka.Offsets.Table.{SameOffsets, SameOffsets-commit_loop}
use pocketkafka.Offsets.Durable.{IsDurable, IsOnDisk, commit_batch-IsOnDisk}
use pocketkafka.Offsets.Lost.{commit_behind_torn-lost}
use pocketkafka.Offsets.Crash.{crash_in_commit}

abbrev pub group : Bytes
group = 103 ∷ []

abbrev pub topic : Bytes
topic = 116 ∷ []

abbrev pub committed : ℕ → CommittedOffset
committed offset = record { offset = offset; metadata = none; leader_epoch = 7; updated_at = 0 }

abbrev pub commit_to : ℕ → ℕ → OffsetCommitRecord
commit_to partition offset = record {
  group = group;
  topic = topic;
  partition = partition;
  offset = committed offset;
}

abbrev ten : Bytes
ten = 1 ∷ 2 ∷ 3 ∷ 4 ∷ 5 ∷ 6 ∷ 7 ∷ 8 ∷ 9 ∷ 10 ∷ []

abbrev pub snapshot : Table
snapshot = (group, (topic, (0, committed 5) ∷ []) ∷ []) ∷ []

abbrev pub logged_commits : List OffsetCommitRecord
logged_commits = commit_to 1 40 ∷ []

abbrev batch : List OffsetCommitRecord
batch = commit_to 0 6 ∷ commit_to 1 41 ∷ []

abbrev pub store : OffsetStore
store = record {
  file_backed = true;
  offsets = commit_loop 900 logged_commits snapshot;
  wal_n = 1;
  compacting = false;
  closed = false;
  snapshot = snapshot;
  wal = encode_batch (wal_records_of 900 logged_commits);
  wal_synced = length (encode_batch (wal_records_of 900 logged_commits));
}

logged-IsEncodable : All IsEncodable (wal_records_of 900 logged_commits)
unfolding wal_records_of wal_record_of stamped
logged-IsEncodable = (
  record {
    group = omega arith;
    topic = omega arith;
    partition = omega arith;
    offset = omega arith;
    leader_epoch = omega arith;
    metadata = λ s e. ground arith;
    timestamp = omega arith;
  },
  tt,
)

commit_to-IsEncodable :
    (partition offset : ℕ)
    → partition ≤ 100
    → offset ≤ 100
    → IsEncodable (wal_record_of 1000 (commit_to partition offset))
unfolding wal_record_of stamped
commit_to-IsEncodable partition offset h k = record {
  group = omega arith;
  topic = omega arith;
  partition = omega arith;
  offset = omega arith;
  leader_epoch = omega arith;
  metadata = λ s e. ground arith;
  timestamp = omega arith;
}

batch-IsEncodable : All IsEncodable (wal_records_of 1000 batch)
unfolding wal_records_of
batch-IsEncodable = (
  commit_to-IsEncodable 0 6 (omega arith) (omega arith),
  (commit_to-IsEncodable 1 41 (omega arith) (omega arith), tt),
)

-- The store is durable, and its log is far from a compaction.
store-IsDurable_short : (d : IsDurable store) × (count_commits d.records < wal_compact_threshold)
unfolding count_commits wal_records_of wal_record_of
store-IsDurable_short = (
  record {
    records = wal_records_of 900 logged_commits;
    encodable = logged-IsEncodable;
    logged = refl;
    same = SameOffsets-commit_loop 900 logged_commits (record { at = λ g t p. refl });
  },
  omega arith,
)

pub store-IsDurable : IsDurable store
store-IsDurable = store-IsDurable_short.0

-- The commit of an offset with empty metadata, in the log of a store without a snapshot.
abbrev blank_commits : List OffsetCommitRecord
blank_commits =
    record {
      group = group;
      topic = topic;
      partition = 0;
      offset = record { offset = 5; metadata = some []; leader_epoch = 7; updated_at = 0 };
    }
    ∷ []

abbrev blank_store : OffsetStore
blank_store = record {
  file_backed = true;
  offsets = commit_loop 900 blank_commits [];
  wal_n = 1;
  compacting = false;
  closed = false;
  snapshot = [];
  wal = encode_batch (wal_records_of 900 blank_commits);
  wal_synced = length (encode_batch (wal_records_of 900 blank_commits));
}

crash_in_commit_example :
    (s' : OffsetStore) × (k : ℕ) × (new_offset_store store.snapshot
        (take 100 (commit_batch 1000 batch store).0.wal)
      ≡ some s')
    × SameOffsets s'.offsets (commit_loop 1000 (take k batch) store.offsets)
unfolding encode_batch wal_records_of encode_wal_record be_bytes wal_payload append_wal_string
    wal_record_of append_wal_nullable_string
crash_in_commit_example =
    crash_in_commit 1000 100 batch store refl store-IsDurable batch-IsEncodable (omega arith)

commit_batch-IsOnDisk_example : IsOnDisk (commit_batch 1000 batch store).0
commit_batch-IsOnDisk_example =
    commit_batch-IsOnDisk 1000 batch store refl batch-IsEncodable
      (record { durable = store-IsDurable; synced = refl })

-- A record with ninety bytes of metadata, of which a crash leaves the first ten bytes.
abbrev long_record : WalRecord
long_record = record {
  record_type = wal_record_commit;
  group = group;
  topic = topic;
  partition = 0;
  offset = 6;
  leader_epoch = 7;
  metadata = some (ten ++ (ten ++ (ten ++ (ten ++ (ten ++ (ten ++ (ten ++ (ten ++ ten))))))));
  timestamp = 1000;
}

long_record-IsEncodable : IsEncodable long_record
long_record-IsEncodable = record {
  group = omega arith;
  topic = omega arith;
  partition = omega arith;
  offset = omega arith;
  leader_epoch = omega arith;
  metadata = λ s e. ground arith;
  timestamp = omega arith;
}

commit_behind_torn-lost_example :
    (s' : OffsetStore) × (s'' : OffsetStore) × (new_offset_store store.snapshot
        (store.wal ++ take 10 (encode_wal_record long_record))
      ≡ some s')
    × (new_offset_store (commit_batch 1000 batch s').0.snapshot (commit_batch 1000 batch s').0.wal
        ≡ some s'')
    × SameOffsets s''.offsets store.offsets
unfolding count_commits encode_batch wal_records_of encode_wal_record be_bytes wal_payload
    append_wal_string wal_record_of append_wal_nullable_string
commit_behind_torn-lost_example =
    commit_behind_torn-lost 1000 10 long_record batch store store-IsDurable_short.0
      store-IsDurable_short.1 long_record-IsEncodable (omega arith) (omega arith)

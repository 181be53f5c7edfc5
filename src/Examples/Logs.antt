-- ===== src/Examples/Logs.antt =====
-- The theorems on the log of committed offsets, at two records (internal/coordinator/offset_wal.go).
use pocketkafka.Prelude.{ℕ, ◌<◌, ◌≡◌, ◌≢◌, some, [], ◌∷◌, arith, take}
use pocketkafka.Wal.{
  WalRecord, ok, wal_payload, decode_wal_payload, replay, finished, out_of_fuel, encode_batch,
  wal_record_commit,
}
use pocketkafka.Wal.Codec.{IsEncodable, decode_wal_payload-wal_payload}
use pocketkafka.Wal.Torn.{replay-torn, survivors}
use pocketkafka.Wal.Total.{replay-ne-out_of_fuel}

abbrev logged_record : ℕ → WalRecord
logged_record partition = record {
  record_type = wal_record_commit;
  group = 103 ∷ [];
  topic = 116 ∷ 111 ∷ [];
  partition = partition;
  offset = 42;
  leader_epoch = 0xffffffff;
  metadata = some (109 ∷ []);
  timestamp = 1000;
}

logged_record-IsEncodable :
    (partition : ℕ) → partition < 100 → IsEncodable (logged_record partition)
logged_record-IsEncodable partition h = record {
  group = omega arith;
  topic = omega arith;
  partition = omega arith;
  offset = omega arith;
  leader_epoch = omega arith;
  metadata = λ s e. ground arith;
  timestamp = omega arith;
}

decode_wal_payload-wal_payload_example :
    decode_wal_payload (wal_payload (logged_record 3)) ≡ ok (logged_record 3)
decode_wal_payload-wal_payload_example =
    decode_wal_payload-wal_payload (logged_record 3) (logged_record-IsEncodable 3 (omega arith))

-- The cut is in the second record.
replay-torn_example :
    replay (take 60 (encode_batch (logged_record 3 ∷ logged_record 4 ∷ [])))
    ≡ finished (survivors 60 (logged_record 3 ∷ logged_record 4 ∷ []))
replay-torn_example =
    replay-torn 60 (logged_record 3 ∷ logged_record 4 ∷ [])
      (logged_record-IsEncodable 3 (omega arith), (logged_record-IsEncodable 4 (omega arith), tt))

replay-ne-out_of_fuel_example : replay (0 ∷ 0 ∷ 0 ∷ 9 ∷ 1 ∷ []) ≢ out_of_fuel
replay-ne-out_of_fuel_example = replay-ne-out_of_fuel (0 ∷ 0 ∷ 0 ∷ 9 ∷ 1 ∷ [])

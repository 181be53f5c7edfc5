-- ===== src/Examples/Records.antt =====
-- Records encoded, decoded and compacted (pkg/protocol/record_batch.go,
-- internal/storage/compaction.go).
use pocketkafka.Prelude.{
  ℕ, ◌+◌, ◌^◌, ◌≤◌, ◌<◌, ◌≡◌, refl, arith, Bytes, Option, none, some, List, [], ◌∷◌, ◌++◌, length,
  All,
}
use pocketkafka.Prelude.Lists.{keep}
use pocketkafka.Prelude.Ints.{pos, negsuc}
use pocketkafka.Prelude.Dict.{get, put, has}
use pocketkafka.Prelude.Tests.{bytes_beq}
use pocketkafka.Records.Varint.{ok, panics, append_varint, append_uvarint, uvarint_loop, zigzag}
use pocketkafka.Records.{
  Record, encode_record, decode_record, record_body, append_sized, append_nullable, append_key,
  append_headers,
}
use pocketkafka.Records.RoundTrip
use pocketkafka.Records.RoundTrip.{IsEncodable, with_key}
use pocketkafka.Records.Hostile
use pocketkafka.Storage.Compaction.{
  plan_compaction, plan_records, plan_record, planned_key, planned_null, key_bytes_with, stage_from,
  staged, kept, compacted,
}
use pocketkafka.Storage.Compaction.Latest
use pocketkafka.Storage.Compaction.Latest.{latest, is_null}
use pocketkafka.Storage.Compaction.Once
use pocketkafka.Storage.Compaction.Once.{IsKeyless, reread, last_of}

abbrev a_record : ℕ → Option Bytes → ℕ → Record
a_record delta key value = record {
  attributes = 0;
  timestamp_delta = negsuc 4;
  offset_delta = pos delta;
  key = key;
  value = some (value ∷ []);
  headers = record { key = 104 ∷ []; value = none } ∷ [];
}

abbrev keyless : Record
keyless = a_record 3 none 7

keyless-IsEncodable : IsEncodable keyless
unfolding zigzag
keyless-IsEncodable = record {
  delta = 3;
  timestamp_in_range = omega arith;
  delta_is = refl;
  delta_in_range = omega arith;
  count_in_range = omega arith;
}

keyless_fits : length (encode_record keyless ++ 1 ∷ 2 ∷ []) < 2 ^ 63
unfolding encode_record record_body append_sized append_nullable append_key append_headers
    append_varint append_uvarint uvarint_loop zigzag
keyless_fits = omega arith

decode_record-encode_record_example :
    decode_record (encode_record keyless ++ 1 ∷ 2 ∷ []) ≡ ok (with_key keyless, 1 ∷ 2 ∷ [])
decode_record-encode_record_example =
    RoundTrip.decode_record-encode_record keyless (1 ∷ 2 ∷ []) keyless-IsEncodable keyless_fits

-- The greatest int64.
abbrev greatest : ℕ
greatest = 9223372036854775807

greatest_wraps : 2 ^ 63 ≤ length (append_varint (pos greatest)) + greatest
unfolding append_varint append_uvarint uvarint_loop zigzag
greatest_wraps = omega arith

greatest_short : length (append_varint (pos greatest) ++ 5 ∷ []) < greatest
unfolding append_varint append_uvarint uvarint_loop zigzag
greatest_short = omega arith

decode_record-panics_example : decode_record (append_varint (pos greatest) ++ 5 ∷ []) ≡ panics
decode_record-panics_example =
    Hostile.decode_record-panics greatest (5 ∷ []) (omega arith) greatest_wraps greatest_short

abbrev four_records : List Record
four_records =
    a_record 0 (some (65 ∷ [])) 1
    ∷ keyless
    ∷ a_record 2 (some (66 ∷ [])) 2
    ∷ a_record 4 (some (65 ∷ [])) 3
    ∷ []

abbrev three_records : List Record
three_records = keyless ∷ a_record 2 (some (66 ∷ [])) 2 ∷ a_record 4 (some (65 ∷ [])) 3 ∷ []

four_compacted : compacted four_records ≡ some three_records
unfolding compacted plan_compaction plan_records plan_record planned_key planned_null key_bytes_with
    staged stage_from kept get put has bytes_beq
four_compacted = refl

compacted-latest_example :
    (latest (65 ∷ []) three_records ≡ latest (65 ∷ []) four_records)
    × (keep is_null three_records ≡ keep is_null four_records)
compacted-latest_example =
    Latest.compacted-latest four_records three_records (65 ∷ []) four_compacted

abbrev later_keyless : Record
later_keyless = a_record 4 none 8

later_keyless-IsEncodable : IsEncodable later_keyless
unfolding zigzag
later_keyless-IsEncodable = record {
  delta = 4;
  timestamp_in_range = omega arith;
  delta_is = refl;
  delta_in_range = omega arith;
  count_in_range = omega arith;
}

two_keyless : All IsKeyless (keyless ∷ later_keyless ∷ [])
unfolding encode_record record_body append_sized append_nullable append_key append_headers
    append_varint append_uvarint uvarint_loop zigzag
two_keyless = (
  record { encodable = keyless-IsEncodable; keyless = refl; fits = omega arith },
  (record { encodable = later_keyless-IsEncodable; keyless = refl; fits = omega arith }, tt),
)

compacted-nulls_lost_example :
    (compacted (keyless ∷ later_keyless ∷ []) ≡ some (keyless ∷ later_keyless ∷ []))
    × ((rs' : List Record) × (reread (keyless ∷ later_keyless ∷ []) ≡ ok rs')
        × (compacted rs' ≡ some (with_key later_keyless ∷ [])))
compacted-nulls_lost_example = Once.compacted-nulls_lost keyless later_keyless [] two_keyless

-- ===== src/Wal.antt =====
-- The write-ahead log of committed offsets (internal/coordinator/offset_wal.go): its records, their
-- encoding and decoding, and the replay of a log file. An int32 or an int64 is its bit pattern; the
-- position in a payload or in the file is the list of the bytes from there on.
pub mod Codec
pub mod Replay
pub mod Torn
pub mod Total
pub mod Behind
use pocketkafka.Prelude.{
  ℕ, zero, suc, ◌+◌, ◌*◌, ◌^◌, ◌%◌, ◌≤◌, ◌<◌, ◌||◌, Option, none, some, List, [], ◌∷◌, ◌++◌, ltb,
  Bytes, ◌==◌, nat_eq, not, if◌then◌else◌, length,
}
use pocketkafka.Prelude.Words.{be_bytes, be_value, read_full, crc32c}

abbrev pub offset_wal_version : ℕ
offset_wal_version = 1

abbrev pub wal_record_commit : ℕ
wal_record_commit = 1

abbrev pub max_wal_record_size : ℕ
max_wal_record_size = 1048576

pub record WalRecord : Type 0 where
  pub record_type : ℕ
  pub group : Bytes
  pub topic : Bytes
  pub partition : ℕ
  pub offset : ℕ
  pub leader_epoch : ℕ
  pub metadata : Option Bytes
  pub timestamp : ℕ

-- The errors of the log, one for each message.
pub data WalError : Type 0 where
  short_payload unsupported_version : WalError
  truncated_string_length truncated_string truncated_nullable_length : WalError
  truncated_partition truncated_offset truncated_leader_epoch truncated_timestamp : WalError
  bad_record_length checksum_mismatch : WalError

pub data Result {ℓ} (A : Type ℓ) : Type ℓ where
  ok : A → Result A
  err : WalError → Result A

infixl 5 ◌>>=◌
abbrev pub ◌>>=◌ {ℓ κ} : {A : Type ℓ} {B : Type κ} → Result A → (A → Result B) → Result B
ok a >>= f = f a
err e >>= f = err e

-- appendWALString: the length is cut to a uint16.
unfoldable pub append_wal_string : Bytes → Bytes
append_wal_string s = be_bytes 2 (length s % 65536) ++ s

unfoldable pub append_wal_nullable_string : Option Bytes → Bytes
unfolding append_wal_string
append_wal_nullable_string none = be_bytes 2 0xffff
append_wal_nullable_string (some s) = append_wal_string s

-- The payload that encodeWALRecord builds, bracketed to the right.
unfoldable pub wal_payload : WalRecord → Bytes
wal_payload r =
    offset_wal_version
    ∷ r.record_type
    ∷ (append_wal_string r.group
        ++ (append_wal_string r.topic
            ++ (be_bytes 4 r.partition
                ++ (be_bytes 8 r.offset
                    ++ (be_bytes 4 r.leader_epoch
                        ++ (append_wal_nullable_string r.metadata ++ be_bytes 8 r.timestamp))))))

unfoldable pub encode_wal_record : WalRecord → Bytes
encode_wal_record r =
    let p = wal_payload r in be_bytes 4 (length p % 2 ^ 32) ++ (p ++ be_bytes 4 (crc32c p))

-- A word of `k` bytes, or the error of the field that it belongs to.
unfoldable pub read_word : ℕ → WalError → Bytes → Result (ℕ × Bytes)
read_word k e p = elim (read_full k p) [ none ↦ err e | some (w, rest) ↦ ok (be_value w, rest) ]

unfoldable pub read_string_of : ℕ → Bytes → Result (Bytes × Bytes)
read_string_of n p = elim (read_full n p) [ none ↦ err truncated_string | some r ↦ ok r ]

unfoldable pub read_wal_string : Bytes → Result (Bytes × Bytes)
read_wal_string p = do (n, rest) ← read_word 2 truncated_string_length p; read_string_of n rest

-- Past the test for the length 0xffff, readWALNullableString reads the string from its length on.
unfoldable pub read_present : ℕ → Bytes → Bytes → Result (Option Bytes × Bytes)
read_present n p rest =
    if n == 0xffff then ok (none, rest) else (do (s, rest') ← read_wal_string p; ok (some s, rest'))

unfoldable pub read_wal_nullable_string : Bytes → Result (Option Bytes × Bytes)
read_wal_nullable_string p = do
  (n, rest) ← read_word 2 truncated_nullable_length p
  read_present n p rest

-- decodeWALPayload past the version and the type.
unfoldable pub decode_fields : ℕ → Bytes → Result WalRecord
decode_fields record_type p = do
  (group, p1) ← read_wal_string p
  (topic, p2) ← read_wal_string p1
  (partition, p3) ← read_word 4 truncated_partition p2
  (offset, p4) ← read_word 8 truncated_offset p3
  (leader_epoch, p5) ← read_word 4 truncated_leader_epoch p4
  (metadata, p6) ← read_wal_nullable_string p5
  (timestamp, p7) ← read_word 8 truncated_timestamp p6
  ok (record {
    record_type = record_type;
    group = group;
    topic = topic;
    partition = partition;
    offset = offset;
    leader_epoch = leader_epoch;
    metadata = metadata;
    timestamp = timestamp;
  })

unfoldable pub decode_wal_payload : Bytes → Result WalRecord
decode_wal_payload [] = err short_payload
decode_wal_payload (version ∷ []) = err short_payload
decode_wal_payload (version ∷ record_type ∷ rest) =
    if not (version == offset_wal_version)
    then err unsupported_version
    else decode_fields record_type rest

-- One round of the loop of replay: the end of the file or of what was fully written, an error, or a
-- record and the bytes behind it.
pub data Next : Type 0 where
  eof : Next
  corrupt : WalError → Next
  got : WalRecord → Bytes → Next

unfoldable pub check_record : Bytes → ℕ → Bytes → Next
check_record payload want rest =
    if not (crc32c payload == want)
    then corrupt checksum_mismatch
    else elim (decode_wal_payload payload) [ err e ↦ corrupt e | ok r ↦ got r rest ]

unfoldable pub read_checksum : Bytes → Bytes → Next
read_checksum payload bs = elim (read_full 4 bs) [
  | none ↦ eof
  | some (c, rest) ↦ check_record payload (be_value c) rest
]

unfoldable pub read_payload : ℕ → Bytes → Next
read_payload n bs =
    if n == 0 || ltb max_wal_record_size n
    then corrupt bad_record_length
    else elim (read_full n bs) [ none ↦ eof | some (payload, rest) ↦ read_checksum payload rest ]

unfoldable pub next_record : Bytes → Next
next_record bs = elim (read_full 4 bs) [
  | none ↦ eof
  | some (n, rest) ↦ read_payload (be_value n) rest
]

-- What replay has handed to its callback, and whether it returned nil, an error, or ran out of fuel.
pub data Replayed : Type 0 where
  finished : List WalRecord → Replayed
  failed : List WalRecord → WalError → Replayed
  out_of_fuel : Replayed

abbrev pub after : WalRecord → Replayed → Replayed
after r (finished rs) = finished (r ∷ rs)
after r (failed rs e) = failed (r ∷ rs) e
after r out_of_fuel = out_of_fuel

unfoldable pub replay_loop : ℕ → Bytes → Replayed
replay_loop zero bs = out_of_fuel
replay_loop (suc f) bs = elim (next_record bs) [
  | eof ↦ finished []
  | corrupt e ↦ failed [] e
  | got r rest ↦ after r (replay_loop f rest)
]

-- Each round takes nine bytes at least, so a round for each byte and one more are enough.
unfoldable pub replay : Bytes → Replayed
replay bs = replay_loop (suc (length bs)) bs

-- The bytes that appendBatch writes for the records.
unfoldable pub encode_batch : List WalRecord → Bytes
encode_batch [] = []
encode_batch (r ∷ rs) = encode_wal_record r ++ encode_batch rs

-- A log file as its bytes and the number of those that a sync has put on disk: f.Write and f.Sync.
-- A write or a sync that fails is not modelled.
unfoldable pub write_file : Bytes → Bytes × ℕ → Bytes × ℕ
write_file bs (bytes, synced) = (bytes ++ bs, synced)

unfoldable pub sync_file : Bytes × ℕ → Bytes × ℕ
sync_file (bytes, synced) = (bytes, length bytes)

-- appendBatch
unfoldable pub append_batch : List WalRecord → Bytes × ℕ → Bytes × ℕ
append_batch [] file = file
append_batch (r ∷ rs) file = sync_file (write_file (encode_batch (r ∷ rs)) file)

-- reset
unfoldable pub reset : Bytes × ℕ → Bytes × ℕ
reset (bytes, synced) = sync_file ([], synced)

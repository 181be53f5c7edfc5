-- ===== src/Wal/Codec.antt =====
-- A record of the offset log is decoded as it was encoded (internal/coordinator/offset_wal.go).
use pocketkafka.Prelude.{
  ℕ, ◌-◌, ◌^◌, ◌%◌, ◌==◌, nat_eq, false, ◌<◌, ◌≡◌, refl, ap, sym, ◌∙◌, Option, none, some, [], ◌++◌,
  arith, Bytes, length, append_assoc, append-nil,
}
use pocketkafka.Prelude.Words.{be_bytes, length-be_bytes, be_value-be_bytes, read_full-append}
use pocketkafka.Wal.{
  WalRecord, WalError, ok, truncated_string_length, truncated_nullable_length, truncated_partition,
  truncated_offset, truncated_leader_epoch, truncated_timestamp, append_wal_string,
  append_wal_nullable_string, wal_payload, read_word, read_string_of, read_wal_string,
  read_wal_nullable_string, read_present, decode_fields, decode_wal_payload,
}

-- The lengths fit a uint16, that of the metadata below the mark of a missing one; the numbers fit
-- their words.
pub record IsEncodable (r : WalRecord) : Type 0 where
  pub group : length r.group < 2 ^ 16
  pub topic : length r.topic < 2 ^ 16
  pub partition : r.partition < 2 ^ 32
  pub offset : r.offset < 2 ^ 64
  pub leader_epoch : r.leader_epoch < 2 ^ 32
  pub metadata : (s : Bytes) → r.metadata ≡ some s → length s < 2 ^ 16 - 1
  pub timestamp : r.timestamp < 2 ^ 64

pub read_word-be_bytes :
    (k v : ℕ) (e : WalError) (rest : Bytes)
    → v < 256 ^ k
    → read_word k e (be_bytes k v ++ rest) ≡ ok (v, rest)
unfolding read_word
read_word-be_bytes k v e rest h =
    rw (read_full-append k (be_bytes k v) rest (length-be_bytes k v), read_word)
      (ap (λ w. ok (w, rest)) (be_value-be_bytes k v h))

read_string_of-append : (s rest : Bytes) → read_string_of (length s) (s ++ rest) ≡ ok (s, rest)
unfolding read_string_of
read_string_of-append s rest = rw (read_full-append (length s) s rest refl, read_string_of)

read_wal_string-parts :
    (s rest : Bytes)
    → length s < 2 ^ 16
    → read_wal_string (be_bytes 2 (length s) ++ (s ++ rest)) ≡ ok (s, rest)
unfolding read_wal_string
read_wal_string-parts s rest h =
    rw (read_word-be_bytes 2 (length s) truncated_string_length (s ++ rest) h)
      (read_string_of-append s rest)

read_wal_string-append :
    (s rest : Bytes)
    → length s < 2 ^ 16
    → read_wal_string (append_wal_string s ++ rest) ≡ ok (s, rest)
unfolding append_wal_string
read_wal_string-append s rest h =
    let fits : length s % 65536 ≡ length s = omega arith in
    rw fits (rw append_assoc (read_wal_string-parts s rest h))

read_wal_nullable_string-append :
    (o : Option Bytes) (rest : Bytes)
    → ((s : Bytes) → o ≡ some s → length s < 2 ^ 16 - 1)
    → read_wal_nullable_string (append_wal_nullable_string o ++ rest) ≡ ok (o, rest)
unfolding read_wal_nullable_string append_wal_nullable_string read_present
read_wal_nullable_string-append none rest h =
    rw (read_word-be_bytes 2 0xffff truncated_nullable_length rest (omega arith))
read_wal_nullable_string-append (some s) rest h =
    let short = h s refl in
    let fits : length s % 65536 ≡ length s = omega arith in
    let present : (length s == 0xffff) ≡ false = ground arith in
    rw fits (
      rw append_assoc (
        rw (read_word-be_bytes 2 (length s) truncated_nullable_length (s ++ rest) (omega arith))
          (rw present (rw (read_wal_string-parts s rest (omega arith))))))

read_word-be_bytes_last :
    (k v : ℕ) (e : WalError) → v < 256 ^ k → read_word k e (be_bytes k v) ≡ ok (v, [])
read_word-be_bytes_last k v e h =
    ap (read_word k e) (sym (append-nil (be_bytes k v))) ∙ read_word-be_bytes k v e [] h

-- A payload of an encodable record decodes to the record.
pub decode_wal_payload-wal_payload :
    (r : WalRecord) → IsEncodable r → decode_wal_payload (wal_payload r) ≡ ok r
unfolding decode_wal_payload wal_payload decode_fields
decode_wal_payload-wal_payload r v = rw (read_wal_string-append r.group _ v.group) (
    rw (read_wal_string-append r.topic _ v.topic) (
      rw (read_word-be_bytes 4 r.partition truncated_partition _ v.partition) (
        rw (read_word-be_bytes 8 r.offset truncated_offset _ v.offset) (
          rw (read_word-be_bytes 4 r.leader_epoch truncated_leader_epoch _ v.leader_epoch) (
            rw (read_wal_nullable_string-append r.metadata _ v.metadata)
              (rw (read_word-be_bytes_last 8 r.timestamp truncated_timestamp v.timestamp)))))))

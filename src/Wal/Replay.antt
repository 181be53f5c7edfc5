-- ===== src/Wal/Replay.antt =====
-- What replay reads from a log that was written by appendBatch, whole or cut at any byte
-- (internal/coordinator/offset_wal.go).
use pocketkafka.Prelude.{
  ℕ, ◌+◌, ◌-◌, ◌^◌, ◌%◌, ◌≤◌, ◌<◌, ◌≡◌, refl, ap, ◌∙◌, Option, none, some, ◌++◌, arith, Bytes,
  length, append_assoc, length-append, ◌==◌, nat_eq, true,
}
use pocketkafka.Prelude.Words.{
  be_bytes, read_full, crc32c, crc32c-lt, length-be_bytes, be_value-be_bytes, read_full-append,
}
use pocketkafka.Wal.{
  WalRecord, append_wal_string, append_wal_nullable_string, wal_payload, encode_wal_record, eof,
  got, check_record, read_checksum, read_payload, next_record,
}
use pocketkafka.Wal.Codec.{IsEncodable, decode_wal_payload-wal_payload}

length-wal_string : (s : Bytes) → length (append_wal_string s) ≡ 2 + length s
unfolding append_wal_string
length-wal_string s =
    omega
      (arith, length-append (be_bytes 2 (length s % 65536)) s, length-be_bytes 2 (length s % 65536))

length-wal_nullable_string :
    (o : Option Bytes)
    → ((s : Bytes) → o ≡ some s → length s < 2 ^ 16 - 1)
    → length (append_wal_nullable_string o) ≤ 65537
unfolding append_wal_nullable_string
length-wal_nullable_string none h = omega (arith, length-be_bytes 2 0xffff)
length-wal_nullable_string (some s) h = omega (arith, length-wal_string s, h s refl)

-- A payload is not empty, and much shorter than the limit on a record.
pub length-wal_payload :
    (r : WalRecord)
    → IsEncodable r
    → (1 ≤ length (wal_payload r)) × (length (wal_payload r) ≤ 200000)
unfolding wal_payload
length-wal_payload r v = omega (
  arith,
  length-append {0} {A = ℕ},
  length-be_bytes,
  length-wal_string,
  length-wal_nullable_string r.metadata v.metadata,
)

pub next_record-word :
    (n : ℕ) (bs : Bytes) → n < 2 ^ 32 → next_record (be_bytes 4 n ++ bs) ≡ read_payload n bs
unfolding next_record
next_record-word n bs h =
    rw (read_full-append 4 (be_bytes 4 n) bs (length-be_bytes 4 n), next_record)
      (ap (λ k. read_payload k bs) (be_value-be_bytes 4 n h))

pub read_payload-fits :
    (p bs : Bytes)
    → 1 ≤ length p
    → length p ≤ 200000
    → read_payload (length p) bs
      ≡ (elim (read_full (length p) bs) [ none ↦ eof | some (q, rest) ↦ read_checksum q rest ])
unfolding read_payload
read_payload-fits p bs h k = ground arith

read_payload-append :
    (p bs : Bytes)
    → 1 ≤ length p
    → length p ≤ 200000
    → read_payload (length p) (p ++ bs) ≡ read_checksum p bs
read_payload-append p bs h k =
    read_payload-fits p (p ++ bs) h k ∙ rw (read_full-append (length p) p bs refl)

read_checksum-word :
    (p : Bytes) (c : ℕ) (rest : Bytes)
    → c < 2 ^ 32
    → read_checksum p (be_bytes 4 c ++ rest) ≡ check_record p c rest
unfolding read_checksum
read_checksum-word p c rest h =
    rw (read_full-append 4 (be_bytes 4 c) rest (length-be_bytes 4 c), read_checksum)
      (ap (λ k. check_record p k rest) (be_value-be_bytes 4 c h))

check_record-payload :
    (r : WalRecord) (rest : Bytes)
    → IsEncodable r
    → check_record (wal_payload r) (crc32c (wal_payload r)) rest ≡ got r rest
unfolding check_record
check_record-payload r rest v =
    let same : (crc32c (wal_payload r) == crc32c (wal_payload r)) ≡ true = ground arith in
    rw same (rw (decode_wal_payload-wal_payload r v, check_record))

-- The three parts of an encoded record, with what follows.
pub encode_wal_record-append :
    (r : WalRecord) (rest : Bytes)
    → IsEncodable r
    → encode_wal_record r ++ rest
      ≡ be_bytes 4 (length (wal_payload r))
        ++ (wal_payload r ++ (be_bytes 4 (crc32c (wal_payload r)) ++ rest))
unfolding encode_wal_record
encode_wal_record-append r rest v =
    let fits : length (wal_payload r) % 2 ^ 32 ≡ length (wal_payload r) =
      omega (arith, length-wal_payload r v) in
    rw fits (simp append_assoc)

pub next_record-encode :
    (r : WalRecord) (rest : Bytes)
    → IsEncodable r
    → next_record (encode_wal_record r ++ rest) ≡ got r rest
next_record-encode r rest v =
    let (lo, hi) = length-wal_payload r v in
    ap next_record (encode_wal_record-append r rest v)
    ∙ next_record-word (length (wal_payload r)) _ (omega arith)
    ∙ read_payload-append (wal_payload r) _ lo hi
    ∙ read_checksum-word (wal_payload r) (crc32c (wal_payload r)) rest (crc32c-lt (wal_payload r))
    ∙ check_record-payload r rest v

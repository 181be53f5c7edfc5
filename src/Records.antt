-- ===== src/Records.antt =====
-- The records of a batch (pkg/protocol/record_batch.go: EncodeRecord, decodeRecord), on the bytes
-- that are left of a record's body. `size` is the length of the whole body, and `int` has 64 bits.
pub mod Varint
pub mod RoundTrip
pub mod Hostile
use pocketkafka.Prelude.{
  ℕ, zero, suc, ◌+◌, ◌-◌, ◌^◌, ◌<◌, Bytes, Option, none, some, List, [], ◌∷◌, ◌++◌, length, take,
  drop, ltb, if◌then◌else◌, map,
}
use pocketkafka.Prelude.Ints.{ℤ, pos, negsuc, signed, unsigned, ltb_ℤ}
use pocketkafka.Records.Varint.{
  Decoded, ok, invalid, panics, ◌>>=◌, append_varint, append_uvarint, read_varint, read_uvarint,
}

pub record RecordHeader : Type 0 where
  pub key : Bytes
  pub value : Option Bytes

-- A missing key or value is nil. The attributes are the bit pattern of an int8.
pub record Record : Type 0 where
  pub attributes : ℕ
  pub timestamp_delta : ℤ
  pub offset_delta : ℤ
  pub key : Option Bytes
  pub value : Option Bytes
  pub headers : List RecordHeader

unfoldable pub append_sized : Bytes → Bytes
append_sized bs = append_varint (pos (length bs)) ++ bs

-- A value: -1 where it is nil.
unfoldable pub append_nullable : Option Bytes → Bytes
append_nullable none = append_varint (negsuc 0)
append_nullable (some bs) = append_sized bs

-- The key of a record: the length of a nil slice is 0.
unfoldable pub append_key : Option Bytes → Bytes
append_key none = append_varint (pos 0)
append_key (some bs) = append_sized bs

unfoldable pub append_headers : List RecordHeader → Bytes
append_headers [] = []
append_headers (h ∷ hs) = append_sized h.key ++ (append_nullable h.value ++ append_headers hs)

-- The body of EncodeRecord, bracketed to the right.
unfoldable pub record_body : Record → Bytes
record_body r =
    r.attributes
    ∷ (append_varint r.timestamp_delta
        ++ (append_varint r.offset_delta
            ++ (append_key r.key
                ++ (append_nullable r.value
                    ++ (append_uvarint (length r.headers) ++ append_headers r.headers)))))

unfoldable pub encode_record : Record → Bytes
encode_record r = append_sized (record_body r)

unfoldable pub read_int8 : Bytes → Decoded (ℕ × Bytes)
read_int8 [] = invalid
read_int8 (b ∷ bs) = ok (b, bs)

-- The test of ReadBytesVarint: the sum of the position and the length wraps as an int64, and for a
-- sum that has wrapped the allocation of so many bytes panics.
unfoldable pub read_sized : ℕ → ℕ → Bytes → Decoded (Option Bytes × Bytes)
read_sized size n bs =
    if ltb_ℤ (pos size) (signed 64 (size - length bs + n))
    then invalid
    else if ltb (length bs) n
    then panics
    else ok (some (take n bs), drop n bs)

unfoldable pub sized_or_nil : ℕ → ℤ → Bytes → Decoded (Option Bytes × Bytes)
sized_or_nil size (pos n) bs = read_sized size n bs
sized_or_nil size (negsuc n) bs = ok (none, bs)

unfoldable pub read_bytes_varint : ℕ → Bytes → Decoded (Option Bytes × Bytes)
read_bytes_varint size bs = do (l, rest) ← read_varint bs; sized_or_nil size l rest

abbrev pub or_empty : Option Bytes → Bytes
or_empty none = []
or_empty (some bs) = bs

unfoldable pub read_varint_string : ℕ → Bytes → Decoded (Bytes × Bytes)
read_varint_string size bs = do (o, rest) ← read_bytes_varint size bs; ok (or_empty o, rest)

unfoldable pub read_headers : ℕ → ℕ → Bytes → Decoded (List RecordHeader × Bytes)
read_headers size zero bs = ok ([], bs)
read_headers size (suc n) bs = do
  (key, bs1) ← read_varint_string size bs
  (value, bs2) ← read_bytes_varint size bs1
  (hs, bs3) ← read_headers size n bs2
  ok (record { key = key; value = value } ∷ hs, bs3)

-- decodeRecord on the body of the record.
unfoldable pub decode_body : Bytes → Decoded Record
decode_body body = do
  (attributes, b1) ← read_int8 body
  (timestamp_delta, b2) ← read_varint b1
  (od, b3) ← read_varint b2
  (key, b4) ← read_bytes_varint (length body) b3
  (value, b5) ← read_bytes_varint (length body) b4
  (hc, b6) ← read_uvarint b5
  (headers, b7) ← read_headers (length body) hc b6
  ok (record {
    attributes = attributes;
    timestamp_delta = timestamp_delta;
    offset_delta = signed 32 (unsigned 64 od);
    key = key;
    value = value;
    headers = headers;
  })

-- The slice of the body: `n` bytes of the length have been read, and the sum wraps as an int64. A
-- sum that has wrapped is negative, and slicing up to it panics.
unfoldable pub body_of : ℕ → ℕ → Bytes → Decoded (Bytes × Bytes)
body_of size l bs =
    if ltb_ℤ (pos size) (signed 64 (size - length bs + l))
    then invalid
    else if ltb (length bs) l
    then panics
    else ok (take l bs, drop l bs)

unfoldable pub record_of : ℕ → ℤ → Bytes → Decoded (Record × Bytes)
record_of size (negsuc l) bs = invalid
record_of size (pos l) bs = do (body, rest) ← body_of size l bs; r ← decode_body body; ok (r, rest)

-- decodeRecord, with the bytes behind the record.
unfoldable pub decode_record : Bytes → Decoded (Record × Bytes)
decode_record src = do (l, bs) ← read_varint src; record_of (length src) l bs

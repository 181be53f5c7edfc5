-- ===== src/Records/RoundTrip.antt =====
-- A record that is encoded and decoded again (pkg/protocol/record_batch.go).
use pocketkafka.Prelude.{
  ℕ, suc, ◌+◌, ◌-◌, ◌^◌, ◌≤◌, ◌<◌, ◌≡◌, refl, sym, ap, ◌∙◌, arith, false, Bytes, Option, none, some,
  List, [], ◌∷◌, ◌++◌, length, append_assoc, append-nil, length-append, take-append_left,
  drop-append_left, ltb,
}
use pocketkafka.Prelude.Ints.{
  ℤ, pos, negsuc, signed, unsigned, signed_32-lt, signed_64-lt, unsigned_64-lt,
}
use pocketkafka.Records.Varint.{
  ok, ◌>>=◌, append_varint, append_uvarint, read_varint, read_varint-append_varint,
  read_uvarint-append_uvarint, zigzag,
}
use pocketkafka.Records.{
  Record, RecordHeader, append_sized, append_nullable, append_key, append_headers, record_body,
  encode_record, read_int8, read_sized, sized_or_nil, read_bytes_varint, or_empty,
  read_varint_string, read_headers, decode_body, body_of, record_of, decode_record,
}

-- What is left of the body is no longer than the body.
module _ (size : ℕ) (s : size < 2 ^ 63) where
  read_sized-append :
      (bs rest : Bytes)
      → length (bs ++ rest) ≤ size
      → read_sized size (length bs) (bs ++ rest) ≡ ok (some bs, rest)
  unfolding read_sized
  read_sized-append bs rest h =
      let l = length-append bs rest in
      let e : signed 64 (size - length (bs ++ rest) + length bs)
          ≡ pos (size - length (bs ++ rest) + length bs) =
        signed_64-lt (size - length (bs ++ rest) + length bs) (omega arith) in
      let a : ltb (size + 0) (size - length (bs ++ rest) + length bs + 0) ≡ false = ground arith in
      let b : ltb (length (bs ++ rest)) (length bs) ≡ false = ground arith in
      rw (e, a, b, take-append_left bs rest, drop-append_left bs rest) refl

  read-append_sized :
      (bs rest : Bytes)
      → length (append_sized bs ++ rest) ≤ size
      → read_bytes_varint size (append_sized bs ++ rest) ≡ ok (some bs, rest)
  unfolding append_sized read_bytes_varint sized_or_nil zigzag
  read-append_sized bs rest h =
      let v = append_varint (pos (length bs)) in
      let e : (v ++ bs) ++ rest ≡ v ++ (bs ++ rest) = append_assoc v bs rest in
      let l : length (bs ++ rest) ≤ size =
        omega (arith, ap length e, length-append v (bs ++ rest)) in
      rw
        (
          e,
          read_varint-append_varint (pos (length bs)) (bs ++ rest)
              (omega (arith, length-append bs rest)),
        )
        (read_sized-append bs rest l)

  read-append_nullable :
      (o : Option Bytes) (rest : Bytes)
      → length (append_nullable o ++ rest) ≤ size
      → read_bytes_varint size (append_nullable o ++ rest) ≡ ok (o, rest)
  unfolding append_nullable read_bytes_varint sized_or_nil zigzag
  read-append_nullable none rest h =
      rw (read_varint-append_varint (negsuc 0) rest (omega arith)) refl
  read-append_nullable (some bs) rest h = read-append_sized bs rest h

  -- A nil key is read back as an empty one.
  read-append_key :
      (o : Option Bytes) (rest : Bytes)
      → length (append_key o ++ rest) ≤ size
      → read_bytes_varint size (append_key o ++ rest) ≡ ok (some (or_empty o), rest)
  unfolding append_key append_sized
  read-append_key none rest h =
      let e : append_varint (pos 0) ++ [] ≡ append_varint (pos 0) =
        append-nil (append_varint (pos 0)) in
      ap (λ (t : Bytes). read_bytes_varint size (t ++ rest)) (sym e)
      ∙ read-append_sized [] rest (omega (arith, ap (λ (t : Bytes). length (t ++ rest)) e))
  read-append_key (some bs) rest h = read-append_sized bs rest h

  header_left :
      (h : RecordHeader) (hs : List RecordHeader) (rest : Bytes)
      → append_headers (h ∷ hs) ++ rest
        ≡ append_sized h.key ++ (append_nullable h.value ++ (append_headers hs ++ rest))
  unfolding append_headers
  header_left h hs rest =
      append_assoc (append_sized h.key) (append_nullable h.value ++ append_headers hs) rest
      ∙ ap (λ (t : Bytes). append_sized h.key ++ t)
          (append_assoc (append_nullable h.value) (append_headers hs) rest)

  read_headers-append_headers :
      (hs : List RecordHeader) (rest : Bytes)
      → length (append_headers hs ++ rest) ≤ size
      → read_headers size (length hs) (append_headers hs ++ rest) ≡ ok (hs, rest)
  unfolding read_headers read_varint_string append_headers
  read_headers-append_headers [] rest l = refl
  read_headers-append_headers (h ∷ hs) rest l =
      let a = append_headers hs ++ rest in
      let b = append_nullable h.value ++ a in
      let e = header_left h hs rest in
      let m : length (append_sized h.key ++ b) ≤ size = omega (arith, ap length e) in
      let n : length b ≤ size = omega (arith, length-append (append_sized h.key) b) in
      let k : length a ≤ size = omega (arith, length-append (append_nullable h.value) a) in
      ap (read_headers size (suc (length hs))) e
      ∙ rw
          (
            read-append_sized h.key b m,
            read-append_nullable h.value a n,
            read_headers-append_headers hs rest k,
          )
          refl

-- A record whose numbers are in their ranges; the offset's delta is not negative.
pub record IsEncodable (r : Record) : Type 0 where
  pub delta : ℕ
  pub timestamp_in_range : zigzag r.timestamp_delta < 2 ^ 64
  pub delta_is : r.offset_delta ≡ pos delta
  pub delta_in_range : delta < 2 ^ 31
  pub count_in_range : length r.headers < 2 ^ 64

-- The record that is read back: its key is there.
unfoldable pub with_key : Record → Record
with_key r = record {
  attributes = r.attributes;
  timestamp_delta = r.timestamp_delta;
  offset_delta = r.offset_delta;
  key = some (or_empty r.key);
  value = r.value;
  headers = r.headers;
}

delta_kept : (d : ℕ) → d < 2 ^ 31 → signed 32 (unsigned 64 (pos d)) ≡ pos d
delta_kept d h = ap (signed 32) (unsigned_64-lt d (omega arith)) ∙ signed_32-lt d h

decode_body-record_body :
    (r : Record)
    → IsEncodable r
    → length (record_body r) < 2 ^ 63
    → decode_body (record_body r) ≡ ok (with_key r)
unfolding decode_body record_body read_int8 with_key zigzag
decode_body-record_body r w s =
    let size = length (record_body r) in
    let b6 = append_headers r.headers in
    let b5 = append_uvarint (length r.headers) ++ b6 in
    let b4 = append_nullable r.value ++ b5 in
    let b3 = append_key r.key ++ b4 in
    let b2 = append_varint r.offset_delta ++ b3 in
    let b1 = append_varint r.timestamp_delta ++ b2 in
    let l1 : length b1 ≤ size = omega arith in
    let l3 : length b3 ≤ size = omega (
      arith,
      length-append (append_varint r.timestamp_delta) b2,
      length-append (append_varint r.offset_delta) b3,
    ) in
    let l4 : length b4 ≤ size = omega (arith, length-append (append_key r.key) b4) in
    let l6 : length (b6 ++ []) ≤ size = omega (
      arith,
      length-append (append_nullable r.value) b5,
      length-append (append_uvarint (length r.headers)) b6,
      ap length (append-nil b6),
    ) in
    let hs : read_headers size (length r.headers) b6 ≡ ok (r.headers, []) =
      ap (read_headers size (length r.headers)) (sym (append-nil b6))
      ∙ read_headers-append_headers size s r.headers [] l6 in
    let od : read_varint b2 ≡ ok (pos w.delta, b3) =
      ap (λ (z : ℤ). read_varint (append_varint z ++ b3)) w.delta_is
      ∙ read_varint-append_varint (pos w.delta) b3 (omega (arith, w.delta_in_range)) in
    rw
      (
        read_varint-append_varint r.timestamp_delta b2 w.timestamp_in_range,
        od,
        read-append_key size s r.key b4 l3,
        read-append_nullable size s r.value b5 l4,
        read_uvarint-append_uvarint (length r.headers) b6 w.count_in_range,
        hs,
        delta_kept w.delta w.delta_in_range,
      )
      (ap
        (λ (z : ℤ). ok (record {
          attributes = r.attributes;
          timestamp_delta = r.timestamp_delta;
          offset_delta = z;
          key = some (or_empty r.key);
          value = r.value;
          headers = r.headers;
        }))
        (sym w.delta_is))

body_of-append :
    (size : ℕ) (body rest : Bytes)
    → size < 2 ^ 63
    → length (body ++ rest) ≤ size
    → body_of size (length body) (body ++ rest) ≡ ok (body, rest)
unfolding body_of
body_of-append size body rest s h =
    let l = length-append body rest in
    let e : signed 64 (size - length (body ++ rest) + length body)
        ≡ pos (size - length (body ++ rest) + length body) =
      signed_64-lt (size - length (body ++ rest) + length body) (omega arith) in
    let a : ltb (size + 0) (size - length (body ++ rest) + length body + 0) ≡ false =
      ground arith in
    let b : ltb (length (body ++ rest)) (length body) ≡ false = ground arith in
    rw (e, a, b, take-append_left body rest, drop-append_left body rest) refl

-- An encodable record is read back as it was written, and nothing of what follows it is taken, but
-- for a nil key, which is read back as an empty one.
pub decode_record-encode_record :
    (r : Record) (rest : Bytes)
    → IsEncodable r
    → length (encode_record r ++ rest) < 2 ^ 63
    → decode_record (encode_record r ++ rest) ≡ ok (with_key r, rest)
unfolding decode_record encode_record append_sized record_of zigzag
decode_record-encode_record r rest w s =
    let body = record_body r in
    let v = append_varint (pos (length body)) in
    let size = length ((v ++ body) ++ rest) in
    let e : (v ++ body) ++ rest ≡ v ++ (body ++ rest) = append_assoc v body rest in
    let t : size ≡ length v + length (body ++ rest) =
      ap length e ∙ length-append v (body ++ rest) in
    let b : length body < 2 ^ 63 = omega (arith, length-append body rest) in
    ap (λ (x : Bytes). read_varint x >>= λ (l, bs). record_of size l bs) e
    ∙ rw
        (
          read_varint-append_varint (pos (length body)) (body ++ rest) (omega arith),
          body_of-append size body rest s (omega arith),
          decode_body-record_body r w b,
        )
        refl

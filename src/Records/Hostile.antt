-- ===== src/Records/Hostile.antt =====
-- A length field that makes decodeRecord panic (pkg/protocol/record_batch.go).
use pocketkafka.Prelude.{
  ℕ, suc, ◌+◌, ◌-◌, ◌^◌, ◌≤◌, ◌<◌, ◌≡◌, refl, ap, arith, true, false, Bytes, ◌++◌, length,
  length-append, ltb,
}
use pocketkafka.Prelude.Ints.{pos, negsuc, signed}
use pocketkafka.Records.Varint.{panics, append_varint, read_varint-append_varint, zigzag}
use pocketkafka.Records.{body_of, record_of, decode_record}

signed_64-wraps : (v : ℕ) → 2 ^ 63 ≤ v → v < 2 ^ 64 → signed 64 v ≡ negsuc (2 ^ 64 - 1 - v)
unfolding signed
signed_64-wraps v l h = ground (arith, ap negsuc)

-- A record whose length field, with the bytes of the field itself, comes to 2^63 or more makes
-- decodeRecord panic, whatever bytes follow it.
pub decode_record-panics :
    (l : ℕ) (rest : Bytes)
    → l < 2 ^ 63
    → 2 ^ 63 ≤ length (append_varint (pos l)) + l
    → length (append_varint (pos l) ++ rest) < l
    → decode_record (append_varint (pos l) ++ rest) ≡ panics
unfolding decode_record record_of body_of zigzag
decode_record-panics l rest h w s =
    let v = append_varint (pos l) in
    let size = length (v ++ rest) in
    let t = length-append v rest in
    let e : signed 64 (size - length rest + l) ≡ negsuc (2 ^ 64 - 1 - (size - length rest + l)) =
      signed_64-wraps (size - length rest + l) (omega arith) (omega arith) in
    let c : ltb (size + suc (2 ^ 64 - 1 - (size - length rest + l))) 0 ≡ false = ground arith in
    let b : ltb (length rest) l ≡ true = ground arith in
    rw (read_varint-append_varint (pos l) rest (omega arith), e, c, b) refl

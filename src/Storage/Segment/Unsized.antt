-- ===== src/Storage/Segment/Unsized.antt =====
-- A batch whose length field says more than the bytes it came with (internal/storage/segment.go:
-- append, recover; record.go).
use pocketkafka.Prelude.{
  ℕ, ◌+◌, ◌-◌, ◌%◌, ◌^◌, ◌≤◌, ◌<◌, ◌≡◌, sym, ap, ◌∙◌, arith, Bytes, length, List, ◌++◌,
}
use pocketkafka.Prelude.Ints.{ℤ, pos, max_int32}
use pocketkafka.Prelude.Words.{be_value}
use pocketkafka.Prelude.Slices.{slice}
use pocketkafka.Storage.Runs.{done}
use pocketkafka.Storage.Batch.{header_of, parse_record_batch_header}
use pocketkafka.Storage.Segment.{Segment, stamp, written, append, open_segment}
use pocketkafka.Storage.Segment.Log.{end_of, delta_of, end_of-le}
use pocketkafka.Storage.Segment.Recovery.{IsTorn, unsized, open_segment-whole_index}
use pocketkafka.Storage.Segment.Append.{IsSegment, append_batch-fits, slice-stamp, length-stamp}

-- A batch with a header that the segment accepts, and with a length that is too large for its bytes.
pub record IsUnsized (raw : Bytes) : Type 0 where
  pub header : 61 ≤ length raw
  pub too_large : length raw < be_value (slice 8 4 raw) + 12
  pub in_range : be_value (slice 8 4 raw) < 2 ^ 31
  pub magic : be_value (slice 16 1 raw) ≡ 2
  pub delta_in_range : delta_of raw < 2 ^ 31

parse_record_batch_header-IsUnsized :
    (raw : Bytes) → IsUnsized raw → parse_record_batch_header raw ≡ done (header_of raw)
unfolding parse_record_batch_header
parse_record_batch_header-IsUnsized raw p = ground (arith, p.header, p.magic)

stamp-IsTorn : (n : ℕ) (z : ℤ) (raw : Bytes) → IsUnsized raw → IsTorn n (stamp z raw)
stamp-IsTorn n z raw p =
    let l : length (stamp z raw) ≡ length raw = length-stamp z raw (omega (arith, p.header)) in
    let f : be_value (slice 8 4 (stamp z raw)) ≡ be_value (slice 8 4 raw) =
      ap be_value (slice-stamp z 0 4 raw) in
    unsized (omega (arith, p.header)) (omega (arith, p.too_large)) (omega (arith, p.in_range))

-- A batch with a length field that is too large for its bytes is appended to a well-formed segment
-- and answered with an offset, but when the segment is opened again, the batch is gone and its offset
-- is the next one to be given out.
pub append-unsized :
    (s : Segment) (base : ℕ) (bs : List Bytes) (raw index : Bytes) (max interval : ℤ)
    → IsSegment base bs s
    → IsUnsized raw
    → end_of base bs + delta_of raw + 1 - base ≤ max_int32
    → length index % 8 ≡ 0
    → (s' : Segment) × (s'' : Segment) × (append s raw ≡ done (s', pos (end_of base bs)))
      × (open_segment s'.log index (pos base) max interval ≡ done s'')
      × (s''.log ≡ s.log)
      × (s''.next_offset ≡ pos (end_of base bs))
unfolding append written
append-unsized s base bs raw index max interval w p o i =
    let n = end_of base bs in
    let r = stamp (pos n) raw in
    let (s'', q, k, e, b) =
      open_segment-whole_index base bs r index max interval w.chain (stamp-IsTorn n (pos n) raw p)
        i in
    (
      written s r (pos (delta_of raw)),
      s'',
      rw (parse_record_batch_header-IsUnsized raw p)
          (append_batch-fits s base n raw w.based w.ended (end_of-le base bs) o p.delta_in_range),
      ap (λ (t : Bytes). open_segment (t ++ r) index (pos base) max interval) w.logged ∙ q,
      k ∙ sym w.logged,
      e,
    )

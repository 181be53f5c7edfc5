-- ===== src/Storage/Segment/Reading.antt =====
-- What a read from a segment returns (internal/storage/segment.go: read).
use pocketkafka.Prelude.{
  ℕ, ◌+◌, ◌-◌, ◌^◌, ◌≤◌, ◌<◌, ◌≡◌, refl, ap, ◌∙◌, arith, true, false, Bytes, length, List, [], ◌∷◌,
  ◌++◌, length-append, ltb, eqb, if◌then◌else◌,
}
use pocketkafka.Prelude.Ints.{pos, signed_32-lt, ltb_ℤ}
use pocketkafka.Storage.Runs.{next}
use pocketkafka.Storage.Segment.{read_batch, read_turn}
use pocketkafka.Storage.Segment.Log.{
  IsBatch, delta_of, last_of, prefix-length, prefix_read, base-pos, delta-pos, whole, chunk_read,
  below,
}

-- The batches from the first one on that does not end before the offset.
unfoldable pub from_offset : ℕ → List Bytes → List Bytes
from_offset offset [] = []
from_offset offset (raw ∷ bs) = if ltb (last_of raw) offset then from_offset offset bs else raw ∷ bs

-- Whole batches, until they have `max_bytes` bytes or more.
unfoldable pub limited : ℕ → List Bytes → Bytes
limited max_bytes [] = []
limited max_bytes (raw ∷ bs) =
    let rest = limited (max_bytes - length raw) bs in if eqb max_bytes 0 then [] else raw ++ rest

module _ (offset max_bytes n : ℕ) (raw before after out : Bytes) (h : IsBatch n raw)
    (m : length out < max_bytes) (l : length out < 2 ^ 31) where
  read_turn-whole :
      read_turn (before ++ (raw ++ after)) (pos offset) (pos max_bytes) (length before, out) ≡ (
        if ltb_ℤ (pos (n + delta_of raw)) (pos offset)
        then next (length before + (12 + (length raw - 12)), out)
        else next (length before + (12 + (length raw - 12)), out ++ raw))
  unfolding read_turn read_batch
  read_turn-whole =
      let e : ltb (length before) (length (before ++ (raw ++ after))) ≡ true =
        ground (arith, below n raw h before after) in
      let q : ltb (length out + 0) (max_bytes + 0) ≡ true = ground arith in
      let t : ltb (12 + (length raw - 12)) 61 ≡ false = ground (arith, h.header) in
      rw
        (
          e,
          signed_32-lt (length out) l,
          q,
          prefix_read n raw h before after,
          prefix-length n raw h,
          whole n raw h before after,
          t,
          chunk_read n raw h before after,
          base-pos n raw h,
          delta-pos n raw h,
        )
        refl

  advanced : length before + (12 + (length raw - 12)) ≡ length (before ++ raw)
  advanced = omega (arith, h.header, length-append before raw)

  pub read_turn-skips :
      n + delta_of raw < offset
      → read_turn (before ++ (raw ++ after)) (pos offset) (pos max_bytes) (length before, out)
        ≡ next (length (before ++ raw), out)
  read_turn-skips k =
      let q : ltb (n + delta_of raw + 0) (offset + 0) ≡ true = ground arith in
      read_turn-whole ∙ rw q (ap (λ p. next (p, out)) advanced)

  pub read_turn-takes :
      offset ≤ n + delta_of raw
      → read_turn (before ++ (raw ++ after)) (pos offset) (pos max_bytes) (length before, out)
        ≡ next (length (before ++ raw), out ++ raw)
  read_turn-takes k =
      let q : ltb (n + delta_of raw + 0) (offset + 0) ≡ false = ground arith in
      read_turn-whole ∙ rw q (ap (λ p. next (p, out ++ raw)) advanced)

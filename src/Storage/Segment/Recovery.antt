-- ===== src/Storage/Segment/Recovery.antt =====
-- What opening a segment finds in its files (internal/storage/segment.go: openSegment, recover).
use pocketkafka.Prelude.{
  ℕ, suc, ◌+◌, ◌-◌, ◌%◌, ◌^◌, ◌≤◌, ◌<◌, ◌≡◌, refl, sym, ap, ◌∙◌, arith, true, false, Bytes, length,
  take, List, [], ◌∷◌, ◌++◌, some, length-append, append-nil, length-take, eqb, ltb, All,
  Bool-cases, inl, inr, if◌then◌else◌,
}
use pocketkafka.Prelude.Ints.{ℤ, pos, signed_32-lt}
use pocketkafka.Prelude.Words.{be_value}
use pocketkafka.Prelude.Slices.{
  slice, read_at, slice-slice, read_at-middle, read_at-short, resize-append,
}
use pocketkafka.Storage.Runs.{
  done, failed, eof, next, leave, abort, repeat, repeat-leave, repeat-abort,
}
use pocketkafka.Storage.Batch.{int32_at}
use pocketkafka.Storage.Index.{open_index}
use pocketkafka.Storage.Segment.{
  Segment, is_whole, recover_batch, recover_turn, recover, open_segment,
}
use pocketkafka.Storage.Segment.Scan.{Passes, through}
use pocketkafka.Storage.Segment.Log.{
  IsBatch, bytes_of, end_of, Chain, delta_of, prefix-length, delta_read, prefix_read,
  delta_bytes_read, whole, below, end_of-snoc, count-le,
}

module _ (n : ℕ) (raw before after : Bytes) (h : IsBatch n raw) where
  recover_batch-whole :
      recover_batch (before ++ (raw ++ after)) (length before) (pos n) (pos (length raw - 12))
      ≡ next (length (before ++ raw), pos (n + delta_of raw + 1))
  unfolding recover_batch delta_of
  recover_batch-whole =
      rw (whole n raw h before after, delta_bytes_read n raw h before after, delta_read n raw h)
        (ap (λ k. next (k, pos (n + delta_of raw + 1)))
          (omega (arith, h.header, length-append before raw)))

  -- One round of recover passes over a whole batch.
  recover_turn-whole :
      recover_turn (before ++ (raw ++ after)) (length before, pos n)
      ≡ next (length (before ++ raw), pos (n + delta_of raw + 1))
  unfolding recover_turn delta_of
  recover_turn-whole =
      let e : ltb (length before) (length (before ++ (raw ++ after))) ≡ true =
        ground (arith, below n raw h before after) in
      rw (e, prefix_read n raw h before after, prefix-length n raw h) recover_batch-whole

abbrev Any : Bytes → Type 0
Any raw = Unit {0}

All-Any : (bs : List Bytes) → All Any bs
All-Any [] = tt
All-Any (raw ∷ bs) = (tt, All-Any bs)

-- The next offset that recover counts is that behind the batches it has passed.
abbrev Counted : ℕ → List Bytes → ℤ → Type 0
Counted base xs z = z ≡ pos (end_of base xs)

recover-passes :
    (base : ℕ) (log : Bytes)
    → Passes base log (recover_turn log) (λ (p : ℕ) (z : ℤ). (p, z)) (Counted base) Any
recover-passes base log xs raw after z e h a r =
    let n = end_of base xs in
    (
      pos (n + delta_of raw + 1),
      rw (e, r) (recover_turn-whole n raw (bytes_of xs) after h),
      ap pos (sym (end_of-snoc base xs raw)),
    )

-- Recovery of a file that begins with whole batches comes to what stands behind them.
recover-behind :
    (base : ℕ) (bs : List Bytes) (tail : Bytes)
    → Chain base bs
    → (fuel : ℕ) × (recover (bytes_of bs ++ tail) (pos base)
        ≡ repeat
            (suc fuel)
            (recover_turn (bytes_of bs ++ tail))
            (length (bytes_of bs), pos (end_of base bs)))
unfolding recover bytes_of end_of
recover-behind base bs tail h =
    let log = bytes_of bs ++ tail in
    let fuel = length log - length bs in
    let q : suc (length log) ≡ length bs + suc fuel =
      omega (arith, count-le base bs h, length-append (bytes_of bs) tail) in
    let (z, e, r) =
      through base log (recover_turn log) (λ (p : ℕ) (z : ℤ). (p, z)) (Counted base) Any
        (recover-passes base log) (suc fuel) [] bs tail (pos base) refl h (All-Any bs) refl in
    (
      fuel,
      ap (λ k. repeat k (recover_turn log) (0, pos base)) q
          ∙ e
          ∙ ap (λ (t : ℤ). repeat (suc fuel) (recover_turn log) (length (bytes_of bs), t)) r,
    )

-- What stands behind the whole batches: nothing; the prefix of a batch with its length and more, but
-- not all of it, as a crash leaves it; or bytes whose length field says more than there is.
pub data IsTorn (n : ℕ) (tail : Bytes) : Type 0 where
  clean : tail ≡ [] → IsTorn n tail
  torn :
      (raw : Bytes) (k : ℕ)
      → IsBatch n raw
      → 12 ≤ k
      → k < length raw
      → tail ≡ take k raw
      → IsTorn n tail
  unsized :
      61 ≤ length tail
      → length tail < be_value (slice 8 4 tail) + 12
      → be_value (slice 8 4 tail) < 2 ^ 31
      → IsTorn n tail

slice_of_take : (k : ℕ) (raw : Bytes) → 12 ≤ k → slice 0 12 (take k raw) ≡ slice 0 12 raw
unfolding slice
slice_of_take k raw h = slice-slice 0 12 0 k raw (omega arith)

tail_prefix :
    (before tail : Bytes)
    → 12 ≤ length tail
    → read_at 12 (length before) (before ++ tail) ≡ some (slice 0 12 tail)
tail_prefix before tail h =
    let e : length before ≡ length before + 0 = omega arith in
    ap (λ k. read_at 12 k (before ++ tail)) e
    ∙ ap (λ (t : Bytes). read_at 12 (length before + 0) (before ++ t)) (sym (append-nil tail))
    ∙ read_at-middle 12 0 before tail [] h

field_read :
    (tail : Bytes)
    → be_value (slice 8 4 tail) < 2 ^ 31
    → int32_at 8 (slice 0 12 tail) ≡ pos (be_value (slice 8 4 tail))
unfolding int32_at
field_read tail h =
    rw (slice-slice 8 4 0 12 tail (omega arith)) (signed_32-lt (be_value (slice 8 4 tail)) h)

is_whole-torn :
    (before tail : Bytes) (k : ℕ)
    → length tail < k + 12
    → is_whole (before ++ tail) (length before) (pos k) ≡ false
unfolding is_whole
is_whole-torn before tail k h = ground (arith, length-append before tail)

recover_batch-torn :
    (before tail : Bytes) (z : ℤ) (k : ℕ)
    → length tail < k + 12
    → recover_batch (before ++ tail) (length before) z (pos k) ≡ leave (length before, z)
unfolding recover_batch
recover_batch-torn before tail z k h = rw (is_whole-torn before tail k h) refl

recover_turn-short :
    (before tail : Bytes) (z : ℤ)
    → 0 < length tail
    → length tail < 12
    → recover_turn (before ++ tail) (length before, z) ≡ abort eof
unfolding recover_turn
recover_turn-short before tail z a b =
    let q : ltb (length before) (length (before ++ tail)) ≡ true =
      ground (arith, length-append before tail) in
    rw
      (
        q,
        read_at-short 12 (length before) (before ++ tail)
            (omega (arith, length-append before tail)),
      )
      refl

recover_turn-torn :
    (n : ℕ) (before tail : Bytes) (z : ℤ)
    → IsTorn n tail
    → recover_turn (before ++ tail) (length before, z) ≡ leave (length before, z)
unfolding recover_turn
recover_turn-torn n before tail z (clean e) =
    let q : ltb (length before) (length (before ++ [])) ≡ false =
      ground (arith, length-append before []) in
    rw (e, q) refl
recover_turn-torn n before tail z (torn raw k h a b e) =
    let t : length tail ≡ k = ap length e ∙ omega (arith, length-take k raw) in
    let q : ltb (length before) (length (before ++ tail)) ≡ true =
      ground (arith, length-append before tail) in
    rw
      (
        q,
        tail_prefix before tail (omega arith),
        ap (slice 0 12) e,
        slice_of_take k raw a,
        prefix-length n raw h,
      )
      (recover_batch-torn before tail z (length raw - 12) (omega (arith, h.header)))
recover_turn-torn n before tail z (unsized a b c) =
    let q : ltb (length before) (length (before ++ tail)) ≡ true =
      ground (arith, length-append before tail) in
    rw (q, tail_prefix before tail (omega arith), field_read tail c)
      (recover_batch-torn before tail z (be_value (slice 8 4 tail)) b)

-- A log that ends in whole batches and a torn one is recovered to the whole batches.
pub recover-torn :
    (base : ℕ) (bs : List Bytes) (tail : Bytes)
    → Chain base bs
    → IsTorn (end_of base bs) tail
    → recover (bytes_of bs ++ tail) (pos base) ≡ done (length (bytes_of bs), pos (end_of base bs))
recover-torn base bs tail h t =
    let (fuel, e) = recover-behind base bs tail h in
    e
    ∙ repeat-leave fuel _ _ _
        (recover_turn-torn (end_of base bs) (bytes_of bs) tail (pos (end_of base bs)) t)

-- A log behind whose whole batches fewer bytes stand than a batch has before its length ends.
pub recover-torn_header :
    (base : ℕ) (bs : List Bytes) (tail : Bytes)
    → Chain base bs
    → 0 < length tail
    → length tail < 12
    → recover (bytes_of bs ++ tail) (pos base) ≡ failed eof
recover-torn_header base bs tail h a b =
    let (fuel, e) = recover-behind base bs tail h in
    e ∙ repeat-abort fuel _ _ _ (recover_turn-short (bytes_of bs) tail (pos (end_of base bs)) a b)

pub open_segment-whole_index :
    (base : ℕ) (bs : List Bytes) (tail index : Bytes) (max interval : ℤ)
    → Chain base bs
    → IsTorn (end_of base bs) tail
    → length index % 8 ≡ 0
    → (s : Segment) × (open_segment (bytes_of bs ++ tail) index (pos base) max interval ≡ done s)
      × (s.log ≡ bytes_of bs)
      × (s.next_offset ≡ pos (end_of base bs))
      × (s.base_offset ≡ pos base)
unfolding open_segment open_index
open_segment-whole_index base bs tail index max interval h t i =
    let q : eqb (length index % 8) 0 ≡ true = ground arith in
    rw (q, recover-torn base bs tail h t) (_, refl, resize-append (bytes_of bs) tail, refl, refl)

open_segment-torn_index :
    (log index : Bytes) (base max interval : ℤ)
    → eqb (length index % 8) 0 ≡ false
    → open_segment log index base max interval ≡ failed eof
unfolding open_segment open_index
open_segment-torn_index log index base max interval q = rw q refl

module _ (base : ℕ) (bs : List Bytes) (tail index : Bytes) (max interval : ℤ) where
  -- A segment whose log is whole batches and behind them nothing, or a batch that is cut past its
  -- length field, or at least 61 bytes whose length field, below 2 ^ 31, says more than there is,
  -- opens to the whole batches, and to the offset behind them, where the length of its index file is
  -- a multiple of eight; where it is not, as when an entry of the index is cut, the opening fails.
  pub open_segment-torn :
      Chain base bs
      → IsTorn (end_of base bs) tail
      → (s : Segment) × (open_segment (bytes_of bs ++ tail) index (pos base) max interval
          ≡ (if eqb (length index % 8) 0 then done s else failed eof))
        × (s.log ≡ bytes_of bs)
        × (s.next_offset ≡ pos (end_of base bs))
        × (s.base_offset ≡ pos base)
  open_segment-torn h t = elim (Bool-cases (eqb (length index % 8) 0)) [
    | inl q ↦
        rw q (open_segment-whole_index base bs tail index max interval h t (ground (arith, q)))
    | inr q ↦
        let (s, e, k, n, b) =
          open_segment-whole_index base bs tail [] max interval h t (omega arith) in
        let f = open_segment-torn_index (bytes_of bs ++ tail) index (pos base) max interval q in
        rw q (s, f, k, n, b)
  ]

  -- A segment whose log ends in whole batches and fewer than twelve bytes of another one cannot be
  -- opened.
  pub open_segment-torn_header :
      Chain base bs
      → 0 < length tail
      → length tail < 12
      → open_segment (bytes_of bs ++ tail) index (pos base) max interval ≡ failed eof
  unfolding open_segment open_index
  open_segment-torn_header h a b = elim (Bool-cases (eqb (length index % 8) 0)) [
    | inl q ↦ rw (q, recover-torn_header base bs tail h a b) refl
    | inr q ↦ rw q refl
  ]

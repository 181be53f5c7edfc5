-- ===== src/Storage/Segment/Log.antt =====
-- A log file as a list of record batches, and what the loops of internal/storage/segment.go read in
-- it where a whole batch stands.
use pocketkafka.Prelude.{
  ℕ, ◌+◌, ◌-◌, ◌≤◌, ◌<◌, ◌^◌, ◌≡◌, refl, sym, ap, ◌∙◌, arith, true, Bytes, length, List, [], ◌∷◌,
  ◌++◌, some, length-append, append_assoc, append-nil,
}
use pocketkafka.Prelude.Ints.{pos, signed_32-lt, signed_64-lt}
use pocketkafka.Prelude.Words.{be_value}
use pocketkafka.Prelude.Slices.{
  slice, read_at, slice-slice, slice-append_past, slice-append_within, slice_all, read_at-middle,
}
use pocketkafka.Storage.Batch.{int32_at, int64_at}
use pocketkafka.Storage.Segment.{is_whole}

-- The field lastOffsetDelta of a batch, and the last offset that the batch holds.
unfoldable pub delta_of : Bytes → ℕ
delta_of raw = be_value (slice 23 4 raw)

unfoldable pub base_of : Bytes → ℕ
base_of raw = be_value (slice 0 8 raw)

abbrev pub last_of : Bytes → ℕ
last_of raw = base_of raw + delta_of raw

-- A batch that stands at the offset `n`: its length field is that of its bytes.
pub record IsBatch (n : ℕ) (raw : Bytes) : Type 0 where
  pub header : 61 ≤ length raw
  pub sized : be_value (slice 8 4 raw) + 12 ≡ length raw
  pub small : length raw < 2 ^ 31
  pub based : base_of raw ≡ n
  pub in_range : n < 2 ^ 63
  pub delta_in_range : delta_of raw < 2 ^ 31

-- The bytes of the batches, and the offset behind them.
unfoldable pub bytes_of : List Bytes → Bytes
bytes_of [] = []
bytes_of (raw ∷ bs) = raw ++ bytes_of bs

unfoldable pub end_of : ℕ → List Bytes → ℕ
end_of n [] = n
end_of n (raw ∷ bs) = end_of (n + delta_of raw + 1) bs

-- Batches that follow on each other from the offset `n` on.
abbrev pub Chain : ℕ → List Bytes → Type 0
Chain n [] = Unit {0}
Chain n (raw ∷ bs) = IsBatch n raw × Chain (n + delta_of raw + 1) bs

pub bytes_of-append : (xs ys : List Bytes) → bytes_of (xs ++ ys) ≡ bytes_of xs ++ bytes_of ys
unfolding bytes_of
bytes_of-append [] ys = refl
bytes_of-append (x ∷ xs) ys =
    ap (λ (t : Bytes). x ++ t) (bytes_of-append xs ys)
    ∙ sym (append_assoc x (bytes_of xs) (bytes_of ys))

pub end_of-append : (n : ℕ) (xs ys : List Bytes) → end_of n (xs ++ ys) ≡ end_of (end_of n xs) ys
unfolding end_of
end_of-append n [] ys = refl
end_of-append n (x ∷ xs) ys = end_of-append (n + delta_of x + 1) xs ys

pub end_of-le : (n : ℕ) (xs : List Bytes) → n ≤ end_of n xs
unfolding end_of
end_of-le n [] = omega arith
end_of-le n (x ∷ xs) = omega (arith, end_of-le (n + delta_of x + 1) xs)

pub Chain-append :
    (n : ℕ) (xs ys : List Bytes) → Chain n xs → Chain (end_of n xs) ys → Chain n (xs ++ ys)
unfolding end_of
Chain-append n [] ys h k = k
Chain-append n (x ∷ xs) ys h k = (h.0, Chain-append (n + delta_of x + 1) xs ys h.1 k)

pub Chain-split :
    (n : ℕ) (xs ys : List Bytes) → Chain n (xs ++ ys) → Chain n xs × Chain (end_of n xs) ys
unfolding end_of
Chain-split n [] ys h = (tt, h)
Chain-split n (x ∷ xs) ys h =
    let r = Chain-split (n + delta_of x + 1) xs ys h.1 in ((h.0, r.0), r.1)

pub field-delta : (raw : Bytes) → delta_of raw < 2 ^ 31 → int32_at 23 raw ≡ pos (delta_of raw)
unfolding int32_at delta_of
field-delta raw h = signed_32-lt (be_value (slice 23 4 raw)) h

-- The prefix of a batch, as the loops read it, holds the batch's length and its base offset.
module _ (n : ℕ) (raw : Bytes) (h : IsBatch n raw) where
  pub prefix-length : int32_at 8 (slice 0 12 raw) ≡ pos (length raw - 12)
  unfolding int32_at
  prefix-length = rw (slice-slice 8 4 0 12 raw (omega arith)) (
      signed_32-lt (be_value (slice 8 4 raw)) (omega (arith, h.sized, h.small))
      ∙ ap pos (omega (arith, h.sized)))

  pub prefix-base : int64_at 0 (slice 0 12 raw) ≡ pos n
  unfolding int64_at base_of
  prefix-base = rw (slice-slice 0 8 0 12 raw (omega arith), h.based) (signed_64-lt n h.in_range)

  pub base-pos : int64_at 0 raw ≡ pos n
  unfolding int64_at base_of
  base-pos = rw h.based (signed_64-lt n h.in_range)

  pub delta-pos : int32_at 23 raw ≡ pos (delta_of raw)
  delta-pos = field-delta raw h.delta_in_range

  pub delta_read : int32_at 0 (slice 23 4 raw) ≡ pos (delta_of raw)
  unfolding int32_at delta_of
  delta_read =
      rw (slice-slice 0 4 23 4 raw (omega arith))
        (signed_32-lt (be_value (slice 23 4 raw)) h.delta_in_range)

  -- Where the batch stands in a file.
  module _ (before after : Bytes) where
    pub prefix_read : read_at 12 (length before) (before ++ (raw ++ after)) ≡ some (slice 0 12 raw)
    prefix_read =
        let e : length before ≡ length before + 0 = omega arith in
        ap (λ k. read_at 12 k (before ++ (raw ++ after))) e
        ∙ read_at-middle 12 0 before raw after (omega (arith, h.header))

    pub delta_bytes_read :
        read_at 4 (length before + 23) (before ++ (raw ++ after)) ≡ some (slice 23 4 raw)
    delta_bytes_read = read_at-middle 4 23 before raw after (omega (arith, h.header))

    pub whole : is_whole (before ++ (raw ++ after)) (length before) (pos (length raw - 12)) ≡ true
    unfolding is_whole
    whole = ground (arith, h.header, length-append before (raw ++ after), length-append raw after)

    pub chunk_read : slice (length before) (12 + (length raw - 12)) (before ++ (raw ++ after)) ≡ raw
    chunk_read =
        let e : length before ≡ length before + 0 = omega arith in
        let q : 12 + (length raw - 12) ≡ length raw = omega (arith, h.header) in
        ap (λ k. slice k (12 + (length raw - 12)) (before ++ (raw ++ after))) e
        ∙ ap (λ k. slice (length before + 0) k (before ++ (raw ++ after))) q
        ∙ slice-append_past 0 (length raw) before (raw ++ after)
        ∙ slice-append_within 0 (length raw) raw after (omega arith)
        ∙ slice_all raw

    pub below : length before < length (before ++ (raw ++ after))
    below = omega (arith, h.header, length-append before (raw ++ after), length-append raw after)

pub bytes_of-snoc : (xs : List Bytes) (raw : Bytes) → bytes_of (xs ++ raw ∷ []) ≡ bytes_of xs ++ raw
unfolding bytes_of
bytes_of-snoc xs raw =
    bytes_of-append xs (raw ∷ []) ∙ ap (λ (t : Bytes). bytes_of xs ++ t) (append-nil raw)

pub end_of-snoc :
    (n : ℕ) (xs : List Bytes) (raw : Bytes)
    → end_of n (xs ++ raw ∷ []) ≡ end_of n xs + delta_of raw + 1
unfolding end_of
end_of-snoc n xs raw = end_of-append n xs (raw ∷ [])

-- A batch takes up at least a byte, so there are fewer batches than bytes.
pub count-le : (n : ℕ) (bs : List Bytes) → Chain n bs → length bs ≤ length (bytes_of bs)
unfolding bytes_of
count-le n [] h = omega arith
count-le n (raw ∷ bs) h =
    omega
      (arith, length-append raw (bytes_of bs), h.0.header, count-le (n + delta_of raw + 1) bs h.1)

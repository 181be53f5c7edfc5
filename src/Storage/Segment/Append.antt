-- ===== src/Storage/Segment/Append.antt =====
-- What appending to a segment keeps (internal/storage/segment.go: append; index.go: maybeAppend).
use pocketkafka.Prelude.{
  ℕ, ◌+◌, ◌-◌, ◌^◌, ◌≤◌, ◌<◌, ◌≡◌, refl, sym, ap, ◌∙◌, arith, false, Bytes, length, drop, List, [],
  ◌∷◌, ◌++◌, All, length-append, length-drop, append_assoc, ltb, if_rule,
}
use pocketkafka.Prelude.Ints.{
  ℤ, pos, ◌-ℤ◌, diff-le, unsigned, unsigned_32-lt, unsigned_64-lt, ltb_ℤ, max_int32,
}
use pocketkafka.Prelude.Words.{be_bytes, be_value, length-be_bytes, be_value-be_bytes}
use pocketkafka.Prelude.Slices.{
  slice, slice-drop, slice-append_past, slice-append_within, slice_all,
}
use pocketkafka.Storage.Runs.{done}
use pocketkafka.Storage.Batch.{header_of, parse_record_batch_header}
use pocketkafka.Storage.Index
use pocketkafka.Storage.Index.{IndexEntry, IndexFile, entry_of, maybe_append, last_position}
use pocketkafka.Storage.Segment.{Segment, stamp, written, append_batch, append}
use pocketkafka.Storage.Segment.Log.{
  IsBatch, bytes_of, end_of, Chain, delta_of, base_of, bytes_of-snoc, end_of-snoc, end_of-le,
  Chain-append, field-delta,
}

-- An index entry that points to the start of a batch.
pub record Points (base : ℕ) (bs : List Bytes) (e : IndexEntry) : Type 0 where
  pub before : List Bytes
  pub behind : List Bytes
  pub split : bs ≡ before ++ behind
  pub placed : e.position ≡ length (bytes_of before)
  pub offset : base + e.relative_offset ≡ end_of base before

-- A segment whose log holds the batches from the offset `base` on.
pub record IsSegment (base : ℕ) (bs : List Bytes) (s : Segment) : Type 0 where
  pub based : s.base_offset ≡ pos base
  pub chain : Chain base bs
  pub logged : s.log ≡ bytes_of bs
  pub ended : s.next_offset ≡ pos (end_of base bs)
  pub index_based : s.index.base_offset ≡ pos base
  pub pointed : All (Points base bs) s.index.entries

-- A batch as a producer sends it, whose length field is that of its bytes.
pub record IsProduced (raw : Bytes) : Type 0 where
  pub header : 61 ≤ length raw
  pub sized : be_value (slice 8 4 raw) + 12 ≡ length raw
  pub small : length raw < 2 ^ 31
  pub magic : be_value (slice 16 1 raw) ≡ 2
  pub delta_in_range : delta_of raw < 2 ^ 31

pub slice-stamp :
    (z : ℤ) (i k : ℕ) (raw : Bytes) → slice (8 + i) k (stamp z raw) ≡ slice (8 + i) k raw
unfolding stamp
slice-stamp z i k raw =
    let e : 8 + i ≡ length (be_bytes 8 (unsigned 64 z)) + i =
      omega (arith, length-be_bytes 8 (unsigned 64 z)) in
    ap (λ j. slice j k (be_bytes 8 (unsigned 64 z) ++ drop 8 raw)) e
    ∙ slice-append_past i k (be_bytes 8 (unsigned 64 z)) (drop 8 raw)
    ∙ slice-drop i 8 k raw

pub length-stamp : (z : ℤ) (raw : Bytes) → 8 ≤ length raw → length (stamp z raw) ≡ length raw
unfolding stamp
length-stamp z raw h = omega (
  arith,
  length-append (be_bytes 8 (unsigned 64 z)) (drop 8 raw),
  length-be_bytes 8 (unsigned 64 z),
  length-drop 8 raw,
)

base_of-stamp : (n : ℕ) (raw : Bytes) → n < 2 ^ 63 → base_of (stamp (pos n) raw) ≡ n
unfolding base_of stamp
base_of-stamp n raw h =
    let w = be_bytes 8 (unsigned 64 (pos n)) in
    let l : length w ≡ 8 = length-be_bytes 8 (unsigned 64 (pos n)) in
    let u : unsigned 64 (pos n) ≡ n = unsigned_64-lt n (omega arith) in
    let e : slice 0 8 (w ++ drop 8 raw) ≡ w =
      slice-append_within 0 8 w (drop 8 raw) (omega arith)
      ∙ ap (λ k. slice 0 k w) (sym l)
      ∙ slice_all w in
    ap be_value e ∙ be_value-be_bytes 8 (unsigned 64 (pos n)) (omega arith) ∙ u

pub delta_of-stamp : (z : ℤ) (raw : Bytes) → delta_of (stamp z raw) ≡ delta_of raw
unfolding delta_of
delta_of-stamp z raw = ap be_value (slice-stamp z 15 4 raw)

stamp-IsBatch : (n : ℕ) (raw : Bytes) → n < 2 ^ 63 → IsProduced raw → IsBatch n (stamp (pos n) raw)
stamp-IsBatch n raw h p = record {
  header = omega (arith, length-stamp (pos n) raw (omega (arith, p.header)), p.header);
  sized =
      rw (slice-stamp (pos n) 0 4 raw, length-stamp (pos n) raw (omega (arith, p.header))) p.sized;
  small = omega (arith, length-stamp (pos n) raw (omega (arith, p.header)), p.small);
  based = base_of-stamp n raw h;
  in_range = h;
  delta_in_range = omega (arith, delta_of-stamp (pos n) raw, p.delta_in_range);
}

pub Points-later :
    (base : ℕ) (bs more : List Bytes) (es : List IndexEntry)
    → All (Points base bs) es
    → All (Points base (bs ++ more)) es
Points-later base bs more [] h = tt
Points-later base bs more (e ∷ es) h =
    let p = h.0 in
    (
      record {
        before = p.before;
        behind = p.behind ++ more;
        split = ap (λ (t : List Bytes). t ++ more) p.split ∙ append_assoc p.before p.behind more;
        placed = p.placed;
        offset = p.offset;
      },
      Points-later base bs more es h.1,
    )

All-snoc :
    (P : IndexEntry → Type 0) (es : List IndexEntry) (e : IndexEntry)
    → All P es
    → P e
    → All P (es ++ e ∷ [])
All-snoc P [] e h p = (p, tt)
All-snoc P (x ∷ es) e h p = (h.0, All-snoc P es e h.1 p)

entry_of-Points :
    (base : ℕ) (bs more : List Bytes) (idx : IndexFile)
    → idx.base_offset ≡ pos base
    → length (bytes_of bs) < 2 ^ 32
    → end_of base bs - base < 2 ^ 32
    → Points base (bs ++ more) (entry_of idx (pos (end_of base bs)) (length (bytes_of bs)))
unfolding entry_of
entry_of-Points base bs more idx b p o = record {
  before = bs;
  behind = more;
  split = refl;
  placed = unsigned_32-lt (length (bytes_of bs)) p;
  offset =
      rw (b, diff-le (end_of base bs) base (end_of-le base bs))
        (omega (arith, unsigned_32-lt (end_of base bs - base) o, end_of-le base bs));
}

-- maybeAppend of the end of a log keeps the index pointing to batches.
pub maybe_append-Points :
    (base : ℕ) (bs more : List Bytes) (idx : IndexFile)
    → idx.base_offset ≡ pos base
    → All (Points base (bs ++ more)) idx.entries
    → length (bytes_of bs) < 2 ^ 32
    → end_of base bs - base < 2 ^ 32
    → All
        (Points base (bs ++ more))
        (maybe_append idx (pos (end_of base bs)) (length (bytes_of bs))).entries
unfolding maybe_append Index.append
maybe_append-Points base bs more idx b h p o =
    if_rule (λ (i : IndexFile). All (Points base (bs ++ more)) i.entries)
      (ltb_ℤ (pos (length (bytes_of bs)) -ℤ pos (last_position idx.entries)) idx.interval) (λ q. h)
      (λ q.
        All-snoc (Points base (bs ++ more)) idx.entries
          (entry_of idx (pos (end_of base bs)) (length (bytes_of bs))) h
          (entry_of-Points base bs more idx b p o))

pub maybe_append-base :
    (idx : IndexFile) (z : ℤ) (p : ℕ) → (maybe_append idx z p).base_offset ≡ idx.base_offset
unfolding maybe_append Index.append
maybe_append-base idx z p = ground arith

parse_record_batch_header-IsProduced :
    (raw : Bytes) → IsProduced raw → parse_record_batch_header raw ≡ done (header_of raw)
unfolding parse_record_batch_header
parse_record_batch_header-IsProduced raw p = ground (arith, p.header, p.magic)

pub append_batch-fits :
    (s : Segment) (base n : ℕ) (raw : Bytes)
    → s.base_offset ≡ pos base
    → s.next_offset ≡ pos n
    → base ≤ n
    → n + delta_of raw + 1 - base ≤ max_int32
    → delta_of raw < 2 ^ 31
    → append_batch s raw (header_of raw)
      ≡ done (written s (stamp (pos n) raw) (pos (delta_of raw)), pos n)
unfolding append_batch header_of
append_batch-fits s base n raw b e l o d =
    let q : ltb (2147483647 + 0) ((n + delta_of raw + 1 - base) + 0) ≡ false = ground arith in
    rw (b, e, field-delta raw d, diff-le (n + delta_of raw + 1) base (omega arith), q) refl

written-IsSegment :
    (s : Segment) (base : ℕ) (bs : List Bytes) (raw : Bytes)
    → IsSegment base bs s
    → IsProduced raw
    → end_of base bs < 2 ^ 63
    → end_of base bs + delta_of raw + 1 - base ≤ max_int32
    → length s.log < 2 ^ 32
    → IsSegment base
        (bs ++ stamp (pos (end_of base bs)) raw ∷ [])
        (written s (stamp (pos (end_of base bs)) raw) (pos (delta_of raw)))
unfolding written
written-IsSegment s base bs raw w p h o l =
    let n = end_of base bs in
    let r = stamp (pos n) raw in
    let k : length s.log ≡ length (bytes_of bs) = ap length w.logged in
    record {
      based = w.based;
      chain = Chain-append base bs (r ∷ []) w.chain (stamp-IsBatch n raw h p, tt);
      logged = rw w.logged (sym (bytes_of-snoc bs r));
      ended =
          rw w.ended (ap pos (omega (arith, end_of-snoc base bs r, delta_of-stamp (pos n) raw)));
      index_based = maybe_append-base s.index s.next_offset (length s.log) ∙ w.index_based;
      pointed =
          rw (w.ended, k)
            (maybe_append-Points base bs (r ∷ []) s.index w.index_based
              (Points-later base bs (r ∷ []) s.index.entries w.pointed) (omega arith)
              (omega arith));
    }

-- A batch of a producer that is appended to a well-formed segment is answered with the segment's next
-- offset, and the segment stays well formed with the batch, stamped with that offset, at its end.
-- The log must be below 4 GiB, and the batch must fit the segment's int32 range of offsets.
pub append-IsSegment :
    (s : Segment) (base : ℕ) (bs : List Bytes) (raw : Bytes)
    → IsSegment base bs s
    → IsProduced raw
    → end_of base bs < 2 ^ 63
    → end_of base bs + delta_of raw + 1 - base ≤ max_int32
    → length s.log < 2 ^ 32
    → (s' : Segment) × (append s raw ≡ done (s', pos (end_of base bs)))
      × IsSegment base (bs ++ stamp (pos (end_of base bs)) raw ∷ []) s'
unfolding append
append-IsSegment s base bs raw w p h o l = (
  written s (stamp (pos (end_of base bs)) raw) (pos (delta_of raw)),
  rw (parse_record_batch_header-IsProduced raw p) (
      append_batch-fits s base (end_of base bs) raw w.based w.ended (end_of-le base bs) o
        p.delta_in_range),
  written-IsSegment s base bs raw w p h o l,
)

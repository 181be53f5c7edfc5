-- ===== src/Storage/Partition/Served.antt =====
-- A read from a partition is a read from its batches (internal/storage/partition.go: Read, readLocked).
use pocketkafka.Prelude.{
  ℕ, ◌+◌, ◌-◌, ◌^◌, ◌≤◌, ◌<◌, ◌≡◌, refl, sym, ap, ◌∙◌, subst, arith, true, false, Bytes, length,
  List, [], ◌∷◌, ◌++◌, append_assoc, append-nil, length-append, Bool-cases, inl, inr, ltb, leb,
  Option,
}
use pocketkafka.Prelude.Ints.{ℤ, pos, diff-le, signed_32-lt, ltb_ℤ, leb_ℤ, max_int32}
use pocketkafka.Storage.Runs.{done}
use pocketkafka.Storage.Segment
use pocketkafka.Storage.Segment.Log.{Chain, end_of}
use pocketkafka.Storage.Segment.Reading.{from_offset, limited}
use pocketkafka.Storage.Segment.Served.{
  limited-none, from_offset-behind, from_offset-early, read-limited,
}
use pocketkafka.Storage.Partition
use pocketkafka.Storage.Partition.{
  Partition, StoredSegment, local, remote, log_end_offset, ordered_segments, read_segments,
  segments_from, read_locked, restore_if, restored,
}
use pocketkafka.Storage.Partition.Blocks.{IsLocal, Linked, Holds, Linked-split, Linked-Chain}
use pocketkafka.Storage.Partition.Reading.{
  Fits, Fits-split, Fits-from_offset, limited-append, length-limited, from_offset-within,
}

-- The first segment of a read.
module _ (offset max_bytes n : ℕ) (xs : List Bytes) (s : Segment.Segment)
    (segs : List StoredSegment) (out : Bytes) (h : IsLocal n xs (local s))
    (o : length out < 2 ^ 31) where
  read_segments-full :
      max_bytes ≤ length out
      → read_segments (local s ∷ segs) (pos offset) (pos max_bytes) out ≡ done out
  unfolding read_segments
  read_segments-full m =
      let b : leb (max_bytes + 0) (length out + 0) ≡ true = ground arith in
      rw (signed_32-lt (length out) o, b) refl

  read_segments-local :
      length out < max_bytes
      → n ≤ offset
      → offset ≤ n + max_int32
      → read_segments (local s ∷ segs) (pos offset) (pos max_bytes) out
        ≡ read_segments segs
            (pos (end_of n xs))
            (pos max_bytes)
            (out ++ limited (max_bytes - length out) (from_offset offset xs))
  unfolding read_segments
  read_segments-local m l u =
      let b : leb (max_bytes + 0) (length out + 0) ≡ false = ground arith in
      rw
        (
          signed_32-lt (length out) o,
          b,
          diff-le max_bytes (length out) (omega arith),
          read-limited s n offset (max_bytes - length out) xs h.0 l (omega arith) h.2,
          h.0.ended,
        )
        refl

-- The bytes that are still wanted behind those that a segment has given.
wanted_behind :
    (max_bytes : ℕ) (out : Bytes) (xs ys : List Bytes)
    → let got = out ++ limited (max_bytes - length out) xs in
      got ++ limited (max_bytes - length got) ys
      ≡ out ++ limited (max_bytes - length out) (xs ++ ys)
wanted_behind max_bytes out xs ys =
    let l = limited (max_bytes - length out) xs in
    let e : max_bytes - length (out ++ l) ≡ max_bytes - length out - length l =
      omega (arith, length-append out l) in
    append_assoc out l (limited (max_bytes - length (out ++ l)) ys)
    ∙ ap (λ k. out ++ (l ++ limited k ys)) e
    ∙ ap (λ (t : Bytes). out ++ t) (sym (limited-append (max_bytes - length out) xs ys))

got-lt :
    (max_bytes : ℕ) (out : Bytes) (xs : List Bytes)
    → length out < max_bytes
    → max_bytes < 2 ^ 31
    → Fits max_bytes xs
    → length (out ++ limited (max_bytes - length out) xs) < 2 ^ 31
got-lt max_bytes out xs m l f = omega (
  arith,
  length-append out (limited (max_bytes - length out) xs),
  length-limited max_bytes (max_bytes - length out) xs l (omega arith) f,
)

-- The segments that follow on the one in which the read began.
read_segments-limited :
    (max_bytes n : ℕ) (bs : List Bytes) (segs : List StoredSegment) (out : Bytes)
    → Linked n bs segs
    → Fits max_bytes bs
    → max_bytes < 2 ^ 31
    → length out < 2 ^ 31
    → read_segments segs (pos n) (pos max_bytes) out
      ≡ done (out ++ limited (max_bytes - length out) bs)
unfolding read_segments limited
read_segments-limited max_bytes n bs [] out h f m o =
    rw h (ap (λ (t : Bytes). done t) (sym (append-nil out)))
read_segments-limited max_bytes n bs (remote r ∷ segs) out (xs, ys, e, l, h) f m o = absurd l
read_segments-limited max_bytes n bs (local s ∷ segs) out (xs, ys, e, l, h) f m o =
    elim (Bool-cases (ltb (length out) max_bytes)) [
      | inl b ↦
          let g = Fits-split max_bytes xs ys (subst (Fits max_bytes) e f) in
          let q = from_offset-early n n xs (omega arith) l.0.chain in
          read_segments-local n max_bytes n xs s segs out l o (ground arith) (omega arith)
            (omega arith)
          ∙ ap
              (λ (t : List Bytes).
                read_segments segs (pos (end_of n xs)) (pos max_bytes)
                  (out ++ limited (max_bytes - length out) t))
              q
          ∙ read_segments-limited max_bytes (end_of n xs) ys segs
              (out ++ limited (max_bytes - length out) xs) h g.1 m
              (got-lt max_bytes out xs (ground arith) m g.0)
          ∙ ap (λ (t : Bytes). done t) (wanted_behind max_bytes out xs ys)
          ∙ ap (λ (t : List Bytes). done (out ++ limited (max_bytes - length out) t)) (sym e)
      | inr b ↦
          let z : max_bytes - length out ≡ 0 = ground arith in
          read_segments-full n max_bytes n xs s segs out l o (ground arith)
          ∙ ap (λ (t : Bytes). done t)
              (sym (append-nil out)
                ∙ ap (λ (t : Bytes). out ++ t) (sym (limited-none bs))
                ∙ ap (λ k. out ++ limited k bs) (sym z))
    ]

-- The read from the first segment that ends behind the offset.
read_segments-within :
    (offset max_bytes n : ℕ) (bs xs ys : List Bytes) (s : Segment.Segment)
    (segs : List StoredSegment)
    → bs ≡ xs ++ ys
    → IsLocal n xs (local s)
    → Linked (end_of n xs) ys segs
    → Fits max_bytes bs
    → n ≤ offset
    → offset < end_of n xs
    → 0 < max_bytes
    → max_bytes < 2 ^ 31
    → read_segments (local s ∷ segs) (pos offset) (pos max_bytes) []
      ≡ done (limited max_bytes (from_offset offset bs))
read_segments-within offset max_bytes n bs xs ys s segs e k h f l u z m =
    let g = Fits-split max_bytes xs ys (subst (Fits max_bytes) e f) in
    let kept = from_offset offset xs in
    let got = limited (max_bytes - 0) kept in
    let w : max_bytes - 0 ≡ max_bytes = omega arith in
    let q : kept ++ ys ≡ from_offset offset bs =
      sym (ap (from_offset offset) e ∙ from_offset-within offset n xs ys l u k.0.chain) in
    read_segments-local offset max_bytes n xs s segs [] k (omega arith) z l (omega (arith, k.1))
    ∙ read_segments-limited max_bytes (end_of n xs) ys segs got h g.1 m
        (got-lt max_bytes [] kept z m (Fits-from_offset max_bytes offset xs g.0))
    ∙ ap (λ (t : Bytes). done t) (wanted_behind max_bytes [] kept ys)
    ∙ ap (λ j. done (limited j (kept ++ ys))) w
    ∙ ap (λ (t : List Bytes). done (limited max_bytes t)) q

read_locked-none :
    (offset : ℤ) (max_bytes k : ℕ)
    → read_locked [] offset (pos max_bytes) ≡ done (limited max_bytes (from_offset k []))
unfolding read_locked segments_from read_segments limited from_offset
read_locked-none offset max_bytes k = refl

-- The read from the segment on in which the offset stands.
read_locked-limited :
    (offset max_bytes n : ℕ) (bs : List Bytes) (segs : List StoredSegment)
    → Linked n bs segs
    → Fits max_bytes bs
    → n ≤ offset
    → 0 < max_bytes
    → max_bytes < 2 ^ 31
    → read_locked segs (pos offset) (pos max_bytes)
      ≡ done (limited max_bytes (from_offset offset bs))
unfolding read_locked segments_from
read_locked-limited offset max_bytes n bs [] h f l z m =
    read_locked-none (pos offset) max_bytes offset
    ∙ ap (λ (t : List Bytes). done (limited max_bytes (from_offset offset t))) (sym h)
read_locked-limited offset max_bytes n bs (remote r ∷ segs) (xs, ys, e, k, h) f l z m = absurd k
read_locked-limited offset max_bytes n bs (local s ∷ segs) (xs, ys, e, k, h) f l z m =
    let t : ltb_ℤ (pos offset) s.next_offset ≡ ltb (offset + 0) (end_of n xs + 0) =
      ap (ltb_ℤ (pos offset)) k.0.ended in
    elim (Bool-cases (ltb (offset + 0) (end_of n xs + 0))) [
      | inl b ↦
          rw (t ∙ b)
            (read_segments-within offset max_bytes n bs xs ys s segs e k h f l (ground arith) z m)
      | inr b ↦
          let g = Fits-split max_bytes xs ys (subst (Fits max_bytes) e f) in
          rw (t ∙ b) (
            read_locked-limited offset max_bytes (end_of n xs) ys segs h g.1 (ground arith) z m
            ∙ ap (λ (u : List Bytes). done (limited max_bytes u))
                (sym (from_offset-behind offset n xs ys k.0.chain (ground arith))
                  ∙ ap (from_offset offset) (sym e)))
    ]

restored-local :
    (fetch : Option (Bytes → Option Bytes)) (start : ℤ) (n : ℕ) (bs : List Bytes)
    (segs : List StoredSegment)
    → Linked n bs segs
    → restored fetch start segs ≡ done segs
unfolding restored restore_if
restored-local fetch start n bs [] h = refl
restored-local fetch start n bs (remote r ∷ segs) (xs, ys, e, k, h) = absurd k
restored-local fetch start n bs (local s ∷ segs) (xs, ys, e, k, h) =
    rw (restored-local fetch start (end_of n xs) ys segs h) refl

restore_if-local :
    (fetch : Option (Bytes → Option Bytes)) (start : ℤ) (n : ℕ) (bs : List Bytes)
    (s : StoredSegment)
    → IsLocal n bs s
    → restore_if fetch start s ≡ done s
unfolding restore_if
restore_if-local fetch start n bs (local s) h = refl
restore_if-local fetch start n bs (remote r) h = absurd h

from_offset-none :
    (offset n : ℕ) (bs : List Bytes)
    → Chain n bs
    → end_of n bs ≤ offset
    → from_offset offset bs ≡ []
unfolding from_offset
from_offset-none offset n bs h l =
    ap (from_offset offset) (sym (append-nil bs)) ∙ from_offset-behind offset n bs [] h l

-- A read of at most `max_bytes`, a positive number, from a partition that holds the batches `bs` from
-- the offset `base` on, at an offset from there on: it answers with the batches from the first one
-- on that does not end before the offset, whole, until they have as many bytes, and with the high
-- watermark, and leaves the partition as it is. In which segments the batches stand does not matter.
-- No batch may leave the range of an int32 together with `max_bytes`.
pub read-Holds :
    (fetch : Option (Bytes → Option Bytes)) (base offset max_bytes : ℕ) (bs : List Bytes)
    (p : Partition)
    → Holds base bs p
    → base ≤ offset
    → 0 < max_bytes
    → max_bytes < 2 ^ 31
    → Fits max_bytes bs
    → Partition.read fetch p (pos offset) (pos max_bytes)
      ≡ done (p, limited max_bytes (from_offset offset bs), pos (end_of base bs))
unfolding Partition.read ordered_segments limited
read-Holds fetch base offset max_bytes bs p h b z m f =
    let a : ltb (offset + 0) (0 + 0) ≡ false = ground arith in
    let (xs, ys, e, l, k) = Linked-split base bs p.closed_segments p.active_segment h.linked in
    let t : leb_ℤ p.high_watermark (pos offset) ≡ leb (end_of base bs + 0) (offset + 0) =
      ap (λ (w : ℤ). leb_ℤ w (pos offset)) h.visible in
    elim (Bool-cases (leb (end_of base bs + 0) (offset + 0))) [
      | inl c ↦
          rw
            (
              a,
              t ∙ c,
              from_offset-none offset base bs (Linked-Chain base bs (ordered_segments p) h.linked)
                  (ground arith),
            )
            (ap (λ (w : ℤ). done (p, [], w)) h.visible)
      | inr c ↦
          rw
            (
              a,
              t ∙ c,
              restored-local fetch (pos offset) base xs p.closed_segments l,
              restore_if-local fetch (pos offset) (end_of base xs) ys p.active_segment k,
              read_locked-limited offset max_bytes base bs (ordered_segments p) h.linked f b z m,
            )
            (ap (λ (w : ℤ). done (p, limited max_bytes (from_offset offset bs), w)) h.visible)
    ]

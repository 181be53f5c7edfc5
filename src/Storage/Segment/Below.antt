-- ===== src/Storage/Segment/Below.antt =====
-- A read from an offset below the base of a segment (internal/storage/index.go: positionForOffset;
-- segment.go: read). Partition.Read does not compare the offset with the earliest one.
use pocketkafka.Prelude.{
  ℕ, ◌+◌, ◌^◌, ◌≤◌, ◌<◌, ◌≡◌, refl, sym, ap, ◌∙◌, subst, arith, true, false, Bytes, length, List,
  [], ◌∷◌, ◌++◌, All, leb, if◌then◌else◌,
}
use pocketkafka.Prelude.Ints.{ℤ, pos, diff, ◌-ℤ◌, unsigned, max_int32}
use pocketkafka.Storage.Runs.{done}
use pocketkafka.Storage.Index.{IndexEntry, position_for_offset}
use pocketkafka.Storage.Index.Search.{Ascending, floor_position, position_for_offset-floor_position}
use pocketkafka.Storage.Segment.{Segment, read}
use pocketkafka.Storage.Segment.Log.{
  bytes_of, end_of, Chain, Chain-split, bytes_of-append, end_of-append, end_of-le,
}
use pocketkafka.Storage.Segment.Append.{IsSegment, Points}
use pocketkafka.Storage.Segment.Reading.{limited}
use pocketkafka.Storage.Segment.Served.{from_offset-early, read_from-limited}

-- The difference of the offset and the base wraps to the upper half of a uint32.
wrapped :
    (offset base rel : ℕ)
    → offset < base
    → base ≤ offset + 2 ^ 31
    → rel ≤ max_int32
    → rel ≤ unsigned 32 (pos offset -ℤ pos base)
unfolding diff unsigned
wrapped offset base rel l h r = let b : leb base offset ≡ false = ground arith in rw b (omega arith)

floor_position-last :
    (rel found : ℕ) (es : List IndexEntry) (e : IndexEntry)
    → e.relative_offset ≤ rel
    → floor_position rel (es ++ e ∷ []) found ≡ e.position
unfolding floor_position
floor_position-last rel found [] e h =
    let b : leb e.relative_offset rel ≡ true = ground arith in rw b refl
floor_position-last rel found (x ∷ es) e h =
    floor_position-last rel (if leb x.relative_offset rel then x.position else found) es e h

All-last :
    (P : IndexEntry → Type 0) (es : List IndexEntry) (e : IndexEntry) → All P (es ++ e ∷ []) → P e
All-last P [] e h = h.0
All-last P (x ∷ es) e h = All-last P es e h.1

-- A read from an offset below the base of a well-formed segment, but by no more than 2^31, begins at
-- the last entry of the index: the batches before that entry are left out.
pub read-below :
    (s : Segment) (base offset max_bytes : ℕ) (bs : List Bytes) (es : List IndexEntry)
    (e : IndexEntry)
    → IsSegment base bs s
    → s.index.entries ≡ es ++ e ∷ []
    → Ascending s.index.entries
    → offset < base
    → base ≤ offset + 2 ^ 31
    → end_of base bs ≤ base + max_int32
    → length s.log < 2 ^ 31
    → 0 < max_bytes
    → (xs : List Bytes) × (ys : List Bytes) × (bs ≡ xs ++ ys)
      × (length (bytes_of xs) ≡ e.position)
      × (read s (pos offset) (pos max_bytes) ≡ done (limited max_bytes ys))
unfolding read
read-below s base offset max_bytes bs es e w q a o u f l m =
    let p = All-last (Points base bs) es e (subst (All (Points base bs)) q w.pointed) in
    let c = Chain-split base p.before p.behind (subst (Chain base) p.split w.chain) in
    let r : e.relative_offset ≤ max_int32 = omega (
      arith,
      p.offset,
      end_of-le (end_of base p.before) p.behind,
      ap (end_of base) p.split,
      end_of-append base p.before p.behind,
    ) in
    let n = unsigned 32 (pos offset -ℤ s.index.base_offset) in
    let n-ge : e.relative_offset ≤ n =
      subst (λ (z : ℤ). e.relative_offset ≤ unsigned 32 (pos offset -ℤ z)) (sym w.index_based)
        (wrapped offset base e.relative_offset o u r) in
    let t : position_for_offset s.index (pos offset) ≡ length (bytes_of p.before) =
      position_for_offset-floor_position s.index (pos offset) a
      ∙ ap (λ (x : List IndexEntry). floor_position n x 0) q
      ∙ floor_position-last n 0 es e n-ge
      ∙ p.placed in
    let z : leb (max_bytes + 0) 0 ≡ false = ground arith in
    (
      p.before,
      p.behind,
      p.split,
      sym p.placed,
      rw (z, t)
          (read_from-limited base offset max_bytes s.log p.before p.behind
              (w.logged ∙ ap bytes_of p.split ∙ bytes_of-append p.before p.behind) c.1 m l
            ∙ ap (λ (x : List Bytes). done (limited max_bytes x))
                (from_offset-early offset (end_of base p.before) p.behind
                  (omega (arith, end_of-le base p.before)) c.1)),
    )

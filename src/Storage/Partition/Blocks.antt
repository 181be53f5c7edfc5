-- ===== src/Storage/Partition/Blocks.antt =====
-- A partition as the list of its batches, whatever segments they stand in
-- (internal/storage/partition.go).
use pocketkafka.Prelude.{
  ℕ, ◌+◌, ◌^◌, ◌≤◌, ◌<◌, ◌≡◌, refl, sym, ap, ◌∙◌, Bytes, length, List, [], ◌∷◌, ◌++◌, append_assoc,
  append-nil, subst,
}
use pocketkafka.Prelude.Ints.{pos, max_int32}
use pocketkafka.Storage.Segment.Log.{Chain, Chain-append, end_of, end_of-append}
use pocketkafka.Storage.Segment.Append.{IsSegment}
use pocketkafka.Storage.Partition.{Partition, StoredSegment, local, remote, ordered_segments}

-- A segment whose files are here, with the batches from `base` on, within its ranges: its offsets
-- are those of an int32 relative to the base, and its log is below 2 GiB.
abbrev pub IsLocal : ℕ → List Bytes → StoredSegment → Type 0
IsLocal base bs (local seg) =
    IsSegment base bs seg × (end_of base bs ≤ base + max_int32) × (length seg.log < 2 ^ 31)
IsLocal base bs (remote r) = ⊥

-- Segments that follow on each other, and hold the batches between them.
abbrev pub Linked : ℕ → List Bytes → List StoredSegment → Type 0
Linked n bs [] = bs ≡ []
Linked n bs (s ∷ segs) =
    (xs : List Bytes) × (ys : List Bytes) × (bs ≡ xs ++ ys)
    × IsLocal n xs s
    × Linked (end_of n xs) ys segs

-- A partition whose segments are all here and hold the batches from the offset `base` on.
pub record Holds (base : ℕ) (bs : List Bytes) (p : Partition) : Type 0 where
  pub linked : Linked base bs (ordered_segments p)
  pub ended : p.next_offset ≡ pos (end_of base bs)
  pub visible : p.high_watermark ≡ pos (end_of base bs)

pub Linked-split :
    (n : ℕ) (bs : List Bytes) (segs : List StoredSegment) (s : StoredSegment)
    → Linked n bs (segs ++ s ∷ [])
    → (xs : List Bytes) × (ys : List Bytes) × (bs ≡ xs ++ ys)
      × Linked n xs segs
      × IsLocal (end_of n xs) ys s
unfolding end_of
Linked-split n bs [] s (xs, ys, e, l, h) =
    ([], bs, refl, refl, subst (λ (t : List Bytes). IsLocal n t s) (sym q) l)
  where
    q : bs ≡ xs
    q = e ∙ ap (λ (t : List Bytes). xs ++ t) h ∙ append-nil xs
Linked-split n bs (t ∷ segs) s (xs, ys, e, l, h) =
    let (us, vs, e', h', l') = Linked-split (end_of n xs) ys segs s h in
    (
      xs ++ us,
      vs,
      e ∙ ap (λ (t : List Bytes). xs ++ t) e' ∙ sym (append_assoc xs us vs),
      (xs, us, refl, l, h'),
      rw (end_of-append n xs us) l',
    )

pub Linked-join :
    (n : ℕ) (xs ys : List Bytes) (segs : List StoredSegment) (s : StoredSegment)
    → Linked n xs segs
    → IsLocal (end_of n xs) ys s
    → Linked n (xs ++ ys) (segs ++ s ∷ [])
unfolding end_of
Linked-join n xs ys [] s h l = (
  ys,
  [],
  ap (λ (t : List Bytes). t ++ ys) h ∙ sym (append-nil ys),
  subst (λ (t : List Bytes). IsLocal (end_of n t) ys s) h l,
  refl,
)
Linked-join n xs ys (t ∷ segs) s (us, vs, e, k, h) l = (
  us,
  vs ++ ys,
  ap (λ (t : List Bytes). t ++ ys) e ∙ append_assoc us vs ys,
  k,
  Linked-join (end_of n us) vs ys segs s h
      (subst (λ j. IsLocal j ys s) (ap (end_of n) e ∙ end_of-append n us vs) l),
)

pub Linked-Chain :
    (n : ℕ) (bs : List Bytes) (segs : List StoredSegment) → Linked n bs segs → Chain n bs
Linked-Chain n bs [] h = subst (Chain n) (sym h) tt
Linked-Chain n bs (local s ∷ segs) (xs, ys, e, l, h) =
    subst (Chain n) (sym e) (Chain-append n xs ys l.0.chain (Linked-Chain (end_of n xs) ys segs h))
Linked-Chain n bs (remote r ∷ segs) (xs, ys, e, l, h) = absurd l

-- ===== src/Storage/Partition/Reading.antt =====
-- A read from a partition is a read from its batches (internal/storage/partition.go: Read, readLocked).
use pocketkafka.Prelude.{
  ℕ, zero, suc, ◌+◌, ◌-◌, ◌^◌, ◌≤◌, ◌<◌, ◌≡◌, refl, sym, ap, ◌∙◌, arith, false, Bytes, length, List,
  [], ◌∷◌, ◌++◌, All, append_assoc, length-append, Bool-cases, inl, inr, ltb, eqb,
}
use pocketkafka.Storage.Segment.Log.{Chain, end_of, delta_of, last_of}
use pocketkafka.Storage.Segment.Reading.{from_offset, limited}
use pocketkafka.Storage.Segment.Served.{limited-none}

-- No batch is so large that, behind `max_bytes` bytes, it would leave the range of an int32.
abbrev pub Fits : ℕ → List Bytes → Type 0
Fits max_bytes bs = All (λ (raw : Bytes). max_bytes + length raw < 2 ^ 31) bs

pub Fits-split : (m : ℕ) (xs ys : List Bytes) → Fits m (xs ++ ys) → Fits m xs × Fits m ys
Fits-split m [] ys h = (tt, h)
Fits-split m (raw ∷ xs) ys h = let r = Fits-split m xs ys h.1 in ((h.0, r.0), r.1)

pub Fits-from_offset : (m offset : ℕ) (xs : List Bytes) → Fits m xs → Fits m (from_offset offset xs)
unfolding from_offset
Fits-from_offset m offset [] h = tt
Fits-from_offset m offset (raw ∷ xs) h = elim (Bool-cases (ltb (last_of raw) offset)) [
  | inl b ↦ rw b (Fits-from_offset m offset xs h.1)
  | inr b ↦ rw b h
]

pub limited-append :
    (m : ℕ) (xs ys : List Bytes)
    → limited m (xs ++ ys) ≡ limited m xs ++ limited (m - length (limited m xs)) ys
unfolding limited
limited-append m [] ys = let e : m - 0 ≡ m = omega arith in ap (λ k. limited k ys) (sym e)
limited-append zero (raw ∷ xs) ys = sym (limited-none ys)
limited-append (suc m) (raw ∷ xs) ys =
    let k = suc m - length raw in
    let l = limited k xs in
    let e : suc m - length (raw ++ l) ≡ k - length l = omega (arith, length-append raw l) in
    let q : eqb (suc m) 0 ≡ false = ground arith in
    rw q (
      ap (λ (t : Bytes). raw ++ t) (limited-append k xs ys)
      ∙ sym (append_assoc raw l (limited (k - length l) ys))
      ∙ ap (λ j. (raw ++ l) ++ limited j ys) (sym e))

pub length-limited :
    (max m : ℕ) (xs : List Bytes)
    → max < 2 ^ 31
    → m ≤ max
    → Fits max xs
    → length (limited m xs) + (max - m) < 2 ^ 31
unfolding limited
length-limited max m [] h l f = omega arith
length-limited max m (raw ∷ xs) h l f = elim (Bool-cases (eqb m 0)) [
  | inl b ↦ rw b (omega arith)
  | inr b ↦ rw b (
      ground (
        arith,
        length-append raw (limited (m - length raw) xs),
        length-limited max (m - length raw) xs h (omega arith) f.1,
        ap length (limited-none xs),
        f.0,
      ))
]

pub from_offset-within :
    (offset n : ℕ) (xs ys : List Bytes)
    → n ≤ offset
    → offset < end_of n xs
    → Chain n xs
    → from_offset offset (xs ++ ys) ≡ from_offset offset xs ++ ys
unfolding from_offset end_of
from_offset-within offset n [] ys l o h = absurd (omega arith)
from_offset-within offset n (raw ∷ xs) ys l o h = elim (Bool-cases (ltb (last_of raw) offset)) [
  | inl b ↦
      rw b
        (from_offset-within offset (n + delta_of raw + 1) xs ys (ground (arith, h.0.based)) o h.1)
  | inr b ↦ rw b refl
]

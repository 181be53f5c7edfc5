-- ===== src/Storage/Segment/Served.antt =====
-- A read from a segment is a read from its batches (internal/storage/segment.go: read).
use pocketkafka.Prelude.{
  ℕ, zero, suc, ◌+◌, ◌-◌, ◌^◌, ◌≤◌, ◌<◌, ◌≡◌, inl, inr, refl, sym, ap, ◌∙◌, arith, true, false,
  Bytes, length, List, [], ◌∷◌, ◌++◌, All, length-append, append_assoc, append-nil, ltb, eqb,
  Bool-cases, subst,
}
use pocketkafka.Prelude.Ints.{ℤ, pos, ◌-ℤ◌, diff-le, signed_32-lt, unsigned, unsigned_32-lt, leb_ℤ}
use pocketkafka.Storage.Runs.{done, leave, repeat, repeat-next, repeat-leave}
use pocketkafka.Storage.Index.{position_for_offset}
use pocketkafka.Storage.Index.Search.{position_for_offset-floor}
use pocketkafka.Storage.Segment.{Segment, read_turn, read_from, read}
use pocketkafka.Storage.Segment.Log.{
  bytes_of, end_of, Chain, delta_of, last_of, bytes_of-append, end_of-le, Chain-split, count-le,
}
use pocketkafka.Storage.Segment.Scan.{Passes, through}
use pocketkafka.Storage.Segment.Append.{IsSegment, Points}
use pocketkafka.Storage.Segment.Reading.{from_offset, limited, read_turn-skips, read_turn-takes}

read_turn-full :
    (log : Bytes) (offset p max_bytes : ℕ) (out : Bytes)
    → length out < 2 ^ 31
    → max_bytes ≤ length out
    → read_turn log (pos offset) (pos max_bytes) (p, out) ≡ leave (p, out)
unfolding read_turn
read_turn-full log offset p max_bytes out l m =
    let q : ltb (length out + 0) (max_bytes + 0) ≡ false = ground arith in
    elim (Bool-cases (ltb p (length log))) [
      | inl b ↦ rw (b, signed_32-lt (length out) l, q) refl
      | inr b ↦ rw b refl
    ]

read_turn-end :
    (log : Bytes) (offset p : ℕ) (max : ℤ) (out : Bytes)
    → length log ≤ p
    → read_turn log (pos offset) max (p, out) ≡ leave (p, out)
unfolding read_turn
read_turn-end log offset p max out m =
    let b : ltb p (length log) ≡ false = ground arith in rw b refl

pub limited-none : (bs : List Bytes) → limited 0 bs ≡ []
unfolding limited
limited-none [] = refl
limited-none (raw ∷ bs) = refl

pub limited-cons :
    (m : ℕ) (raw : Bytes) (bs : List Bytes)
    → 0 < m
    → limited m (raw ∷ bs) ≡ raw ++ limited (m - length raw) bs
unfolding limited
limited-cons m raw bs h = let q : eqb m 0 ≡ false = ground arith in rw q refl

-- Behind the offset, whole batches are read until there are enough bytes.
read-takes :
    (offset max_bytes fuel n : ℕ) (log before : Bytes) (ys : List Bytes) (out : Bytes)
    → log ≡ before ++ bytes_of ys
    → Chain n ys
    → All (λ (raw : Bytes). offset ≤ last_of raw) ys
    → length ys < fuel
    → length out + length (bytes_of ys) < 2 ^ 31
    → (q : ℕ) × (repeat fuel (read_turn log (pos offset) (pos max_bytes)) (length before, out)
        ≡ done (q, out ++ limited (max_bytes - length out) ys))
unfolding bytes_of limited
read-takes offset max_bytes zero n log before ys out e h a f l = absurd (omega arith)
read-takes offset max_bytes (suc fuel) n log before [] out e h a f l = (
  length before,
  repeat-leave fuel _ _ _ (
        read_turn-end log offset (length before) (pos max_bytes) out
          (omega (arith, ap length e, length-append before [])))
      ∙ ap (λ (t : Bytes). done (length before, t)) (sym (append-nil out)),
)
read-takes offset max_bytes (suc fuel) n log before (raw ∷ ys) out e h a f l =
    elim (Bool-cases (ltb (length out) max_bytes)) [
      | inl b ↦
          let o : length out < 2 ^ 31 = omega arith in
          let e' : log ≡ (before ++ raw) ++ bytes_of ys =
            e ∙ sym (append_assoc before raw (bytes_of ys)) in
          let (q, r) =
            read-takes offset max_bytes fuel (n + delta_of raw + 1) log (before ++ raw) ys
              (out ++ raw) e' h.1 a.1 (omega arith)
              (omega (arith, length-append out raw, length-append raw (bytes_of ys))) in
          let s : max_bytes - length (out ++ raw) ≡ max_bytes - length out - length raw =
            omega (arith, length-append out raw) in
          (
            q,
            repeat-next fuel _ _ (length (before ++ raw), out ++ raw)
                  (rw e (
                    read_turn-takes offset max_bytes n raw before (bytes_of ys) out h.0
                      (ground arith) o (omega (arith, h.0.based, a.0))))
                ∙ r
                ∙ ap (λ (t : Bytes). done (q, t))
                    (append_assoc out raw (limited (max_bytes - length (out ++ raw)) ys)
                      ∙ ap (λ k. out ++ (raw ++ limited k ys)) s
                      ∙ ap (λ (t : Bytes). out ++ t)
                          (sym (limited-cons (max_bytes - length out) raw ys (ground arith)))),
          )
      | inr b ↦
          let z : max_bytes - length out ≡ 0 = ground arith in
          (
            length before,
            repeat-leave fuel _ _ _ (
                  read_turn-full log offset (length before) max_bytes out (omega arith)
                    (ground arith))
                ∙ ap (λ (t : Bytes). done (length before, t))
                    (sym (append-nil out)
                      ∙ ap (λ (t : Bytes). out ++ t) (sym (limited-none (raw ∷ ys)))
                      ∙ ap (λ k. out ++ limited k (raw ∷ ys)) (sym z)),
          )
    ]

abbrev EndsBefore : ℕ → Bytes → Type 0
EndsBefore offset raw = last_of raw < offset

from_offset-split :
    (offset : ℕ) (bs : List Bytes)
    → (skipped : List Bytes) × (bs ≡ skipped ++ from_offset offset bs)
      × All (EndsBefore offset) skipped
unfolding from_offset
from_offset-split offset [] = ([], refl, tt)
from_offset-split offset (raw ∷ bs) = elim (Bool-cases (ltb (last_of raw) offset)) [
  | inl b ↦
      let (xs, e, a) = from_offset-split offset bs in
      rw b (raw ∷ xs, ap (λ (t : List Bytes). raw ∷ t) e, (ground arith, a))
  | inr b ↦ rw b ([], refl, tt)
]

pub Chain-from :
    (offset n : ℕ) (bs : List Bytes)
    → Chain n bs
    → offset ≤ n
    → All (λ (raw : Bytes). offset ≤ last_of raw) bs
Chain-from offset n [] h l = tt
Chain-from offset n (raw ∷ bs) h l =
    (omega (arith, h.0.based), Chain-from offset (n + delta_of raw + 1) bs h.1 (omega arith))

from_offset-All :
    (offset n : ℕ) (bs : List Bytes)
    → Chain n bs
    → All (λ (raw : Bytes). offset ≤ last_of raw) (from_offset offset bs)
unfolding from_offset
from_offset-All offset n [] h = tt
from_offset-All offset n (raw ∷ bs) h = elim (Bool-cases (ltb (last_of raw) offset)) [
  | inl b ↦ rw b (from_offset-All offset (n + delta_of raw + 1) bs h.1)
  | inr b ↦
      rw b
        (ground arith, Chain-from offset (n + delta_of raw + 1) bs h.1 (ground (arith, h.0.based)))
]

-- To a read from an offset at their start or before it, all batches matter.
pub from_offset-early :
    (offset n : ℕ) (bs : List Bytes) → offset ≤ n → Chain n bs → from_offset offset bs ≡ bs
unfolding from_offset
from_offset-early offset n [] l h = refl
from_offset-early offset n (raw ∷ bs) l h =
    let b : ltb (last_of raw) offset ≡ false = ground (arith, h.0.based) in rw b refl

-- Batches that all stand before the offset do not matter to a read from it.
pub from_offset-behind :
    (offset n : ℕ) (xs ys : List Bytes)
    → Chain n xs
    → end_of n xs ≤ offset
    → from_offset offset (xs ++ ys) ≡ from_offset offset ys
unfolding from_offset end_of
from_offset-behind offset n [] ys h l = refl
from_offset-behind offset n (raw ∷ xs) ys h l =
    let b : ltb (last_of raw) offset ≡ true =
      ground (arith, h.0.based, end_of-le (n + delta_of raw + 1) xs) in
    rw b (from_offset-behind offset (n + delta_of raw + 1) xs ys h.1 l)

abbrev Nothing : List Bytes → Bytes → Type 0
Nothing xs out = out ≡ []

read-passes :
    (base offset max_bytes : ℕ) (log : Bytes)
    → 0 < max_bytes
    → Passes base log
        (read_turn log (pos offset) (pos max_bytes))
        (λ (p : ℕ) (out : Bytes). (p, out))
        Nothing
        (EndsBefore offset)
read-passes base offset max_bytes log m xs raw after out e h a r =
    let n = end_of base xs in
    (
      [],
      rw (e, r)
          (read_turn-skips offset max_bytes n raw (bytes_of xs) after [] h (omega arith)
            (omega arith) (omega (arith, a, h.based))),
      refl,
    )

regrouped :
    (log : Bytes) (xs skipped rest ys : List Bytes)
    → log ≡ bytes_of xs ++ bytes_of ys
    → ys ≡ skipped ++ rest
    → (log ≡ bytes_of xs ++ (bytes_of skipped ++ bytes_of rest))
      × (log ≡ bytes_of (xs ++ skipped) ++ bytes_of rest)
regrouped log xs skipped rest ys e s =
    let b : bytes_of ys ≡ bytes_of skipped ++ bytes_of rest =
      ap bytes_of s ∙ bytes_of-append skipped rest in
    let q = e ∙ ap (λ (t : Bytes). bytes_of xs ++ t) b in
    (
      q,
      q
          ∙ sym (append_assoc (bytes_of xs) (bytes_of skipped) (bytes_of rest))
          ∙ ap (λ (t : Bytes). t ++ bytes_of rest) (sym (bytes_of-append xs skipped)),
    )

-- A read from the start of a batch at the offset or before it.
pub read_from-limited :
    (base offset max_bytes : ℕ) (log : Bytes) (xs ys : List Bytes)
    → log ≡ bytes_of xs ++ bytes_of ys
    → Chain (end_of base xs) ys
    → 0 < max_bytes
    → length log < 2 ^ 31
    → read_from log (pos offset) (pos max_bytes) (length (bytes_of xs))
      ≡ done (limited max_bytes (from_offset offset ys))
unfolding read_from
read_from-limited base offset max_bytes log xs ys e h m l =
    let rest = from_offset offset ys in
    let (skipped, s, a) = from_offset-split offset ys in
    let c = Chain-split (end_of base xs) skipped rest (subst (Chain (end_of base xs)) s h) in
    let (e', e'') = regrouped log xs skipped rest ys e s in
    let turn = read_turn log (pos offset) (pos max_bytes) in
    let size : length log
        ≡ length (bytes_of xs) + (length (bytes_of skipped) + length (bytes_of rest)) =
      ap length e'
      ∙ omega (
        arith,
        length-append (bytes_of xs) (bytes_of skipped ++ bytes_of rest),
        length-append (bytes_of skipped) (bytes_of rest),
      ) in
    let k = length log - length skipped in
    let q : suc (length log) ≡ length skipped + suc k =
      omega (arith, count-le (end_of base xs) skipped c.0) in
    let (out, t, r) =
      through base log turn (λ (p : ℕ) (out : Bytes). (p, out)) Nothing (EndsBefore offset)
        (read-passes base offset max_bytes log m) (suc k) xs skipped (bytes_of rest) [] e' c.0 a
        refl in
    let (p, u) =
      read-takes offset max_bytes (suc k) (end_of (end_of base xs) skipped) log
        (bytes_of (xs ++ skipped)) rest [] e'' c.1 (from_offset-All offset (end_of base xs) ys h)
        (omega (
          arith,
          count-le (end_of base xs) skipped c.0,
          count-le (end_of (end_of base xs) skipped) rest c.1,
        ))
        (omega arith) in
    let z : max_bytes - 0 ≡ max_bytes = omega arith in
    let v : repeat (suc (length log)) turn (length (bytes_of xs), [])
        ≡ done (p, limited max_bytes rest) =
      ap (λ j. repeat j turn (length (bytes_of xs), [])) q
      ∙ t
      ∙ ap (λ (o : Bytes). repeat (suc k) turn (length (bytes_of (xs ++ skipped)), o)) r
      ∙ u
      ∙ ap (λ j. done (p, limited j rest)) z in
    rw v refl

-- The index leads a read to the start of a batch at the offset or before it.
pub position_for_offset-Points :
    (s : Segment) (base offset : ℕ) (bs : List Bytes)
    → IsSegment base bs s
    → base ≤ offset
    → offset - base < 2 ^ 32
    → (xs : List Bytes) × (ys : List Bytes) × (bs ≡ xs ++ ys)
      × (position_for_offset s.index (pos offset) ≡ length (bytes_of xs))
      × (end_of base xs ≤ offset)
unfolding bytes_of end_of
position_for_offset-Points s base offset bs w b o =
    let u : unsigned 32 (pos offset -ℤ s.index.base_offset) ≡ offset - base =
      rw (w.index_based, diff-le offset base b) (unsigned_32-lt (offset - base) o) in
    elim (position_for_offset-floor (Points base bs) s.index (pos offset) w.pointed) [
      | inl z ↦ ([], bs, refl, z, b)
      | inr (e, z, l, p) ↦ (p.before, p.behind, p.split, z ∙ p.placed, omega (arith, p.offset))
    ]

-- A read of at most `max_bytes` from an offset in a well-formed segment returns the batches from the
-- first one on that does not end before the offset, whole, until they have as many bytes: what the
-- index says only tells where to begin. The log must be below 2 GiB.
pub read-limited :
    (s : Segment) (base offset max_bytes : ℕ) (bs : List Bytes)
    → IsSegment base bs s
    → base ≤ offset
    → offset - base < 2 ^ 32
    → length s.log < 2 ^ 31
    → read s (pos offset) (pos max_bytes) ≡ done (limited max_bytes (from_offset offset bs))
unfolding read
read-limited s base offset max_bytes bs w b o l =
    elim (Bool-cases (leb_ℤ (pos max_bytes) (pos 0))) [
      | inl z ↦
          let m : 0 ≡ max_bytes = ground arith in
          rw z (
            ap (λ (t : Bytes). done t)
              (sym (limited-none (from_offset offset bs))
                ∙ ap (λ k. limited k (from_offset offset bs)) m))
      | inr z ↦
          let (xs, ys, e, p, q) = position_for_offset-Points s base offset bs w b o in
          let c = Chain-split base xs ys (subst (Chain base) e w.chain) in
          rw (z, p)
            (read_from-limited base offset max_bytes s.log xs ys
                (w.logged ∙ ap bytes_of e ∙ bytes_of-append xs ys) c.1 (ground arith) l
              ∙ ap (λ (t : List Bytes). done (limited max_bytes t))
                  (sym (from_offset-behind offset base xs ys c.0 q)
                    ∙ ap (from_offset offset) (sym e)))
    ]

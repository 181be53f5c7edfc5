-- ===== src/Storage/Segment/Truncation.antt =====
-- Truncation of a segment keeps the batches before the target (internal/storage/segment.go: truncateTo).
use pocketkafka.Prelude.{
  ℕ, suc, ◌+◌, ◌-◌, ◌%◌, ◌^◌, ◌≤◌, ◌<◌, ◌≡◌, inl, inr, refl, sym, ap, ◌∙◌, arith, true, false,
  Bytes, length, List, [], ◌∷◌, ◌++◌, All, length-append, append_assoc, append-nil, ltb, leb,
  if◌then◌else◌, Bool-cases, subst,
}
use pocketkafka.Prelude.Ints.{ℤ, pos, leb_ℤ, ltb_ℤ}
use pocketkafka.Prelude.Slices.{resize, resize-append}
use pocketkafka.Storage.Runs.{done, leave, repeat, repeat-leave}
use pocketkafka.Storage.Index.{position_for_offset}
use pocketkafka.Storage.Segment.{Segment, cut_turn, cut_to, with_log, truncate_to, open_segment}
use pocketkafka.Storage.Segment.Log.{
  bytes_of, end_of, Chain, delta_of, last_of, bytes_of-append, end_of-le, Chain-split, count-le,
}
use pocketkafka.Storage.Segment.Scan.{Passes, through}
use pocketkafka.Storage.Segment.Append.{IsSegment}
use pocketkafka.Storage.Segment.Recovery.{open_segment-whole_index, clean}
use pocketkafka.Storage.Segment.Served.{position_for_offset-Points}
use pocketkafka.Storage.Segment.Cutting.{
  cut_turn-passes, cut_turn-stops, cut_turn-end, Filled, rebuild-Filled,
}

-- The batches from the start on that end before the offset.
unfoldable pub up_to : ℕ → List Bytes → List Bytes
up_to offset [] = []
up_to offset (raw ∷ bs) =
    let rest = up_to offset bs in if ltb (last_of raw) offset then raw ∷ rest else []

-- Nothing follows, or a batch that ends at the offset or behind it.
abbrev Stops : ℕ → List Bytes → Type 0
Stops offset [] = Unit {0}
Stops offset (raw ∷ bs) = offset ≤ last_of raw

up_to-split :
    (offset : ℕ) (bs : List Bytes)
    → (rest : List Bytes) × (bs ≡ up_to offset bs ++ rest)
      × All (λ (raw : Bytes). last_of raw < offset) (up_to offset bs)
      × Stops offset rest
unfolding up_to
up_to-split offset [] = ([], refl, tt, tt)
up_to-split offset (raw ∷ bs) = elim (Bool-cases (ltb (last_of raw) offset)) [
  | inl b ↦
      let (rest, e, a, t) = up_to-split offset bs in
      rw b (rest, ap (λ (t : List Bytes). raw ∷ t) e, (ground arith, a), t)
  | inr b ↦ rw b (raw ∷ bs, refl, tt, ground arith)
]

up_to-behind :
    (offset n : ℕ) (xs ys : List Bytes)
    → Chain n xs
    → end_of n xs ≤ offset
    → up_to offset (xs ++ ys) ≡ xs ++ up_to offset ys
unfolding up_to end_of
up_to-behind offset n [] ys h l = refl
up_to-behind offset n (raw ∷ xs) ys h l =
    let b : ltb (last_of raw) offset ≡ true =
      ground (arith, h.0.based, end_of-le (n + delta_of raw + 1) xs) in
    rw b (ap (λ (t : List Bytes). raw ∷ t) (up_to-behind offset (n + delta_of raw + 1) xs ys h.1 l))

cut-passes :
    (base target : ℕ) (log : Bytes)
    → Passes base log
        (cut_turn log (pos target))
        (λ (p : ℕ) (u : Unit {0}). p)
        (λ xs u. Unit {0})
        (λ raw. last_of raw < target)
cut-passes base target log xs raw after u e h a r = (
  tt,
  rw e (
      cut_turn-passes target (end_of base xs) raw (bytes_of xs) after h
        (omega (arith, a, h.based))),
  tt,
)

cut_turn-Stops :
    (target n : ℕ) (before : Bytes) (rest : List Bytes)
    → Chain n rest
    → Stops target rest
    → cut_turn (before ++ bytes_of rest) (pos target) (length before) ≡ leave (length before)
unfolding bytes_of
cut_turn-Stops target n before [] h t =
    cut_turn-end (before ++ []) (pos target) (length before)
      (omega (arith, length-append before []))
cut_turn-Stops target n before (raw ∷ rest) h t =
    cut_turn-stops target n raw before (bytes_of rest) h.0 (omega (arith, h.0.based))

-- The loop comes to the end of the batches that end before the target.
cut-up_to :
    (base target : ℕ) (log : Bytes) (xs ys : List Bytes)
    → log ≡ bytes_of (xs ++ ys)
    → Chain base (xs ++ ys)
    → repeat (suc (length log)) (cut_turn log (pos target)) (length (bytes_of xs))
      ≡ done (length (bytes_of (xs ++ up_to target ys)))
cut-up_to base target log xs ys e h =
    let kept = up_to target ys in
    let (rest, s, a, t) = up_to-split target ys in
    let c = Chain-split base xs ys h in
    let d = Chain-split (end_of base xs) kept rest (subst (Chain (end_of base xs)) s c.1) in
    let g : xs ++ ys ≡ (xs ++ kept) ++ rest =
      ap (λ (t : List Bytes). xs ++ t) s ∙ sym (append_assoc xs kept rest) in
    let e1 : log ≡ bytes_of (xs ++ kept) ++ bytes_of rest =
      e ∙ ap bytes_of g ∙ bytes_of-append (xs ++ kept) rest in
    let e2 : log ≡ bytes_of xs ++ (bytes_of kept ++ bytes_of rest) =
      e1
      ∙ ap (λ (t : Bytes). t ++ bytes_of rest) (bytes_of-append xs kept)
      ∙ append_assoc (bytes_of xs) (bytes_of kept) (bytes_of rest) in
    let k = length log - length kept in
    let q : suc (length log) ≡ length kept + suc k = omega (
      arith,
      count-le (end_of base xs) kept d.0,
      ap length e2,
      length-append (bytes_of xs) (bytes_of kept ++ bytes_of rest),
      length-append (bytes_of kept) (bytes_of rest),
    ) in
    let body = cut_turn log (pos target) in
    let (u, r, v) =
      through base log body (λ (p : ℕ) (u : Unit {0}). p) (λ xs u. Unit {0})
        (λ raw. last_of raw < target) (cut-passes base target log) (suc k) xs kept (bytes_of rest)
        tt e2 d.0 a tt in
    ap (λ j. repeat j body (length (bytes_of xs))) q
    ∙ r
    ∙ repeat-leave k body _ _ (
        rw e1
          (cut_turn-Stops target (end_of (end_of base xs) kept) (bytes_of (xs ++ kept)) rest d.1 t))

-- What a truncation to a target within the segment leaves: the batches that end before the target,
-- an index of them, and the target for the next offset.
record Cut (base target : ℕ) (bs : List Bytes) (s : Segment) : Type 0 where
  based : s.base_offset ≡ pos base
  logged : s.log ≡ bytes_of (up_to target bs)
  ended : s.next_offset ≡ pos target
  filled : Filled base (up_to target bs) s.index

cut_to-Cut :
    (s : Segment) (base target p : ℕ) (bs rest : List Bytes)
    → s.base_offset ≡ pos base
    → s.index.base_offset ≡ pos base
    → s.log ≡ bytes_of (up_to target bs) ++ bytes_of rest
    → Chain base (up_to target bs)
    → length s.log < 2 ^ 32
    → position_for_offset s.index (pos target) ≡ p
    → repeat (suc (length s.log)) (cut_turn s.log (pos target)) p
      ≡ done (length (bytes_of (up_to target bs)))
    → (s' : Segment) × (cut_to s (pos target) ≡ done s') × Cut base target bs s'
unfolding cut_to with_log
cut_to-Cut s base target p bs rest b i g c l e r =
    let kept = bytes_of (up_to target bs) in
    let z : resize (length kept) s.log ≡ kept =
      ap (resize (length kept)) g ∙ resize-append kept (bytes_of rest) in
    let (q, idx, t, f) =
      rebuild-Filled base (resize (length kept) s.log) (up_to target bs) s.index z c
        (omega (arith, ap length z, ap length g, length-append kept (bytes_of rest))) i in
    rw (e, r, t) (_, refl, record { based = b; logged = z; ended = refl; filled = f })

truncate_to-Cut :
    (s : Segment) (base target : ℕ) (bs : List Bytes)
    → IsSegment base bs s
    → base < target
    → target - base < 2 ^ 32
    → length s.log < 2 ^ 32
    → (s' : Segment) × (truncate_to s (pos target) ≡ done s') × Cut base target bs s'
unfolding truncate_to
truncate_to-Cut s base target bs w b o l =
    let (xs, ys, e, p, q) = position_for_offset-Points s base target bs w (omega arith) o in
    let c = subst (Chain base) e w.chain in
    let same : xs ++ up_to target ys ≡ up_to target bs =
      sym (ap (up_to target) e ∙ up_to-behind target base xs ys (Chain-split base xs ys c).0 q) in
    let cut =
      cut-up_to base target s.log xs ys (w.logged ∙ ap bytes_of e) c
      ∙ ap (λ (t : List Bytes). done (length (bytes_of t))) same in
    let (rest, g, a, t) = up_to-split target bs in
    let y : leb (target + 0) (base + 0) ≡ false = ground arith in
    let z : leb_ℤ (pos target) s.base_offset ≡ false = ap (leb_ℤ (pos target)) w.based ∙ y in
    rw z (
      cut_to-Cut s base target (length (bytes_of xs)) bs rest w.based w.index_based
        (w.logged ∙ ap bytes_of g ∙ bytes_of-append (up_to target bs) rest)
        (Chain-split base (up_to target bs) rest (subst (Chain base) g w.chain)).0 l p cut)

up_to-Chain : (base target : ℕ) (bs : List Bytes) → Chain base bs → Chain base (up_to target bs)
up_to-Chain base target bs h =
    let (rest, g, a, t) = up_to-split target bs in
    (Chain-split base (up_to target bs) rest (subst (Chain base) g h)).0

-- A segment that is cut at an offset where a batch ends stays well formed, with the batches up to
-- there. The log must be below 4 GiB.
pub truncate_to-IsSegment :
    (s : Segment) (base target : ℕ) (bs : List Bytes)
    → IsSegment base bs s
    → base < target
    → target - base < 2 ^ 32
    → length s.log < 2 ^ 32
    → end_of base (up_to target bs) ≡ target
    → (s' : Segment) × (truncate_to s (pos target) ≡ done s') × IsSegment base (up_to target bs) s'
truncate_to-IsSegment s base target bs w b o l e =
    let (s', r, c) = truncate_to-Cut s base target bs w b o l in
    (
      s',
      r,
      record {
        based = c.based;
        chain = up_to-Chain base target bs w.chain;
        logged = c.logged;
        ended = c.ended ∙ ap pos (sym e);
        index_based = c.filled.0;
        pointed = c.filled.1 (omega (arith, e));
      },
    )

-- A well-formed segment from `base` on, with a log below 4 GiB, that is cut within a batch: at a target beyond
-- `base`, less than 2 ^ 32 from it, where no batch ends. Its next offset is the target, but its log
-- holds the whole batches up to there and ends where the next one began. Opened again, with an index
-- file of any content whose length is a multiple of eight, it has the same log, and goes back to the
-- offset behind those batches, which is below the target.
pub truncate_to-gap :
    (s : Segment) (base target : ℕ) (bs : List Bytes) (index : Bytes) (max interval : ℤ)
    → IsSegment base bs s
    → base < target
    → target - base < 2 ^ 32
    → length s.log < 2 ^ 32
    → end_of base (up_to target bs) < target
    → length index % 8 ≡ 0
    → (s' : Segment) × (s'' : Segment) × (truncate_to s (pos target) ≡ done s')
      × (s'.next_offset ≡ pos target)
      × (s'.log ≡ bytes_of (up_to target bs))
      × (open_segment s'.log index (pos base) max interval ≡ done s'')
      × (s''.log ≡ s'.log)
      × (s''.next_offset ≡ pos (end_of base (up_to target bs)))
      × (ltb_ℤ s''.next_offset s'.next_offset ≡ true)
truncate_to-gap s base target bs index max interval w b o l g i =
    let (s', r, c) = truncate_to-Cut s base target bs w b o l in
    let kept = up_to target bs in
    let (s'', q, k, n, m) =
      open_segment-whole_index base kept [] index max interval (up_to-Chain base target bs w.chain)
        (clean refl) i in
    let e : s'.log ≡ bytes_of kept ++ [] = c.logged ∙ sym (append-nil (bytes_of kept)) in
    let z : ltb (end_of base kept + 0) (target + 0) ≡ true = ground arith in
    (s', s'', r, c.ended, c.logged, rw e q, k ∙ sym c.logged, n, rw (n, c.ended) z)

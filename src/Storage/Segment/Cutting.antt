-- ===== src/Storage/Segment/Cutting.antt =====
-- What truncateTo leaves of a segment (internal/storage/segment.go).
use pocketkafka.Prelude.{
  ℕ, suc, ◌+◌, ◌-◌, ◌^◌, ◌≤◌, ◌<◌, ◌≡◌, refl, sym, ap, ◌∙◌, arith, true, false, Bytes, length, List,
  [], ◌∷◌, ◌++◌, All, length-append, append-nil, ltb, leb, if◌then◌else◌,
}
use pocketkafka.Prelude.Ints.{ℤ, pos}
use pocketkafka.Storage.Runs.{done, next, leave, repeat, repeat-leave}
use pocketkafka.Storage.Index.{IndexFile, reset, maybe_append}
use pocketkafka.Storage.Segment.{
  delta_at, cut_batch, cut_turn, rebuild_batch, rebuild_turn, rebuild,
}
use pocketkafka.Storage.Segment.Log.{
  IsBatch, bytes_of, end_of, Chain, delta_of, end_of-snoc, count-le, below, prefix-length,
  prefix-base, delta_read, prefix_read, delta_bytes_read, whole,
}
use pocketkafka.Storage.Segment.Scan.{Passes, through}
use pocketkafka.Storage.Segment.Append.{
  Points, Points-later, maybe_append-Points, maybe_append-base,
}

module _ (target n : ℕ) (raw before after : Bytes) (h : IsBatch n raw) where
  delta_at-whole : delta_at (before ++ (raw ++ after)) (length before) ≡ pos (delta_of raw)
  unfolding delta_at delta_of
  delta_at-whole = rw (delta_at, delta_bytes_read n raw h before after) (delta_read n raw h)

  advanced : length before + 12 + (length raw - 12) ≡ length (before ++ raw)
  advanced = omega (arith, h.header, length-append before raw)

  inside : ltb (length before) (length (before ++ (raw ++ after))) ≡ true
  inside = ground (arith, below n raw h before after)

  cut_turn-whole : cut_turn (before ++ (raw ++ after)) (pos target) (length before) ≡ (
      if leb (target + 0) (n + delta_of raw + 0)
      then leave (length before)
      else next (length before + 12 + (length raw - 12)))
  unfolding cut_turn cut_batch
  cut_turn-whole =
      rw
        (
          inside,
          prefix_read n raw h before after,
          prefix-length n raw h,
          whole n raw h before after,
          prefix-base n raw h,
          delta_at-whole,
        )
        refl

  pub cut_turn-passes :
      n + delta_of raw < target
      → cut_turn (before ++ (raw ++ after)) (pos target) (length before)
        ≡ next (length (before ++ raw))
  cut_turn-passes k =
      let q : leb (target + 0) (n + delta_of raw + 0) ≡ false = ground arith in
      cut_turn-whole ∙ rw q (ap (λ p. next p) advanced)

  pub cut_turn-stops :
      target ≤ n + delta_of raw
      → cut_turn (before ++ (raw ++ after)) (pos target) (length before) ≡ leave (length before)
  cut_turn-stops k =
      let q : leb (target + 0) (n + delta_of raw + 0) ≡ true = ground arith in
      cut_turn-whole ∙ rw q refl

  rebuild_turn-whole :
      (idx : IndexFile)
      → rebuild_turn (before ++ (raw ++ after)) (length before, idx)
        ≡ next (length (before ++ raw), maybe_append idx (pos n) (length before))
  unfolding rebuild_turn rebuild_batch
  rebuild_turn-whole idx =
      rw
        (
          inside,
          prefix_read n raw h before after,
          prefix-length n raw h,
          whole n raw h before after,
          prefix-base n raw h,
        )
        (ap (λ p. next (p, maybe_append idx (pos n) (length before))) advanced)

pub cut_turn-end :
    (log : Bytes) (target : ℤ) (p : ℕ) → length log ≤ p → cut_turn log target p ≡ leave p
unfolding cut_turn
cut_turn-end log target p h = let b : ltb p (length log) ≡ false = ground arith in rw b refl

rebuild_turn-end :
    (log : Bytes) (idx : IndexFile) (p : ℕ)
    → length log ≤ p
    → rebuild_turn log (p, idx) ≡ leave (p, idx)
unfolding rebuild_turn
rebuild_turn-end log idx p h = let b : ltb p (length log) ≡ false = ground arith in rw b refl

-- The index filled anew points to the batches that have been passed.
abbrev pub Filled : ℕ → List Bytes → IndexFile → Type 0
Filled base xs idx =
    (idx.base_offset ≡ pos base)
    × (end_of base xs - base < 2 ^ 32 → All (Points base xs) idx.entries)

rebuild-passes :
    (base : ℕ) (log : Bytes)
    → length log < 2 ^ 32
    → Passes base log
        (rebuild_turn log)
        (λ (p : ℕ) (idx : IndexFile). (p, idx))
        (Filled base)
        (λ raw. Unit {0})
rebuild-passes base log l xs raw after idx e h a r =
    let n = end_of base xs in
    (
      maybe_append idx (pos n) (length (bytes_of xs)),
      rw e (rebuild_turn-whole 0 n raw (bytes_of xs) after h idx),
      (
        maybe_append-base idx (pos n) (length (bytes_of xs)) ∙ r.0,
        λ o.
            let o' : n - base < 2 ^ 32 = omega (arith, end_of-snoc base xs raw) in
            maybe_append-Points base xs (raw ∷ []) idx r.0
              (Points-later base xs (raw ∷ []) idx.entries (r.1 o'))
              (omega (arith, ap length e, length-append (bytes_of xs) (raw ++ after))) o',
      ),
    )

All-unit : (bs : List Bytes) → All (λ (raw : Bytes). Unit {0}) bs
All-unit [] = tt
All-unit (raw ∷ bs) = (tt, All-unit bs)

reset-Filled :
    (base : ℕ) (idx : IndexFile) → idx.base_offset ≡ pos base → Filled base [] (reset idx)
unfolding reset
reset-Filled base idx e = (e, λ o. tt)

pub rebuild-Filled :
    (base : ℕ) (log : Bytes) (bs : List Bytes) (idx : IndexFile)
    → log ≡ bytes_of bs
    → Chain base bs
    → length log < 2 ^ 32
    → idx.base_offset ≡ pos base
    → (p : ℕ) × (idx' : IndexFile) × (rebuild log idx ≡ done (p, idx')) × Filled base bs idx'
unfolding rebuild bytes_of end_of
rebuild-Filled base log bs idx e h l b =
    let k = length log - length bs in
    let q : suc (length log) ≡ length bs + suc k = omega (arith, count-le base bs h, ap length e) in
    let (idx', t, r) =
      through base log (rebuild_turn log) (λ (p : ℕ) (i : IndexFile). (p, i)) (Filled base)
        (λ raw. Unit {0}) (rebuild-passes base log l) (suc k) [] bs [] (reset idx)
        (e ∙ sym (append-nil (bytes_of bs))) h (All-unit bs) (reset-Filled base idx b) in
    (
      length (bytes_of bs),
      idx',
      ap (λ j. repeat j (rebuild_turn log) (0, reset idx)) q
          ∙ t
          ∙ repeat-leave k _ _ _
              (rebuild_turn-end log idx' (length (bytes_of bs)) (omega (arith, ap length e))),
      r,
    )

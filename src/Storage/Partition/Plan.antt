-- ===== src/Storage/Partition/Plan.antt =====
-- What retention leaves of a partition (internal/storage/retention.go).
use pocketkafka.Prelude.{
  ℕ, zero, suc, ◌+◌, ◌-◌, ◌≤◌, ◌<◌, ◌≡◌, ◌⊎◌, inl, inr, refl, sym, ap, ◌∙◌, arith, true, ltb, List,
  [], ◌∷◌, drop, Option, Bool-cases,
}
use pocketkafka.Prelude.Ints.{ℤ, pos, ◌-ℤ◌, diff-le, ltb_ℤ}
use pocketkafka.Prelude.Slices.{drop-drop}
use pocketkafka.Storage.Partition.{Partition, StoredSegment, size_bytes}
use pocketkafka.Storage.Partition.Retention.{
  Retention, sizes_of, total_size, first, oversize_count, old_count, retention_plan,
  enforce_retention,
}

sizes_of-first :
    (n : ℕ) (segs : List StoredSegment)
    → sizes_of (first n segs) + sizes_of (drop n segs) ≡ sizes_of segs
unfolding sizes_of first
sizes_of-first zero segs = omega arith
sizes_of-first (suc n) [] = omega arith
sizes_of-first (suc n) (s ∷ segs) = omega (arith, sizes_of-first n segs)

drop_none : (n : ℕ) → drop {A = StoredSegment} n [] ≡ []
drop_none zero = refl
drop_none (suc n) = refl

-- Segments are taken into the plan until the rest is within the bytes.
oversize_count-within :
    (bytes total : ℕ) (segs : List StoredSegment)
    → sizes_of segs ≤ total
    → let n = oversize_count (pos bytes) (pos total) segs in
      (total ≤ bytes + sizes_of (first n segs)) ⊎ (drop n segs ≡ [])
unfolding oversize_count sizes_of first
oversize_count-within bytes total [] h = inr refl
oversize_count-within bytes total (s ∷ segs) h =
    let e : pos total -ℤ pos (size_bytes s) ≡ pos (total - size_bytes s) =
      diff-le total (size_bytes s) (omega arith) in
    elim (Bool-cases (ltb (bytes + 0) (total + 0))) [
      | inl b ↦
          rw (b, e)
            (elim (oversize_count-within bytes (total - size_bytes s) segs (omega arith)) [
              | inl q ↦ inl (omega arith)
              | inr q ↦ inr q
            ])
      | inr b ↦ rw b (inl (ground arith))
    ]

module _ (p : Partition) (ret : Retention) (mod_time : StoredSegment → Option ℤ) (now : ℤ)
    (bytes : ℕ) (e : ret.retention_bytes ≡ pos bytes) (h : 0 < bytes) where
  abbrev young : List StoredSegment
  young = drop (old_count p ret mod_time now) p.closed_segments

  abbrev rest_size : ℕ
  rest_size = total_size p - sizes_of (first (old_count p ret mod_time now) p.closed_segments)

  rest_size-sizes_of : rest_size ≡ sizes_of young + size_bytes p.active_segment
  unfolding total_size
  rest_size-sizes_of =
      omega (arith, sizes_of-first (old_count p ret mod_time now) p.closed_segments)

  old_size-le : sizes_of (first (old_count p ret mod_time now) p.closed_segments) ≤ total_size p
  unfolding total_size
  old_size-le = omega (arith, sizes_of-first (old_count p ret mod_time now) p.closed_segments)

  retention_plan-oversize :
      retention_plan p ret mod_time now
      ≡ old_count p ret mod_time now + oversize_count (pos bytes) (pos rest_size) young
  unfolding retention_plan
  retention_plan-oversize =
      let old = old_count p ret mod_time now in
      let gone = pos (total_size p) -ℤ pos (sizes_of (first old p.closed_segments)) in
      let l : sizes_of (first old p.closed_segments) ≤ total_size p = old_size-le in
      let b : ltb_ℤ (pos 0) ret.retention_bytes ≡ true = ap (ltb_ℤ (pos 0)) e ∙ ground arith in
      rw b (
        ap (λ r. old + oversize_count r gone young) e
        ∙ ap (λ t. old + oversize_count (pos bytes) t young)
            (diff-le (total_size p) (sizes_of (first old p.closed_segments)) l))

  enforced :
      (enforce_retention p ret mod_time now).closed_segments
      ≡ drop (oversize_count (pos bytes) (pos rest_size) young) young
  unfolding enforce_retention
  enforced =
      ap (λ n. drop n p.closed_segments) retention_plan-oversize
      ∙ sym (drop-drop (oversize_count (pos bytes) (pos rest_size) young) _ p.closed_segments)

  -- Behind an enforcement of a positive limit of bytes, the partition is within the limit, or has no
  -- closed segment left.
  pub enforce_retention-within :
      (total_size (enforce_retention p ret mod_time now) ≤ bytes)
      ⊎ ((enforce_retention p ret mod_time now).closed_segments ≡ [])
  unfolding total_size enforce_retention
  enforce_retention-within =
      let n = oversize_count (pos bytes) (pos rest_size) young in
      let t : total_size (enforce_retention p ret mod_time now)
          ≡ sizes_of (drop n young) + size_bytes p.active_segment =
        total_enforced
        ∙ ap (λ (l : List StoredSegment). sizes_of l + size_bytes p.active_segment) enforced in
      elim (oversize_count-within bytes rest_size young (omega (arith, rest_size-sizes_of))) [
        | inl q ↦ inl (omega (arith, sizes_of-first n young, rest_size-sizes_of))
        | inr q ↦ inr (enforced ∙ q)
      ]
    where
      total_enforced :
          total_size (enforce_retention p ret mod_time now)
          ≡ sizes_of (enforce_retention p ret mod_time now).closed_segments
            + size_bytes p.active_segment
      total_enforced = refl

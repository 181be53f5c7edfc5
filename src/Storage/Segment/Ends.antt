-- ===== src/Storage/Segment/Ends.antt =====
-- The loops of internal/storage/segment.go end, whatever bytes the files hold.
use pocketkafka.Prelude.{
  ℕ, suc, ◌+◌, ◌-◌, ◌<◌, ◌≡◌, ◌≢◌, arith, Bytes, length, ltb, [], if_rule, Option-cases, inl, inr,
}
use pocketkafka.Prelude.Ints.{ℤ, pos, leb_ℤ, ltb_ℤ, signed}
use pocketkafka.Prelude.Slices.{read_at, resize}
use pocketkafka.Storage.Runs.{Run, running, Turn, next, repeat, repeat-ends, Run-bind}
use pocketkafka.Storage.Batch.{int32_at}
use pocketkafka.Storage.Index.{IndexFile, open_index, position_for_offset, reset}
use pocketkafka.Storage.Segment.{
  Segment, is_whole, recover_batch, recover_turn, recover, open_segment, read_batch, read_turn,
  read_from, read, cut_batch, cut_turn, cut_to, rebuild_batch, rebuild_turn, rebuild, truncate_to,
}

recover_batch-further :
    (log : Bytes) (p p' : ℕ) (n n' len : ℤ) → recover_batch log p n len ≡ next (p', n') → p < p'
unfolding recover_batch
recover_batch-further log p p' n n' len =
    if_rule (λ (t : Turn (ℕ × ℤ)). t ≡ next (p', n') → p < p') (is_whole log p len)
      (λ b. elim (Option-cases (read_at 4 (p + 23) log)) [
        | inl q ↦ rw q (λ e. absurd (cc e))
        | inr (delta, q) ↦ rw q (λ e. ground arith)
      ])
      (λ b e. absurd (cc e))

recover_turn-lowers :
    (log : Bytes) (s s' : ℕ × ℤ)
    → recover_turn log s ≡ next s'
    → length log - s'.0 < length log - s.0
unfolding recover_turn
recover_turn-lowers log (p, n) (p', n') =
    if_rule (λ (t : Turn (ℕ × ℤ)). t ≡ next (p', n') → length log - p' < length log - p)
      (ltb p (length log))
      (λ b. elim (Option-cases (read_at 12 p log)) [
        | inl q ↦ rw q (λ e. absurd (cc e))
        | inr (prefix, q) ↦
            rw q (λ e. ground (arith, recover_batch-further log p p' n n' (int32_at 8 prefix) e))
      ])
      (λ b e. absurd (cc e))

read_batch-further :
    (log : Bytes) (offset : ℤ) (p p' : ℕ) (out out' : Bytes) (len : ℤ)
    → read_batch log offset p out len ≡ next (p', out')
    → p < p'
unfolding read_batch
read_batch-further log offset p p' out out' len = ground arith

read_turn-lowers :
    (log : Bytes) (offset max_bytes : ℤ) (s s' : ℕ × Bytes)
    → read_turn log offset max_bytes s ≡ next s'
    → length log - s'.0 < length log - s.0
unfolding read_turn
read_turn-lowers log offset max_bytes (p, out) (p', out') =
    if_rule (λ (t : Turn (ℕ × Bytes)). t ≡ next (p', out') → length log - p' < length log - p)
      (ltb p (length log))
      (λ b.
        if_rule (λ (t : Turn (ℕ × Bytes)). t ≡ next (p', out') → length log - p' < length log - p)
          (ltb_ℤ (signed 32 (length out)) max_bytes)
          (λ c. elim (Option-cases (read_at 12 p log)) [
            | inl q ↦ rw q (λ e. absurd (cc e))
            | inr (prefix, q) ↦ rw q (λ e.
                ground (arith, read_batch-further log offset p p' out out' (int32_at 8 prefix) e))
          ])
          (λ c e. absurd (cc e)))
      (λ b e. absurd (cc e))

cut_batch-further :
    (log : Bytes) (target : ℤ) (p p' : ℕ) (prefix : Bytes)
    → cut_batch log target p prefix ≡ next p'
    → p < p'
unfolding cut_batch
cut_batch-further log target p p' prefix = ground arith

cut_turn-lowers :
    (log : Bytes) (target : ℤ) (p p' : ℕ)
    → cut_turn log target p ≡ next p'
    → length log - p' < length log - p
unfolding cut_turn
cut_turn-lowers log target p p' =
    if_rule (λ (t : Turn ℕ). t ≡ next p' → length log - p' < length log - p) (ltb p (length log))
      (λ b. elim (Option-cases (read_at 12 p log)) [
        | inl q ↦ rw q (λ e. absurd (cc e))
        | inr (prefix, q) ↦ rw q (λ e. ground (arith, cut_batch-further log target p p' prefix e))
      ])
      (λ b e. absurd (cc e))

rebuild_batch-further :
    (log : Bytes) (p p' : ℕ) (idx idx' : IndexFile) (prefix : Bytes)
    → rebuild_batch log p idx prefix ≡ next (p', idx')
    → p < p'
unfolding rebuild_batch
rebuild_batch-further log p p' idx idx' prefix = ground arith

rebuild_turn-lowers :
    (log : Bytes) (s s' : ℕ × IndexFile)
    → rebuild_turn log s ≡ next s'
    → length log - s'.0 < length log - s.0
unfolding rebuild_turn
rebuild_turn-lowers log (p, idx) (p', idx') =
    if_rule (λ (t : Turn (ℕ × IndexFile)). t ≡ next (p', idx') → length log - p' < length log - p)
      (ltb p (length log))
      (λ b. elim (Option-cases (read_at 12 p log)) [
        | inl q ↦ rw q (λ e. absurd (cc e))
        | inr (prefix, q) ↦
            rw q (λ e. ground (arith, rebuild_batch-further log p p' idx idx' prefix e))
      ])
      (λ b e. absurd (cc e))

open_segment-ends :
    (log index : Bytes) (base max interval : ℤ) → open_segment log index base max interval ≢ running
unfolding open_segment open_index recover
open_segment-ends log index base max interval =
    Run-bind (open_index index base interval) _ (λ e. ground arith)
      (λ idx.
        Run-bind (recover log base) _
          (repeat-ends (λ (s : ℕ × ℤ). length log - s.0) (recover_turn log)
            (recover_turn-lowers log) (suc (length log)) (0, base) (omega arith))
          (λ (s : ℕ × ℤ). λ e. cc))

read_from-ends :
    (log : Bytes) (offset max_bytes : ℤ) (p : ℕ) → read_from log offset max_bytes p ≢ running
unfolding read_from
read_from-ends log offset max_bytes p =
    Run-bind (repeat (suc (length log)) (read_turn log offset max_bytes) (p, [])) _
      (repeat-ends (λ (s : ℕ × Bytes). length log - s.0) (read_turn log offset max_bytes)
        (read_turn-lowers log offset max_bytes) (suc (length log)) (p, []) (omega arith))
      (λ (s : ℕ × Bytes). λ e. cc)

read-ends : (s : Segment) (offset max_bytes : ℤ) → read s offset max_bytes ≢ running
unfolding read
read-ends s offset max_bytes =
    if_rule (λ (r : Run Bytes). r ≢ running) (leb_ℤ max_bytes (pos 0)) (λ b e. cc)
      (λ b. read_from-ends s.log offset max_bytes (position_for_offset s.index offset))

rebuild-ends : (log : Bytes) (idx : IndexFile) → rebuild log idx ≢ running
unfolding rebuild
rebuild-ends log idx =
    repeat-ends (λ (s : ℕ × IndexFile). length log - s.0) (rebuild_turn log)
      (rebuild_turn-lowers log) (suc (length log)) (0, reset idx) (omega arith)

truncate_to-ends : (s : Segment) (target : ℤ) → truncate_to s target ≢ running
unfolding truncate_to cut_to
truncate_to-ends s target =
    if_rule (λ (r : Run Segment). r ≢ running) (leb_ℤ target s.base_offset) (λ b e. cc)
      (λ b.
        Run-bind
          (repeat (suc (length s.log)) (cut_turn s.log target) (position_for_offset s.index target))
          _
          (repeat-ends (λ (p : ℕ). length s.log - p) (cut_turn s.log target)
            (cut_turn-lowers s.log target) (suc (length s.log)) (position_for_offset s.index target)
            (omega arith))
          (λ p.
            Run-bind (rebuild (resize p s.log) s.index) _ (rebuild-ends (resize p s.log) s.index)
              (λ (r : ℕ × IndexFile). λ e. cc)))

-- Opening a segment, reading from it and cutting it end, with a result or with an error, whatever
-- bytes stand in the files.
pub segment-ends :
    (log index : Bytes) (s : Segment) (base max interval offset : ℤ)
    → (open_segment log index base max interval ≢ running)
      × (read s offset max ≢ running)
      × (truncate_to s offset ≢ running)
segment-ends log index s base max interval offset = (
  open_segment-ends log index base max interval,
  read-ends s offset max,
  truncate_to-ends s offset,
)

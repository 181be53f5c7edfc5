-- ===== src/Storage/Compaction.antt =====
-- Which records a compaction keeps (internal/storage/compaction.go: planCompaction and
-- stageCompaction), on the list of the records that forEachBatch hands on; those of batches that do
-- not decode, which it passes over, are not in the list.
pub mod Latest
pub mod Once
use pocketkafka.Prelude.{
  ℕ, suc, ◌+◌, Bool, true, false, ◌&&◌, Bytes, Option, none, some, List, [], ◌∷◌, length, ltb, eqb,
  if◌then◌else◌, bytes_eq, not, nat_eq, ◌==◌,
}
use pocketkafka.Prelude.Dict.{Dict, get, put, has}
use pocketkafka.Records.{Record}

abbrev pub compact_max_key_bytes : ℕ
compact_max_key_bytes = 268435456

-- `nulls` counts the records without a key; the code's `planned` and `total` are read off at the end.
pub record CompactionPlan : Type 0 where
  pub last : Dict Bytes ℕ
  pub total : ℕ
  pub nulls : ℕ
  pub key_bytes : ℕ

abbrev pub no_plan : CompactionPlan
no_plan = record { last = []; total = 0; nulls = 0; key_bytes = 0 }

unfoldable pub key_bytes_with : CompactionPlan → Bytes → ℕ
key_bytes_with plan k = if has plan.last k then plan.key_bytes else plan.key_bytes + length k

unfoldable pub planned_key : CompactionPlan → Bytes → CompactionPlan
planned_key plan k = record {
  last = put plan.last k plan.total;
  total = suc plan.total;
  nulls = plan.nulls;
  key_bytes = key_bytes_with plan k;
}

unfoldable pub planned_null : CompactionPlan → CompactionPlan
planned_null plan = record {
  last = plan.last;
  total = suc plan.total;
  nulls = suc plan.nulls;
  key_bytes = plan.key_bytes;
}

-- One record; none is the error of too many bytes of keys.
unfoldable pub plan_record : CompactionPlan → Option Bytes → Option CompactionPlan
plan_record plan none = some (planned_null plan)
plan_record plan (some k) =
    if not (has plan.last k) && ltb compact_max_key_bytes (key_bytes_with plan k)
    then none
    else some (planned_key plan k)

unfoldable pub plan_records : CompactionPlan → List Record → Option CompactionPlan
plan_records plan [] = some plan
plan_records plan (r ∷ rs) = elim (plan_record plan r.key) [
  | none ↦ none
  | some plan' ↦ plan_records plan' rs
]

unfoldable pub plan_compaction : List Record → Option CompactionPlan
plan_compaction rs = plan_records no_plan rs

abbrev pub is_at : Option ℕ → ℕ → Bool
is_at none idx = false
is_at (some last) idx = last == idx

unfoldable pub kept : CompactionPlan → ℕ → Option Bytes → Bool
kept plan idx none = true
kept plan idx (some k) = is_at (get plan.last k) idx

-- The records that are handed to the writer, from the index on.
unfoldable pub stage_from : CompactionPlan → ℕ → List Record → List Record
stage_from plan idx [] = []
stage_from plan idx (r ∷ rs) =
    let rest = stage_from plan (suc idx) rs in if kept plan idx r.key then r ∷ rest else rest

-- Compact, up to the writing: none is the plan's error, and the records stay where nothing would go.
unfoldable pub staged : CompactionPlan → List Record → List Record
staged plan rs = if ltb (plan.nulls + length plan.last) plan.total then stage_from plan 0 rs else rs

unfoldable pub compacted : List Record → Option (List Record)
compacted rs = elim (plan_compaction rs) [ none ↦ none | some plan ↦ some (staged plan rs) ]

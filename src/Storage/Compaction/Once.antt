-- ===== src/Storage/Compaction/Once.antt =====
-- What two compactions do to records without a key (internal/storage/compaction.go;
-- pkg/protocol/record_batch.go): the first keeps them all, and they are written by EncodeRecord.
use pocketkafka.Prelude.{
  ℕ, suc, ◌+◌, ◌^◌, ◌<◌, ◌≡◌, refl, sym, ap, ◌∙◌, arith, Bytes, Option, none, some, List, [], ◌∷◌,
  ◌++◌, length, bytes_eq, All, true, false, ltb, append-nil, ◌==◌, nat_eq, subst, map,
}
use pocketkafka.Prelude.Dict.{get, put, has}
use pocketkafka.Prelude.Tests.{bytes_beq}
use pocketkafka.Records.{Record, encode_record, decode_record, or_empty}
use pocketkafka.Records.Varint.{Decoded, ok, ◌>>=◌}
use pocketkafka.Records.RoundTrip.{IsEncodable, with_key, decode_record-encode_record}
use pocketkafka.Storage.Compaction.{
  CompactionPlan, no_plan, plan_record, planned_null, planned_key, key_bytes_with, plan_records,
  plan_compaction, kept, stage_from, staged, compacted,
}

-- Each record encoded, and decoded again.
unfoldable pub reread : List Record → Decoded (List Record)
reread [] = ok []
reread (r ∷ rs) = do (r', rest) ← decode_record (encode_record r); rs' ← reread rs; ok (r' ∷ rs')

abbrev pub last_of : Record → List Record → Record
last_of r [] = r
last_of r (s ∷ rs) = last_of s rs

-- An encodable record without a key.
pub record IsKeyless (r : Record) : Type 0 where
  pub encodable : IsEncodable r
  pub keyless : r.key ≡ none
  pub fits : length (encode_record r) < 2 ^ 63

abbrev HasEmptyKey : Record → Type 0
HasEmptyKey r = r.key ≡ some []

plan_records-cons :
    (plan plan' : CompactionPlan) (r : Record) (rs : List Record)
    → plan_record plan r.key ≡ some plan'
    → plan_records plan (r ∷ rs) ≡ plan_records plan' rs
unfolding plan_records
plan_records-cons plan plan' r rs e = rw (e, plan_records) refl

compacted-planned :
    (plan : CompactionPlan) (rs : List Record)
    → plan_records no_plan rs ≡ some plan
    → compacted rs ≡ some (staged plan rs)
unfolding compacted plan_compaction
compacted-planned plan rs e = rw (e, compacted) refl

-- The plan with other counts of records and of those without a key.
abbrev counted : CompactionPlan → ℕ → ℕ → CompactionPlan
counted plan total nulls = record {
  last = plan.last;
  total = total;
  nulls = nulls;
  key_bytes = plan.key_bytes;
}

counted-same :
    (plan : CompactionPlan) (a b c d : ℕ) → a ≡ b → c ≡ d → counted plan a c ≡ counted plan b d
counted-same plan a b c d e f =
    ap (λ (t : ℕ). counted plan t c) e ∙ ap (λ (n : ℕ). counted plan b n) f

plan_record-null :
    (plan : CompactionPlan) (o : Option Bytes)
    → o ≡ none
    → plan_record plan o ≡ some (counted plan (suc plan.total) (suc plan.nulls))
unfolding plan_record planned_null
plan_record-null plan o e = rw e refl

plan_records-keyless :
    (plan : CompactionPlan) (rs : List Record)
    → All IsKeyless rs
    → plan_records plan rs ≡ some (counted plan (plan.total + length rs) (plan.nulls + length rs))
unfolding plan_records
plan_records-keyless plan [] h =
    ap (λ (x : CompactionPlan). some x)
      (counted-same plan plan.total (plan.total + 0) plan.nulls (plan.nulls + 0) (omega arith)
        (omega arith))
plan_records-keyless plan (r ∷ rs) h =
    let plan' = counted plan (suc plan.total) (suc plan.nulls) in
    plan_records-cons plan plan' r rs (plan_record-null plan r.key h.0.keyless)
    ∙ plan_records-keyless plan' rs h.1
    ∙ ap (λ (x : CompactionPlan). some x)
        (counted-same plan (suc plan.total + length rs) (plan.total + suc (length rs))
          (suc plan.nulls + length rs) (plan.nulls + suc (length rs)) (omega arith) (omega arith))

-- A compaction keeps records without a key.
compacted-keyless : (rs : List Record) → All IsKeyless rs → compacted rs ≡ some rs
unfolding staged
compacted-keyless rs h =
    let n = length rs in
    let e : ltb (0 + n + 0) (0 + n) ≡ false = ground arith in
    compacted-planned (counted no_plan (0 + n) (0 + n)) rs (plan_records-keyless no_plan rs h)
    ∙ rw e refl

-- The plan where the last record was at the index `i`, and all had the empty key.
abbrev at_empty : ℕ → CompactionPlan
at_empty i = record { last = ([], i) ∷ []; total = suc i; nulls = 0; key_bytes = 0 }

plan_record-empty :
    (i : ℕ) (o : Option Bytes) → o ≡ some [] → plan_record (at_empty i) o ≡ some (at_empty (suc i))
unfolding plan_record planned_key key_bytes_with put has bytes_beq
plan_record-empty i o e = rw e refl

plan_records-empty :
    (i : ℕ) (rs : List Record)
    → All HasEmptyKey rs
    → plan_records (at_empty i) rs ≡ some (at_empty (i + length rs))
unfolding plan_records
plan_records-empty i [] h = ap (λ (j : ℕ). some (at_empty j)) (omega arith)
plan_records-empty i (r ∷ rs) h =
    plan_records-cons (at_empty i) (at_empty (suc i)) r rs (plan_record-empty i r.key h.0)
    ∙ plan_records-empty (suc i) rs h.1
    ∙ ap (λ (j : ℕ). some (at_empty j)) (omega arith)

plan_record-first : (o : Option Bytes) → o ≡ some [] → plan_record no_plan o ≡ some (at_empty 0)
unfolding plan_record planned_key key_bytes_with put has
plan_record-first o e = rw e refl

kept-empty : (i j : ℕ) (o : Option Bytes) → o ≡ some [] → kept (at_empty i) j o ≡ (i == j)
unfolding kept get bytes_beq
kept-empty i j o e = rw e refl

stage_from-empty :
    (i : ℕ) (r : Record) (rs : List Record)
    → All HasEmptyKey (r ∷ rs)
    → stage_from (at_empty (i + length rs)) i (r ∷ rs) ≡ last_of r rs ∷ []
unfolding stage_from
stage_from-empty i r [] h =
    let e : kept (at_empty (i + 0)) i r.key ≡ true =
      kept-empty (i + 0) i r.key h.0 ∙ ground arith in
    rw e refl
stage_from-empty i r (s ∷ rs) h =
    let e : kept (at_empty (i + suc (length rs))) i r.key ≡ false =
      kept-empty (i + suc (length rs)) i r.key h.0 ∙ ground arith in
    let q : i + suc (length rs) ≡ suc i + length rs = omega arith in
    rw e (
      ap (λ (k : ℕ). stage_from (at_empty k) (suc i) (s ∷ rs)) q
      ∙ stage_from-empty (suc i) s rs h.1)

compacted-empty :
    (r s : Record) (rs : List Record)
    → All HasEmptyKey (r ∷ s ∷ rs)
    → compacted (r ∷ s ∷ rs) ≡ some (last_of s rs ∷ [])
unfolding staged
compacted-empty r s rs h =
    let n = 0 + length (s ∷ rs) in
    let e : ltb 1 (suc n) ≡ true = ground arith in
    compacted-planned (at_empty n) (r ∷ s ∷ rs) (
      plan_records-cons no_plan (at_empty 0) r (s ∷ rs) (plan_record-first r.key h.0)
      ∙ plan_records-empty 0 (s ∷ rs) h.1)
    ∙ rw e (ap (λ (t : List Record). some t) (stage_from-empty 0 r (s ∷ rs) h))

reread-with_key : (rs : List Record) → All IsKeyless rs → reread rs ≡ ok (map with_key rs)
unfolding reread
reread-with_key [] h = refl
reread-with_key (r ∷ rs) h =
    let size : length (encode_record r ++ []) < 2 ^ 63 =
      subst (λ (bs : Bytes). length bs < 2 ^ 63) (sym (append-nil (encode_record r))) h.0.fits in
    let e : decode_record (encode_record r) ≡ ok (with_key r, []) =
      ap decode_record (sym (append-nil (encode_record r)))
      ∙ decode_record-encode_record r [] h.0.encodable size in
    rw (e, reread-with_key rs h.1) refl

keyless-empty : (rs : List Record) → All IsKeyless rs → All HasEmptyKey (map with_key rs)
unfolding with_key
keyless-empty [] h = tt
keyless-empty (r ∷ rs) h =
    (ap (λ (o : Option Bytes). some (or_empty o)) h.0.keyless, keyless-empty rs h.1)

last_of-with_key :
    (r : Record) (rs : List Record)
    → last_of (with_key r) (map with_key rs) ≡ with_key (last_of r rs)
last_of-with_key r [] = refl
last_of-with_key r (s ∷ rs) = last_of-with_key s rs

-- Two or more encodable records without a key, each with an encoding below 2 ^ 63 bytes, are all
-- kept by a compaction; but when each of them has been encoded and decoded, the next compaction
-- keeps only the last one, with the empty key.
pub compacted-nulls_lost :
    (r s : Record) (rs : List Record)
    → All IsKeyless (r ∷ s ∷ rs)
    → (compacted (r ∷ s ∷ rs) ≡ some (r ∷ s ∷ rs))
      × ((rs' : List Record) × (reread (r ∷ s ∷ rs) ≡ ok rs')
          × (compacted rs' ≡ some (with_key (last_of s rs) ∷ [])))
compacted-nulls_lost r s rs h = (
  compacted-keyless (r ∷ s ∷ rs) h,
  (
    map with_key (r ∷ s ∷ rs),
    reread-with_key (r ∷ s ∷ rs) h,
    compacted-empty (with_key r) (with_key s) (map with_key rs) (keyless-empty (r ∷ s ∷ rs) h)
        ∙ ap (λ (x : Record). some (x ∷ [])) (last_of-with_key s rs),
  ),
)

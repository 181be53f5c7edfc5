-- ===== src/Storage/Compaction/Latest.antt =====
-- A compaction keeps the latest record of each key (internal/storage/compaction.go).
use pocketkafka.Prelude.{
  ℕ, suc, ◌+◌, ◌≡◌, refl, sym, ap, ◌∙◌, Bool, true, false, Bytes, Option, none, some, List, [], ◌∷◌,
  length, if◌then◌else◌, ◌==◌, bytes_eq, nat_eq, beq→eq, beq_refl, Option-cases, Bool-cases, inl,
  inr, if_rule, ltb, not, ◌&&◌,
}
use pocketkafka.Prelude.Lists.{keep}
use pocketkafka.Prelude.Dict.{get, has, get-put}
use pocketkafka.Records.{Record}
use pocketkafka.Storage.Compaction.{
  CompactionPlan, no_plan, planned_key, planned_null, plan_record, plan_records, plan_compaction,
  is_at, kept, key_bytes_with, compact_max_key_bytes, stage_from, staged, compacted,
}

abbrev pub is_of : Bytes → Option Bytes → Bool
is_of k none = false
is_of k (some j) = j == k

abbrev pub is_null : Record → Bool
is_null r = elim r.key [ none ↦ true | some k ↦ false ]

-- The last record of the key.
unfoldable pub latest : Bytes → List Record → Option Record
latest k [] = none
latest k (r ∷ rs) = elim (latest k rs) [
  | none ↦ if is_of k r.key then some r else none
  | some s ↦ some s
]

-- The index of the last record of the key, counted from `idx` on.
unfoldable last_index : Bytes → ℕ → List Record → Option ℕ
last_index k idx [] = none
last_index k idx (r ∷ rs) = elim (last_index k (suc idx) rs) [
  | none ↦ if is_of k r.key then some idx else none
  | some i ↦ some i
]

abbrev or_before : Option ℕ → Option ℕ → Option ℕ
or_before none before = before
or_before (some i) before = some i

-- A record in the plan.
plan_record-last :
    (plan plan' : CompactionPlan) (o : Option Bytes) (k : Bytes)
    → plan_record plan o ≡ some plan'
    → (get plan'.last k ≡ (if is_of k o then some plan.total else get plan.last k))
      × (plan'.total ≡ suc plan.total)
unfolding plan_record planned_null planned_key
plan_record-last plan plan' none k e =
    let q : planned_null plan ≡ plan' = cc in rw (← q) (refl, refl)
plan_record-last plan plan' (some j) k e =
    if_rule
      (λ (x : Option CompactionPlan).
        x ≡ some plan'
        → (get plan'.last k ≡ (if j == k then some plan.total else get plan.last k))
          × (plan'.total ≡ suc plan.total))
      (not (has plan.last j) && ltb compact_max_key_bytes (key_bytes_with plan j))
      (λ b q. absurd (cc q))
      (λ b q.
        let t : planned_key plan j ≡ plan' = cc in
        rw (← t) (get-put plan.last j k plan.total, refl))
      e

or_before-if :
    (o : Option ℕ) (b : Bool) (idx : ℕ) (before : Option ℕ)
    → or_before o (if b then some idx else before)
      ≡ or_before (elim o [ none ↦ if b then some idx else none | some i ↦ some i ]) before
or_before-if none true idx before = refl
or_before-if none false idx before = refl
or_before-if (some i) b idx before = refl

plan_records-last :
    (plan plan' : CompactionPlan) (k : Bytes) (rs : List Record)
    → plan_records plan rs ≡ some plan'
    → get plan'.last k ≡ or_before (last_index k plan.total rs) (get plan.last k)
unfolding plan_records last_index
plan_records-last plan plan' k [] e =
    let q : plan ≡ plan' = cc in ap (λ (p : CompactionPlan). get p.last k) (sym q)
plan_records-last plan plan' k (r ∷ rs) e = elim (Option-cases (plan_record plan r.key)) [
  | inl n ↦ absurd (cc (rw (n, plan_records) at e))
  | inr (plan1, n) ↦
      let e' : plan_records plan1 rs ≡ some plan' = rw (n, plan_records) at e in
      let (g, t) = plan_record-last plan plan1 r.key k n in
      plan_records-last plan1 plan' k rs e'
      ∙ ap (λ i. or_before (last_index k i rs) (get plan1.last k)) t
      ∙ ap (or_before (last_index k (suc plan.total) rs)) g
      ∙ or_before-if (last_index k (suc plan.total) rs) (is_of k r.key) plan.total (get plan.last k)
]

-- The plan says of each key where its last record stands.
abbrev Planned : CompactionPlan → ℕ → List Record → Type 0
Planned plan idx rs = (k : Bytes) (i : ℕ) → last_index k idx rs ≡ some i → get plan.last k ≡ some i

plan_compaction-Planned :
    (plan : CompactionPlan) (rs : List Record) → plan_compaction rs ≡ some plan → Planned plan 0 rs
unfolding plan_compaction get
plan_compaction-Planned plan rs e k i h =
    plan_records-last no_plan plan k rs e ∙ ap (λ (o : Option ℕ). or_before o none) h

Planned-later :
    (plan : CompactionPlan) (idx : ℕ) (r : Record) (rs : List Record)
    → Planned plan idx (r ∷ rs)
    → Planned plan (suc idx) rs
unfolding last_index
Planned-later plan idx r rs h k i e = h k i (rw e refl)

latest-none :
    (k : Bytes) (idx : ℕ) (rs : List Record) → latest k rs ≡ none → last_index k idx rs ≡ none
unfolding latest last_index
latest-none k idx [] e = refl
latest-none k idx (r ∷ rs) e = elim (Option-cases (latest k rs)) [
  | inl n ↦
      let e' : (if is_of k r.key then some r else none) ≡ none = rw (n, latest) at e in
      rw (latest-none k (suc idx) rs n)
        (elim (Bool-cases (is_of k r.key)) [ inl b ↦ absurd (cc (rw b at e')) | inr b ↦ rw b refl ])
  | inr (s, n) ↦ absurd (cc (rw (n, latest) at e))
]

is_at-some : (o : Option ℕ) (idx : ℕ) → is_at o idx ≡ true → o ≡ some idx
is_at-some none idx h = absurd (cc h)
is_at-some (some i) idx h = ap (λ j. some j) (beq→eq i idx h)

-- A record with the key is kept exactly where the plan says that the last one stands.
pub kept-at :
    (plan : CompactionPlan) (idx : ℕ) (o : Option Bytes) (k : Bytes)
    → is_of k o ≡ true
    → kept plan idx o ≡ true
    → get plan.last k ≡ some idx
unfolding kept
kept-at plan idx none k h t = absurd (cc h)
kept-at plan idx (some j) k h t =
    ap (get plan.last) (sym (beq→eq j k h)) ∙ is_at-some (get plan.last j) idx t

at-kept :
    (plan : CompactionPlan) (idx : ℕ) (o : Option Bytes) (k : Bytes)
    → is_of k o ≡ true
    → get plan.last k ≡ some idx
    → kept plan idx o ≡ true
unfolding kept
at-kept plan idx none k h t = absurd (cc h)
at-kept plan idx (some j) k h t =
    let q : get plan.last j ≡ some idx = ap (get plan.last) (beq→eq j k h) ∙ t in
    ap (λ (o : Option ℕ). is_at o idx) q ∙ beq_refl idx

latest-cons :
    (k : Bytes) (r : Record) (xs ys : List Record)
    → latest k xs ≡ latest k ys
    → latest k (r ∷ xs) ≡ latest k (r ∷ ys)
unfolding latest
latest-cons k r xs ys e = rw e refl

dropped-latest :
    (plan : CompactionPlan) (idx : ℕ) (k : Bytes) (r : Record) (rs : List Record)
    → Planned plan idx (r ∷ rs)
    → kept plan idx r.key ≡ false
    → latest k rs ≡ latest k (r ∷ rs)
unfolding latest last_index
dropped-latest plan idx k r rs h b = elim (Option-cases (latest k rs)) [
  | inr (s, n) ↦ rw (n, latest) refl
  | inl n ↦ elim (Bool-cases (is_of k r.key)) [
    | inr f ↦ rw (n, f, latest) refl
    | inl t ↦
        let q : last_index k idx (r ∷ rs) ≡ some idx = rw (latest-none k (suc idx) rs n, t) refl in
        absurd (cc (sym b ∙ at-kept plan idx r.key k t (h k idx q)))
  ]
]

stage_from-latest :
    (plan : CompactionPlan) (idx : ℕ) (k : Bytes) (rs : List Record)
    → Planned plan idx rs
    → latest k (stage_from plan idx rs) ≡ latest k rs
unfolding stage_from
stage_from-latest plan idx k [] h = refl
stage_from-latest plan idx k (r ∷ rs) h =
    let ih = stage_from-latest plan (suc idx) k rs (Planned-later plan idx r rs h) in
    elim (Bool-cases (kept plan idx r.key)) [
      | inl b ↦ rw b (latest-cons k r (stage_from plan (suc idx) rs) rs ih)
      | inr b ↦ rw b (ih ∙ dropped-latest plan idx k r rs h b)
    ]

kept_at_null :
    (plan : CompactionPlan) (idx : ℕ) (o : Option Bytes)
    → elim o [ none ↦ true | some k ↦ false ] ≡ true
    → kept plan idx o ≡ true
unfolding kept
kept_at_null plan idx none q = refl
kept_at_null plan idx (some k) q = absurd (cc q)

stage_from-nulls :
    (plan : CompactionPlan) (idx : ℕ) (rs : List Record)
    → keep is_null (stage_from plan idx rs) ≡ keep is_null rs
unfolding stage_from keep
stage_from-nulls plan idx [] = refl
stage_from-nulls plan idx (r ∷ rs) =
    let ih = stage_from-nulls plan (suc idx) rs in
    elim (Bool-cases (kept plan idx r.key)) [
      | inl b ↦ rw b (ap (λ (t : List Record). if is_null r then r ∷ t else t) ih)
      | inr b ↦ elim (Bool-cases (is_null r)) [
        | inl n ↦ absurd (cc (sym b ∙ kept_at_null plan idx r.key n))
        | inr n ↦ rw (b, n) ih
      ]
    ]

staged-latest :
    (plan : CompactionPlan) (rs : List Record) (k : Bytes)
    → plan_compaction rs ≡ some plan
    → (latest k (staged plan rs) ≡ latest k rs) × (keep is_null (staged plan rs) ≡ keep is_null rs)
unfolding staged
staged-latest plan rs k e =
    if_rule (λ (t : List Record). (latest k t ≡ latest k rs) × (keep is_null t ≡ keep is_null rs))
      (ltb (plan.nulls + length plan.last) plan.total)
      (λ b. (
        stage_from-latest plan 0 k rs (plan_compaction-Planned plan rs e),
        stage_from-nulls plan 0 rs,
      ))
      (λ b. (refl, refl))

-- A compaction that is not stopped by its limit on keys hands on, for each key, the same latest
-- record, and all records without a key, in their order.
pub compacted-latest :
    (rs rs' : List Record) (k : Bytes)
    → compacted rs ≡ some rs'
    → (latest k rs' ≡ latest k rs) × (keep is_null rs' ≡ keep is_null rs)
unfolding compacted
compacted-latest rs rs' k e = elim (Option-cases (plan_compaction rs)) [
  | inl n ↦ absurd (cc (rw (n, compacted) at e))
  | inr (plan, n) ↦
      let e' : some (staged plan rs) ≡ some rs' = rw (n, compacted) at e in
      let q : staged plan rs ≡ rs' = cc in rw (← q) (staged-latest plan rs k n)
]

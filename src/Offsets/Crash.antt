-- ===== src/Offsets/Crash.antt =====
-- A crash in the middle of a commit, and the deletion of a group
-- (internal/coordinator/offset_store.go).
use pocketkafka.Prelude.{
  ℕ, suc, ◌-◌, ◌≤◌, ◌≡◌, refl, ap, sym, ◌∙◌, true, none, some, List, [], ◌∷◌, ◌++◌, arith, Bytes,
  bytes_eq, if_rule, if◌then◌else◌, ◌==◌, length, length-append, take, All, ltb, subst, append-nil,
}
use pocketkafka.Prelude.Dict.{get, remove, get-remove}
use pocketkafka.Wal.{
  WalRecord, encode_batch, encode_wal_record, append_batch, write_file, sync_file, replay, finished,
}
use pocketkafka.Wal.Codec.{IsEncodable}
use pocketkafka.Wal.Torn.{replay-torn, survivors}
use pocketkafka.Offsets.{
  OffsetStore, OffsetCommitRecord, Table, fetch, wal_record_of, wal_records_of, commit_loop,
  commit_batch, append_and_maybe_compact, delete_group, compact, write_snapshot, reset_wal,
  apply_records, count_commits, replayed, opened, open_with, new_offset_store,
}
use pocketkafka.Offsets.Table.{SameOffsets, SameOffsets-commit_loop, apply_records-append}
use pocketkafka.Offsets.Durable.{IsDurable, All-append, encode_batch-append, opened-offsets}

survivors-append :
    (n : ℕ) (xs ys : List WalRecord)
    → length (encode_batch xs) ≤ n
    → survivors n (xs ++ ys) ≡ xs ++ survivors (n - length (encode_batch xs)) ys
unfolding survivors encode_batch
survivors-append n [] ys h = ap (λ k. survivors k ys) (omega arith)
survivors-append n (x ∷ xs) ys h = ground (
  arith,
  length-append (encode_wal_record x) (encode_batch xs),
  survivors-append (n - length (encode_wal_record x)) xs ys,
)

-- What survives of a batch of commits is a prefix of it.
survivors-prefix :
    (n now : ℕ) (rs : List OffsetCommitRecord)
    → (k : ℕ) × (survivors n (wal_records_of now rs) ≡ wal_records_of now (take k rs))
unfolding survivors wal_records_of
survivors-prefix n now [] = (0, refl)
survivors-prefix n now (r ∷ rs) =
    let size = length (encode_wal_record (wal_record_of now r)) in
    let (k, e) = survivors-prefix (n - size) now rs in
    if_rule (λ left. (k : ℕ) × (left ≡ wal_records_of now (take k (r ∷ rs)))) (ltb n size)
      (λ _. (0, refl)) (λ _. (suc k, ap (λ t. wal_record_of now r ∷ t) e))

pub commit_batch-wal :
    (now : ℕ) (rs : List OffsetCommitRecord) (s : OffsetStore)
    → s.file_backed ≡ true
    → (commit_batch now rs s).0.wal ≡ s.wal ++ encode_batch (wal_records_of now rs)
unfolding commit_batch append_and_maybe_compact append_batch write_file sync_file encode_batch
    wal_records_of
commit_batch-wal now [] s f = sym (append-nil s.wal)
commit_batch-wal now (r ∷ rs) s f = ground arith

-- What is left of a log of whole records, with a batch behind it, that is cut in the batch.
replay-commit_batch :
    (n now : ℕ) (rs : List OffsetCommitRecord) (s : OffsetStore) (d : IsDurable s)
    → s.file_backed ≡ true
    → All IsEncodable (wal_records_of now rs)
    → length s.wal ≤ n
    → (k : ℕ) × (replay (take n (commit_batch now rs s).0.wal)
        ≡ finished (d.records ++ wal_records_of now (take k rs)))
replay-commit_batch n now rs s d f v h =
    let batch = wal_records_of now rs in
    let logged : (commit_batch now rs s).0.wal ≡ encode_batch (d.records ++ batch) =
      commit_batch-wal now rs s f
      ∙ ap (λ w. w ++ encode_batch batch) d.logged
      ∙ sym (encode_batch-append d.records batch) in
    let h' : length (encode_batch d.records) ≤ n = subst (λ w. length w ≤ n) d.logged h in
    let (k, e) = survivors-prefix (n - length (encode_batch d.records)) now rs in
    (
      k,
      ap (λ w. replay (take n w)) logged
          ∙ replay-torn n (d.records ++ batch) (All-append d.records batch d.encodable v)
          ∙ ap finished (survivors-append n d.records batch h' ∙ ap (λ t. d.records ++ t) e),
    )

-- A crash cuts the log anywhere in the bytes that a commit of encodable offsets has added to it, in a
-- store with the file backend that was durable: the restart succeeds, and every fetch has the answer
-- that it would have had after the commit of a prefix of the batch.
pub crash_in_commit :
    (now n : ℕ) (rs : List OffsetCommitRecord) (s : OffsetStore)
    → s.file_backed ≡ true
    → IsDurable s
    → All IsEncodable (wal_records_of now rs)
    → length s.wal ≤ n
    → (s' : OffsetStore) × (k : ℕ) × (new_offset_store s.snapshot
          (take n (commit_batch now rs s).0.wal)
        ≡ some s')
      × SameOffsets s'.offsets (commit_loop now (take k rs) s.offsets)
unfolding new_offset_store open_with replayed
crash_in_commit now n rs s f d v h =
    let wal = take n (commit_batch now rs s).0.wal in
    let (k, found) = replay-commit_batch n now rs s d f v h in
    let rs' = d.records ++ wal_records_of now (take k rs) in
    let same : SameOffsets (apply_records s.snapshot rs') (commit_loop now (take k rs) s.offsets) =
      subst (λ x. SameOffsets x (commit_loop now (take k rs) s.offsets))
        (sym (apply_records-append s.snapshot d.records (wal_records_of now (take k rs))))
        (SameOffsets-commit_loop now (take k rs) d.same) in
    (
      opened s.snapshot wal (apply_records s.snapshot rs', count_commits rs'),
      k,
      ap (λ x. open_with s.snapshot wal (replayed s.snapshot x)) found,
      record {
        at = λ g t p. ap (λ x. fetch x g t p) (opened-offsets s.snapshot wal _ _) ∙ same.at g t p;
      },
    )

delete_group-offsets :
    (group : Bytes) (s : OffsetStore) → (delete_group group s).offsets ≡ remove s.offsets group
unfolding delete_group compact write_snapshot reset_wal
delete_group-offsets group s = ground arith

fetch-remove :
    (table : Table) (group g t : Bytes) (p : ℕ)
    → fetch (remove table group) g t p ≡ (if group == g then none else fetch table g t p)
unfolding fetch get
fetch-remove table group g t p = ground (arith, get-remove table group g)

-- A deleted group has no committed offset, and every other group keeps its own.
pub fetch-delete_group :
    (group : Bytes) (s : OffsetStore) (g t : Bytes) (p : ℕ)
    → fetch (delete_group group s).offsets g t p
      ≡ (if group == g then none else fetch s.offsets g t p)
fetch-delete_group group s g t p =
    ap (λ x. fetch x g t p) (delete_group-offsets group s) ∙ fetch-remove s.offsets group g t p

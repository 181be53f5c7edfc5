-- ===== src/Offsets/Lost.antt =====
-- A commit behind what a crash has left of another one (internal/coordinator/offset_store.go): a
-- restart does not cut the log back to its whole records.
use pocketkafka.Prelude.{
  ℕ, ◌+◌, ◌≤◌, ◌<◌, ◌≡◌, refl, ap, sym, ◌∙◌, true, some, List, [], ◌∷◌, ◌++◌, arith, Bytes, length,
  take, append_assoc, append-nil, subst,
}
use pocketkafka.Wal.{WalRecord, encode_batch, encode_wal_record, replay, finished}
use pocketkafka.Wal.Codec.{IsEncodable}
use pocketkafka.Wal.Behind.{replay-behind_torn}
use pocketkafka.Offsets.{
  OffsetStore, OffsetCommitRecord, Table, fetch, wal_compact_threshold, wal_records_of,
  commit_batch, append_and_maybe_compact, apply_records, count_commits, replayed, maybe_compact,
  opened, open_with, new_offset_store,
}
use pocketkafka.Offsets.Table.{SameOffsets}
use pocketkafka.Offsets.Durable.{IsDurable, opened-offsets}
use pocketkafka.Offsets.Crash.{commit_batch-wal}

-- A restart on a log with few commits leaves the files as they are.
opened-files :
    (snapshot : Table) (wal : Bytes) (table : Table) (n : ℕ)
    → n < wal_compact_threshold
    → ((opened snapshot wal (table, n)).file_backed ≡ true)
      × ((opened snapshot wal (table, n)).wal ≡ wal)
      × ((opened snapshot wal (table, n)).snapshot ≡ snapshot)
unfolding opened maybe_compact
opened-files snapshot wal table n h = ground arith

commit_batch-snapshot :
    (now : ℕ) (rs : List OffsetCommitRecord) (s : OffsetStore)
    → (commit_batch now rs s).0.snapshot ≡ s.snapshot
unfolding commit_batch append_and_maybe_compact
commit_batch-snapshot now [] s = refl
commit_batch-snapshot now (r ∷ rs) s = ground arith

-- A restart on a log whose replay gives the records of a durable store finds its offsets.
reopened :
    (s : OffsetStore) (d : IsDurable s) (snapshot : Table) (wal : Bytes)
    → snapshot ≡ s.snapshot
    → replay wal ≡ finished d.records
    → (s' : OffsetStore) × (new_offset_store snapshot wal ≡ some s')
      × SameOffsets s'.offsets s.offsets
unfolding new_offset_store open_with replayed
reopened s d snapshot wal e found =
    let same : SameOffsets (apply_records snapshot d.records) s.offsets =
      subst (λ t. SameOffsets (apply_records t d.records) s.offsets) (sym e) d.same in
    (
      opened snapshot wal (apply_records snapshot d.records, count_commits d.records),
      ap (λ x. open_with snapshot wal (replayed snapshot x)) found,
      record {
        at = λ g t p. ap (λ x. fetch x g t p) (opened-offsets snapshot wal _ _) ∙ same.at g t p;
      },
    )

-- A crash leaves on the log of a durable store, which holds fewer commits than a compaction takes,
-- the first bytes of a record, its length among them. The restart succeeds; but a batch that is then
-- committed, whose records have fewer bytes than that record misses, is not found by the next
-- restart: every fetch has the answer it had before the commit.
pub commit_behind_torn-lost :
    (now n : ℕ) (r : WalRecord) (rs : List OffsetCommitRecord) (s : OffsetStore) (d : IsDurable s)
    → count_commits d.records < wal_compact_threshold
    → IsEncodable r
    → 4 ≤ n
    → n + length (encode_batch (wal_records_of now rs)) < length (encode_wal_record r)
    → (s' : OffsetStore) × (s'' : OffsetStore) × (new_offset_store s.snapshot
          (s.wal ++ take n (encode_wal_record r))
        ≡ some s')
      × (new_offset_store (commit_batch now rs s').0.snapshot (commit_batch now rs s').0.wal
          ≡ some s'')
      × SameOffsets s''.offsets s.offsets
unfolding new_offset_store open_with replayed
commit_behind_torn-lost now n r rs s d c v h k =
    let torn = take n (encode_wal_record r) in
    let batch = encode_batch (wal_records_of now rs) in
    let left = s.wal ++ torn in
    let s' = opened s.snapshot left (apply_records s.snapshot d.records, count_commits d.records) in
    let (backed, wal, snapshot) =
      opened-files s.snapshot left (apply_records s.snapshot d.records) (count_commits d.records)
        c in
    let first : replay left ≡ finished d.records =
      ap (λ w. replay (w ++ torn)) d.logged
      ∙ ap (λ w. replay (encode_batch d.records ++ w)) (sym (append-nil torn))
      ∙ replay-behind_torn n d.records r [] d.encodable v h (omega arith) in
    let second : replay (commit_batch now rs s').0.wal ≡ finished d.records =
      ap replay (
        commit_batch-wal now rs s' backed
        ∙ ap (λ w. w ++ batch) (wal ∙ ap (λ w. w ++ torn) d.logged)
        ∙ append_assoc (encode_batch d.records) torn batch)
      ∙ replay-behind_torn n d.records r batch d.encodable v h k in
    let (s'', e, same) =
      reopened s d (commit_batch now rs s').0.snapshot (commit_batch now rs s').0.wal
        (commit_batch-snapshot now rs s' ∙ snapshot) second in
    (s', s'', ap (λ x. open_with s.snapshot left (replayed s.snapshot x)) first, e, same)

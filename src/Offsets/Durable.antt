-- ===== src/Offsets/Durable.antt =====
-- What a restart finds where the files hold the committed offsets that are in memory
-- (internal/coordinator/offset_store.go).
use pocketkafka.Prelude.{
  ℕ, ◌≡◌, refl, ap, sym, ◌∙◌, Bool, true, some, List, [], ◌∷◌, ◌++◌, arith, Bytes, bytes_eq, nat_eq,
  if_rule, length, take, append_assoc, append-nil, take-append_left, All,
}
use pocketkafka.Wal.{
  write_file, sync_file, WalRecord, encode_batch, append_batch, replay, finished, encode_wal_record,
}
use pocketkafka.Wal.Codec.{IsEncodable}
use pocketkafka.Wal.Torn.{replay-torn, survivors_all}
use pocketkafka.Offsets.{
  OffsetStore, OffsetCommitRecord, Table, fetch, wal_records_of, commit_loop,
  append_and_maybe_compact, commit_batch, write_snapshot, reset_wal, compact, apply_records,
  count_commits, replayed, maybe_compact, opened, open_with, new_offset_store,
}
use pocketkafka.Offsets.Table.{SameOffsets, SameOffsets-commit_loop, apply_records-append}

pub encode_batch-append :
    (xs ys : List WalRecord) → encode_batch (xs ++ ys) ≡ encode_batch xs ++ encode_batch ys
unfolding encode_batch
encode_batch-append [] ys = refl
encode_batch-append (x ∷ xs) ys =
    ap (λ bs. encode_wal_record x ++ bs) (encode_batch-append xs ys)
    ∙ sym (append_assoc (encode_wal_record x) (encode_batch xs) (encode_batch ys))

-- The log holds whole encodable records, and over the snapshot they give the table in memory.
pub record IsDurable (s : OffsetStore) : Type 0 where
  pub records : List WalRecord
  pub encodable : All IsEncodable records
  pub logged : s.wal ≡ encode_batch records
  pub same : SameOffsets (apply_records s.snapshot records) s.offsets

pub All-append :
    (xs ys : List WalRecord) → All IsEncodable xs → All IsEncodable ys → All IsEncodable (xs ++ ys)
All-append [] ys h k = k
All-append (x ∷ xs) ys h k = (h.0, All-append xs ys h.1 k)

-- A log of whole encodable records is replayed to them.
replay-encode_batch :
    (rs : List WalRecord) → All IsEncodable rs → replay (encode_batch rs) ≡ finished rs
replay-encode_batch rs v =
    ap replay (
      sym (take-append_left (encode_batch rs) [] ∙ refl)
      ∙ ap (take (length (encode_batch rs))) (append-nil (encode_batch rs)))
    ∙ replay-torn (length (encode_batch rs)) rs v
    ∙ ap finished (survivors_all (length (encode_batch rs)) rs (omega arith))

append-IsDurable :
    (now : ℕ) (r : OffsetCommitRecord) (rs : List OffsetCommitRecord) (s : OffsetStore)
    → All IsEncodable (wal_records_of now (r ∷ rs))
    → IsDurable s
    → IsDurable
        (append_and_maybe_compact
          (wal_records_of now (r ∷ rs))
          (record s { offsets = commit_loop now (r ∷ rs) s.offsets })).0
unfolding append_and_maybe_compact append_batch write_file sync_file wal_records_of
append-IsDurable now r rs s v d = record {
  records = d.records ++ wal_records_of now (r ∷ rs);
  encodable = All-append d.records _ d.encodable v;
  logged =
      ap (λ w. w ++ encode_batch (wal_records_of now (r ∷ rs))) d.logged
      ∙ sym (encode_batch-append d.records (wal_records_of now (r ∷ rs)));
  same = rw apply_records-append (SameOffsets-commit_loop now (r ∷ rs) d.same);
}

-- The store is durable, and the log's bytes are all on disk.
pub record IsOnDisk (s : OffsetStore) : Type 0 where
  pub durable : IsDurable s
  pub synced : s.wal_synced ≡ length s.wal

append-synced :
    (now : ℕ) (r : OffsetCommitRecord) (rs : List OffsetCommitRecord) (s : OffsetStore)
    → (append_and_maybe_compact (wal_records_of now (r ∷ rs)) s).0.wal_synced
      ≡ length (append_and_maybe_compact (wal_records_of now (r ∷ rs)) s).0.wal
unfolding append_and_maybe_compact append_batch write_file sync_file wal_records_of
append-synced now r rs s = refl

-- A commit of encodable offsets, in a store with the file backend whose files gave back its offsets
-- and whose log was all on disk, leaves it so when it returns: the files give back the offsets with
-- the batch, and a sync has put every byte of the log on disk.
pub commit_batch-IsOnDisk :
    (now : ℕ) (rs : List OffsetCommitRecord) (s : OffsetStore)
    → s.file_backed ≡ true
    → All IsEncodable (wal_records_of now rs)
    → IsOnDisk s
    → IsOnDisk (commit_batch now rs s).0
unfolding commit_batch
commit_batch-IsOnDisk now [] s f v d = d
commit_batch-IsOnDisk now (r ∷ rs) s f v d =
    if_rule (λ (x : OffsetStore × Bool). IsOnDisk x.0) s.file_backed
      (λ e. record {
        durable = append-IsDurable now r rs s v d.durable;
        synced = append-synced now r rs (record s { offsets = commit_loop now (r ∷ rs) s.offsets });
      })
      (λ e. absurd (cc (f, e)))

pub opened-offsets :
    (snapshot : Table) (wal : Bytes) (table : Table) (n : ℕ)
    → (opened snapshot wal (table, n)).offsets ≡ table
unfolding opened maybe_compact compact write_snapshot reset_wal
opened-offsets snapshot wal table n = ground arith

-- A restart on a log of whole encodable records succeeds, with the table that the records give over
-- the snapshot.
pub new_offset_store-encode_batch :
    (snapshot table : Table) (wal : Bytes) (rs : List WalRecord)
    → wal ≡ encode_batch rs
    → All IsEncodable rs
    → SameOffsets (apply_records snapshot rs) table
    → (s' : OffsetStore) × (new_offset_store snapshot wal ≡ some s') × SameOffsets s'.offsets table
unfolding new_offset_store open_with replayed
new_offset_store-encode_batch snapshot table wal rs logged encodable same =
    let found : replay wal ≡ finished rs = ap replay logged ∙ replay-encode_batch rs encodable in
    (
      opened snapshot wal (apply_records snapshot rs, count_commits rs),
      ap (λ x. open_with snapshot wal (replayed snapshot x)) found,
      record {
        at = λ g t p. ap (λ x. fetch x g t p) (opened-offsets snapshot wal _ _) ∙ same.at g t p;
      },
    )

-- ===== src/Commits/Fences.antt =====
-- Which commits a group lets through, and what a fetch finds after them
-- (internal/coordinator/group.go).
use pocketkafka.Prelude.{
  ℕ, ◌≡◌, refl, ap, ◌∙◌, Bool, true, false, some, List, [], ◌∷◌, ◌++◌, Bytes, bytes_eq, arith, All,
  if_rule, beq_refl, nat_eq,
}
use pocketkafka.Prelude.Ints.{pos, leb_ℤ, int_eq}
use pocketkafka.Wal.Codec.{IsEncodable}
use pocketkafka.Group.{Group}
use pocketkafka.Group.Fencing.{is_err_none, is_current}
use pocketkafka.Offsets.{
  OffsetStore, OffsetCommitRecord, fetch, stamped, commit_batch, commit_loop,
  append_and_maybe_compact, wal_records_of,
}
use pocketkafka.Offsets.Table.{fetch-put_offset}
use pocketkafka.Offsets.Durable.{IsOnDisk, commit_batch-IsOnDisk}
use pocketkafka.Commits.{
  OffsetCommitRequest, OffsetCommitRequestPartition, OffsetFetchRequest, fence_error,
  partition_records, commit_records, topic_answers, offset_commit, lookups, fetched,
  fetch_partitions, fetch_topics, offset_fetch,
}

-- A commit with a generation that is not negative is let through exactly for a member of the group
-- that sends the group's generation while no rebalance is being prepared; any other such commit
-- leaves the store as it is, and every partition's answer has the fence's error.
pub offset_commit-accepts :
    (now : ℕ) (req : OffsetCommitRequest) (g : Group) (s : OffsetStore)
    → leb_ℤ (pos 0) req.generation ≡ true
    → (is_err_none (fence_error req g) ≡ is_current req.member_id req.generation g)
      × (is_current req.member_id req.generation g ≡ false → (offset_commit now req g s).0.0 ≡ s)
      × ((offset_commit now req g s).1.topics ≡ topic_answers (fence_error req g) req.topics)
unfolding offset_commit fence_error
offset_commit-accepts now req g s h = ground arith

-- OffsetCommit keeps a store with the file backend, and all of it on disk, on disk where the offsets that it brings are
-- encodable.
pub offset_commit-IsOnDisk :
    (now : ℕ) (req : OffsetCommitRequest) (g : Group) (s : OffsetStore)
    → s.file_backed ≡ true
    → All IsEncodable (wal_records_of now (commit_records req.group req.topics))
    → IsOnDisk s
    → IsOnDisk (offset_commit now req g s).0.0
unfolding offset_commit
offset_commit-IsOnDisk now req g s f v d =
    if_rule (λ (x : OffsetStore × Bool). IsOnDisk x.0) (is_err_none (fence_error req g))
      (λ e. commit_batch-IsOnDisk now (commit_records req.group req.topics) s f v d) (λ e. d)

commit_batch-offsets :
    (now : ℕ) (rs : List OffsetCommitRecord) (s : OffsetStore)
    → (commit_batch now rs s).0.offsets ≡ commit_loop now rs s.offsets
unfolding commit_batch append_and_maybe_compact commit_loop
commit_batch-offsets now [] s = refl
commit_batch-offsets now (r ∷ rs) s = ground arith

fetch-commit_one :
    (now : ℕ) (group topic : Bytes) (p : OffsetCommitRequestPartition) (s : OffsetStore)
    → fetch
        (commit_batch now (partition_records group topic (p ∷ []) ++ []) s).0.offsets
        group
        topic
        p.partition
      ≡ some (
          stamped now (record {
            offset = p.offset;
            metadata = p.metadata;
            leader_epoch = p.leader_epoch;
            updated_at = 0;
          }))
unfolding partition_records commit_loop
fetch-commit_one now group topic p s =
    ap (λ table. fetch table group topic p.partition) (commit_batch-offsets now _ s)
    ∙ fetch-put_offset s.offsets group topic p.partition _ group topic p.partition
    ∙ ground (arith, beq_refl group, beq_refl topic)

-- An offset that an accepted commit of one partition brings is what a fetch of that partition of the
-- same group then answers.
pub offset_fetch-offset_commit :
    (now : ℕ) (req : OffsetCommitRequest) (freq : OffsetFetchRequest) (topic : Bytes)
    (p : OffsetCommitRequestPartition) (g : Group) (s : OffsetStore)
    → is_err_none (fence_error req g) ≡ true
    → req.topics ≡ record { topic = topic; partitions = p ∷ [] } ∷ []
    → freq.group ≡ req.group
    → freq.topics ≡ some (record { topic = topic; partitions = p.partition ∷ [] } ∷ [])
    → offset_fetch freq (offset_commit now req g s).0.0
      ≡ record {
        topic = topic;
        partitions =
            record {
              partition = p.partition;
              offset = p.offset;
              leader_epoch = p.leader_epoch;
              metadata = p.metadata;
            }
            ∷ [];
      }
        ∷ []
unfolding offset_commit offset_fetch lookups fetch_topics fetch_partitions fetched commit_records
    stamped
offset_fetch-offset_commit now req freq topic p g s e t same q =
    rw e (rw t (rw same (rw q (rw (fetch-commit_one now req.group topic p s)))))

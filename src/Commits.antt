-- ===== src/Commits.antt =====
-- OffsetCommit and OffsetFetch (internal/coordinator/group.go): the requests by which the members of a
-- group write and read the store of committed offsets. As in the store, an int32 or an int64 of an
-- offset is its bit pattern, and a commit that fails on disk is not modelled.
pub mod Fences
use pocketkafka.Prelude.{
  ℕ, Bool, true, false, not, Option, none, some, List, [], ◌∷◌, ◌++◌, Bytes, bytes_eq, nat_eq, ◌==◌,
  if◌then◌else◌,
}
use pocketkafka.Prelude.Ints.{ℤ, pos, leb_ℤ, int_eq}
use pocketkafka.Prelude.Dict.{get, has, keys}
use pocketkafka.Group.{Group, is_preparing}
use pocketkafka.Group.Messages.{
  ErrorCode, err_none, err_rebalance_in_progress, err_unknown_member_id, err_illegal_generation,
}
use pocketkafka.Group.Fencing.{is_err_none}
use pocketkafka.Offsets.{
  CommittedOffset, OffsetStore, OffsetCommitRecord, Table, or_new, fetch, commit_batch,
}

pub record OffsetCommitRequestPartition : Type 0 where
  pub partition : ℕ
  pub offset : ℕ
  pub leader_epoch : ℕ
  pub metadata : Option Bytes

pub record OffsetCommitRequestTopic : Type 0 where
  pub topic : Bytes
  pub partitions : List OffsetCommitRequestPartition

pub record OffsetCommitRequest : Type 0 where
  pub version : ℕ
  pub group : Bytes
  pub generation : ℤ
  pub member_id : Bytes
  pub instance_id : Option Bytes
  pub topics : List OffsetCommitRequestTopic

pub record OffsetCommitResponsePartition : Type 0 where
  pub partition : ℕ
  pub error_code : ErrorCode

pub record OffsetCommitResponseTopic : Type 0 where
  pub topic : Bytes
  pub partitions : List OffsetCommitResponsePartition

pub record OffsetCommitResponse : Type 0 where
  pub version : ℕ
  pub topics : List OffsetCommitResponseTopic

-- The fence of OffsetCommit: a negative generation is that of a client outside the group's protocol.
unfoldable pub fence_error : OffsetCommitRequest → Group → ErrorCode
fence_error req g =
    if not (leb_ℤ (pos 0) req.generation)
    then err_none
    else if is_preparing g.state
    then err_rebalance_in_progress
    else if not (has g.members req.member_id)
    then err_unknown_member_id
    else if not (req.generation == g.generation)
    then err_illegal_generation
    else err_none

unfoldable pub partition_records :
    Bytes → Bytes → List OffsetCommitRequestPartition → List OffsetCommitRecord
partition_records group topic [] = []
partition_records group topic (p ∷ ps) =
    record {
      group = group;
      topic = topic;
      partition = p.partition;
      offset = record {
        offset = p.offset;
        metadata = p.metadata;
        leader_epoch = p.leader_epoch;
        updated_at = 0;
      };
    }
    ∷ partition_records group topic ps

-- The records of the request, in its order.
unfoldable pub commit_records : Bytes → List OffsetCommitRequestTopic → List OffsetCommitRecord
unfolding partition_records
commit_records group [] = []
commit_records group (t ∷ ts) =
    partition_records group t.topic t.partitions ++ commit_records group ts

unfoldable pub partition_answers :
    ErrorCode → List OffsetCommitRequestPartition → List OffsetCommitResponsePartition
partition_answers e [] = []
partition_answers e (p ∷ ps) =
    record { partition = p.partition; error_code = e } ∷ partition_answers e ps

unfoldable pub topic_answers :
    ErrorCode → List OffsetCommitRequestTopic → List OffsetCommitResponseTopic
unfolding partition_answers
topic_answers e [] = []
topic_answers e (t ∷ ts) =
    record { topic = t.topic; partitions = partition_answers e t.partitions } ∷ topic_answers e ts

-- OffsetCommit at the clock's reading `now`, with the store after it and whether it starts a
-- compaction.
unfoldable pub offset_commit :
    ℕ → OffsetCommitRequest → Group → OffsetStore → (OffsetStore × Bool) × OffsetCommitResponse
offset_commit now req g s =
    let e = fence_error req g in
    (
      if is_err_none e
          then commit_batch now (commit_records req.group req.topics) s
          else (s, false),
      record { version = req.version; topics = topic_answers e req.topics },
    )

pub record OffsetFetchRequestTopic : Type 0 where
  pub topic : Bytes
  pub partitions : List ℕ

-- `topics` is `none` in a request for all the topics of the group.
pub record OffsetFetchRequest : Type 0 where
  pub version : ℕ
  pub group : Bytes
  pub topics : Option (List OffsetFetchRequestTopic)

pub record OffsetFetchResponsePartition : Type 0 where
  pub partition : ℕ
  pub offset : ℕ
  pub leader_epoch : ℕ
  pub metadata : Option Bytes

pub record OffsetFetchResponseTopic : Type 0 where
  pub topic : Bytes
  pub partitions : List OffsetFetchResponsePartition

-- OffsetStore.GroupTopics
unfoldable pub group_topics : Table → Bytes → List Bytes
group_topics table group = keys (or_new (get table group))

-- OffsetStore.Partitions
unfoldable pub partitions_of : Table → Bytes → Bytes → List ℕ
partitions_of table group topic = keys (or_new (get (or_new (get table group)) topic))

unfoldable pub lookups_of : Table → Bytes → List Bytes → List OffsetFetchRequestTopic
unfolding partitions_of
lookups_of table group [] = []
lookups_of table group (t ∷ ts) =
    record { topic = t; partitions = partitions_of table group t } ∷ lookups_of table group ts

-- What OffsetFetch looks up.
unfoldable pub lookups : Table → OffsetFetchRequest → List OffsetFetchRequestTopic
unfolding group_topics lookups_of
lookups table req = elim req.topics [
  | none ↦ lookups_of table req.group (group_topics table req.group)
  | some ts ↦ ts
]

-- The answer for one partition: -1 and -1 where nothing has been committed.
unfoldable pub fetched : ℕ → Option CommittedOffset → OffsetFetchResponsePartition
fetched p none = record {
  partition = p;
  offset = 0xffffffffffffffff;
  leader_epoch = 0xffffffff;
  metadata = none;
}
fetched p (some off) = record {
  partition = p;
  offset = off.offset;
  leader_epoch = off.leader_epoch;
  metadata = off.metadata;
}

unfoldable pub fetch_partitions : Table → Bytes → Bytes → List ℕ → List OffsetFetchResponsePartition
unfolding fetched
fetch_partitions table group topic [] = []
fetch_partitions table group topic (p ∷ ps) =
    fetched p (fetch table group topic p) ∷ fetch_partitions table group topic ps

unfoldable pub fetch_topics :
    Table → Bytes → List OffsetFetchRequestTopic → List OffsetFetchResponseTopic
unfolding fetch_partitions
fetch_topics table group [] = []
fetch_topics table group (t ∷ ts) =
    record { topic = t.topic; partitions = fetch_partitions table group t.topic t.partitions }
    ∷ fetch_topics table group ts

-- OffsetFetch: the topics of its answer.
unfoldable pub offset_fetch : OffsetFetchRequest → OffsetStore → List OffsetFetchResponseTopic
unfolding lookups fetch_topics
offset_fetch req s = fetch_topics s.offsets req.group (lookups s.offsets req)

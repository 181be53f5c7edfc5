-- ===== src/Examples/Requests.antt =====
-- The theorems on commits and on the table of groups (internal/coordinator/group.go).
use pocketkafka.Prelude.{◌≡◌, refl, false, none, some, [], ◌∷◌, Bytes, bytes_eq, arith, All}
use pocketkafka.Prelude.Ints.{pos, int_eq}
use pocketkafka.Prelude.Tests.{bytes_beq}
use pocketkafka.Prelude.Decimal.{decimal}
use pocketkafka.Group.Join.{member_name}
use pocketkafka.Prelude.Dict.{has}
use pocketkafka.Wal.Codec.{IsEncodable}
use pocketkafka.Group.{new_group}
use pocketkafka.Group.Fencing.{is_err_none, is_current}
use pocketkafka.Offsets.{wal_records_of, wal_record_of, stamped}
use pocketkafka.Commits.{
  OffsetCommitRequest, OffsetCommitRequestPartition, OffsetFetchRequest, fence_error,
  commit_records, partition_records, topic_answers, offset_commit, offset_fetch,
}
use pocketkafka.Commits.Fences.{offset_commit-accepts, offset_fetch-offset_commit}
use pocketkafka.Manager.{GroupManager}
use pocketkafka.Examples.Groups.{alice, group_of_two, group_waiting}
use pocketkafka.Examples.Stores.{group, topic, store}

abbrev part : OffsetCommitRequestPartition
part = record { partition = 3; offset = 77; leader_epoch = 2; metadata = none }

abbrev commit_request : OffsetCommitRequest
commit_request = record {
  version = 7;
  group = 103 ∷ [];
  generation = pos 2;
  member_id = alice;
  instance_id = none;
  topics = record { topic = topic; partitions = part ∷ [] } ∷ [];
}

abbrev fetch_request : OffsetFetchRequest
fetch_request = record {
  version = 5;
  group = 103 ∷ [];
  topics = some (record { topic = topic; partitions = 3 ∷ [] } ∷ []);
}

offset_commit-accepts_example :
    (is_err_none (fence_error commit_request group_waiting)
      ≡ is_current alice (pos 2) group_waiting)
    × (is_current alice (pos 2) group_waiting ≡ false
        → (offset_commit 1000 commit_request group_waiting store).0.0 ≡ store)
    × ((offset_commit 1000 commit_request group_waiting store).1.topics
        ≡ topic_answers (fence_error commit_request group_waiting) commit_request.topics)
offset_commit-accepts_example = offset_commit-accepts 1000 commit_request group_waiting store refl

request-IsEncodable :
    All IsEncodable (wal_records_of 1000 (commit_records (103 ∷ []) commit_request.topics))
unfolding wal_records_of wal_record_of stamped commit_records partition_records
request-IsEncodable = (
  record {
    group = omega arith;
    topic = omega arith;
    partition = omega arith;
    offset = omega arith;
    leader_epoch = omega arith;
    metadata = λ s e. ground arith;
    timestamp = omega arith;
  },
  tt,
)

offset_fetch-offset_commit_example :
    offset_fetch fetch_request (offset_commit 1000 commit_request group_of_two store).0.0
    ≡ record {
      topic = topic;
      partitions = record { partition = 3; offset = 77; leader_epoch = 2; metadata = none } ∷ [];
    }
      ∷ []
unfolding fence_error has bytes_beq member_name decimal
offset_fetch-offset_commit_example =
    offset_fetch-offset_commit 1000 commit_request fetch_request topic part group_of_two store refl
      refl refl refl

abbrev other_group : Bytes
other_group = 104 ∷ []

abbrev manager : GroupManager
manager = record {
  groups = (group, new_group group) ∷ (other_group, group_of_two) ∷ [];
  offsets = store;
  default_session = pos 10000;
}

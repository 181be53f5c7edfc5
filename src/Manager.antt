-- ===== src/Manager.antt =====
-- The table of groups (GroupManager in internal/coordinator/group.go), each operation run by itself. The
-- handlers that wait while their group is deleted keep it; they are not modelled here.
pub mod Deletion
pub mod Listing
use pocketkafka.Prelude.{
  ℕ, ◌+◌, Bool, true, false, Option, none, some, List, [], ◌∷◌, ltb, Bytes, bytes_eq, nat_eq, ◌==◌,
  if◌then◌else◌, length,
}
use pocketkafka.Prelude.Ints.{ℤ, pos}
use pocketkafka.Prelude.Dict.{Dict, get, has, put, remove, keys}
use pocketkafka.Group.{Group, empty, new_group}
use pocketkafka.Group.Leave.{reap_expired}
use pocketkafka.Offsets.{Parts, Topics, Table, OffsetStore, or_new, commit_batch, delete_group}

pub record GroupManager : Type 0 where
  pub groups : Dict Bytes Group
  pub offsets : OffsetStore
  pub default_session : ℤ

abbrev pub live : Option Group → Option Group
live none = none
live (some g) = if g.deleted then none else some g

-- GroupManager.get
unfoldable pub get_group : Bytes → GroupManager → Option Group
get_group name m = live (get m.groups name)

-- GroupManager.getOrCreate
unfoldable pub get_or_create : Bytes → GroupManager → GroupManager × Group
get_or_create name m = elim (get_group name m) [
  | none ↦ (record m { groups = put m.groups name (new_group name) }, new_group name)
  | some g ↦ (m, g)
]

-- ListGroupIDs
unfoldable pub list_group_ids : GroupManager → List Bytes
list_group_ids m = keys m.groups

-- GroupExists
unfoldable pub group_exists : Bytes → GroupManager → Bool
group_exists name m = has m.groups name

-- The group that DeleteGroup leaves to those that still hold it.
unfoldable pub cleared : Group → Group
cleared g = record g {
  state = empty;
  generation = pos 0;
  leader_id = [];
  members = [];
  join_order = [];
  assignments = [];
  joined = [];
  deleted = true;
}

pub data Deleted : Type 0 where
  absent non_empty_group : Deleted
  removed : Group → Deleted

unfoldable pub delete_found : Bytes → Group → GroupManager → GroupManager × Deleted
unfolding cleared
delete_found name g m = if ltb 0 (length g.members) then (m, non_empty_group) else (
  record m { groups = remove m.groups name; offsets = delete_group name m.offsets },
  removed (cleared g),
)

-- GroupManager.DeleteGroup
unfoldable pub delete_named : Bytes → GroupManager → GroupManager × Deleted
delete_named name m = elim (get m.groups name) [
  | none ↦ (m, absent)
  | some g ↦ delete_found name g m
]

-- ResetOffsets: a commit without metadata or epoch, with whether it starts a compaction.
unfoldable pub reset_offsets : ℕ → Bytes → Bytes → ℕ → ℕ → GroupManager → GroupManager × Bool
reset_offsets now group topic partition offset m =
    let (s, compacts) =
      commit_batch now
        (record {
          group = group;
          topic = topic;
          partition = partition;
          offset = record { offset = offset; metadata = none; leader_epoch = 0; updated_at = 0 };
        }
          ∷ [])
        m.offsets in
    (record m { offsets = s }, compacts)

abbrev pub reaped_with :
    Bytes → Option (Group × ℕ) → Option (Dict Bytes Group × ℕ) → Option (Dict Bytes Group × ℕ)
reaped_with name none rest = none
reaped_with name (some x) none = none
reaped_with name (some (g, n)) (some (gs, k)) = some ((name, g) ∷ gs, n + k)

-- ReapExpiredSessions over the groups, with the number of members removed; `none` stands for a panic.
unfoldable pub reap_groups : ℕ → ℤ → Dict Bytes Group → Option (Dict Bytes Group × ℕ)
reap_groups now d [] = some ([], 0)
reap_groups now d ((name, g) ∷ gs) = reaped_with name (reap_expired now d g) (reap_groups now d gs)

-- The offsets of a table of partitions.
unfoldable pub offsets_of : Parts → Dict ℕ ℕ
offsets_of [] = []
offsets_of ((p, off) ∷ ps) = (p, off.offset) ∷ offsets_of ps

unfoldable pub topic_offsets : Topics → Dict Bytes (Dict ℕ ℕ)
unfolding offsets_of
topic_offsets [] = []
topic_offsets ((t, ps) ∷ ts) = (t, offsets_of ps) ∷ topic_offsets ts

-- OffsetStore.GroupOffsets, for GroupOffsetsSnapshot
unfoldable pub group_offsets : Table → Bytes → Dict Bytes (Dict ℕ ℕ)
unfolding topic_offsets
group_offsets table group = topic_offsets (or_new (get table group))

-- OffsetStore.Groups
unfoldable pub groups_of : Table → List Bytes
groups_of table = keys table

unfoldable pub committed_loop : Table → List Bytes → Dict Bytes (Dict Bytes (Dict ℕ ℕ))
unfolding group_offsets
committed_loop table [] = []
committed_loop table (g ∷ gs) =
    let rest = committed_loop table gs in
    if length (group_offsets table g) == 0 then rest else (g, group_offsets table g) ∷ rest

-- CommittedGroups
unfoldable pub committed_groups : GroupManager → Dict Bytes (Dict Bytes (Dict ℕ ℕ))
unfolding groups_of committed_loop
committed_groups m = committed_loop m.offsets.offsets (groups_of m.offsets.offsets)

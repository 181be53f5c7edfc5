-- ===== src/Group/Sync.antt =====
-- SyncGroup, cut at the places where it waits, and Heartbeat (internal/coordinator/group.go).
use pocketkafka.Prelude.{
  ℕ, suc, ◌+◌, not, ◌&&◌, ◌||◌, none, some, List, [], ◌∷◌, leb, Bytes, ◌==◌, bytes_eq,
  if◌then◌else◌,
}
use pocketkafka.Prelude.Ints.{int_eq}
use pocketkafka.Prelude.Dict.{Dict, get, has, put}
use pocketkafka.Group.{Group, Member, stable, is_preparing, is_completing}
use pocketkafka.Group.Messages.{
  SyncRequest, SyncResponse, HeartbeatRequest, ErrorCode, Outcome, reply, wait, err_none,
  err_illegal_generation, err_unknown_member_id, err_rebalance_in_progress,
}

abbrev pub sync_response : SyncRequest → ErrorCode → SyncResponse
sync_response req e = record { version = req.version; error_code = e; assignment = [] }

unfoldable pub put_assignments : Dict Bytes Bytes → List (Bytes × Bytes) → Dict Bytes Bytes
put_assignments d [] = d
put_assignments d ((id, a) ∷ more) = put_assignments (put d id a) more

-- SyncGroup from the end of its waiting loop on.
unfoldable pub sync_finish : SyncRequest → Group → Group × Outcome SyncResponse
sync_finish req g =
    let a : Bytes = elim (get g.assignments req.member_id) [ none ↦ [] | some b ↦ b ] in
    let g' : Group =
      if is_completing g.state && (req.generation_id == g.generation)
      then record g { state = stable }
      else g in
    (g', reply (record { version = req.version; error_code = err_none; assignment = a }))

-- The head of the waiting loop; a round waits for the channel, or for 250 ms at most.
unfoldable pub sync_loop : ℕ → ℕ → SyncRequest → Group → Group × Outcome SyncResponse
sync_loop now deadline req g =
    if has g.assignments req.member_id
      || not (is_completing g.state && (g.generation == req.generation_id))
      || leb deadline now
    then sync_finish req g
    else (g, wait deadline)

-- SyncGroup past its guards, up to its answer or its first wait.
unfoldable pub sync_accept : ℕ → SyncRequest → Group → Group × Outcome SyncResponse
sync_accept now req g =
    if has g.assignments req.member_id || req.member_id == g.leader_id
    then sync_finish req g
    else sync_loop now (now + 10000000000) req g

-- The group with the assignments that a request brings, and with its waiters notified.
unfoldable pub take_assignments : SyncRequest → Group → Group
unfolding put_assignments
take_assignments req g = record g {
  assignments = put_assignments g.assignments req.assignments;
  assignments_changed = suc g.assignments_changed;
}

-- SyncGroup up to its answer or its first wait.
unfoldable pub sync_group : ℕ → SyncRequest → Group → Group × Outcome SyncResponse
sync_group now req g =
    if is_preparing g.state
    then (g, reply (sync_response req err_rebalance_in_progress))
    else if not (has g.members req.member_id)
    then (g, reply (sync_response req err_unknown_member_id))
    else if not (req.generation_id == g.generation)
    then (g, reply (sync_response req err_illegal_generation))
    else sync_accept now req (take_assignments req g)

-- Heartbeat of a member that the group has.
unfoldable pub beat : ℕ → HeartbeatRequest → Member → Group → Group × ErrorCode
beat now req m g =
    if is_preparing g.state
    then (g, err_rebalance_in_progress)
    else if not (req.generation_id == g.generation)
    then (g, err_illegal_generation)
    else (
      record g { members = put g.members req.member_id (record m { last_heartbeat = now }) },
      err_none,
    )

-- Heartbeat on a group that the manager has.
unfoldable pub heartbeat : ℕ → HeartbeatRequest → Group → Group × ErrorCode
unfolding beat
heartbeat now req g = elim (get g.members req.member_id) [
  | none ↦ (g, err_unknown_member_id)
  | some m ↦ beat now req m g
]

-- ===== src/Group/Fencing.antt =====
-- Which requests a group accepts: the guards of Heartbeat and SyncGroup, and what they do to members
-- that a rebalance has left behind (internal/coordinator/group.go).
use pocketkafka.Prelude.{
  ℕ, ◌≤◌, ◌≡◌, sym, ◌∙◌, Bool, true, false, not, ◌&&◌, some, List, [], ◌∷◌, arith, Bytes, ◌==◌,
  bytes_eq, nat_eq, length, inl, inr, Bool-cases,
}
use pocketkafka.Prelude.Ints.{inc_wrapping-ne, ℤ, int_eq, eqb_ℤ, eqb_ℤ_iff, inc_wrapping, max_int32}
use pocketkafka.Prelude.Dict.{has, has-get}
use pocketkafka.Group.{Group, is_preparing, complete_with, complete_join, complete_ordered}
use pocketkafka.Group.Messages.{
  HeartbeatRequest, SyncRequest, SyncResponse, Outcome, reply, wait, ErrorCode, err_none,
  err_unknown_server_error, err_illegal_generation, err_inconsistent_group_protocol,
  err_unknown_member_id, err_rebalance_in_progress,
}
use pocketkafka.Group.Sync.{
  heartbeat, sync_group, sync_accept, sync_finish, sync_loop, take_assignments,
}

abbrev pub is_err_none : ErrorCode → Bool
is_err_none err_none = true
is_err_none err_unknown_server_error = false
is_err_none err_illegal_generation = false
is_err_none err_inconsistent_group_protocol = false
is_err_none err_unknown_member_id = false
is_err_none err_rebalance_in_progress = false

-- A member of the group, in its generation, while no rebalance is being prepared.
abbrev pub is_current : Bytes → ℤ → Group → Bool
is_current id generation g =
    has g.members id && (not (is_preparing g.state) && (generation == g.generation))

-- Heartbeat answers without an error exactly for a member of the group that sends the group's
-- generation while no rebalance is being prepared, and any other heartbeat leaves the group as it is.
pub heartbeat-accepts :
    (now : ℕ) (req : HeartbeatRequest) (g : Group)
    → (is_err_none (heartbeat now req g).1 ≡ is_current req.member_id req.generation_id g)
      × (is_current req.member_id req.generation_id g ≡ false → (heartbeat now req g).0 ≡ g)
unfolding heartbeat
heartbeat-accepts now req g = ground (arith, has-get g.members req.member_id)

-- The error code of an answer; a wait has none yet.
abbrev pub error_of : Outcome SyncResponse → ErrorCode
error_of (reply r) = r.error_code
error_of (wait t) = err_none

sync_accept-error :
    (now : ℕ) (req : SyncRequest) (g : Group) → error_of (sync_accept now req g).1 ≡ err_none
unfolding sync_accept sync_loop sync_finish
sync_accept-error now req g = ground arith

-- SyncGroup answers with an error exactly for a request that is not of a member in the group's
-- generation outside the preparation of a rebalance, and such a request leaves the group as it is.
pub sync_group-accepts :
    (now : ℕ) (req : SyncRequest) (g : Group)
    → (is_err_none (error_of (sync_group now req g).1)
        ≡ is_current req.member_id req.generation_id g)
      × (is_current req.member_id req.generation_id g ≡ false → (sync_group now req g).0 ≡ g)
unfolding sync_group
sync_group-accepts now req g = ground (arith, sync_accept-error now req (take_assignments req g))

complete_ordered-generation :
    (g g' : Group) (ids : List Bytes)
    → complete_ordered g ids ≡ some g'
    → g'.generation ≡ inc_wrapping max_int32 g.generation
unfolding complete_ordered complete_with
complete_ordered-generation g g' [] e = cc
complete_ordered-generation g g' (id ∷ ids) e = ground arith

pub complete_join-generation :
    (g g' : Group)
    → 1 ≤ length g.members
    → complete_join g ≡ some g'
    → g'.generation ≡ inc_wrapping max_int32 g.generation
unfolding complete_join
complete_join-generation g g' h e = ground (arith, complete_ordered-generation g g' g.join_order)

-- Once a rebalance of a group with members has completed, a heartbeat with the generation from
-- before it is refused.
pub complete_join-fences :
    (now : ℕ) (req : HeartbeatRequest) (g g' : Group)
    → 1 ≤ length g.members
    → complete_join g ≡ some g'
    → req.generation_id ≡ g.generation
    → is_err_none (heartbeat now req g').1 ≡ false
complete_join-fences now req g g' h e q =
    elim (Bool-cases (eqb_ℤ req.generation_id g'.generation)) [
      | inl same ↦ absurd (
          inc_wrapping-ne max_int32 g.generation (
            sym (complete_join-generation g g' h e)
            ∙ sym ((eqb_ℤ_iff req.generation_id g'.generation).0 same)
            ∙ q))
      | inr old ↦ ground (arith, (heartbeat-accepts now req g').0, old)
    ]

-- ===== src/Examples/Rebalances.antt =====
-- The theorems on groups, at the groups of two and three consumers (internal/coordinator/group.go).
use pocketkafka.Prelude.{
  ◌≡◌, ◌≢◌, refl, true, false, not, none, some, List, [], ◌∷◌, Bytes, bytes_eq, arith,
}
use pocketkafka.Prelude.Ints.{pos, inc_wrapping, milliseconds}
use pocketkafka.Prelude.Lists.{keep}
use pocketkafka.Prelude.Tests.{bytes_beq}
use pocketkafka.Prelude.Dict.{get, has, remove, elem, without, keys, remove_all}
use pocketkafka.Prelude.Decimal.{decimal}
use pocketkafka.Group.{
  Group, empty, completing_rebalance, preparing_rebalance, begin_rebalance, complete_join,
  complete_with, complete_ordered, complete_led, expire_rebalance, choose_protocol, choose_from,
  choose_loop, all_support, supports, deadline_loop, member_timeout, filter_order, absentees,
}
use pocketkafka.Group.Messages.{JoinResponse, HeartbeatRequest, SyncRequest, LeaveRequest, reply}
use pocketkafka.Group.Join.{join_group, join_wake, join_response, member_name}
use pocketkafka.Group.Sync.{heartbeat, sync_group}
use pocketkafka.Group.Leave.{
  leave_group, reap_expired, reap_settle, drop_members, expired_members, session_expired,
  session_timeout_of, paired, to_remove,
}
use pocketkafka.Group.History.{Reach-IsWellFormed, Reach-does_not_panic}
use pocketkafka.Group.Invariant.{IsWellFormed}
use pocketkafka.Group.Waits.{late_wake-empties, leave_group-forgets}
use pocketkafka.Group.Members.{expire_rebalance-members, reap_expired-members}
use pocketkafka.Group.Protocols.{IsCommon, complete_join-protocol}
use pocketkafka.Group.Fencing.{
  is_current, is_err_none, error_of, sync_group-accepts, complete_join-fences,
}
use pocketkafka.Examples.Groups.{
  join_request, alice, bob, carol, consumer, group_waiting, group_of_two, group_of_three, reach_two,
  waiting-IsWellFormed, two-IsWellFormed, three-IsWellFormed,
}

abbrev leave_request : LeaveRequest
leave_request = record { version = 3; group = 103 ∷ []; member_id = []; members = carol ∷ [] }

abbrev beat_request : Bytes → HeartbeatRequest
beat_request id = record { group = 103 ∷ []; generation_id = pos 1; member_id = id }

abbrev sync_request : SyncRequest
sync_request = record {
  version = 3;
  group = 103 ∷ [];
  generation_id = pos 2;
  member_id = alice;
  assignments = (alice, 7 ∷ []) ∷ (bob, 8 ∷ []) ∷ [];
}

abbrev waiter : JoinResponse
waiter = join_response (join_request [])

Reach-IsWellFormed_example : IsWellFormed 2 group_of_two
Reach-IsWellFormed_example = Reach-IsWellFormed reach_two

Reach-does_not_panic_example :
    ((join_group 4000 (pos 0) 2 (join_request bob) group_of_two).0 ≢ none)
    × (join_wake 4000 5000 60000002000 waiter bob group_of_two ≢ none)
    × (leave_group 4000 leave_request group_of_two ≢ none)
    × (reap_expired 4000 (pos 0) group_of_two ≢ none)
Reach-does_not_panic_example =
    Reach-does_not_panic 4000 5000 60000002000 (pos 0) (join_request bob) waiter bob leave_request
      reach_two

late_wake-empties_example :
    (g' : Group) × (r : JoinResponse) × (join_wake 60000002000 60000002001 60000002000 waiter bob
        group_of_two
      ≡ some (g', reply r))
    × (g'.members ≡ [])
    × (g'.state ≡ empty)
    × (r.error_code ≡ waiter.error_code)
unfolding complete_join complete_with complete_ordered complete_led expire_rebalance absentees
    filter_order choose_protocol choose_from choose_loop all_support supports inc_wrapping
    member_name decimal bytes_beq get has elem keys without remove remove_all keep
late_wake-empties_example =
    late_wake-empties 60000002000 60000002001 60000002000 waiter bob group_of_two two-IsWellFormed
      refl refl (omega arith)

leave_group-forgets_example :
    (g' : Group) × (gone : List Bytes) × (g'' : Group) × (r : JoinResponse) × (leave_group 3000
        leave_request group_of_three
      ≡ some (g', gone))
    × (has g'.members bob ≡ true)
    × (g'.joined ≡ [])
    × (join_wake 60000002000 60000002001 60000002000 waiter bob g' ≡ some (g'', reply r))
    × (has g''.members bob ≡ false)
    × (r.error_code ≡ waiter.error_code)
unfolding complete_join complete_with complete_ordered complete_led expire_rebalance absentees
    filter_order choose_protocol choose_from choose_loop all_support supports inc_wrapping
    member_name decimal bytes_beq get has elem keys without remove remove_all keep to_remove
leave_group-forgets_example =
    leave_group-forgets 3000 60000002000 60000002001 60000002000 leave_request waiter group_of_three
      alice bob three-IsWellFormed (refl, refl, refl) (refl, refl) (omega arith)

-- The group that an expiry leaves, with the member that has joined.
abbrev group_of_bob : Group
group_of_bob = record group_waiting {
  state = completing_rebalance;
  generation = pos 2;
  leader_id = bob;
  members = (bob, consumer bob 2000) ∷ [];
  join_order = bob ∷ [];
  joined = [];
  rebalance_deadline = 0;
  join_notify = 2;
}

expire_rebalance-members_example : has group_of_bob.members alice ≡ elem alice (bob ∷ [])
unfolding complete_join complete_with complete_ordered complete_led expire_rebalance absentees
    filter_order choose_protocol choose_from choose_loop all_support supports inc_wrapping
    member_name decimal bytes_beq get has elem keys without remove remove_all keep
expire_rebalance-members_example =
    expire_rebalance-members group_waiting group_of_bob alice waiting-IsWellFormed.roster refl

-- The group after a reaping at which the second member's session has expired.
abbrev group_reaped : Group
group_reaped = record group_of_two {
  state = preparing_rebalance;
  members = (alice, consumer alice 3000) ∷ [];
  join_order = alice ∷ [];
  joined = [];
  rebalance_deadline = 70000002500;
}

reap_expired-members_example :
    has group_reaped.members bob ≡ not (session_expired 10000002500 (pos 10000) (consumer bob 2000))
unfolding complete_join complete_with complete_ordered complete_led expire_rebalance absentees
    filter_order choose_protocol choose_from choose_loop all_support supports inc_wrapping
    member_name decimal bytes_beq get has elem keys without remove remove_all keep reap_expired
    reap_settle drop_members expired_members session_expired session_timeout_of paired
    begin_rebalance deadline_loop member_timeout milliseconds
reap_expired-members_example =
    reap_expired-members 10000002500 (pos 10000) group_of_two group_reaped 1 bob (consumer bob 2000)
      two-IsWellFormed.roster refl refl

range-IsCommon : IsCommon group_waiting.members (114 ∷ [])
unfolding get supports bytes_beq
range-IsCommon = record { at = λ k m e. ground arith }

-- The group once its two members have joined, at the time of the second.
abbrev group_completed : Group
group_completed = record group_of_two { members = group_waiting.members }

complete_join-protocol_example : IsCommon group_completed.members (114 ∷ [])
unfolding complete_join complete_with complete_ordered complete_led expire_rebalance absentees
    filter_order choose_protocol choose_from choose_loop all_support supports inc_wrapping
    member_name decimal bytes_beq get has elem keys without remove remove_all keep
complete_join-protocol_example =
    complete_join-protocol group_waiting group_completed (114 ∷ []) waiting-IsWellFormed.roster
      (omega arith) refl range-IsCommon

sync_group-accepts_example :
    (is_err_none (error_of (sync_group 4000 sync_request group_of_two).1)
      ≡ is_current alice (pos 2) group_of_two)
    × (is_current alice (pos 2) group_of_two ≡ false
        → (sync_group 4000 sync_request group_of_two).0 ≡ group_of_two)
sync_group-accepts_example = sync_group-accepts 4000 sync_request group_of_two

complete_join-fences_example :
    is_err_none (heartbeat 4000 (beat_request bob) group_of_bob).1 ≡ false
unfolding complete_join complete_with complete_ordered complete_led expire_rebalance absentees
    filter_order choose_protocol choose_from choose_loop all_support supports inc_wrapping
    member_name decimal bytes_beq get has elem keys without remove remove_all keep
complete_join-fences_example =
    complete_join-fences 4000 (beat_request bob)
      (record group_waiting { members = group_of_bob.members; join_order = bob ∷ [] }) group_of_bob
      (omega arith) refl refl

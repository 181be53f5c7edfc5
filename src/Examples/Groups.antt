-- ===== src/Examples/Groups.antt =====
-- Two consumers join a group one after the other (internal/coordinator/group.go).
use pocketkafka.Prelude.{ℕ, ◌≡◌, refl, false, none, some, [], ◌∷◌, Bytes}
use pocketkafka.Prelude.Ints.{pos, inc_wrapping, milliseconds}
use pocketkafka.Prelude.Lists.{keep}
use pocketkafka.Prelude.Tests.{bytes_beq}
use pocketkafka.Prelude.Dict.{get, has, put, elem, without, add, keys, remove_all}
use pocketkafka.Prelude.Decimal.{decimal}
use pocketkafka.Group.{
  Group, Member, Protocol, completing_rebalance, preparing_rebalance, new_group, begin_rebalance,
  complete_join, complete_with, complete_ordered, complete_led, expire_rebalance, choose_protocol,
  choose_from, choose_loop, all_support, supports, deadline_loop, member_timeout,
}
use pocketkafka.Group.Messages.{JoinRequest, JoinResponse, reply, wait}
use pocketkafka.Group.Join.{
  join_group, join_new, join_member, join_found, join_decide, join_loop, reply_filled, enroll,
  refresh_member, rebalance_timeout_of, join_response, fill_join_response, response_members,
  member_name, join_again, listed, metadata_for, same_member_metadata,
}
use pocketkafka.Group.History.{Reach, made, next, joins, Reach-IsWellFormed}
use pocketkafka.Group.Invariant.{IsWellFormed}

abbrev pub range_protocol : Protocol
range_protocol = record { name = 114 ∷ []; metadata = 1 ∷ 2 ∷ [] }

abbrev pub join_request : Bytes → JoinRequest
join_request id = record {
  version = 5;
  group = 103 ∷ [];
  session_timeout_ms = pos 10000;
  rebalance_timeout_ms = pos 60000;
  member_id = id;
  instance_id = none;
  protocol_type = 99 ∷ [];
  protocols = range_protocol ∷ [];
}

abbrev pub alice : Bytes
alice = member_name 1

abbrev pub bob : Bytes
bob = member_name 2

abbrev pub carol : Bytes
carol = member_name 3

abbrev pub consumer : Bytes → ℕ → Member
consumer id now = record {
  id = id;
  instance_id = none;
  session_timeout = pos 10000;
  rebalance_timeout = pos 60000000000;
  protocol_type = 99 ∷ [];
  protocols = range_protocol ∷ [];
  last_heartbeat = now;
}

-- The group in its first generation, with one member.
abbrev pub group_of_one : Group
group_of_one = record {
  name = 103 ∷ [];
  state = completing_rebalance;
  generation = pos 1;
  protocol_type = 99 ∷ [];
  protocol = 114 ∷ [];
  leader_id = alice;
  members = (alice, consumer alice 1000) ∷ [];
  join_order = alice ∷ [];
  assignments = [];
  assignments_changed = 0;
  joined = [];
  rebalance_deadline = 0;
  join_notify = 1;
  deleted = false;
}

-- The second member has joined, and waits for the first.
abbrev pub group_waiting : Group
group_waiting = record {
  name = 103 ∷ [];
  state = preparing_rebalance;
  generation = pos 1;
  protocol_type = 99 ∷ [];
  protocol = 114 ∷ [];
  leader_id = alice;
  members = (alice, consumer alice 1000) ∷ (bob, consumer bob 2000) ∷ [];
  join_order = alice ∷ bob ∷ [];
  assignments = [];
  assignments_changed = 0;
  joined = bob ∷ [];
  rebalance_deadline = 60000002000;
  join_notify = 1;
  deleted = false;
}

-- A third member has joined, and waits for the first too.
abbrev pub group_of_three : Group
group_of_three = record group_waiting {
  members =
      (alice, consumer alice 1000) ∷ (bob, consumer bob 2000) ∷ (carol, consumer carol 2500) ∷ [];
  join_order = alice ∷ bob ∷ carol ∷ [];
  joined = bob ∷ carol ∷ [];
}

-- The first member has joined again: the second generation.
abbrev pub group_of_two : Group
group_of_two = record {
  name = 103 ∷ [];
  state = completing_rebalance;
  generation = pos 2;
  protocol_type = 99 ∷ [];
  protocol = 114 ∷ [];
  leader_id = alice;
  members = (alice, consumer alice 3000) ∷ (bob, consumer bob 2000) ∷ [];
  join_order = alice ∷ bob ∷ [];
  assignments = [];
  assignments_changed = 0;
  joined = [];
  rebalance_deadline = 0;
  join_notify = 2;
  deleted = false;
}

-- The answer to the first member, and that to its second join.
abbrev pub answer_of : Group → JoinResponse
answer_of g =
    fill_join_response g (record (join_response (join_request [])) { member_id = alice }) alice

joins_first :
    join_group 1000 (pos 0) 0 (join_request []) (new_group (103 ∷ []))
    ≡ (some (group_of_one, reply (answer_of group_of_one)), 1)
unfolding join_group join_new join_member join_found join_decide join_again join_loop enroll
    begin_rebalance complete_join complete_with complete_ordered complete_led expire_rebalance
    reply_filled fill_join_response response_members listed metadata_for refresh_member
    rebalance_timeout_of join_response same_member_metadata choose_protocol choose_from choose_loop
    all_support supports deadline_loop member_timeout inc_wrapping milliseconds new_group
    member_name decimal bytes_beq get has put add elem keys without remove_all keep
joins_first = refl

joins_second :
    join_group 2000 (pos 0) 1 (join_request []) group_of_one
    ≡ (some (group_waiting, wait 60000002000), 2)
unfolding join_group join_new join_member join_found join_decide join_again join_loop enroll
    begin_rebalance complete_join complete_with complete_ordered complete_led expire_rebalance
    reply_filled fill_join_response response_members listed metadata_for refresh_member
    rebalance_timeout_of join_response same_member_metadata choose_protocol choose_from choose_loop
    all_support supports deadline_loop member_timeout inc_wrapping milliseconds new_group
    member_name decimal bytes_beq get has put add elem keys without remove_all keep
joins_second = refl

joins_again :
    join_group 3000 (pos 0) 2 (join_request alice) group_waiting
    ≡ (some (group_of_two, reply (answer_of group_of_two)), 2)
unfolding join_group join_new join_member join_found join_decide join_again join_loop enroll
    begin_rebalance complete_join complete_with complete_ordered complete_led expire_rebalance
    reply_filled fill_join_response response_members listed metadata_for refresh_member
    rebalance_timeout_of join_response same_member_metadata choose_protocol choose_from choose_loop
    all_support supports deadline_loop member_timeout inc_wrapping milliseconds new_group
    member_name decimal bytes_beq get has put add elem keys without remove_all keep
joins_again = refl

pub reach_waiting : Reach (103 ∷ []) 2 group_waiting
reach_waiting =
    next (next (made 0) (joins 1000 (pos 0) (join_request []) joins_first))
      (joins 2000 (pos 0) (join_request []) joins_second)

pub reach_two : Reach (103 ∷ []) 2 group_of_two
reach_two = next reach_waiting (joins 3000 (pos 0) (join_request alice) joins_again)

pub waiting-IsWellFormed : IsWellFormed 2 group_waiting
waiting-IsWellFormed = Reach-IsWellFormed reach_waiting

pub two-IsWellFormed : IsWellFormed 2 group_of_two
two-IsWellFormed = Reach-IsWellFormed reach_two

joins_third :
    join_group 2500 (pos 0) 2 (join_request []) group_waiting
    ≡ (some (group_of_three, wait 60000002000), 3)
unfolding join_group join_new join_member join_found join_decide join_again join_loop enroll
    begin_rebalance complete_join complete_with complete_ordered complete_led expire_rebalance
    reply_filled fill_join_response response_members listed metadata_for refresh_member
    rebalance_timeout_of join_response same_member_metadata choose_protocol choose_from choose_loop
    all_support supports deadline_loop member_timeout inc_wrapping milliseconds new_group
    member_name decimal bytes_beq get has put add elem keys without remove_all keep
joins_third = refl

pub three-IsWellFormed : IsWellFormed 3 group_of_three
three-IsWellFormed =
    Reach-IsWellFormed (next reach_waiting (joins 2500 (pos 0) (join_request []) joins_third))

-- ===== src/Group.antt =====
-- The consumer group coordinator (internal/coordinator/group.go): the data, and the steps of a
-- rebalance. The handlers are in `Join`, `Sync` and `Leave`, and the proofs in the other children.
-- Times are nanoseconds since Go's zero time; a handler reads the clock once for each stretch that it
-- runs under the group's lock. A channel that is closed and made anew is a counter of its closings.
-- `none` stands for a panic: `JoinOrder[0]` out of range, or a nil leader.
pub mod Messages
pub mod Join
pub mod Sync
pub mod Leave
pub mod Roster
pub mod Invariant
pub mod Members
pub mod Protocols
pub mod Fencing
pub mod Waits
pub mod History
use pocketkafka.Prelude.{
  ℕ, zero, suc, ◌+◌, Bool, true, false, not, ◌&&◌, ◌||◌, Option, none, some, List, [], ◌∷◌, ltb,
  leb, Bytes, ◌==◌, bytes_eq, nat_eq, if◌then◌else◌, length,
}
use pocketkafka.Prelude.Ints.{
  ℤ, pos, negsuc, pos_part, leb_ℤ, inc_wrapping, max_int32, milliseconds,
}
use pocketkafka.Prelude.Dict.{Dict, get, remove_all, elem, without, keys}

pub data GroupState : Type 0 where
  empty preparing_rebalance completing_rebalance stable : GroupState

abbrev pub is_preparing : GroupState → Bool
is_preparing empty = false
is_preparing preparing_rebalance = true
is_preparing completing_rebalance = false
is_preparing stable = false

abbrev pub is_completing : GroupState → Bool
is_completing empty = false
is_completing preparing_rebalance = false
is_completing completing_rebalance = true
is_completing stable = false

abbrev pub is_stable : GroupState → Bool
is_stable empty = false
is_stable preparing_rebalance = false
is_stable completing_rebalance = false
is_stable stable = true

-- JoinGroupRequestProtocol
pub record Protocol : Type 0 where
  pub name : Bytes
  pub metadata : Bytes

pub record Member : Type 0 where
  pub id : Bytes
  pub instance_id : Option Bytes
  pub session_timeout : ℤ
  pub rebalance_timeout : ℤ
  pub protocol_type : Bytes
  pub protocols : List Protocol
  pub last_heartbeat : ℕ

pub record Group : Type 0 where
  pub name : Bytes
  pub state : GroupState
  pub generation : ℤ
  pub protocol_type : Bytes
  pub protocol : Bytes
  pub leader_id : Bytes
  pub members : Dict Bytes Member
  pub join_order : List Bytes
  pub assignments : Dict Bytes Bytes
  pub assignments_changed : ℕ
  pub joined : List Bytes
  pub rebalance_deadline : ℕ
  pub join_notify : ℕ
  pub deleted : Bool

-- The group that getOrCreate makes.
unfoldable pub new_group : Bytes → Group
new_group name = record {
  name = name;
  state = empty;
  generation = pos 0;
  protocol_type = [];
  protocol = [];
  leader_id = [];
  members = [];
  join_order = [];
  assignments = [];
  assignments_changed = 0;
  joined = [];
  rebalance_deadline = 0;
  join_notify = 0;
  deleted = false;
}

-- The loop of beginRebalanceLocked over the members.
unfoldable pub member_timeout : Member → ℤ
member_timeout m =
    if leb_ℤ m.rebalance_timeout (pos 0)
    then milliseconds m.session_timeout
    else m.rebalance_timeout

unfoldable pub deadline_loop : ℕ → Dict Bytes Member → ℕ → Bool → ℕ
unfolding member_timeout
deadline_loop now [] deadline first = deadline
deadline_loop now ((id, m) ∷ ms) deadline first =
    let d = member_timeout m in
    let t = now + pos_part d in
    let take_it = not (leb_ℤ d (pos 0)) && (first || ltb deadline t) in
    deadline_loop now ms (if take_it then t else deadline) (first && not take_it)

unfoldable pub begin_rebalance : ℕ → Group → Group
unfolding deadline_loop
begin_rebalance now g = record g {
  state = preparing_rebalance;
  joined = [];
  rebalance_deadline = deadline_loop now g.members (now + 10000000000) true;
}

unfoldable pub supports : List Protocol → Bytes → Bool
supports [] cand = false
supports (p ∷ ps) cand = (p.name == cand) || supports ps cand

-- Whether every member that `order` names has the candidate among its protocols.
unfoldable pub all_support : Dict Bytes Member → List Bytes → Bytes → Bool
unfolding supports
all_support members [] cand = true
all_support members (id ∷ ids) cand =
    let rest = all_support members ids cand in
    elim (get members id) [ none ↦ rest | some m ↦ supports m.protocols cand && rest ]

unfoldable pub choose_loop : Dict Bytes Member → List Bytes → List Protocol → Bytes → Bytes
unfolding all_support
choose_loop members order [] fallback = fallback
choose_loop members order (cand ∷ cands) fallback =
    if all_support members order cand.name
    then cand.name
    else choose_loop members order cands fallback

unfoldable pub choose_from : Dict Bytes Member → List Bytes → List Protocol → Bytes
unfolding choose_loop
choose_from members order [] = []
choose_from members order (p ∷ ps) = choose_loop members order (p ∷ ps) p.name

unfoldable pub choose_protocol : Dict Bytes Member → List Bytes → Option Member → Bytes
unfolding choose_from
choose_protocol members order none = []
choose_protocol members order (some leader) = choose_from members order leader.protocols

-- The branch of completeJoinLocked for a group with members, once its leader is found.
unfoldable pub complete_with : Group → Bytes → Member → Group
unfolding choose_protocol inc_wrapping
complete_with g leader_id leader = record g {
  generation = inc_wrapping max_int32 g.generation;
  state = completing_rebalance;
  leader_id = leader_id;
  protocol_type = leader.protocol_type;
  protocol = choose_protocol g.members g.join_order (some leader);
  assignments = [];
  joined = [];
  rebalance_deadline = 0;
  join_notify = suc g.join_notify;
}

unfoldable pub complete_led : Group → Bytes → Option Member → Option Group
complete_led g id none = none
complete_led g id (some leader) = some (complete_with g id leader)

unfoldable pub complete_ordered : Group → List Bytes → Option Group
unfolding complete_led
complete_ordered g [] = none
complete_ordered g (id ∷ ids) = complete_led g id (get g.members id)

unfoldable pub complete_join : Group → Option Group
unfolding complete_ordered
complete_join g =
    if length g.members == 0
    then some (record g {
      state = empty;
      leader_id = [];
      joined = [];
      rebalance_deadline = 0;
      join_notify = suc g.join_notify;
    })
    else complete_ordered g g.join_order

-- filterOrder
unfoldable pub filter_order : List Bytes → List Bytes → List Bytes
unfolding without
filter_order order dead = without order dead

-- The members that have not joined the rebalance: the list `dead` of expireRebalanceLocked.
unfoldable pub absentees : Group → List Bytes
unfolding without
absentees g = without (keys g.members) g.joined

unfoldable pub expire_rebalance : Group → Option Group
unfolding complete_join filter_order absentees
expire_rebalance g = complete_join (record g {
  members = remove_all g.members (absentees g);
  join_order = filter_order g.join_order (absentees g);
})

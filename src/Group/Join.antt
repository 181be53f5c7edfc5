-- ===== src/Group/Join.antt =====
-- JoinGroup (internal/coordinator/group.go), cut at the place where it releases the group's lock and
-- waits for the rebalance to end.
use pocketkafka.Prelude.{
  ℕ, suc, Bool, true, false, ◌&&◌, Option, none, some, List, [], ◌∷◌, ◌++◌, ltb, leb, Bytes, ◌==◌,
  bytes_eq, nat_eq, if◌then◌else◌, length,
}
use pocketkafka.Prelude.Ints.{ℤ, pos, negsuc, leb_ℤ, ltb_ℤ, milliseconds}
use pocketkafka.Prelude.Dict.{get, has, put, add}
use pocketkafka.Prelude.Decimal.{decimal}
use pocketkafka.Group.{
  Group, Protocol, Member, is_preparing, is_stable, begin_rebalance, complete_join,
  expire_rebalance,
}
use pocketkafka.Group.Messages.{
  JoinRequest, JoinResponse, JoinResponseMember, Outcome, reply, wait, err_none,
  err_inconsistent_group_protocol, err_unknown_member_id,
}

-- sameStringPtr
unfoldable pub same_string_ptr : Option Bytes → Option Bytes → Bool
same_string_ptr none none = true
same_string_ptr none (some b) = false
same_string_ptr (some a) none = false
same_string_ptr (some a) (some b) = a == b

unfoldable pub same_protocols : List Protocol → List Protocol → Bool
same_protocols [] [] = true
same_protocols [] (q ∷ qs) = false
same_protocols (p ∷ ps) [] = false
same_protocols (p ∷ ps) (q ∷ qs) =
    (p.name == q.name) && (p.metadata == q.metadata) && same_protocols ps qs

unfoldable pub same_member_metadata : Member → JoinRequest → Bool
unfolding same_string_ptr same_protocols
same_member_metadata m req =
    (m.protocol_type == req.protocol_type)
    && same_string_ptr m.instance_id req.instance_id
    && same_protocols m.protocols req.protocols

-- GroupManager.rebalanceTimeout, for the manager's defaultRebalance
unfoldable pub rebalance_timeout_of : ℤ → JoinRequest → ℤ
rebalance_timeout_of default_rebalance req =
    let ms =
      if leb_ℤ req.rebalance_timeout_ms (pos 0)
      then req.session_timeout_ms
      else req.rebalance_timeout_ms in
    if leb_ℤ ms (pos 0)
    then (if ltb_ℤ (pos 0) default_rebalance then default_rebalance else milliseconds (pos 10000))
    else milliseconds ms

-- The metadata of the chosen protocol, empty if the member does not have it.
unfoldable pub metadata_for : List Protocol → Bytes → Bytes
metadata_for [] chosen = []
metadata_for (p ∷ ps) chosen = if p.name == chosen then p.metadata else metadata_for ps chosen

-- The entry of one member in the leader's list; an identifier with no member has none.
unfoldable pub listed : Group → Option Member → List JoinResponseMember → List JoinResponseMember
unfolding metadata_for
listed g none rest = rest
listed g (some m) rest =
    record {
      member_id = m.id;
      instance_id = m.instance_id;
      metadata = metadata_for m.protocols g.protocol;
    }
    ∷ rest

unfoldable pub response_members : Group → List Bytes → List JoinResponseMember
unfolding listed
response_members g [] = []
response_members g (id ∷ ids) = listed g (get g.members id) (response_members g ids)

unfoldable pub fill_join_response : Group → JoinResponse → Bytes → JoinResponse
unfolding response_members
fill_join_response g resp member_id = record resp {
  generation_id = g.generation;
  protocol_name = g.protocol;
  leader_id = g.leader_id;
  member_id = member_id;
  members = if member_id == g.leader_id then response_members g g.join_order else [];
}

-- The response as JoinGroup begins it.
unfoldable pub join_response : JoinRequest → JoinResponse
join_response req = record {
  version = req.version;
  error_code = err_none;
  generation_id = negsuc 0;
  protocol_name = [];
  leader_id = [];
  member_id = req.member_id;
  members = [];
}

-- GroupManager.nextMemberID at a value of the counter: "pocketkafka-%d"
unfoldable pub member_name : ℕ → Bytes
member_name n =
    (112 ∷ 111 ∷ 99 ∷ 107 ∷ 101 ∷ 116 ∷ 107 ∷ 97 ∷ 102 ∷ 107 ∷ 97 ∷ 45 ∷ []) ++ decimal n

abbrev pub blank_member : Bytes → Member
blank_member id = record {
  id = id;
  instance_id = none;
  session_timeout = pos 0;
  rebalance_timeout = pos 0;
  protocol_type = [];
  protocols = [];
  last_heartbeat = 0;
}

-- The fields that JoinGroup writes into the member.
unfoldable pub refresh_member : ℕ → ℤ → JoinRequest → Member → Member
unfolding rebalance_timeout_of
refresh_member now default_rebalance req m = record m {
  instance_id = req.instance_id;
  session_timeout = req.session_timeout_ms;
  rebalance_timeout = rebalance_timeout_of default_rebalance req;
  protocol_type = req.protocol_type;
  protocols = req.protocols;
  last_heartbeat = now;
}

abbrev pub JoinResult : Type 0
JoinResult = Option (Group × Outcome JoinResponse)

unfoldable pub reply_filled : JoinResponse → Bytes → Option Group → JoinResult
unfolding fill_join_response
reply_filled resp id none = none
reply_filled resp id (some g) = some (g, reply (fill_join_response g resp id))

-- The head of the waiting loop: it ends where the rebalance is over, and expires it where the
-- deadline has passed.
unfoldable pub join_loop : ℕ → ℕ → JoinResponse → Bytes → Group → JoinResult
unfolding reply_filled
join_loop now deadline resp id g =
    if is_preparing g.state
    then (if leb deadline now
        then reply_filled resp id (expire_rebalance g)
        else some (g, wait deadline))
    else reply_filled resp id (some g)

-- The group once the member `m` has joined, in a rebalance that has begun before or begins now.
unfoldable pub enroll : ℕ → Bytes → Member → Group → Group
enroll now id m g =
    let h = record g { members = put g.members id m } in
    let b = if is_preparing h.state then h else begin_rebalance now h in
    record b { joined = add b.joined id }

-- JoinGroup from the test whether all members have joined.
unfoldable pub join_decide : ℕ → JoinResponse → Bytes → Group → JoinResult
join_decide now resp id g =
    if leb (length g.members) (length g.joined)
    then reply_filled resp id (complete_join g)
    else join_loop now g.rebalance_deadline resp id g

-- JoinGroup once the member that is joining, `m`, has its new fields.
unfoldable pub join_member : ℕ → JoinResponse → Bytes → Member → Group → JoinResult
join_member now resp id m g =
    join_decide now (record resp { member_id = id }) id (enroll now id m g)

-- A member that the group does not have yet, under the next identifier of the manager.
unfoldable pub join_new : ℕ → ℤ → ℕ → JoinRequest → Group → JoinResult
join_new now default_rebalance seq req g =
    let id = member_name (suc seq) in
    join_member now (join_response req) id
      (refresh_member now default_rebalance req (blank_member id))
      (record g { join_order = g.join_order ++ id ∷ [] })

-- The answer to a member of a stable group that asks to join as it already has.
unfoldable pub join_again : ℕ → JoinRequest → Member → Group → JoinResult
join_again now req m g =
    reply_filled (join_response req) req.member_id (
      some (record g { members = put g.members req.member_id (record m { last_heartbeat = now }) }))

-- The branch of a member `m` that the group has.
unfoldable pub join_found : ℕ → ℤ → ℕ → JoinRequest → Member → Group → JoinResult × ℕ
join_found now default_rebalance seq req m g =
    if is_stable g.state && same_member_metadata m req
    then (join_again now req m g, seq)
    else if req.member_id == []
    then (join_new now default_rebalance seq req g, suc seq)
    else (
      join_member now (join_response req) req.member_id (refresh_member now default_rebalance req m)
          g,
      seq,
    )

-- JoinGroup up to its answer or its first wait, with the manager's counter `seq` before and after.
unfoldable pub join_group : ℕ → ℤ → ℕ → JoinRequest → Group → JoinResult × ℕ
join_group now default_rebalance seq req g =
    if length req.protocols == 0
    then (
      some (g, reply (record (join_response req) { error_code = err_inconsistent_group_protocol })),
      seq,
    )
    else elim (get g.members req.member_id) [
      | none ↦ (join_new now default_rebalance seq req g, suc seq)
      | some m ↦ join_found now default_rebalance seq req m g
    ]

-- JoinGroup when its wait ends, by the channel or by the timer: `now` is the reading after the
-- lock is taken again, `later` that at the head of the next round.
unfoldable pub join_wake : ℕ → ℕ → ℕ → JoinResponse → Bytes → Group → JoinResult
unfolding join_loop
join_wake now later deadline resp id g =
    if has g.members id
    then (if ltb now deadline
        then join_loop later deadline resp id g
        else reply_filled resp id (expire_rebalance g))
    else some (g, reply (record resp { error_code = err_unknown_member_id }))

-- ===== src/Group/Leave.antt =====
-- LeaveGroup and the session reaper (internal/coordinator/group.go).
use pocketkafka.Prelude.{
  ℕ, ◌+◌, Bool, not, ◌&&◌, Option, none, some, List, [], ◌∷◌, ltb, leb, Bytes, ◌==◌, nat_eq,
  bytes_eq, if◌then◌else◌, length,
}
use pocketkafka.Prelude.Ints.{ℤ, pos, pos_part, leb_ℤ, milliseconds}
use pocketkafka.Prelude.Dict.{Dict, has, remove, remove_all, without}
use pocketkafka.Group.{
  Group, Member, empty, is_preparing, begin_rebalance, complete_join, filter_order,
}
use pocketkafka.Group.Messages.{LeaveRequest}

unfoldable pub to_remove : LeaveRequest → List Bytes
to_remove req = if ltb req.version 3 then req.member_id ∷ [] else req.members

-- The loop of LeaveGroup over the identifiers, with the members that the response lists.
unfoldable pub leave_loop : List Bytes → Group → Group × List Bytes
leave_loop [] g = (g, [])
leave_loop (id ∷ ids) g =
    let h = record g { members = remove g.members id; joined = without g.joined (id ∷ []) } in
    let (g', gone) = leave_loop ids (if has g.members id then h else g) in
    (g', if has g.members id then id ∷ gone else gone)

-- LeaveGroup once the members are out of the group.
unfoldable pub leave_settle : ℕ → Group → Option Group
leave_settle now g =
    if length g.members == 0
    then some (record g { state = empty; generation = pos 0; leader_id = [] })
    else if is_preparing g.state && leb (length g.members) (length g.joined)
    then complete_join g
    else some (begin_rebalance now g)

-- A state with the second result of its handler.
unfoldable pub paired : {A : Type 0} → A → Option Group → Option (Group × A)
paired a none = none
paired a (some g) = some (g, a)

unfoldable pub reorder : List Bytes → Group → Group
unfolding filter_order
reorder ids g = record g { join_order = filter_order g.join_order ids }

-- LeaveGroup on a group that the manager has, with the members that the response lists.
unfoldable pub leave_group : ℕ → LeaveRequest → Group → Option (Group × List Bytes)
leave_group now req g =
    let (h, gone) = leave_loop (to_remove req) g in
    paired gone (leave_settle now (reorder (to_remove req) h))

unfoldable pub session_timeout_of : ℤ → Member → ℤ
session_timeout_of default_session m =
    if leb_ℤ m.session_timeout (pos 0) then default_session else m.session_timeout

-- Whether the reaper removes a member: its timeout is in use, and more time has passed.
unfoldable pub session_expired : ℕ → ℤ → Member → Bool
unfolding session_timeout_of
session_expired now default_session m =
    let timeout = session_timeout_of default_session m in
    not (leb_ℤ timeout (pos 0)) && ltb (pos_part (milliseconds timeout) + m.last_heartbeat) now

unfoldable pub expired_members : ℕ → ℤ → Dict Bytes Member → List Bytes
unfolding session_expired
expired_members now default_session [] = []
expired_members now default_session ((id, m) ∷ ms) =
    let rest = expired_members now default_session ms in
    if session_expired now default_session m then id ∷ rest else rest

-- The switch at the end of reapExpired.
unfoldable pub reap_settle : ℕ → Group → Option Group
reap_settle now g =
    if length g.members == 0
    then some (record g { state = empty; generation = pos 0; leader_id = [] })
    else if is_preparing g.state
    then (if leb (length g.members) (length g.joined) then complete_join g else some g)
    else some (begin_rebalance now g)

unfoldable pub drop_members : List Bytes → Group → Group
unfolding filter_order
drop_members dead g = record g {
  members = remove_all g.members dead;
  joined = without g.joined dead;
  join_order = filter_order g.join_order dead;
}

-- reapExpired, with the number of members removed.
unfoldable pub reap_expired : ℕ → ℤ → Group → Option (Group × ℕ)
reap_expired now default_session g =
    let dead = expired_members now default_session g.members in
    if length dead == 0
    then some (g, 0)
    else paired (length dead) (reap_settle now (drop_members dead g))

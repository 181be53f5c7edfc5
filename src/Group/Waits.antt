-- ===== src/Group/Waits.antt =====
-- What happens to members that wait in JoinGroup when the group changes under them
-- (internal/coordinator/group.go): two ways in which a member that has joined loses its place.
use pocketkafka.Prelude.{
  ℕ, ◌≤◌, ◌≡◌, refl, ap, ◌∙◌, true, false, not, ◌&&◌, some, List, [], arith, Bytes, bytes_eq,
  nat_eq, leb, length, inl, inr, Bool-cases, some_of,
}
use pocketkafka.Prelude.Dict.{
  Dict, has, elem, has-keys, has-remove_all, elem-without, has_none, has→pos,
}
use pocketkafka.Group.{Group, Member, empty, is_preparing, begin_rebalance, expire_rebalance}
use pocketkafka.Group.Roster.{IsRoster-unjoined}
use pocketkafka.Prelude.Ints.{int_eq}
use pocketkafka.Group.Messages.{JoinResponse, LeaveRequest, reply}
use pocketkafka.Group.Join.{fill_join_response, reply_filled, join_wake}
use pocketkafka.Group.Leave.{to_remove, leave_loop, leave_settle, leave_group, reorder, paired}
use pocketkafka.Group.Invariant.{HasRoster, IsWellFormed, expire_rebalance-IsWellFormed}
use pocketkafka.Group.Invariant.Leave.{leave_loop-eq, left-HasRoster}
use pocketkafka.Group.Members.{all_joined_iff, expire_rebalance-members}

-- An expired rebalance that nobody has joined leaves no member.
expire_nobody :
    {seq : ℕ} (g : Group)
    → HasRoster seq g
    → g.joined ≡ []
    → (g' : Group) × (expire_rebalance g ≡ some g') × (g'.members ≡ []) × (g'.state ≡ empty)
unfolding elem
expire_nobody {seq} g r e =
    let (g', f, w) = some_of (IsWellFormed seq) _ (expire_rebalance-IsWellFormed g r) in
    let gone : g'.members ≡ [] =
      has_none g'.members (λ k. expire_rebalance-members g g' k r f ∙ ap (elem k) e) in
    (g', f, gone, ground (arith, w.vacancy, ap (λ (d : Dict Bytes Member). length d) gone))

-- A wait that ends at or after its deadline expires the rebalance, whatever the group's state.
join_wake-late :
    (now later deadline : ℕ) (resp : JoinResponse) (id : Bytes) (g g' : Group)
    → has g.members id ≡ true
    → deadline ≤ now
    → expire_rebalance g ≡ some g'
    → join_wake now later deadline resp id g ≡ some (g', reply (fill_join_response g' resp id))
unfolding join_wake reply_filled
join_wake-late now later deadline resp id g g' h t e =
    rw h (ground (arith, ap (reply_filled resp id) e))

-- A member that waits in JoinGroup and takes the lock again at or after its deadline, when the
-- rebalance that it waited for has already completed, removes every member from the group; its
-- answer has the error code that it waited with.
pub late_wake-empties :
    {seq : ℕ} (now later deadline : ℕ) (resp : JoinResponse) (id : Bytes) (g : Group)
    → IsWellFormed seq g
    → is_preparing g.state ≡ false
    → has g.members id ≡ true
    → deadline ≤ now
    → (g' : Group) × (r : JoinResponse) × (join_wake now later deadline resp id g
        ≡ some (g', reply r))
      × (g'.members ≡ [])
      × (g'.state ≡ empty)
      × (r.error_code ≡ resp.error_code)
unfolding fill_join_response
late_wake-empties now later deadline resp id g w p h t =
    let (g', e, m, s) = expire_nobody g w.roster (w.quiet p) in
    (
      g',
      fill_join_response g' resp id,
      join_wake-late now later deadline resp id g g' h t e,
      m,
      s,
      refl,
    )

-- The group after the members of a LeaveGroup request are out.
abbrev left : LeaveRequest → Group → Group
left req g = reorder (to_remove req) (leave_loop (to_remove req) g).0

left-has :
    {seq : ℕ} (req : LeaveRequest) (g : Group) (k : Bytes)
    → HasRoster seq g
    → (has (left req g).members k ≡ (has g.members k && not (elem k (to_remove req))))
      × (elem k (left req g).joined ≡ (elem k g.joined && not (elem k (to_remove req))))
unfolding reorder
left-has req g k r =
    rw (leave_loop-eq (to_remove req) g r.joined_subset)
      (has-remove_all g.members (to_remove req) k, elem-without k g.joined (to_remove req))

leave_settle-restarts :
    {seq : ℕ} (now : ℕ) (g : Group) (j : Bytes)
    → HasRoster seq g
    → has g.members j ≡ true
    → elem j g.joined ≡ false
    → leave_settle now g ≡ some (begin_rebalance now g)
unfolding leave_settle
leave_settle-restarts now g j r h e =
    let waiting : leb (length g.members) (length g.joined) ≡ false =
      elim (Bool-cases (leb (length g.members) (length g.joined))) [
        | inl all ↦ absurd (cc ((all_joined_iff g r).0 all j h))
        | inr f ↦ f
      ] in
    ground (arith, has→pos g.members j h)

-- While a rebalance is being prepared, a LeaveGroup that leaves in the group a member `j` which has
-- not joined yet forgets that `k`, which stays too, has joined: `k` is still a member, and `joined`
-- is empty. Where nothing else happens before the deadline of `k`, its wait ends by removing it from
-- the group, with an answer that has the error code it waited with.
pub leave_group-forgets :
    {seq : ℕ} (now wake later deadline : ℕ) (req : LeaveRequest) (resp : JoinResponse) (g : Group)
    (j k : Bytes)
    → IsWellFormed seq g
    → (has g.members j ≡ true) × (elem j g.joined ≡ false) × (elem j (to_remove req) ≡ false)
    → (elem k g.joined ≡ true) × (elem k (to_remove req) ≡ false)
    → deadline ≤ wake
    → (g' : Group) × (gone : List Bytes) × (g'' : Group) × (r : JoinResponse) × (leave_group now req
          g
        ≡ some (g', gone))
      × (has g'.members k ≡ true)
      × (g'.joined ≡ [])
      × (join_wake wake later deadline resp k g' ≡ some (g'', reply r))
      × (has g''.members k ≡ false)
      × (r.error_code ≡ resp.error_code)
unfolding leave_group begin_rebalance fill_join_response paired has
leave_group-forgets now wake later deadline req resp g j k w (hj, nj, sj) (jk, sk) t =
    let r = w.roster in
    let lr = left-HasRoster (to_remove req) g r in
    let g' = begin_rebalance now (left req g) in
    let settled : leave_settle now (left req g) ≡ some g' =
      leave_settle-restarts now (left req g) j lr (ground (arith, left-has req g j r))
        (ground (arith, left-has req g j r)) in
    let there : has g'.members k ≡ true =
      ground (arith, left-has req g k r, r.joined_subset.at k, has-keys g.members k) in
    let (g'', f, m, s) = expire_nobody g' (IsRoster-unjoined lr) refl in
    (
      g',
      (leave_loop (to_remove req) g).1,
      g'',
      fill_join_response g'' resp k,
      ap (paired _) settled,
      there,
      refl,
      join_wake-late wake later deadline resp k g' g'' there t f,
      ap (λ (d : Dict Bytes Member). has d k) m,
      refl,
    )

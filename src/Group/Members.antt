-- ===== src/Group/Members.antt =====
-- Who is in a group after an expiry of a rebalance, a leave or a reaping, and who the leader is told of.
use pocketkafka.Prelude.{
  ℕ, ◌≡◌, refl, ap, sym, ◌∙◌, ◌↔◌, true, not, Option, none, some, List, [], ◌∷◌, map, arith, Bytes,
  ◌==◌, bytes_eq, nat_eq, leb, leb→le, length, beq→eq, beq_refl, if_rule, if◌then◌else◌, inl, inr,
  Option-cases,
}
use pocketkafka.Prelude.Ints.{ℤ}
use pocketkafka.Prelude.Dict.{
  Dict, get, has, keys, elem, without, IsUnique, has-keys, has-get, length-keys, elem-without,
  has-remove_all,
}
use pocketkafka.Prelude.Subset.{pigeonhole, elem→pos}
use pocketkafka.Group.{
  Group, Member, begin_rebalance, complete_join, complete_ordered, complete_with, absentees,
  expire_rebalance,
}
use pocketkafka.Group.Messages.{JoinResponse, JoinResponseMember}
use pocketkafka.Group.Join.{fill_join_response, response_members}
use pocketkafka.Group.Leave.{
  leave_settle, paired, drop_members, session_expired, expired_members, reap_settle, reap_expired,
}
use pocketkafka.Group.Invariant.{HasRoster}

-- The test by which a join completes a rebalance passes exactly if every member has joined.
pub all_joined_iff :
    {seq : ℕ} (g : Group)
    → HasRoster seq g
    → (leb (length g.members) (length g.joined) ≡ true)
      ↔ ((k : Bytes) → has g.members k ≡ true → elem k g.joined ≡ true)
all_joined_iff g r = (
  λ e k m.
      ((pigeonhole g.joined (keys g.members) r.joined_unique r.joined_subset).1
          (omega (arith, length-keys g.members, leb→le _ _ e))).at
        k (sym (has-keys g.members k) ∙ m),
  λ all. ground (
    arith,
    length-keys g.members,
    (pigeonhole (keys g.members) g.joined r.unique
        (record { at = λ k m. all k (has-keys g.members k ∙ m) })).0,
  ),
)

complete_ordered-members :
    (g g' : Group) (ids : List Bytes) → complete_ordered g ids ≡ some g' → g'.members ≡ g.members
unfolding complete_ordered complete_with
complete_ordered-members g g' [] e = cc
complete_ordered-members g g' (id ∷ ids) e = ground arith

pub complete_join-members : (g g' : Group) → complete_join g ≡ some g' → g'.members ≡ g.members
unfolding complete_join
complete_join-members g g' e = ground (arith, complete_ordered-members g g' g.join_order)

-- An expired rebalance keeps exactly the members that have joined it.
pub expire_rebalance-members :
    {seq : ℕ} (g g' : Group) (k : Bytes)
    → HasRoster seq g
    → expire_rebalance g ≡ some g'
    → has g'.members k ≡ elem k g.joined
unfolding expire_rebalance absentees
expire_rebalance-members g g' k r e =
    ap (λ d. has d k) (complete_join-members _ g' e)
    ∙ ground (
      arith,
      has-remove_all g.members (without (keys g.members) g.joined) k,
      elem-without k (keys g.members) g.joined,
      has-keys g.members k,
      r.joined_subset.at k,
    )

response_members-ids :
    (g : Group) (ids : List Bytes)
    → ((k : Bytes) (m : Member) → get g.members k ≡ some m → m.id ≡ k)
    → ((k : Bytes) → elem k ids ≡ true → has g.members k ≡ true)
    → map (λ (m : JoinResponseMember). m.member_id) (response_members g ids) ≡ ids
unfolding response_members elem
response_members-ids g [] named all = refl
response_members-ids g (id ∷ ids) named all = elim (Option-cases (get g.members id)) [
  | inl e ↦ ground (arith, e, all id (ground (arith, beq_refl id)), has-get g.members id)
  | inr (m, e) ↦ rw e (
      ground
        (arith, named id m e, response_members-ids g ids named (λ k h. all k (ground (arith, h)))))
]

-- The leader's answer lists the members of the group, each once and in the join order; every other
-- member's answer lists none.
pub fill_join_response-members :
    {seq : ℕ} (g : Group) (resp : JoinResponse) (id : Bytes)
    → HasRoster seq g
    → map (λ (m : JoinResponseMember). m.member_id) (fill_join_response g resp id).members
      ≡ (if id == g.leader_id then keys g.members else [])
unfolding fill_join_response
fill_join_response-members g resp id r =
    let all =
      response_members-ids g g.join_order r.named
        (λ k h. has-keys g.members k ∙ sym (ap (elem k) r.ordered) ∙ h) in
    ground (arith, all, r.ordered)

expired_members-within :
    (now : ℕ) (d : ℤ) (ms : Dict Bytes Member) (k : Bytes)
    → elem k (expired_members now d ms) ≡ true
    → has ms k ≡ true
unfolding expired_members elem has
expired_members-within now d [] k h = h
expired_members-within now d ((j, w) ∷ ms) k h = ground (arith, expired_members-within now d ms k)

expired_members-elem :
    (now : ℕ) (d : ℤ) (ms : Dict Bytes Member) (k : Bytes) (m : Member)
    → IsUnique (keys ms)
    → get ms k ≡ some m
    → elem k (expired_members now d ms) ≡ session_expired now d m
unfolding expired_members elem get keys
expired_members-elem now d [] k m u e = ground arith
expired_members-elem now d ((j, w) ∷ ms) k m u e = ground (
  arith,
  beq→eq j k,
  expired_members-elem now d ms k m,
  expired_members-within now d ms j,
  has-keys ms j,
)

begin_rebalance-members : (now : ℕ) (g : Group) → (begin_rebalance now g).members ≡ g.members
unfolding begin_rebalance
begin_rebalance-members now g = refl

reap_settle-members :
    (now : ℕ) (g g' : Group) → reap_settle now g ≡ some g' → g'.members ≡ g.members
unfolding reap_settle
reap_settle-members now g g' e =
    ground (arith, complete_join-members g g', begin_rebalance-members now g)

leave_settle-members :
    (now : ℕ) (g g' : Group) → leave_settle now g ≡ some g' → g'.members ≡ g.members
unfolding leave_settle
leave_settle-members now g g' e =
    ground (arith, complete_join-members g g', begin_rebalance-members now g)

paired-some :
    {A : Type 0} (a b : A) (o : Option Group) (g : Group) → paired a o ≡ some (g, b) → o ≡ some g
unfolding paired
paired-some a b none g e = cc
paired-some a b (some h) g e = cc

same_group :
    (g g' : Group) (m n : ℕ) → ◌≡◌ {A = Option (Group × ℕ)} (some (g, m)) (some (g', n)) → g ≡ g'
same_group g g' m n e = cc

-- A member of the group is still in it after a reaping exactly if its session had not expired.
pub reap_expired-members :
    {seq : ℕ} (now : ℕ) (d : ℤ) (g g' : Group) (n : ℕ) (k : Bytes) (m : Member)
    → HasRoster seq g
    → reap_expired now d g ≡ some (g', n)
    → get g.members k ≡ some m
    → has g'.members k ≡ not (session_expired now d m)
unfolding reap_expired drop_members
reap_expired-members now d g g' n k m r e f =
    let dead : List Bytes = expired_members now d g.members in
    let listed : elem k dead ≡ session_expired now d m =
      expired_members-elem now d g.members k m r.unique f in
    if_rule
      (λ (o : Option (Group × ℕ)).
        o ≡ some (g', n) → has g'.members k ≡ not (session_expired now d m))
      (length dead == 0)
      (λ z q. ground (
        arith,
        listed,
        f,
        has-get g.members k,
        elem→pos k dead,
        ap (λ (x : Group). has x.members k) (same_group g g' 0 n q),
      ))
      (λ z q.
        ap (λ ms. has ms k) (reap_settle-members now _ g' (paired-some _ n _ g' q))
        ∙ ground (arith, has-remove_all g.members dead k, has-get g.members k, f, listed))
      e

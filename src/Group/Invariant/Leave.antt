-- ===== src/Group/Invariant/Leave.antt =====
-- LeaveGroup and the reaper keep the invariant and do not panic.
use pocketkafka.Prelude.{
  ℕ, ◌≡◌, refl, ap, sym, ◌∙◌, true, false, ◌&&◌, Option, none, some, List, [], ◌∷◌, arith, Bytes,
  ◌==◌, bytes_eq, nat_eq, leb, length, Bool-cases, inl, inr, Ensures, if_rule, if◌then◌else◌,
}
use pocketkafka.Prelude.Ints.{ℤ, pos}
use pocketkafka.Prelude.Dict.{
  has, remove, remove_all, keys, elem, without, has-keys, length-keys, elem-without, has-remove_all,
  remove_absent, without-nil, without-cons, without_absent,
}
use pocketkafka.Prelude.Subset.{IsSubset, pigeonhole}
use pocketkafka.Group.{Group, empty, is_preparing}
use pocketkafka.Group.Roster.{IsRoster-remove_all}
use pocketkafka.Group.Messages.{LeaveRequest}
use pocketkafka.Group.Leave.{
  to_remove, leave_loop, leave_settle, leave_group, expired_members, reap_settle, reap_expired,
  paired, reorder, drop_members,
}
use pocketkafka.Group.Invariant.{
  HasRoster, IsWellFormed, Sound, preparing-IsWellFormed, complete_join-IsWellFormed,
  begin_rebalance-IsWellFormed,
}

-- No joiner is left where no member is.
joined-empty : {seq : ℕ} (g : Group) → HasRoster seq g → length g.members ≡ 0 → g.joined ≡ []
joined-empty g r e = ground (
  arith,
  (pigeonhole g.joined (keys g.members) r.joined_unique r.joined_subset).0,
  length-keys g.members,
)

vacated-IsWellFormed :
    {seq : ℕ} (g : Group)
    → HasRoster seq g
    → (length g.members == 0) ≡ true
    → IsWellFormed seq (record g { state = empty; generation = pos 0; leader_id = [] })
vacated-IsWellFormed g r e = record {
  roster = r;
  quiet = λ p. joined-empty g r (ground arith);
  vacancy = sym e;
  led = λ p. ground arith;
}

leave_settle-IsWellFormed :
    {seq : ℕ} (now : ℕ) (g : Group)
    → HasRoster seq g
    → Ensures (IsWellFormed seq) (leave_settle now g)
unfolding leave_settle
leave_settle-IsWellFormed now g r = elim (Bool-cases (length g.members == 0)) [
  | inl e ↦ rw e (vacated-IsWellFormed g r e)
  | inr e ↦
      rw e (elim (Bool-cases (is_preparing g.state && leb (length g.members) (length g.joined))) [
        | inl c ↦ rw c (complete_join-IsWellFormed g r)
        | inr c ↦ rw c (begin_rebalance-IsWellFormed now g r (ground arith))
      ])
]

reap_settle-IsWellFormed :
    {seq : ℕ} (now : ℕ) (g : Group)
    → HasRoster seq g
    → Ensures (IsWellFormed seq) (reap_settle now g)
unfolding reap_settle
reap_settle-IsWellFormed now g r = elim (Bool-cases (length g.members == 0)) [
  | inl e ↦ rw e (vacated-IsWellFormed g r e)
  | inr e ↦ rw e (elim (Bool-cases (is_preparing g.state)) [
    | inr p ↦ rw p (begin_rebalance-IsWellFormed now g r (ground arith))
    | inl p ↦ rw p (elim (Bool-cases (leb (length g.members) (length g.joined))) [
      | inl c ↦ rw c (complete_join-IsWellFormed g r)
      | inr c ↦ rw c (preparing-IsWellFormed g p r (ground arith))
    ])
  ])
]

paired-Sound :
    {A : Type 0} (seq : ℕ) (a : A) (o : Option Group)
    → Ensures (IsWellFormed seq) o
    → Sound seq (paired a o)
unfolding paired
paired-Sound seq a none h = h
paired-Sound seq a (some g) h = h

drop_members-HasRoster :
    {seq : ℕ} (dead : List Bytes) (g : Group)
    → HasRoster seq g
    → HasRoster seq (drop_members dead g)
unfolding drop_members
drop_members-HasRoster dead g r = IsRoster-remove_all dead r

-- The reaper does not panic and leaves the group well formed.
pub reap_expired-Sound :
    {seq : ℕ} (now : ℕ) (d : ℤ) (g : Group) → IsWellFormed seq g → Sound seq (reap_expired now d g)
unfolding reap_expired
reap_expired-Sound {seq} now d g w =
    if_rule (Sound seq) (length (expired_members now d g.members) == 0) (λ e. w)
      (λ e.
        paired-Sound seq _ _ (reap_settle-IsWellFormed now _ (drop_members-HasRoster _ g w.roster)))

abbrev take_out : Bytes → Group → Group
take_out id g = record g { members = remove g.members id; joined = without g.joined (id ∷ []) }

-- Taking out a stranger changes nothing.
take_out-stranger :
    (id : Bytes) (g : Group)
    → IsSubset g.joined (keys g.members)
    → has g.members id ≡ false
    → take_out id g ≡ g
take_out-stranger id g s h =
    let unjoined : elem id g.joined ≡ false = ground (arith, s.at id, has-keys g.members id) in
    λ i. record g {
      members = remove_absent g.members id h i;
      joined = without_absent id g.joined unjoined i;
    }

take_out-IsSubset :
    (id : Bytes) (g : Group)
    → IsSubset g.joined (keys g.members)
    → IsSubset (take_out id g).joined (keys (take_out id g).members)
unfolding remove_all
take_out-IsSubset id g s = record {
  at = λ k m. ground (
    arith,
    elem-without k g.joined (id ∷ []),
    s.at k,
    has-keys g.members k,
    has-keys (remove g.members id) k,
    has-remove_all g.members (id ∷ []) k,
  );
}

take_out-either :
    (id : Bytes) (g : Group)
    → IsSubset g.joined (keys g.members)
    → (if has g.members id then take_out id g else g) ≡ take_out id g
take_out-either id g s =
    if_rule (λ h. h ≡ take_out id g) (has g.members id) (λ e. refl)
      (λ e. sym (take_out-stranger id g s e))

-- Taking the members out one by one takes them all out, and their joins.
pub leave_loop-eq :
    (ids : List Bytes) (g : Group)
    → IsSubset g.joined (keys g.members)
    → (leave_loop ids g).0
      ≡ record g { members = remove_all g.members ids; joined = without g.joined ids }
unfolding leave_loop remove_all
leave_loop-eq [] g s = λ i. record g { joined = sym (without-nil g.joined) i }
leave_loop-eq (id ∷ ids) g s =
    ap (λ h. (leave_loop ids h).0) (take_out-either id g s)
    ∙ leave_loop-eq ids (take_out id g) (take_out-IsSubset id g s)
    ∙ (λ i. record g {
      members = remove_all (remove g.members id) ids;
      joined = sym (without-cons id g.joined ids) i;
    })

pub left-HasRoster :
    {seq : ℕ} (ids : List Bytes) (g : Group)
    → HasRoster seq g
    → HasRoster seq (reorder ids (leave_loop ids g).0)
unfolding reorder
left-HasRoster ids g r = rw (leave_loop-eq ids g r.joined_subset) (IsRoster-remove_all ids r)

-- LeaveGroup does not panic and leaves the group well formed.
pub leave_group-Sound :
    {seq : ℕ} (now : ℕ) (req : LeaveRequest) (g : Group)
    → IsWellFormed seq g
    → Sound seq (leave_group now req g)
unfolding leave_group
leave_group-Sound {seq} now req g w =
    paired-Sound seq _ _
      (leave_settle-IsWellFormed now _ (left-HasRoster (to_remove req) g w.roster))

-- ===== src/Group/Invariant.antt =====
-- What holds of a group between any two steps, and that the steps of a rebalance keep it.
pub mod Join
pub mod Sync
pub mod Leave
use native.Mathlib.Decide.{dec_le}
use pocketkafka.Prelude.{
  ℕ, ◌≤◌, ◌≡◌, refl, ap, ◌∙◌, Option, Bool, true, false, ◌||◌, some, List, [], ◌∷◌, arith, Bytes,
  ◌==◌, bytes_eq, nat_eq, beq_refl, head?, length, Ensures, List-cases, inl, inr,
}
use pocketkafka.Prelude.Dict.{get, keys}
use pocketkafka.Group.{
  Group, GroupState, Member, empty, preparing_rebalance, completing_rebalance, stable, is_preparing,
  is_completing, is_stable, begin_rebalance, complete_with, complete_led, complete_ordered,
  complete_join, absentees, expire_rebalance, filter_order,
}
use pocketkafka.Group.Roster.{IsRoster, IsRoster-unjoined, IsRoster-expire}

abbrev pub is_empty : GroupState → Bool
is_empty empty = true
is_empty preparing_rebalance = false
is_empty completing_rebalance = false
is_empty stable = false

abbrev pub HasRoster : ℕ → Group → Type 0
HasRoster seq g = IsRoster seq g.join_order g.members g.joined

-- Only a group that prepares a rebalance has joiners; an empty group is one with no member; the
-- leader of a group past its rebalance is the first member in the join order.
pub record IsWellFormed (seq : ℕ) (g : Group) : Type 0 where
  pub roster : HasRoster seq g
  pub quiet : is_preparing g.state ≡ false → g.joined ≡ []
  pub vacancy : is_empty g.state ≡ (length g.members == 0)
  pub led :
      (is_completing g.state || is_stable g.state) ≡ true → head? g.join_order ≡ some g.leader_id

-- The handler does not panic, and the group that it leaves is well formed.
abbrev pub Sound : ℕ → {A : Type 0} → Option (Group × A) → Type 0
Sound seq = Ensures (λ r. IsWellFormed seq r.0)

pub preparing-IsWellFormed :
    {seq : ℕ} (g : Group)
    → is_preparing g.state ≡ true
    → HasRoster seq g
    → 1 ≤ length g.members
    → IsWellFormed seq g
preparing-IsWellFormed g p r h = record {
  roster = r;
  quiet = λ e. ground arith;
  vacancy = ground arith;
  led = λ e. ground arith;
}

pub begin_rebalance-IsWellFormed :
    {seq : ℕ} (now : ℕ) (g : Group)
    → HasRoster seq g
    → 1 ≤ length g.members
    → IsWellFormed seq (begin_rebalance now g)
unfolding begin_rebalance
begin_rebalance-IsWellFormed now g r h = record {
  roster = IsRoster-unjoined r;
  quiet = λ e. refl;
  vacancy = ground arith;
  led = λ e. ground arith;
}

-- A group with members completes under the first member in the join order.
pub complete_join-eq :
    (g : Group) (id : Bytes) (ids : List Bytes) (leader : Member)
    → 1 ≤ length g.members
    → g.join_order ≡ id ∷ ids
    → get g.members id ≡ some leader
    → complete_join g ≡ some (complete_with g id leader)
unfolding complete_join
complete_join-eq g id ids leader h o l =
    ground (arith, ap (complete_ordered g) o, ap (complete_led g id) l)

complete_with-IsWellFormed :
    {seq : ℕ} (g : Group) (id : Bytes) (ids : List Bytes) (leader : Member)
    → HasRoster seq g
    → 1 ≤ length g.members
    → g.join_order ≡ id ∷ ids
    → IsWellFormed seq (complete_with g id leader)
unfolding complete_with
complete_with-IsWellFormed g id ids leader r h o = record {
  roster = IsRoster-unjoined r;
  quiet = λ e. refl;
  vacancy = ground arith;
  led = λ e. rw o;
}

vacated-IsWellFormed :
    {seq : ℕ} (g : Group)
    → HasRoster seq g
    → length g.members ≡ 0
    → Ensures (IsWellFormed seq) (complete_join g)
unfolding complete_join
vacated-IsWellFormed g r e = rw e (record {
  roster = IsRoster-unjoined r;
  quiet = λ e. refl;
  vacancy = ground arith;
  led = λ e. ground arith;
})

-- The first in the join order of a group with members is one of them.
pub first_member :
    {seq : ℕ} (g : Group)
    → HasRoster seq g
    → 1 ≤ length g.members
    → (id : Bytes) × (ids : List Bytes) × (m : Member) × (g.join_order ≡ id ∷ ids)
      × (get g.members id ≡ some m)
unfolding get keys
first_member g r h = elim (List-cases g.members) [
  | inl e ↦ absurd (omega (arith, ap length e))
  | inr ((k, m), ms, e) ↦
      (k, keys ms, m, r.ordered ∙ ap keys e, ap (λ d. get d k) e ∙ ground (arith, beq_refl k))
]

-- A join that is completed on a sound roster does not panic, and leaves the group well formed.
pub complete_join-IsWellFormed :
    {seq : ℕ} (g : Group) → HasRoster seq g → Ensures (IsWellFormed seq) (complete_join g)
complete_join-IsWellFormed g r = elim (dec_le 1 (length g.members)) [
  | yes h ↦
      let (id, ids, m, o, l) = first_member g r h in
      rw (complete_join-eq g id ids m h o l) (complete_with-IsWellFormed g id ids m r h o)
  | no h ↦ vacated-IsWellFormed g r (omega arith)
]

-- So does the expiry of a rebalance.
pub expire_rebalance-IsWellFormed :
    {seq : ℕ} (g : Group) → HasRoster seq g → Ensures (IsWellFormed seq) (expire_rebalance g)
unfolding expire_rebalance filter_order absentees
expire_rebalance-IsWellFormed g r = complete_join-IsWellFormed _ (IsRoster-expire r)

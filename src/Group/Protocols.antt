-- ===== src/Group/Protocols.antt =====
-- The protocol that a completed rebalance settles on (chooseProtocol in
-- internal/coordinator/group.go).
use pocketkafka.Prelude.{
  ℕ, ◌≤◌, ◌≡◌, refl, ap, sym, true, false, some, List, [], ◌∷◌, arith, Bytes, ◌==◌, bytes_eq,
  nat_eq, length, beq→eq, inl, inr, List-cases, Option-cases, Bool-cases, if_rule, subst,
}
use pocketkafka.Prelude.Dict.{Dict, get, elem, has-keys, has-get}
use pocketkafka.Group.{
  Group, Member, Protocol, supports, all_support, choose_loop, choose_from, choose_protocol,
  complete_with, complete_join,
}
use pocketkafka.Group.Invariant.{HasRoster, first_member, complete_join-eq}

-- Every member has a protocol of that name.
pub record IsCommon (members : Dict Bytes Member) (name : Bytes) : Type 0 where
  pub at : (k : Bytes) (m : Member) → get members k ≡ some m → supports m.protocols name ≡ true

all_support-at :
    (members : Dict Bytes Member) (order : List Bytes) (name k : Bytes) (m : Member)
    → all_support members order name ≡ true
    → elem k order ≡ true
    → get members k ≡ some m
    → supports m.protocols name ≡ true
unfolding all_support elem
all_support-at members [] name k m a e g = cc
all_support-at members (id ∷ ids) name k m a e g =
    ground (arith, all_support-at members ids name k m, beq→eq id k)

IsCommon→all_support :
    (members : Dict Bytes Member) (order : List Bytes) (name : Bytes)
    → IsCommon members name
    → all_support members order name ≡ true
unfolding all_support
IsCommon→all_support members [] name c = refl
IsCommon→all_support members (id ∷ ids) name c = elim (Option-cases (get members id)) [
  | inl e ↦ rw (e, all_support) (IsCommon→all_support members ids name c)
  | inr (m, e) ↦ ground (arith, e, c.at id m e, IsCommon→all_support members ids name c)
]

choose_loop-all_support :
    (members : Dict Bytes Member) (order : List Bytes) (ps : List Protocol) (fallback name : Bytes)
    → supports ps name ≡ true
    → all_support members order name ≡ true
    → all_support members order (choose_loop members order ps fallback) ≡ true
unfolding choose_loop supports
choose_loop-all_support members order [] fallback name s a = cc
choose_loop-all_support members order (p ∷ ps) fallback name s a =
    if_rule (λ chosen. all_support members order chosen ≡ true) (all_support members order p.name)
      (λ e. e)
      (λ e.
        let other : (p.name == name) ≡ false = elim (Bool-cases (p.name == name)) [
          | inr f ↦ f
          | inl f ↦ absurd (cc (ap (all_support members order) (beq→eq p.name name f), e, a))
        ] in
        choose_loop-all_support members order ps fallback name (rw other at s) a)

choose_protocol-all_support :
    (members : Dict Bytes Member) (order : List Bytes) (leader : Member) (name : Bytes)
    → supports leader.protocols name ≡ true
    → all_support members order name ≡ true
    → all_support members order (choose_protocol members order (some leader)) ≡ true
unfolding choose_protocol
choose_protocol-all_support members order leader name s a = elim (List-cases leader.protocols) [
  | inl e ↦ absurd (ground (arith, ap (λ ps. supports ps name) e))
  | inr (p, ps, e) ↦
      rw (e, choose_from) (choose_loop-all_support members order (p ∷ ps) p.name name (rw e at s) a)
]

complete_with-IsCommon :
    {seq : ℕ} (g : Group) (id : Bytes) (leader : Member)
    → HasRoster seq g
    → all_support g.members g.join_order (choose_protocol g.members g.join_order (some leader))
      ≡ true
    → IsCommon (complete_with g id leader).members (complete_with g id leader).protocol
unfolding complete_with
complete_with-IsCommon g id leader r chosen = record {
  at = λ k m f.
      all_support-at g.members g.join_order _ k m chosen
        (ground (arith, ap (elem k) r.ordered, has-keys g.members k, has-get g.members k, f)) f;
}

-- Where the members have a protocol in common, the one that a completed rebalance settles on is
-- common to all of them.
pub complete_join-protocol :
    {seq : ℕ} (g g' : Group) (name : Bytes)
    → HasRoster seq g
    → 1 ≤ length g.members
    → complete_join g ≡ some g'
    → IsCommon g.members name
    → IsCommon g'.members g'.protocol
complete_join-protocol g g' name r h e c =
    let (id, ids, leader, o, l) = first_member g r h in
    let done : g' ≡ complete_with g id leader =
      ground (arith, e, complete_join-eq g id ids leader h o l) in
    let chosen =
      choose_protocol-all_support g.members g.join_order leader name (c.at id leader l)
        (IsCommon→all_support g.members g.join_order name c) in
    subst (λ x. IsCommon x.members x.protocol) (sym done)
      (complete_with-IsCommon g id leader r chosen)

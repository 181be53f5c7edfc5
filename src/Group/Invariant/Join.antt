-- ===== src/Group/Invariant/Join.antt =====
-- JoinGroup keeps the invariant and does not panic, given that the manager's counter has issued
-- every identifier in the group.
use pocketkafka.Prelude.{
  ℕ, suc, ◌≤◌, ◌≡◌, refl, ◌&&◌, true, Option, none, some, [], ◌∷◌, arith, Bytes, ◌==◌, bytes_eq,
  nat_eq, leb, ltb, length, Ensures, Bool-cases, Option-cases, inl, inr, beq_refl,
}
use pocketkafka.Prelude.Ints.{ℤ}
use pocketkafka.Prelude.Dict.{Dict, get, has, put, get-put, has-get, length-put}
use pocketkafka.Group.{Group, Member, is_preparing, is_stable, begin_rebalance}
use pocketkafka.Group.Roster.{
  IsRoster, IsRoster-unjoined, IsRoster-put, IsRoster-put_new, IsRoster-add,
}
use pocketkafka.Group.Messages.{JoinRequest, JoinResponse}
use pocketkafka.Group.Join.{
  reply_filled, join_loop, enroll, join_decide, join_found, join_member, join_new, join_again,
  refresh_member, same_member_metadata, join_group, join_wake,
}
use pocketkafka.Group.Invariant.{
  IsWellFormed, Sound, preparing-IsWellFormed, complete_join-IsWellFormed,
  expire_rebalance-IsWellFormed,
}

reply_filled-Sound :
    (seq : ℕ) (resp : JoinResponse) (id : Bytes) (o : Option Group)
    → Ensures (IsWellFormed seq) o
    → Sound seq (reply_filled resp id o)
unfolding reply_filled
reply_filled-Sound seq resp id none h = h
reply_filled-Sound seq resp id (some g) h = h

put_pos : (d : Dict Bytes Member) (k : Bytes) (m : Member) → 1 ≤ length (put d k m)
unfolding put
put_pos [] k m = omega arith
put_pos ((j, w) ∷ d) k m = ground arith

join_loop-Sound :
    {seq : ℕ} (now deadline : ℕ) (resp : JoinResponse) (id : Bytes) (g : Group)
    → IsWellFormed seq g
    → Sound seq (join_loop now deadline resp id g)
unfolding join_loop
join_loop-Sound now deadline resp id g w = elim (Bool-cases (is_preparing g.state)) [
  | inr e ↦ rw e (reply_filled-Sound _ resp id (some g) w)
  | inl e ↦ rw e (elim (Bool-cases (leb deadline now)) [
    | inl t ↦ rw t (reply_filled-Sound _ resp id _ (expire_rebalance-IsWellFormed g w.roster))
    | inr t ↦ rw t w
  ])
]

enroll-IsWellFormed :
    {seq : ℕ} (now : ℕ) (id : Bytes) (m : Member) (g : Group)
    → IsRoster seq g.join_order (put g.members id m) g.joined
    → IsWellFormed seq (enroll now id m g)
unfolding enroll begin_rebalance
enroll-IsWellFormed now id m g r =
    let there : has (put g.members id m) id ≡ true =
      ground (arith, has-get (put g.members id m) id, get-put g.members id id m, beq_refl id) in
    elim (Bool-cases (is_preparing g.state)) [
      | inl e ↦ rw e (preparing-IsWellFormed _ e (IsRoster-add id there r) (put_pos g.members id m))
      | inr e ↦ rw e (
          preparing-IsWellFormed _ refl (IsRoster-add id there (IsRoster-unjoined r))
            (put_pos g.members id m))
    ]

join_decide-Sound :
    {seq : ℕ} (now : ℕ) (resp : JoinResponse) (id : Bytes) (g : Group)
    → IsWellFormed seq g
    → Sound seq (join_decide now resp id g)
unfolding join_decide
join_decide-Sound now resp id g w = elim (Bool-cases (leb (length g.members) (length g.joined))) [
  | inl e ↦ rw e (reply_filled-Sound _ resp id _ (complete_join-IsWellFormed g w.roster))
  | inr e ↦ rw e (join_loop-Sound now g.rebalance_deadline resp id g w)
]

join_member-Sound :
    {seq : ℕ} (now : ℕ) (resp : JoinResponse) (id : Bytes) (m : Member) (g : Group)
    → IsRoster seq g.join_order (put g.members id m) g.joined
    → Sound seq (join_member now resp id m g)
unfolding join_member
join_member-Sound now resp id m g r =
    join_decide-Sound now _ id _ (enroll-IsWellFormed now id m g r)

join_new-Sound :
    (now : ℕ) (d : ℤ) (seq : ℕ) (req : JoinRequest) (g : Group)
    → IsWellFormed seq g
    → Sound (suc seq) (join_new now d seq req g)
unfolding join_new refresh_member
join_new-Sound now d seq req g w = join_member-Sound now _ _ _ _ (IsRoster-put_new _ refl w.roster)

join_again-Sound :
    {seq : ℕ} (now : ℕ) (req : JoinRequest) (m : Member) (g : Group)
    → IsWellFormed seq g
    → get g.members req.member_id ≡ some m
    → Sound seq (join_again now req m g)
unfolding join_again
join_again-Sound now req m g w e = reply_filled-Sound _ _ req.member_id _ (record {
  roster = IsRoster-put req.member_id m _ e (w.roster.named _ m e) w.roster;
  quiet = w.quiet;
  vacancy = ground (
    arith,
    w.vacancy,
    length-put g.members req.member_id (record m { last_heartbeat = now }),
    has-get g.members req.member_id,
  );
  led = w.led;
})

join_found-Sound :
    (now : ℕ) (d : ℤ) (seq : ℕ) (req : JoinRequest) (m : Member) (g : Group)
    → IsWellFormed seq g
    → get g.members req.member_id ≡ some m
    → Sound (join_found now d seq req m g).1 (join_found now d seq req m g).0
unfolding join_found refresh_member
join_found-Sound now d seq req m g w e =
    elim (Bool-cases (is_stable g.state && same_member_metadata m req)) [
      | inl s ↦ rw s (join_again-Sound now req m g w e)
      | inr s ↦ rw s (elim (Bool-cases (req.member_id == [])) [
        | inl z ↦ rw z (join_new-Sound now d seq req g w)
        | inr z ↦ rw z (
            join_member-Sound now _ req.member_id _ g
              (IsRoster-put req.member_id m _ e (w.roster.named _ m e) w.roster))
      ])
    ]

-- JoinGroup on a well-formed group, up to its answer or its wait, does not panic and leaves the
-- group well formed.
pub join_group-Sound :
    (now : ℕ) (d : ℤ) (seq : ℕ) (req : JoinRequest) (g : Group)
    → IsWellFormed seq g
    → Sound (join_group now d seq req g).1 (join_group now d seq req g).0
unfolding join_group
join_group-Sound now d seq req g w = elim (Bool-cases (length req.protocols == 0)) [
  | inl e ↦ rw e w
  | inr e ↦ rw e (elim (Option-cases (get g.members req.member_id)) [
    | inl n ↦ rw (n, join_group) (join_new-Sound now d seq req g w)
    | inr (m, f) ↦ rw (f, join_group) (join_found-Sound now d seq req m g w f)
  ])
]

-- When a wait of JoinGroup ends, it goes on without a panic and leaves the group well formed.
pub join_wake-Sound :
    {seq : ℕ} (now later deadline : ℕ) (resp : JoinResponse) (id : Bytes) (g : Group)
    → IsWellFormed seq g
    → Sound seq (join_wake now later deadline resp id g)
unfolding join_wake
join_wake-Sound now later deadline resp id g w = elim (Bool-cases (has g.members id)) [
  | inr e ↦ rw e w
  | inl e ↦ rw e (elim (Bool-cases (ltb now deadline)) [
    | inl t ↦ rw t (join_loop-Sound later deadline resp id g w)
    | inr t ↦ rw t (reply_filled-Sound _ resp id _ (expire_rebalance-IsWellFormed g w.roster))
  ])
]

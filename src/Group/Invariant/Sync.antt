-- ===== src/Group/Invariant/Sync.antt =====
-- SyncGroup and Heartbeat keep the invariant.
use pocketkafka.Prelude.{
  ℕ, ◌≡◌, not, ◌&&◌, ◌||◌, arith, Bytes, ◌==◌, bytes_eq, nat_eq, leb, Bool-cases, inl, inr,
  Option-cases, if_rule, refl, ◌∙◌, some, none,
}
use pocketkafka.Prelude.Ints.{int_eq}
use pocketkafka.Prelude.Dict.{get, has, put, length-put, has-get}
use pocketkafka.Group.{Group, Member, is_preparing, is_completing}
use pocketkafka.Group.Roster.{IsRoster-put}
use pocketkafka.Group.Messages.{
  SyncRequest, SyncResponse, HeartbeatRequest, Outcome, ErrorCode, err_unknown_member_id,
}
use pocketkafka.Group.Sync.{
  take_assignments, sync_accept, sync_finish, sync_loop, sync_group, beat, heartbeat,
}
use pocketkafka.Group.Invariant.{IsWellFormed}

pub sync_finish-IsWellFormed :
    {seq : ℕ} (req : SyncRequest) (g : Group)
    → IsWellFormed seq g
    → IsWellFormed seq (sync_finish req g).0
unfolding sync_finish
sync_finish-IsWellFormed req g w =
    elim (Bool-cases (is_completing g.state && (req.generation_id == g.generation))) [
      | inr e ↦ rw e w
      | inl e ↦ rw e (record {
        roster = w.roster;
        quiet = λ p. w.quiet (ground arith);
        vacancy = ground (arith, w.vacancy);
        led = λ p. w.led (ground arith);
      })
    ]

-- A round of SyncGroup's wait leaves the group well formed.
pub sync_loop-IsWellFormed :
    {seq : ℕ} (now deadline : ℕ) (req : SyncRequest) (g : Group)
    → IsWellFormed seq g
    → IsWellFormed seq (sync_loop now deadline req g).0
unfolding sync_loop
sync_loop-IsWellFormed now deadline req g w =
    elim (Bool-cases (
      has g.assignments req.member_id
      || not (is_completing g.state && (g.generation == req.generation_id))
      || leb deadline now)) [ inl e ↦ rw e (sync_finish-IsWellFormed req g w) | inr e ↦ rw e w ]

sync_accept-IsWellFormed :
    {seq : ℕ} (now : ℕ) (req : SyncRequest) (g : Group)
    → IsWellFormed seq g
    → IsWellFormed seq (sync_accept now req g).0
unfolding sync_accept
sync_accept-IsWellFormed {seq} now req g w =
    if_rule (λ (r : Group × Outcome SyncResponse). IsWellFormed seq r.0)
      (has g.assignments req.member_id || req.member_id == g.leader_id)
      (λ e. sync_finish-IsWellFormed req g w) (λ e. sync_loop-IsWellFormed now _ req g w)

take_assignments-IsWellFormed :
    {seq : ℕ} (req : SyncRequest) (g : Group)
    → IsWellFormed seq g
    → IsWellFormed seq (take_assignments req g)
unfolding take_assignments
take_assignments-IsWellFormed req g w = record {
  roster = w.roster;
  quiet = w.quiet;
  vacancy = w.vacancy;
  led = w.led;
}

-- SyncGroup up to its answer or its wait leaves the group well formed.
pub sync_group-IsWellFormed :
    {seq : ℕ} (now : ℕ) (req : SyncRequest) (g : Group)
    → IsWellFormed seq g
    → IsWellFormed seq (sync_group now req g).0
unfolding sync_group
sync_group-IsWellFormed {seq} now req g w =
    let P = λ (r : Group × Outcome SyncResponse). IsWellFormed seq r.0 in
    if_rule P (is_preparing g.state) (λ e. w)
      (λ e.
        if_rule P (not (has g.members req.member_id)) (λ f. w)
          (λ f.
            if_rule P (not (req.generation_id == g.generation)) (λ h. w)
              (λ h. sync_accept-IsWellFormed now req _ (take_assignments-IsWellFormed req g w))))

-- A new time of its last heartbeat in one member leaves the group well formed.
pub touch-IsWellFormed :
    {seq : ℕ} (id : Bytes) (m m' : Member) (g : Group)
    → get g.members id ≡ some m
    → m'.id ≡ m.id
    → IsWellFormed seq g
    → IsWellFormed seq (record g { members = put g.members id m' })
touch-IsWellFormed id m m' g e n w = record {
  roster = IsRoster-put id m m' e (n ∙ w.roster.named id m e) w.roster;
  quiet = w.quiet;
  vacancy = ground (arith, w.vacancy, length-put g.members id m', has-get g.members id);
  led = w.led;
}

beat-IsWellFormed :
    {seq : ℕ} (now : ℕ) (req : HeartbeatRequest) (m : Member) (g : Group)
    → get g.members req.member_id ≡ some m
    → IsWellFormed seq g
    → IsWellFormed seq (beat now req m g).0
unfolding beat
beat-IsWellFormed {seq} now req m g e w =
    let P = λ (r : Group × ErrorCode). IsWellFormed seq r.0 in
    if_rule P (is_preparing g.state) (λ p. w)
      (λ p.
        if_rule P (not (req.generation_id == g.generation)) (λ h. w)
          (λ h. touch-IsWellFormed req.member_id m _ g e refl w))

pub heartbeat-stranger :
    (now : ℕ) (req : HeartbeatRequest) (g : Group)
    → get g.members req.member_id ≡ none
    → heartbeat now req g ≡ (g, err_unknown_member_id)
unfolding heartbeat
heartbeat-stranger now req g e = rw (e, heartbeat)

pub heartbeat-member :
    (now : ℕ) (req : HeartbeatRequest) (m : Member) (g : Group)
    → get g.members req.member_id ≡ some m
    → heartbeat now req g ≡ beat now req m g
unfolding heartbeat
heartbeat-member now req m g e = rw (e, heartbeat)

-- Heartbeat leaves the group well formed.
pub heartbeat-IsWellFormed :
    {seq : ℕ} (now : ℕ) (req : HeartbeatRequest) (g : Group)
    → IsWellFormed seq g
    → IsWellFormed seq (heartbeat now req g).0
heartbeat-IsWellFormed now req g w = elim (Option-cases (get g.members req.member_id)) [
  | inl e ↦ rw (heartbeat-stranger now req g e) w
  | inr (m, e) ↦ rw (heartbeat-member now req m g e) (beat-IsWellFormed now req m g e w)
]

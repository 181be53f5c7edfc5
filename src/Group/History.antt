-- ===== src/Group/History.antt =====
-- A group over its life: what can happen to it between two moments at which its lock is free, and
-- what holds at each of them (internal/coordinator/group.go).
use pocketkafka.Prelude.{
  ℕ, suc, ◌≡◌, refl, subst, Option, some, List, arith, Bytes, bytes_eq, ◌≢◌, none, ensured-ne-none,
}
use pocketkafka.Prelude.Ints.{ℤ}
use pocketkafka.Prelude.Dict.{elem, keys, has, get}
use pocketkafka.Group.{Group, new_group}
use pocketkafka.Group.Messages.{
  JoinRequest, JoinResponse, SyncRequest, HeartbeatRequest, LeaveRequest, Outcome,
}
use pocketkafka.Group.Join.{JoinResult, join_group, join_wake}
use pocketkafka.Group.Sync.{sync_group, sync_loop, heartbeat}
use pocketkafka.Group.Leave.{leave_group, reap_expired}
use pocketkafka.Group.Invariant.{IsWellFormed, Sound}
use pocketkafka.Group.Invariant.Join.{join_group-Sound, join_wake-Sound}
use pocketkafka.Group.Invariant.Sync.{
  sync_group-IsWellFormed, sync_loop-IsWellFormed, heartbeat-IsWellFormed,
}
use pocketkafka.Group.Invariant.Leave.{leave_group-Sound, reap_expired-Sound}

-- One stretch under the group's lock, with the manager's counter before and after it. A wait may
-- end at any time. `elsewhere` is a new member of another group.
pub data Step : ℕ → Group → ℕ → Group → Type 0 where
  joins :
      {seq seq' : ℕ} {g h : Group} {o : Outcome JoinResponse} (now : ℕ) (d : ℤ) (req : JoinRequest)
      → join_group now d seq req g ≡ (some (h, o), seq')
      → Step seq g seq' h
  wakes :
      {seq : ℕ} {g h : Group} {o : Outcome JoinResponse} (now later deadline : ℕ)
      (resp : JoinResponse) (id : Bytes)
      → join_wake now later deadline resp id g ≡ some (h, o)
      → Step seq g seq h
  syncs :
      {seq : ℕ} {g : Group} (now : ℕ) (req : SyncRequest) → Step seq g seq (sync_group now req g).0
  sync_rounds :
      {seq : ℕ} {g : Group} (now deadline : ℕ) (req : SyncRequest)
      → Step seq g seq (sync_loop now deadline req g).0
  beats :
      {seq : ℕ} {g : Group} (now : ℕ) (req : HeartbeatRequest)
      → Step seq g seq (heartbeat now req g).0
  leaves :
      {seq : ℕ} {g h : Group} {gone : List Bytes} (now : ℕ) (req : LeaveRequest)
      → leave_group now req g ≡ some (h, gone)
      → Step seq g seq h
  reaps :
      {seq : ℕ} {g h : Group} {n : ℕ} (now : ℕ) (d : ℤ)
      → reap_expired now d g ≡ some (h, n)
      → Step seq g seq h
  elsewhere : {seq : ℕ} {g : Group} → Step seq g (suc seq) g

pub data Reach (name : Bytes) : ℕ → Group → Type 0 where
  made : (seq : ℕ) → Reach name seq (new_group name)
  next : {seq seq' : ℕ} {g h : Group} → Reach name seq g → Step seq g seq' h → Reach name seq' h

ensured :
    {A : Type 0} (seq : ℕ) {o : Option (Group × A)} {g : Group} {a : A}
    → o ≡ some (g, a)
    → Sound seq o
    → IsWellFormed seq g
ensured seq e s = subst (Sound seq) e s

-- A counter that has gone on has still issued what it had.
IsWellFormed-suc : {seq : ℕ} {g : Group} → IsWellFormed seq g → IsWellFormed (suc seq) g
IsWellFormed-suc w = record {
  roster = record {
    ordered = w.roster.ordered;
    unique = w.roster.unique;
    named = w.roster.named;
    joined_unique = w.roster.joined_unique;
    joined_subset = w.roster.joined_subset;
    issued = λ k h. let (n, le, p) = w.roster.issued k h in (n, omega arith, p);
  };
  quiet = w.quiet;
  vacancy = w.vacancy;
  led = w.led;
}

Step-IsWellFormed :
    {seq seq' : ℕ} {g h : Group} → Step seq g seq' h → IsWellFormed seq g → IsWellFormed seq' h
Step-IsWellFormed {seq} {g = g} (joins now d req e) w =
    subst (λ (r : JoinResult × ℕ). Sound r.1 r.0) e (join_group-Sound now d seq req g w)
Step-IsWellFormed {g = g} (wakes now later deadline resp id e) w =
    ensured _ e (join_wake-Sound now later deadline resp id g w)
Step-IsWellFormed {g = g} (syncs now req) w = sync_group-IsWellFormed now req g w
Step-IsWellFormed {g = g} (sync_rounds now deadline req) w =
    sync_loop-IsWellFormed now deadline req g w
Step-IsWellFormed {g = g} (beats now req) w = heartbeat-IsWellFormed now req g w
Step-IsWellFormed {g = g} (leaves now req e) w = ensured _ e (leave_group-Sound now req g w)
Step-IsWellFormed {g = g} (reaps now d e) w = ensured _ e (reap_expired-Sound now d g w)
Step-IsWellFormed elsewhere w = IsWellFormed-suc w

new_group-IsWellFormed : (seq : ℕ) (name : Bytes) → IsWellFormed seq (new_group name)
unfolding new_group keys has get elem
new_group-IsWellFormed seq name = record {
  roster = record {
    ordered = refl;
    unique = tt;
    named = λ k m e. ground arith;
    joined_unique = tt;
    joined_subset = record { at = λ k m. m };
    issued = λ k h. ground arith;
  };
  quiet = λ e. refl;
  vacancy = ground arith;
  led = λ e. ground arith;
}

-- At every moment of a group's life: the join order holds the identifiers of the members, each once;
-- each member is filed under its own identifier, which the manager's counter has issued; those that
-- have joined are members, each once, and there are none unless a rebalance is being prepared; the
-- group is empty exactly if it has no member; and past a rebalance the leader is the first member in
-- the join order.
pub Reach-IsWellFormed :
    {name : Bytes} {seq : ℕ} {g : Group} → Reach name seq g → IsWellFormed seq g
Reach-IsWellFormed {name} (made seq) = new_group-IsWellFormed seq name
Reach-IsWellFormed (next r s) = Step-IsWellFormed s (Reach-IsWellFormed r)

-- At no moment of a group's life does a handler panic: not JoinGroup, nor the end of its wait, nor
-- LeaveGroup, nor the reaper.
pub Reach-does_not_panic :
    {name : Bytes} {seq : ℕ} {g : Group} (now later deadline : ℕ) (d : ℤ) (req : JoinRequest)
    (resp : JoinResponse) (id : Bytes) (lreq : LeaveRequest)
    → Reach name seq g
    → ((join_group now d seq req g).0 ≢ none)
      × (join_wake now later deadline resp id g ≢ none)
      × (leave_group now lreq g ≢ none)
      × (reap_expired now d g ≢ none)
Reach-does_not_panic {seq = seq} {g} now later deadline d req resp id lreq r =
    let w = Reach-IsWellFormed r in
    (
      ensured-ne-none _ _ (join_group-Sound now d seq req g w),
      ensured-ne-none _ _ (join_wake-Sound now later deadline resp id g w),
      ensured-ne-none _ _ (leave_group-Sound now lreq g w),
      ensured-ne-none _ _ (reap_expired-Sound now d g w),
    )

-- ===== src/Manager/Deletion.antt =====
-- What a deletion and a reaping leave of the groups (internal/coordinator/group.go).
use pocketkafka.Prelude.{
  ℕ, ◌≡◌, refl, ap, ◌∙◌, none, some, [], ◌∷◌, Bytes, bytes_eq, ◌==◌, if◌then◌else◌, length, arith,
  All, Ensures, some_of,
}
use pocketkafka.Prelude.Ints.{ℤ}
use pocketkafka.Prelude.Dict.{Dict, get, get-remove}
use pocketkafka.Group.{Group}
use pocketkafka.Group.Leave.{reap_expired}
use pocketkafka.Group.Invariant.{IsWellFormed}
use pocketkafka.Group.Invariant.Leave.{reap_expired-Sound}
use pocketkafka.Offsets.{fetch}
use pocketkafka.Offsets.Crash.{fetch-delete_group}
use pocketkafka.Manager.{GroupManager, get_group, delete_found, delete_named, Deleted, reap_groups}

delete_named-found :
    (name : Bytes) (m : GroupManager) (g : Group)
    → get m.groups name ≡ some g
    → delete_named name m ≡ delete_found name g m
unfolding delete_named
delete_named-found name m g e = rw (e, delete_named) refl

-- A group without members that is deleted is gone from the table, and no offset of it is fetched any
-- more; every other group stays, with its offsets.
pub delete_named-removes :
    (name : Bytes) (m : GroupManager) (g : Group) (other topic : Bytes) (p : ℕ)
    → get m.groups name ≡ some g
    → length g.members ≡ 0
    → (get_group other (delete_named name m).0
        ≡ (if name == other then none else get_group other m))
      × (fetch (delete_named name m).0.offsets.offsets other topic p
          ≡ (if name == other then none else fetch m.offsets.offsets other topic p))
unfolding delete_found get_group
delete_named-removes name m g other topic p e h =
    let found = delete_named-found name m g e in
    (
      ap (λ (x : GroupManager × Deleted). get_group other x.0) found
          ∙ ground (arith, get-remove m.groups name other),
      ap (λ (x : GroupManager × Deleted). fetch x.0.offsets.offsets other topic p) found
          ∙ ground (arith, fetch-delete_group name m.offsets other topic p),
    )

-- A reaping of groups that are all well formed does not panic, and leaves them well formed.
pub reap_groups-IsWellFormed :
    (seq now : ℕ) (d : ℤ) (gs : Dict Bytes Group)
    → All (λ (x : Bytes × Group). IsWellFormed seq x.1) gs
    → Ensures
        (λ (r : Dict Bytes Group × ℕ). All (λ (x : Bytes × Group). IsWellFormed seq x.1) r.0)
        (reap_groups now d gs)
unfolding reap_groups
reap_groups-IsWellFormed seq now d [] w = tt
reap_groups-IsWellFormed seq now d ((name, g) ∷ gs) w =
    let (a, e, p) = some_of _ (reap_expired now d g) (reap_expired-Sound now d g w.0) in
    let (b, f, q) = some_of _ (reap_groups now d gs) (reap_groups-IsWellFormed seq now d gs w.1) in
    rw e (rw f (p, q))

-- ===== src/Offsets/Table.antt =====
-- The table of committed offsets, as fetches see it, and what a replay of the log writes into it
-- (internal/coordinator/offset_store.go).
use pocketkafka.Prelude.{
  ℕ, ◌≡◌, refl, sym, ◌&&◌, Option, none, some, List, [], ◌∷◌, ◌++◌, arith, Bytes, ◌==◌, bytes_eq,
  nat_eq, if◌then◌else◌, subst, beq→eq,
}
use pocketkafka.Prelude.Dict.{Dict, get, put, get-put}
use pocketkafka.Wal.{WalRecord, wal_record_commit}
use pocketkafka.Offsets.{
  CommittedOffset, OffsetCommitRecord, Table, or_new, put_offset, fetch, stamped, wal_record_of,
  wal_records_of, commit_loop, apply_record, apply_records,
}

-- Writing one partition's offset changes what is fetched for that partition, and for no other.
pub fetch-put_offset :
    (table : Table) (g t : Bytes) (p : ℕ) (off : CommittedOffset) (g' t' : Bytes) (p' : ℕ)
    → fetch (put_offset table g t p off) g' t' p'
      ≡ (if (g == g') && ((t == t') && (p == p')) then some off else fetch table g' t' p')
unfolding fetch put_offset
fetch-put_offset table g t p off g' t' p' =
    let gt : Dict Bytes (Dict ℕ CommittedOffset) = or_new (get table g) in
    let tp : Dict ℕ CommittedOffset = or_new (get gt t) in
    ground (
      arith,
      get-put table g g' (put gt t (put tp p off)),
      get-put gt t t' (put tp p off),
      get-put tp p p' off,
      beq→eq g g',
      beq→eq t t',
    )

abbrev pub or_else : Option CommittedOffset → Option CommittedOffset → Option CommittedOffset
or_else none b = b
or_else (some a) b = some a

-- Two tables that answer every fetch alike.
pub record SameOffsets (a b : Table) : Type 0 where
  pub at : (g t : Bytes) (p : ℕ) → fetch a g t p ≡ fetch b g t p

pub SameOffsets-put_offset :
    {a b : Table} (g t : Bytes) (p : ℕ) (off : CommittedOffset)
    → SameOffsets a b
    → SameOffsets (put_offset a g t p off) (put_offset b g t p off)
SameOffsets-put_offset {a} {b} g t p off s = record {
  at = λ g' t' p'. ground (
    arith,
    fetch-put_offset a g t p off g' t' p',
    fetch-put_offset b g t p off g' t' p',
    s.at g' t' p',
  );
}

-- A logged commit is replayed as it was made.
pub apply_record-wal_record_of :
    (table : Table) (now : ℕ) (r : OffsetCommitRecord)
    → apply_record table (wal_record_of now r)
      ≡ put_offset table r.group r.topic r.partition (stamped now r.offset)
unfolding apply_record wal_record_of
apply_record-wal_record_of table now r = ground arith

pub SameOffsets-commit_loop :
    (now : ℕ) (rs : List OffsetCommitRecord) {a b : Table}
    → SameOffsets a b
    → SameOffsets (apply_records a (wal_records_of now rs)) (commit_loop now rs b)
unfolding apply_records commit_loop wal_records_of
SameOffsets-commit_loop now [] s = s
SameOffsets-commit_loop now (r ∷ rs) {a} {b} s =
    let put_b : Table = put_offset b r.group r.topic r.partition (stamped now r.offset) in
    SameOffsets-commit_loop now rs (
      subst (λ x. SameOffsets x put_b) (sym (apply_record-wal_record_of a now r))
        (SameOffsets-put_offset r.group r.topic r.partition (stamped now r.offset) s))

pub apply_records-append :
    (table : Table) (xs ys : List WalRecord)
    → apply_records table (xs ++ ys) ≡ apply_records (apply_records table xs) ys
unfolding apply_records
apply_records-append table [] ys = refl
apply_records-append table (x ∷ xs) ys = apply_records-append (apply_record table x) xs ys

-- What one record of the log writes for a partition.
write_of : WalRecord → Bytes → Bytes → ℕ → Option CommittedOffset
write_of r g t p =
    if r.record_type == wal_record_commit
      && ((r.group == g) && ((r.topic == t) && (r.partition == p)))
    then some (record {
      offset = r.offset;
      metadata = r.metadata;
      leader_epoch = r.leader_epoch;
      updated_at = r.timestamp;
    })
    else none

-- What a log writes for a partition: its last write.
pub last_write : List WalRecord → Bytes → Bytes → ℕ → Option CommittedOffset
last_write [] g t p = none
last_write (r ∷ rs) g t p = or_else (last_write rs g t p) (write_of r g t p)

fetch-apply_record :
    (table : Table) (r : WalRecord) (g t : Bytes) (p : ℕ)
    → fetch (apply_record table r) g t p ≡ or_else (write_of r g t p) (fetch table g t p)
unfolding apply_record write_of
fetch-apply_record table r g t p = ground (
  arith,
  fetch-put_offset table r.group r.topic r.partition
      (record {
        offset = r.offset;
        metadata = r.metadata;
        leader_epoch = r.leader_epoch;
        updated_at = r.timestamp;
      })
      g t p,
)

pub fetch-apply_records :
    (table : Table) (rs : List WalRecord) (g t : Bytes) (p : ℕ)
    → fetch (apply_records table rs) g t p ≡ or_else (last_write rs g t p) (fetch table g t p)
unfolding apply_records last_write
fetch-apply_records table [] g t p = refl
fetch-apply_records table (r ∷ rs) g t p =
    ground
      (arith, fetch-apply_records (apply_record table r) rs g t p, fetch-apply_record table r g t p)

-- ===== src/Storage/Producing/Once.antt =====
-- A batch that an idempotent producer sends twice is in the partition once
-- (internal/storage/partition.go, idempotence.go).
use pocketkafka.Prelude.{
  ℕ, if◌then◌else◌, ◌+◌, ◌^◌, ◌≤◌, ◌<◌, ◌≡◌, refl, sym, subst, Bool, false, Bytes, length, List, [],
  ◌∷◌, ◌++◌, Option, none, some, eqb, Bool-cases, inl, inr,
}
use pocketkafka.Prelude.Ints.{ℤ, pos, int_eq, ltb_ℤ, max_int32}
use pocketkafka.Prelude.Dict.{get, put}
use pocketkafka.Producers.Sequences.{
  Tracker, at_offset, tracked, append_tracked, validate_and_append,
}
use pocketkafka.Producers.Retries.{validate_and_append-retry}
use pocketkafka.Storage.Runs.{done}
use pocketkafka.Storage.Segment.{stamp, sync}
use pocketkafka.Storage.Segment.Log.{end_of, delta_of}
use pocketkafka.Storage.Segment.Append.{IsProduced}
use pocketkafka.Storage.Partition.{
  Partition, StoredSegment, local, remote, base_of, size_bytes, ordered_segments, synced,
  sync_partition, append, append_synced,
}
use pocketkafka.Storage.Partition.Blocks.{IsLocal, Linked, Holds, Linked-split, Linked-join}
use pocketkafka.Storage.Partition.Append.{append-Holds}
use pocketkafka.Storage.Producing.{append_or_error, append_idempotent}

synced-IsLocal :
    (n : ℕ) (bs : List Bytes) (s : StoredSegment) (now : ℤ)
    → IsLocal n bs s
    → IsLocal n bs (synced s now)
unfolding synced sync
synced-IsLocal n bs (remote r) now h = h
synced-IsLocal n bs (local s) now h = elim (Bool-cases (eqb s.synced_bytes (length s.log))) [
  | inl b ↦ rw b h
  | inr b ↦ rw b (
    record {
      based = h.0.based;
      chain = h.0.chain;
      logged = h.0.logged;
      ended = h.0.ended;
      index_based = h.0.index_based;
      pointed = h.0.pointed;
    },
    h.1,
    h.2,
  )
]

sync_partition-Holds :
    (base : ℕ) (bs : List Bytes) (p : Partition) (now : ℤ)
    → Holds base bs p
    → Holds base bs (sync_partition p now)
unfolding sync_partition ordered_segments
sync_partition-Holds base bs p now h =
    let (xs, ys, e, l, k) = Linked-split base bs p.closed_segments p.active_segment h.linked in
    record {
      linked =
          subst
            (λ (t : List Bytes).
              Linked base t (p.closed_segments ++ synced p.active_segment now ∷ []))
            (sym e)
            (Linked-join base xs ys p.closed_segments (synced p.active_segment now) l
              (synced-IsLocal (end_of base xs) ys p.active_segment now k));
      ended = h.ended;
      visible = h.visible;
    }

first_tracked :
    {S : Type 0} (f : S → S × Option ℤ) (pid epoch seq : ℤ) (p p' : S) (o : ℤ) (t : Tracker)
    → ltb_ℤ pid (pos 0) ≡ false
    → get t pid ≡ none
    → f p ≡ (p', some o)
    → validate_and_append f pid epoch seq (t, p) ≡ (
      (put t pid (record { last_sequence = seq; last_offset = o; last_epoch = epoch }), p'),
      at_offset o,
    )
unfolding validate_and_append append_tracked tracked
first_tracked f pid epoch seq p p' o t c n e = rw (c, n, e) refl

module _ (base a : ℕ) (bs : List Bytes) (p : Partition) (raw : Bytes) (do_sync : Bool) (now : ℤ)
    (h : Holds base bs p) (d : IsProduced raw) (b : base_of p.active_segment ≡ pos a)
    (r : end_of base bs < 2 ^ 63) (l : end_of base bs + delta_of raw + 1 ≤ a + max_int32)
    (z : size_bytes p.active_segment + length raw < 2 ^ 31) where
  append_synced-done :
      (p' : Partition) (o : ℤ)
      → append p raw ≡ done (p', o)
      → append_synced p raw do_sync now ≡ done ((if do_sync then sync_partition p' now else p'), o)
  unfolding append_synced
  append_synced-done p' o e = rw e refl

  append_or_error-done :
      (p' : Partition) (o : ℤ)
      → append_synced p raw do_sync now ≡ done (p', o)
      → append_or_error raw do_sync now p ≡ (p', some o)
  unfolding append_or_error
  append_or_error-done p' o e = rw (e, append_or_error) refl

  append_or_error-Holds :
      (p' : Partition) × (append_or_error raw do_sync now p ≡ (p', some (pos (end_of base bs))))
      × Holds base (bs ++ stamp (pos (end_of base bs)) raw ∷ []) p'
  append_or_error-Holds =
      let (p', e, k) = append-Holds base bs p a raw h d b r l z in
      let o = pos (end_of base bs) in
      let f =
        append_or_error-done (if do_sync then sync_partition p' now else p') o
          (append_synced-done p' o e) in
      (
        (if do_sync then sync_partition p' now else p'),
        f,
        elim (Bool-cases do_sync) [
          | inl y ↦ rw y (sync_partition-Holds _ _ p' now k)
          | inr y ↦ rw y k
        ],
      )

  -- In a partition that holds the batches `bs` from the offset `base` on, a producer with an
  -- identifier of at least 0 and no state sends a produced batch, and sends it again: both are
  -- answered with the offset behind `bs`, and the partition then holds `bs` and the batch, once.
  -- The active segment begins at `a`, its next offset behind the batch is at most `a + max_int32`,
  -- its size with the batch is below 2 ^ 31, and the next offset before the batch is below 2 ^ 63.
  pub append_idempotent-once :
      (pid epoch seq : ℤ) (t : Tracker)
      → ltb_ℤ pid (pos 0) ≡ false
      → get t pid ≡ none
      → (s : Tracker × Partition) × (append_idempotent pid epoch seq raw do_sync now (t, p)
          ≡ (s, at_offset (pos (end_of base bs))))
        × (append_idempotent pid epoch seq raw do_sync now s
            ≡ (s, at_offset (pos (end_of base bs))))
        × Holds base (bs ++ stamp (pos (end_of base bs)) raw ∷ []) s.1
  unfolding append_idempotent
  append_idempotent-once pid epoch seq t c n =
      let (p', e, k) = append_or_error-Holds in
      let f = append_or_error raw do_sync now in
      let o = pos (end_of base bs) in
      let t' : Tracker =
        put t pid (record { last_sequence = seq; last_offset = o; last_epoch = epoch }) in
      let first : validate_and_append f pid epoch seq (t, p) ≡ ((t', p'), at_offset o) =
        first_tracked f pid epoch seq p p' o t c n e in
      ((t', p'), first, validate_and_append-retry f pid epoch seq o (t, p) (t', p') c first, k)

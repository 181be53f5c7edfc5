-- ===== src/Storage/Partition/Append.antt =====
-- An append to a partition adds to its batches (internal/storage/partition.go: Append, roll).
use pocketkafka.Prelude.{
  ℕ, ◌+◌, ◌^◌, ◌≤◌, ◌<◌, ◌≡◌, refl, sym, ap, ◌∙◌, subst, arith, Bytes, length, List, [], ◌∷◌, ◌++◌,
  append_assoc, append-nil, length-append, Bool-cases, inl, inr,
}
use pocketkafka.Prelude.Ints.{ℤ, pos, max_int32}
use pocketkafka.Prelude.Slices.{resize, zeros}
use pocketkafka.Storage.Runs.{done, repeat}
use pocketkafka.Storage.Index.{open_index, entries_of}
use pocketkafka.Storage.Segment
use pocketkafka.Storage.Segment.{stamp, open_segment, recover, recover_turn}
use pocketkafka.Storage.Segment.Log.{
  bytes_of, end_of, delta_of, end_of-append, end_of-snoc, end_of-le, bytes_of-snoc,
}
use pocketkafka.Storage.Segment.Append.{
  IsSegment, IsProduced, append-IsSegment, length-stamp, delta_of-stamp,
}
use pocketkafka.Storage.Partition.{
  Partition, StoredSegment, local, remote, base_of, size_bytes, ordered_segments, stored_full, roll,
  room, append_stored, with_active,
}
use pocketkafka.Storage.Partition
use pocketkafka.Storage.Partition.Blocks.{IsLocal, Linked, Holds, Linked-split, Linked-join}

-- A new segment holds nothing.
fresh-IsSegment :
    (n : ℕ) (max interval : ℤ)
    → (s : Segment.Segment) × (open_segment [] [] (pos n) max interval ≡ done s)
      × IsSegment n [] s
      × (s.log ≡ [])
unfolding open_segment open_index bytes_of end_of recover repeat recover_turn resize zeros
    entries_of
fresh-IsSegment n max interval = (
  _,
  refl,
  record {
    based = refl;
    chain = tt;
    logged = refl;
    ended = refl;
    index_based = refl;
    pointed = tt;
  },
  refl,
)

-- Where the batch goes: the segments before, the segment with room, and the batches that they hold.
record HasRoom (base : ℕ) (bs : List Bytes) (p : Partition) (added limit : ℕ) : Type 0 where
  closed : List StoredSegment
  active : Segment.Segment
  before : List Bytes
  within : List Bytes
  found : room p ≡ done (closed, local active)
  split : bs ≡ before ++ within
  linked : Linked base before closed
  active_is : IsSegment (end_of base before) within active
  fits : length active.log + added < 2 ^ 31
  in_range : limit ≤ end_of base before + max_int32

-- The active segment of such a partition is here, and `a` is its base.
record Active (base : ℕ) (bs : List Bytes) (p : Partition) (a : ℕ) : Type 0 where
  before : List Bytes
  within : List Bytes
  active : Segment.Segment
  split : bs ≡ before ++ within
  linked : Linked base before p.closed_segments
  here : p.active_segment ≡ local active
  active_is : IsSegment (end_of base before) within active
  based : a ≡ end_of base before
  reached : a ≤ end_of base bs

Active-of :
    (base : ℕ) (bs : List Bytes) (p : Partition) (a : ℕ)
    → Holds base bs p
    → base_of p.active_segment ≡ pos a
    → Active base bs p a
unfolding ordered_segments
Active-of base bs p a h b =
    let (xs, ys, e, l, k) = Linked-split base bs p.closed_segments p.active_segment h.linked in
    let (s, q, w) = local_of (end_of base xs) ys p.active_segment k in
    let c : a ≡ end_of base xs =
      let r : pos a ≡ pos (end_of base xs) = sym b ∙ ap base_of q ∙ w.based in cc in
    record {
      before = xs;
      within = ys;
      active = s;
      split = e;
      linked = l;
      here = q;
      active_is = w;
      based = c;
      reached =
          omega
            (arith, end_of-le (end_of base xs) ys, ap (end_of base) e, end_of-append base xs ys);
    }
  where
    local_of :
        (n : ℕ) (ys : List Bytes) (s : StoredSegment)
        → IsLocal n ys s
        → (seg : Segment.Segment) × (s ≡ local seg) × IsSegment n ys seg
    local_of n ys (local seg) k = (seg, refl, k.0)
    local_of n ys (remote r) k = absurd k

room-HasRoom :
    (base : ℕ) (bs : List Bytes) (p : Partition) (a added limit : ℕ)
    → Holds base bs p
    → base_of p.active_segment ≡ pos a
    → limit ≤ a + max_int32
    → size_bytes p.active_segment + added < 2 ^ 31
    → HasRoom base bs p added limit
unfolding room roll
room-HasRoom base bs p a added limit h b l z =
    let c = Active-of base bs p a h b in
    elim (Bool-cases (stored_full p.active_segment)) [
      | inl f ↦
          let (s, q, w, n) =
            fresh-IsSegment (end_of base bs) p.max_segment_bytes p.index_interval in
          record {
            closed = ordered_segments p;
            active = s;
            before = bs;
            within = [];
            found = rw (f, h.ended, q) refl;
            split = sym (append-nil bs);
            linked = h.linked;
            active_is = w;
            fits = omega (arith, ap length n);
            in_range = omega (arith, c.reached);
          }
      | inr f ↦ record {
        closed = p.closed_segments;
        active = c.active;
        before = c.before;
        within = c.within;
        found = rw f (ap (λ (s : StoredSegment). done (p.closed_segments, s)) c.here);
        split = c.split;
        linked = c.linked;
        active_is = c.active_is;
        fits = omega (arith, ap size_bytes c.here);
        in_range = omega (arith, c.based);
      }
    ]

end_of-stamp :
    (base : ℕ) (bs : List Bytes) (z : ℤ) (raw : Bytes)
    → end_of base (bs ++ stamp z raw ∷ []) ≡ end_of base bs + delta_of raw + 1
end_of-stamp base bs z raw = omega (arith, end_of-snoc base bs (stamp z raw), delta_of-stamp z raw)

module _ (base : ℕ) (bs : List Bytes) (p : Partition) (raw : Bytes) (limit : ℕ)
    (m : HasRoom base bs p (length raw) limit) (d : IsProduced raw) where
  abbrev offset : ℕ
  offset = end_of (end_of base m.before) m.within

  abbrev stamped : Bytes
  stamped = stamp (pos offset) raw

  regrouped : m.before ++ (m.within ++ stamped ∷ []) ≡ bs ++ stamped ∷ []
  regrouped =
      sym (append_assoc m.before m.within (stamped ∷ []))
      ∙ ap (λ (t : List Bytes). t ++ stamped ∷ []) (sym m.split)

  end_of-within :
      end_of (end_of base m.before) (m.within ++ stamped ∷ []) ≡ end_of base (bs ++ stamped ∷ [])
  end_of-within =
      sym (end_of-append base m.before (m.within ++ stamped ∷ [])) ∙ ap (end_of base) regrouped

  stamped-IsLocal :
      (s : Segment.Segment)
      → IsSegment (end_of base m.before) (m.within ++ stamped ∷ []) s
      → offset + delta_of raw + 1 ≤ limit
      → IsLocal (end_of base m.before) (m.within ++ stamped ∷ []) (local s)
  stamped-IsLocal s w o = (
    w,
    omega (arith, end_of-stamp (end_of base m.before) m.within (pos offset) raw, m.in_range),
    omega (
      arith,
      ap length w.logged,
      ap length (bytes_of-snoc m.within stamped),
      length-append (bytes_of m.within) stamped,
      length-stamp (pos offset) raw (omega (arith, d.header)),
      ap length m.active_is.logged,
      m.fits,
    ),
  )

  append_in :
      offset < 2 ^ 63
      → offset + delta_of raw + 1 ≤ limit
      → (p' : Partition) × (Partition.append p raw ≡ done (p', pos offset))
        × Holds base (bs ++ stamped ∷ []) p'
  unfolding Partition.append with_active append_stored ordered_segments
  append_in r o =
      let (s, q, w) =
        append-IsSegment m.active (end_of base m.before) m.within raw m.active_is d r
          (omega (arith, m.in_range)) (omega (arith, m.fits)) in
      (
        with_active p m.closed (local s) s.next_offset,
        rw (m.found, q) refl,
        record {
          linked =
              subst (λ (t : List Bytes). Linked base t (m.closed ++ local s ∷ [])) regrouped
                (Linked-join base m.before (m.within ++ stamped ∷ []) m.closed (local s) m.linked
                  (stamped-IsLocal s w o));
          ended = w.ended ∙ ap pos end_of-within;
          visible = w.ended ∙ ap pos end_of-within;
        },
      )

-- An append of a producer's batch to a partition that holds the batches `bs` from the offset `base`
-- on is answered with the offset behind them, and the partition holds them with the batch, stamped
-- with that offset, at their end, whether or not a new segment is begun for it. The batch must fit
-- the int32 range of offsets of the active segment, and its log must stay below 2 GiB.
pub append-Holds :
    (base : ℕ) (bs : List Bytes) (p : Partition) (a : ℕ) (raw : Bytes)
    → Holds base bs p
    → IsProduced raw
    → base_of p.active_segment ≡ pos a
    → end_of base bs < 2 ^ 63
    → end_of base bs + delta_of raw + 1 ≤ a + max_int32
    → size_bytes p.active_segment + length raw < 2 ^ 31
    → (p' : Partition) × (Partition.append p raw ≡ done (p', pos (end_of base bs)))
      × Holds base (bs ++ stamp (pos (end_of base bs)) raw ∷ []) p'
append-Holds base bs p a raw h d b r l z =
    let m = room-HasRoom base bs p a (length raw) (end_of base bs + delta_of raw + 1) h b l z in
    let e : end_of (end_of base m.before) m.within ≡ end_of base bs =
      sym (end_of-append base m.before m.within) ∙ ap (end_of base) (sym m.split) in
    subst
      (λ n.
        (p' : Partition) × (Partition.append p raw ≡ done (p', pos n))
        × Holds base (bs ++ stamp (pos n) raw ∷ []) p')
      e (append_in base bs p raw _ m d (omega (arith, e)) (omega (arith, e)))

-- ===== src/Producers/Retries.antt =====
-- What the check of the sequence numbers promises to a producer (internal/storage/idempotence.go).
use pocketkafka.Prelude.{
  ◌≡◌, ap, sym, ◌∙◌, true, false, Option, none, some, arith, ◌==◌, if_rule, inl, inr, Option-cases,
  subst, beq_refl,
}
use pocketkafka.Prelude.Ints.{
  ℤ, pos, int_eq, eqb_ℤ_iff, inc_wrapping-ne, ltb_ℤ, leb_ℤ, inc_wrapping, max_int32,
}
use pocketkafka.Prelude.Dict.{get, get-put}
use pocketkafka.Producers.Sequences.{
  ProducerSequenceState, Tracker, Appended, at_offset, tracked, append_next, append_tracked,
  validate_and_append,
}

module _ {S : Type 0} (append : S → S × Option ℤ) where
  -- A batch that the state of its producer is about is answered with that state's offset.
  append_tracked-last :
      (pid epoch seq offset : ℤ) (t : Tracker) (s : S)
      → get t pid ≡ some (record { last_sequence = seq; last_offset = offset; last_epoch = epoch })
      → append_tracked append pid epoch seq (get t pid) (t, s) ≡ ((t, s), at_offset offset)
  unfolding append_next append_tracked
  append_tracked-last pid epoch seq offset t s e =
      rw (e, append_tracked)
        (ground (arith, inc_wrapping-ne max_int32 seq, eqb_ℤ_iff seq (inc_wrapping max_int32 seq)))

  state_eq :
      (pid epoch seq : ℤ) (t : Tracker) (offset o : ℤ) (s s' : S) (t' : Tracker)
      → tracked pid epoch seq t (s, some o) ≡ ((t', s'), at_offset offset)
      → ◌≡◌ {A = ProducerSequenceState}
          (record { last_sequence = seq; last_offset = o; last_epoch = epoch })
          (record { last_sequence = seq; last_offset = offset; last_epoch = epoch })
  unfolding tracked
  state_eq pid epoch seq t offset o s s' t' e = cc

  tracked-retry :
      (pid epoch seq offset : ℤ) (t : Tracker) (r : S × Option ℤ) (p' : Tracker × S)
      → tracked pid epoch seq t r ≡ (p', at_offset offset)
      → append_tracked append pid epoch seq (get p'.0 pid) p' ≡ (p', at_offset offset)
  unfolding tracked
  tracked-retry pid epoch seq offset t (s, none) p' e = cc
  tracked-retry pid epoch seq offset t (s, some o) (t', s') e =
      append_tracked-last pid epoch seq offset t' s' (
        ap (λ (x : (Tracker × S) × Appended). get x.0.0 pid) (sym e)
        ∙ get-put t pid pid _
        ∙ rw (beq_refl pid) (ap some (state_eq pid epoch seq t offset o s s' t' e)))

  append_next-retry :
      (pid epoch seq offset : ℤ) (st : ProducerSequenceState) (p p' : Tracker × S)
      → get p.0 pid ≡ some st
      → append_next append pid epoch seq st p ≡ (p', at_offset offset)
      → append_tracked append pid epoch seq (get p'.0 pid) p' ≡ (p', at_offset offset)
  unfolding append_next append_tracked
  append_next-retry pid epoch seq offset st (t, s) p' f e =
      let goal : Type 0 =
        append_tracked append pid epoch seq (get p'.0 pid) p' ≡ (p', at_offset offset) in
      let result : Type 0 = (Tracker × S) × Appended in
      let kept : ◌≡◌ {A = Tracker × S} (t, s) p' → goal = λ q.
        subst
          (λ (x : Tracker × S).
            append_tracked append pid epoch seq (get x.0 pid) x ≡ (p', at_offset offset))
          q (rw (f, append_tracked) e) in
      if_rule (λ (x : result). x ≡ (p', at_offset offset) → goal) (ltb_ℤ epoch st.last_epoch)
        (λ b x. absurd (cc x))
        (λ b.
          if_rule (λ (x : result). x ≡ (p', at_offset offset) → goal)
            (seq == inc_wrapping max_int32 st.last_sequence)
            (λ b' x. tracked-retry pid epoch seq offset t (append s) p' x)
            (λ b'.
              if_rule (λ (x : result). x ≡ (p', at_offset offset) → goal)
                (leb_ℤ seq st.last_sequence) (λ b'' x. kept (cc x)) (λ b'' x. absurd (cc x))))
        e

  -- A producer of an identifier that is not negative sends a batch again, which was answered with an
  -- offset: the answer is the same, and nothing is appended.
  pub validate_and_append-retry :
      (pid epoch seq offset : ℤ) (p p' : Tracker × S)
      → ltb_ℤ pid (pos 0) ≡ false
      → validate_and_append append pid epoch seq p ≡ (p', at_offset offset)
      → validate_and_append append pid epoch seq p' ≡ (p', at_offset offset)
  unfolding validate_and_append append_tracked
  validate_and_append-retry pid epoch seq offset (t, s) p' h e =
      rw h (elim (Option-cases (get t pid)) [
        | inl n ↦ tracked-retry pid epoch seq offset t (append s) p' (rw n at (rw h at e))
        | inr (st, n) ↦ append_next-retry pid epoch seq offset st (t, s) p' n (rw n at (rw h at e))
      ])

  -- Of a producer whose last batch had a sequence number that is not negative and less than the
  -- greatest one, a batch with the sequence number 0 and a later epoch is answered with the offset of
  -- that last batch, and nothing is appended.
  pub new_epoch-drops :
      (pid epoch : ℤ) (st : ProducerSequenceState) (t : Tracker) (s : S)
      → ltb_ℤ pid (pos 0) ≡ false
      → get t pid ≡ some st
      → ltb_ℤ st.last_epoch epoch ≡ true
      → leb_ℤ (pos 0) st.last_sequence ≡ true
      → ltb_ℤ st.last_sequence (pos max_int32) ≡ true
      → validate_and_append append pid epoch (pos 0) (t, s) ≡ ((t, s), at_offset st.last_offset)
  unfolding validate_and_append append_tracked append_next inc_wrapping
  new_epoch-drops pid epoch st t s h e k l m = rw h (rw e (ground arith))

-- ===== src/Producers/Sequences.antt =====
-- The sequence numbers of a partition's producers (internal/storage/idempotence.go). The function that
-- appends to the partition is a parameter, as it is in the code: it takes the partition to the
-- partition after it, with the offset or an error, `none`.
use pocketkafka.Prelude.{Option, none, some, ◌==◌, if◌then◌else◌}
use pocketkafka.Prelude.Ints.{ℤ, pos, int_eq, ltb_ℤ, leb_ℤ, inc_wrapping, max_int32}
use pocketkafka.Prelude.Dict.{Dict, get, put}

pub record ProducerSequenceState : Type 0 where
  pub last_sequence : ℤ
  pub last_offset : ℤ
  pub last_epoch : ℤ

abbrev pub Tracker : Type 0
Tracker = Dict ℤ ProducerSequenceState

pub data SequenceError : Type 0 where
  append_error producer_epoch_regression out_of_order_sequence : SequenceError

pub data Appended : Type 0 where
  at_offset : ℤ → Appended
  refused : SequenceError → Appended

-- What appendFn returns, to a producer that the tracker does not follow.
unfoldable pub untracked : {S : Type 0} → Tracker → S × Option ℤ → (Tracker × S) × Appended
untracked t (s, none) = ((t, s), refused append_error)
untracked t (s, some offset) = ((t, s), at_offset offset)

-- The producer's state after appendFn has returned.
unfoldable pub tracked :
    {S : Type 0} → ℤ → ℤ → ℤ → Tracker → S × Option ℤ → (Tracker × S) × Appended
tracked pid epoch seq t (s, none) = ((t, s), refused append_error)
tracked pid epoch seq t (s, some offset) = (
  (put t pid (record { last_sequence = seq; last_offset = offset; last_epoch = epoch }), s),
  at_offset offset,
)

module _ {S : Type 0} (append : S → S × Option ℤ) where
  -- ValidateAndAppend for a producer that has a state.
  unfoldable pub append_next :
      ℤ → ℤ → ℤ → ProducerSequenceState → Tracker × S → (Tracker × S) × Appended
  append_next pid epoch seq st (t, s) =
      if ltb_ℤ epoch st.last_epoch
      then ((t, s), refused producer_epoch_regression)
      else if seq == inc_wrapping max_int32 st.last_sequence
      then tracked pid epoch seq t (append s)
      else if leb_ℤ seq st.last_sequence
      then ((t, s), at_offset st.last_offset)
      else ((t, s), refused out_of_order_sequence)

  unfoldable pub append_tracked :
      ℤ → ℤ → ℤ → Option ProducerSequenceState → Tracker × S → (Tracker × S) × Appended
  append_tracked pid epoch seq none (t, s) = tracked pid epoch seq t (append s)
  append_tracked pid epoch seq (some st) p = append_next pid epoch seq st p

  -- ValidateAndAppend
  unfoldable pub validate_and_append : ℤ → ℤ → ℤ → Tracker × S → (Tracker × S) × Appended
  validate_and_append pid epoch seq p =
      if ltb_ℤ pid (pos 0)
      then untracked p.0 (append p.1)
      else append_tracked pid epoch seq (get p.0 pid) p

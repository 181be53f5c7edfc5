-- ===== src/Examples/Senders.antt =====
-- The theorems on producers, at one transactional producer (internal/coordinator/producer.go,
-- internal/storage/idempotence.go).
use pocketkafka.Prelude.{
  ℕ, suc, ◌<◌, subst, ◌≡◌, refl, true, false, Option, some, [], ◌∷◌, Bytes, bytes_eq, Ensures,
  arith,
}
use pocketkafka.Prelude.Ints.{ℤ, pos, int_eq, inc_wrapping}
use pocketkafka.Prelude.Dict.{get, put}
use pocketkafka.Prelude.Tests.{bytes_beq}
use pocketkafka.Producers.{
  ProducerIdManager, Issued, next, issue, next_transactional, validate, validate_state,
  new_producer_id_manager, max_int64,
}
use pocketkafka.Producers.Epochs.{IsSound, next-IsSound, next-fences}
use pocketkafka.Producers.Sequences.{
  Tracker, at_offset, validate_and_append, append_tracked, append_next, tracked,
}
use pocketkafka.Producers.Retries.{validate_and_append-retry, new_epoch-drops}

abbrev payments : Bytes
payments = 112 ∷ []

-- The manager after the first transactional producer.
abbrev manager : ProducerIdManager
manager = record {
  by_id = (pos 2, record { transactional_id = payments; epoch = pos 0 }) ∷ [];
  by_txn_id = (payments, pos 2) ∷ [];
  last_pid = pos 2;
}

next_first : next (some payments) new_producer_id_manager ≡ some (manager, (pos 2, pos 0))
unfolding next next_transactional issue new_producer_id_manager inc_wrapping get put bytes_beq
next_first = refl

new-IsSound : (w : IsSound new_producer_id_manager) × (w.last < max_int64)
unfolding new_producer_id_manager get
new-IsSound = (
  record {
    last = 1;
    counted = refl;
    owned = λ t k e. absurd (cc e);
    owner = λ k st e f. absurd (cc e);
    issued = λ k st e. absurd (cc e);
  },
  omega arith,
)

manager-IsSound : IsSound manager
manager-IsSound =
    subst (Ensures (λ (r : Issued). IsSound r.0)) next_first
      (next-IsSound (some payments) new_producer_id_manager new-IsSound.0 new-IsSound.1)

next-fences_example :
    (m' : ProducerIdManager) × (epoch' : ℤ) × (next (some payments) manager
      ≡ some (m', (pos 2, epoch')))
    × (validate payments (pos 2) (pos 0) m' ≡ false)
    × (validate payments (pos 2) epoch' m' ≡ true)
unfolding validate validate_state get bytes_beq
next-fences_example = next-fences payments manager (pos 2) (pos 0) manager-IsSound refl refl

-- A partition that only counts its batches.
abbrev append_to : ℕ → ℕ × Option ℤ
append_to n = (suc n, some (pos n))

abbrev tracker : Tracker
tracker = (pos 2, record { last_sequence = pos 4; last_offset = pos 9; last_epoch = pos 0 }) ∷ []

abbrev tracker_after : Tracker
tracker_after =
    (pos 2, record { last_sequence = pos 5; last_offset = pos 10; last_epoch = pos 0 }) ∷ []

validate_and_append-retry_example :
    validate_and_append append_to (pos 2) (pos 0) (pos 5) (tracker_after, 11)
    ≡ ((tracker_after, 11), at_offset (pos 10))
unfolding validate_and_append append_tracked append_next tracked inc_wrapping get put
validate_and_append-retry_example =
    validate_and_append-retry append_to (pos 2) (pos 0) (pos 5) (pos 10) (tracker, 10)
      (tracker_after, 11) refl refl

new_epoch-drops_example :
    validate_and_append append_to (pos 2) (pos 1) (pos 0) (tracker, 10)
    ≡ ((tracker, 10), at_offset (pos 9))
unfolding get
new_epoch-drops_example =
    new_epoch-drops append_to (pos 2) (pos 1)
      (record { last_sequence = pos 4; last_offset = pos 9; last_epoch = pos 0 }) tracker 10 refl
      refl refl refl refl

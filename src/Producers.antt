-- ===== src/Producers.antt =====
-- Producers: the identifiers and epochs that they are given (internal/coordinator/producer.go). The
-- manager's lock makes each operation one step; `none` stands for a panic, on a nil state. The check of
-- their sequence numbers is in `Sequences`, and the proofs in the other children.
pub mod Sequences
pub mod Epochs
pub mod Retries
use pocketkafka.Prelude.{
  ℕ, ◌-◌, ◌^◌, Bool, true, false, not, ◌&&◌, Option, none, some, List, [], ◌∷◌, Bytes, bytes_eq,
  ◌==◌, if◌then◌else◌,
}
use pocketkafka.Prelude.Ints.{ℤ, pos, int_eq, inc_wrapping, max_int16}
use pocketkafka.Prelude.Dict.{Dict, get, put}

abbrev pub max_int64 : ℕ
max_int64 = 9223372036854775807

pub record ProducerState : Type 0 where
  pub transactional_id : Bytes
  pub epoch : ℤ

pub record ProducerIdManager : Type 0 where
  pub by_id : Dict ℤ ProducerState
  pub by_txn_id : Dict Bytes ℤ
  pub last_pid : ℤ

unfoldable pub new_producer_id_manager : ProducerIdManager
new_producer_id_manager = record { by_id = []; by_txn_id = []; last_pid = pos 1 }

abbrev pub Issued : Type 0
Issued = ProducerIdManager × (ℤ × ℤ)

-- A new identifier, at epoch 0; the transactional identifier is empty where there is none.
unfoldable pub issue : Bytes → ProducerIdManager → Issued
issue txn m =
    let pid = inc_wrapping max_int64 m.last_pid in
    (
      record {
        by_id = put m.by_id pid (record { transactional_id = txn; epoch = pos 0 });
        by_txn_id = if txn == [] then m.by_txn_id else put m.by_txn_id txn pid;
        last_pid = pid;
      },
      (pid, pos 0),
    )

-- The next epoch of an identifier that a transactional identifier has.
unfoldable pub raise_epoch : ProducerIdManager → ℤ → Option ProducerState → Option Issued
raise_epoch m pid none = none
raise_epoch m pid (some st) =
    let epoch = inc_wrapping max_int16 st.epoch in
    some (record m { by_id = put m.by_id pid (record st { epoch = epoch }) }, (pid, epoch))

unfoldable pub next_transactional : Bytes → ProducerIdManager → Option Issued
next_transactional txn m = elim (get m.by_txn_id txn) [
  | none ↦ some (issue txn m)
  | some pid ↦ raise_epoch m pid (get m.by_id pid)
]

-- Next
unfoldable pub next : Option Bytes → ProducerIdManager → Option Issued
next none m = some (issue [] m)
next (some txn) m = if txn == [] then some (issue [] m) else next_transactional txn m

unfoldable pub validate_state : Bytes → ℤ → ProducerState → Bool
validate_state txn epoch st =
    if not (txn == []) && not (st.transactional_id == txn) then false else st.epoch == epoch

-- Validate
unfoldable pub validate : Bytes → ℤ → ℤ → ProducerIdManager → Bool
unfolding validate_state
validate txn pid epoch m = elim (get m.by_id pid) [
  | none ↦ false
  | some st ↦ validate_state txn epoch st
]

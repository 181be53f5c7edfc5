-- ===== src/Group/Messages.antt =====
-- The requests and responses of the group coordinator (pkg/protocol/group.go) and the error codes
-- that it returns (pkg/protocol/types.go).
use pocketkafka.Prelude.{ℕ, Option, List, Bytes}
use pocketkafka.Prelude.Ints.{ℤ}
use pocketkafka.Group.{Protocol}

-- The error codes that the coordinator returns (pkg/protocol/types.go).
pub data ErrorCode : Type 0 where
  err_none : ErrorCode
  err_unknown_server_error : ErrorCode
  err_illegal_generation : ErrorCode
  err_inconsistent_group_protocol : ErrorCode
  err_unknown_member_id : ErrorCode
  err_rebalance_in_progress : ErrorCode

pub record JoinRequest : Type 0 where
  pub version : ℕ
  pub group : Bytes
  pub session_timeout_ms : ℤ
  pub rebalance_timeout_ms : ℤ
  pub member_id : Bytes
  pub instance_id : Option Bytes
  pub protocol_type : Bytes
  pub protocols : List Protocol

pub record JoinResponseMember : Type 0 where
  pub member_id : Bytes
  pub instance_id : Option Bytes
  pub metadata : Bytes

pub record JoinResponse : Type 0 where
  pub version : ℕ
  pub error_code : ErrorCode
  pub generation_id : ℤ
  pub protocol_name : Bytes
  pub leader_id : Bytes
  pub member_id : Bytes
  pub members : List JoinResponseMember

-- A handler answers, or waits until its deadline with the lock released.
pub data Outcome (R : Type 0) : Type 0 where
  reply : R → Outcome R
  wait : ℕ → Outcome R

pub record SyncRequest : Type 0 where
  pub version : ℕ
  pub group : Bytes
  pub generation_id : ℤ
  pub member_id : Bytes
  -- pairs of MemberID and Assignment
  pub assignments : List (Bytes × Bytes)

pub record SyncResponse : Type 0 where
  pub version : ℕ
  pub error_code : ErrorCode
  pub assignment : Bytes

pub record HeartbeatRequest : Type 0 where
  pub group : Bytes
  pub generation_id : ℤ
  pub member_id : Bytes

pub record LeaveRequest : Type 0 where
  pub version : ℕ
  pub group : Bytes
  pub member_id : Bytes
  pub members : List Bytes

-- ===== src/Orchestration.antt =====
-- services/runtime/src/orchestration.ts: the planner, the permission check, the executor and the
-- verifier of the steps of a task. The parameters of a tool action and the values of evidence are
-- of any types `P` and `V`.
pub mod Planner
pub mod Permission
pub mod Executor
pub mod Verifier
mod Tests
use nova_test.Common.Map.{Map}
use nova_test.Common.{ℕ, Bool, List, [], String, Option}
use nova_test.Shared.{StableErrorCode, ErrorInfo}

pub data RiskTier : Type 0 where
  read_only reversible_write destructive_irreversible : RiskTier

pub data ExecutionTier : Type 0 where
  native_runtime internal_function api mcp cli accessibility vision keyboard_mouse : ExecutionTier

pub data VerificationSignal : Type 0 where
  exit_code api_response file_hash accessibility_state no_signal : VerificationSignal

pub data ExecutionStatus : Type 0 where
  success failure partial : ExecutionStatus

pub data VerificationOutcome : Type 0 where
  verified unverified failed : VerificationOutcome

pub data FailureCategory : Type 0 where
  transient permanent user external security validation internal : FailureCategory

pub data ConfirmationStatus : Type 0 where
  not_required pending approved denied : ConfirmationStatus

pub data VerificationMethod : Type 0 where
  ground_truth vision_secondary : VerificationMethod

pub record ExecutionError : Type 0 where
  pub category : FailureCategory
  pub message : String

module _ (P V : Type 0) where
  pub record ExecutionStep : Type 0 where
    pub step_id : String
    pub task_id : String
    pub correlation_id : String
    pub capability_id : String
    pub resolved_tool_id : String
    pub action_id : String
    pub parameters : P
    pub risk_tier : RiskTier
    pub execution_tier : ExecutionTier
    pub required_locks : List String
    pub timeout_ms : ℕ
    pub confirmation_status : ConfirmationStatus

  pub record ExecutionEvidence : Type 0 where
    pub type : VerificationSignal
    pub value : V

  -- An `ExecutionResult` without its `step_id`.
  pub record ActionResult : Type 0 where
    pub status : ExecutionStatus
    pub evidence : ExecutionEvidence
    pub affected_resources : List String
    pub error : Option ExecutionError

  pub record ExecutionResult : Type 0 where
    pub step_id : String
    pub status : ExecutionStatus
    pub evidence : ExecutionEvidence
    pub affected_resources : List String
    pub error : Option ExecutionError

  -- How the promise of an action settles: with a result, an `Error`, or another thrown value.
  pub data Settled : Type 0 where
    resolved : ActionResult → Settled
    threw_error : String → Settled
    threw : Settled

  pub record ToolAction : Type 0 where
    pub risk_tier : RiskTier
    pub verification_signal : VerificationSignal
    pub idempotent : Bool
    pub execute : P → Settled

  -- The actions are the own properties of the source's object.
  pub record ToolRegistration : Type 0 where
    pub tool_id : String
    pub deterministic : Bool
    pub actions : Map ToolAction

pub record VerificationVerdict : Type 0 where
  pub step_id : String
  pub outcome : VerificationOutcome
  pub confidence : ℕ
  pub verification_method : VerificationMethod
  pub explanation : String

abbrev pub failure_of : StableErrorCode → String → Bool → ErrorInfo
failure_of code message retryable = record {
  code = code;
  message = message;
  retryable = retryable;
  details = [];
}

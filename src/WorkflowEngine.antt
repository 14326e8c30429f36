-- ===== src/WorkflowEngine.antt =====
-- services/runtime/src/workflow-engine.ts: workflows as graphs of nodes. `P` and `V` are the types
-- of the parameters and the evidence of a step, as in Orchestration; `C` is that of the values that
-- a caller puts into the context of a workflow.
pub mod Graphs
pub mod Validation
pub mod Soundness
pub mod Checkpoints
pub mod Pending
pub mod Platform
pub mod Branches
pub mod Turns
pub mod Execution
mod Tests
use nova_test.Common.Map.{Map}
use nova_test.Common.{ℕ, Bool, false, List, [], String, Option}
use nova_test.Shared.{StableErrorCode, ErrorInfo, ErrorDetailValue}
use nova_test.Orchestration.{ExecutionStep}

-- A value of the context: a Boolean, a text or any other that the caller gives.
pub data ContextValue (C : Type 0) : Type 0 where
  flag : Bool → ContextValue C
  word : String → ContextValue C
  given : C → ContextValue C

abbrev pub Context : Type 0 → Type 0
Context C = Map (ContextValue C)

pub data NodeKind (P V C : Type 0) : Type 0 where
  task : ExecutionStep P V → NodeKind P V C
  -- A choice that throws gives `none`.
  choice : (Context C → Option String) → NodeKind P V C
  parallel_split join human_approval rollback end_node : NodeKind P V C

pub record WorkflowNode (P V C : Type 0) : Type 0 where
  pub id : String
  pub kind : NodeKind P V C

pub record WorkflowEdge : Type 0 where
  pub from : String
  pub to : String
  pub condition : Option String

pub record WorkflowDefinition (P V C : Type 0) : Type 0 where
  pub workflow_id : String
  pub start_node_id : String
  pub nodes : List (WorkflowNode P V C)
  pub edges : List WorkflowEdge

abbrev pub workflow_error : StableErrorCode → String → List (String × ErrorDetailValue) → ErrorInfo
workflow_error code message details = record {
  code = code;
  message = message;
  retryable = false;
  details = details;
}

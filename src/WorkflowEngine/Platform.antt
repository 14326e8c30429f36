-- ===== src/WorkflowEngine/Platform.antt =====
-- What the execution of a workflow in services/runtime/src/workflow-engine.ts asks of the rest of the
-- runtime, at each occasion: in a turn of the loop of `executeFrom`, or in a turn, in the branch at
-- an index of its split, at a position of that branch.

use nova_test.Common.{
  ℕ, Bool, true, false, List, [], ◌∷◌, String, Option, none, some, same, if◌then◌else◌,
}
use nova_test.Shared.{ErrorInfo, ErrorDetailValue, Result, ok, err, nova_wfl002}
use nova_test.Orchestration.{ExecutionStep, ExecutionResult, VerificationVerdict, verified}
use nova_test.WorkflowEngine.{Context, WorkflowNode, workflow_error}

pub data Occasion : Type 0 where
  turn : ℕ → Occasion
  in_branch : ℕ → ℕ → ℕ → Occasion

-- A `Promise` that is rejected or times out gives `none`. `compensate` says whether its promise
-- resolves: there is no timeout on it. `verify` is taken to return.
-- `settling` gives the results of the branches in the order in which they settle; nothing is assumed of
-- it.
pub record Platform (P V C : Type 0) : Type 0 where
  pub execute : Occasion → ExecutionStep P V → Option (Result (ExecutionResult P V))
  pub verify : ExecutionStep P V → ExecutionResult P V → Result VerificationVerdict
  pub approve : Option (ℕ → String → Context C → Option Bool)
  pub compensate : Option (ℕ → List String → Context C → Bool)
  pub aborted_before : Occasion → Bool
  pub aborted_after : Occasion → Bool
  pub settling : ℕ → List (Result (List String)) → List (Result (List String))
  pub started_at : ℕ
  pub now_before : Occasion → ℕ
  pub now_after : Occasion → ℕ
  pub iso_now : ℕ → String
  pub number_text : ℕ → String
  pub workflow_timeout_ms : ℕ
  pub max_steps : ℕ

abbrev pub is_verified : Result VerificationVerdict → Bool
is_verified (ok v) = elim v.outcome [ verified ↦ true | _ ↦ false ]
is_verified (err e) = false

abbrev pub failed : String → List (String × ErrorDetailValue) → ErrorInfo
failed message details = workflow_error nova_wfl002 message details

abbrev pub find_node :
    {P V C : Type 0} → List (WorkflowNode P V C) → String → Option (WorkflowNode P V C)
find_node [] n = none
find_node (node ∷ ns) n = if same node.id n then some node else find_node ns n

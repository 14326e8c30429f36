-- ===== src/WorkflowEngine/Branches.antt =====
-- `executeBranch` of services/runtime/src/workflow-engine.ts. A branch reads none of the nodes that
-- the others complete, so that the branches of a split are run here one by one.

pub mod Walks
use nova_test.Common.{
  ℕ, zero, suc, ◌+◌, Bool, true, false, List, [], ◌∷◌, String, Option, none, some, same, ◌&&◌,
  if◌then◌else◌, length, any, add, ltb,
}
use nova_test.Shared.{Result, ok, err, text, nova_wfl001}
use nova_test.Orchestration.{ExecutionStep, ExecutionResult}
use nova_test.WorkflowEngine.{
  WorkflowDefinition, WorkflowNode, WorkflowEdge, NodeKind, task, workflow_error,
}
use nova_test.WorkflowEngine.Pending.{outgoing}
use nova_test.WorkflowEngine.Validation.{is_join_kind}
use nova_test.WorkflowEngine.Platform.{
  Occasion, in_branch, Platform, is_verified, failed, find_node,
}

abbrev pub first_target : List WorkflowEdge → Option String
first_target [] = none
first_target (e ∷ es) = some e.to

module _ {P V C : Type 0} where
  unfoldable pub is_join : WorkflowDefinition P V C → String → Bool
  is_join d n = any (λ node. same node.id n && is_join_kind node.kind) d.nodes

  -- A pass of the loop of `executeBranch`: from the answer of the step on, and from the node on.
  unfoldable pub branch_answer :
      Platform P V C
      → Occasion
      → String
      → ExecutionStep P V
      → Option (Result (ExecutionResult P V))
      → Result String
  branch_answer p o n step none =
      err (
        failed "Workflow parallel branch exceeded its configured timeout."
          (("nodeId", text n) ∷ []))
  branch_answer p o n step (some r) =
      if p.aborted_after o
      then err (failed "Workflow parallel branch was cancelled." (("nodeId", text n) ∷ []))
      else elim r [
        | err e ↦ err (failed "Workflow parallel branch failed." (("nodeId", text n) ∷ []))
        | ok result ↦
            if is_verified (p.verify step result)
            then ok n
            else err (failed "Workflow parallel branch was not verified." (("nodeId", text n) ∷ []))
      ]

  abbrev pub branch_kind : Platform P V C → Occasion → String → NodeKind P V C → Result String
  branch_kind p o n (task step) = branch_answer p o n step (p.execute o step)
  branch_kind p o n _ =
      err (
        workflow_error nova_wfl001 "Parallel branches must contain task nodes before their Join."
          [])

  abbrev pub branch_node : Platform P V C → Occasion → Option (WorkflowNode P V C) → Result String
  branch_node p o none =
      err (workflow_error nova_wfl001 "Workflow branch references an unknown node." [])
  branch_node p o (some node) = branch_kind p o node.id node.kind

  unfoldable pub branch_pass :
      Platform P V C → WorkflowDefinition P V C → Occasion → String → Result String
  unfolding branch_answer
  branch_pass p d o n =
      if p.aborted_before o
      then err (failed "Workflow parallel branch was cancelled." [])
      else if ltb (p.started_at + p.workflow_timeout_ms) (p.now_before o)
      then err (failed "Workflow parallel branch exceeded its configured bound." [])
      else branch_node p o (find_node d.nodes n)

  -- The branch at the index `b` of a split in the turn `i`, at the position `k`. Without fuel there
  -- is no answer.
  unfoldable pub execute_branch :
      ℕ
      → Platform P V C
      → WorkflowDefinition P V C
      → ℕ
      → ℕ
      → ℕ
      → List String
      → Option String
      → Option (Result (List String))
  unfolding is_join branch_pass outgoing
  execute_branch zero p d i b k done current = none
  execute_branch (suc fuel) p d i b k done none = some (ok done)
  execute_branch (suc fuel) p d i b k done (some n) = elim (is_join d n) [
    | true ↦ some (ok done)
    | false ↦ elim (branch_pass p d (in_branch i b k) n) [
      | err e ↦ some (err e)
      | ok m ↦ execute_branch fuel p d i b (suc k) (add done m) (first_target (outgoing d.edges m))
    ]
  ]

  unfoldable pub execute_branches :
      Platform P V C
      → WorkflowDefinition P V C
      → ℕ
      → ℕ
      → List WorkflowEdge
      → Option (List (Result (List String)))
  unfolding execute_branch
  execute_branches p d i b [] = some []
  execute_branches p d i b (e ∷ es) =
      elim (execute_branch (length d.nodes + 2) p d i b 0 [] (some e.to)) [
        | none ↦ none
        | some r ↦ elim (execute_branches p d i (suc b) es) [
          | none ↦ none
          | some rs ↦ some (r ∷ rs)
        ]
      ]

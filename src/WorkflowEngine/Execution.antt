-- ===== src/WorkflowEngine/Execution.antt =====
-- The loop of `executeFrom`, `run` and `resume` of services/runtime/src/workflow-engine.ts.
pub mod Runs
pub mod Saving
use nova_test.Common.Map
use nova_test.Common.Map.{Map}
use nova_test.Common.{
  ℕ, zero, suc, ◌+◌, Bool, true, false, not, List, [], ◌∷◌, String, Option, none, some, is_empty,
  length, if◌then◌else◌,
}
use nova_test.Shared.{ErrorInfo, ErrorDetailValue, Result, ok, err, text, nova_wfl001, nova_wfl002}
use nova_test.WorkflowEngine.{Context, WorkflowDefinition}
use nova_test.WorkflowEngine.Pending.{next_pending}
use nova_test.WorkflowEngine.Validation.{validate}
use nova_test.WorkflowEngine.Checkpoints.{
  WorkflowEngine, WorkflowCheckpoint, is_valid, latest_checkpoint_id, persist_checkpoint,
}
use nova_test.WorkflowEngine.Platform.{Platform, failed}
use nova_test.WorkflowEngine.Turns.{
  WorkflowResult, Progress, Turn, stuck, returned, went_on, take_turn,
}

-- The engine, and the result unless the promise has not resolved.
abbrev pub Returned : Type 0 → Type 0 → Type 0 → Type 0
Returned P V C = WorkflowEngine P V C × Option (Result WorkflowResult)

abbrev pub not_resumable : String → String → ErrorInfo
not_resumable message checkpoint_id = failed message (("checkpointId", text checkpoint_id) ∷ [])

module _ {P V C : Type 0} where
  -- At most so many turns of the loop.
  unfoldable pub loop :
      ℕ → Platform P V C → WorkflowDefinition P V C → Progress P V C → Returned P V C
  unfolding take_turn
  loop zero p d s = (s.engine, none)
  loop (suc fuel) p d s = elim (take_turn p d s) [
    | stuck m ↦ (m, none)
    | returned m r ↦ (m, some r)
    | went_on next ↦ loop fuel p d next
  ]

  abbrev pub first_checkpoint :
      Platform P V C
      → WorkflowEngine P V C
      → String
      → List String
      → Context C
      → WorkflowEngine P V C × String
  first_checkpoint p m workflow_id completed context = elim (latest_checkpoint_id m workflow_id) [
    | some k ↦ (m, k)
    | none ↦
        persist_checkpoint p.number_text (p.iso_now m.checkpoint_sequence) m workflow_id completed
          context
  ]

  -- With the first node to run.
  unfoldable pub start_at :
      ℕ
      → Platform P V C
      → WorkflowEngine P V C
      → WorkflowDefinition P V C
      → List String
      → Context C
      → Option String
      → Returned P V C
  unfolding loop
  start_at turns p m d completed context none =
      (m, some (err (failed "Workflow has no resumable pending node." [])))
  start_at turns p m d completed context (some n) =
      let saved = first_checkpoint p m d.workflow_id completed context in
      loop turns p d (record {
        engine = saved.0;
        completed = completed;
        context = context;
        checkpoint = saved.1;
        current = some n;
        steps = length completed;
      })

  unfoldable pub execute_from :
      ℕ
      → Platform P V C
      → WorkflowEngine P V C
      → WorkflowDefinition P V C
      → List String
      → Context C
      → Returned P V C
  unfolding start_at
  execute_from turns p m d completed context = start_at turns p m d completed context (
      if is_empty completed
      then some d.start_node_id
      else next_pending {C = C} d.edges completed d.start_node_id [])

  -- `run`, followed for at most so many turns of the loop.
  unfoldable pub run_for :
      ℕ
      → Platform P V C
      → WorkflowEngine P V C
      → WorkflowDefinition P V C
      → Context C
      → Returned P V C
  unfolding execute_from
  run_for turns p m d input = elim (validate d) [
    | err e ↦ (m, some (err e))
    | ok _ ↦
        execute_from turns p (record m { workflows = Map.set m.workflows d.workflow_id d }) d []
          input
  ]

  unfoldable pub run :
      Platform P V C → WorkflowEngine P V C → WorkflowDefinition P V C → Context C → Returned P V C
  unfolding run_for
  run p m d input = run_for (p.max_steps + 1) p m d input

  abbrev pub resume_from :
      ℕ → Platform P V C → WorkflowEngine P V C → String → WorkflowCheckpoint C → Returned P V C
  resume_from turns p m checkpoint_id c = elim (Map.get m.workflows c.workflow_id) [
    | none ↦ (
      m,
      some (err (not_resumable "Workflow definition for checkpoint is unavailable." checkpoint_id)),
    )
    | some d ↦ execute_from turns p m d c.completed_node_ids c.context
  ]

  abbrev pub no_target : WorkflowEngine P V C → String → Returned P V C
  no_target m checkpoint_id = (
    m,
    some
        (err (not_resumable "Workflow checkpoint is not a valid resumption target." checkpoint_id)),
  )

  -- `resume`, followed for at most so many turns of the loop.
  unfoldable pub resume_for : ℕ → Platform P V C → WorkflowEngine P V C → String → Returned P V C
  unfolding execute_from
  resume_for turns p m checkpoint_id = elim (Map.get m.checkpoints checkpoint_id) [
    | none ↦ no_target m checkpoint_id
    | some c ↦
        if is_valid c.state
        then resume_from turns p m checkpoint_id c
        else no_target m checkpoint_id
  ]

  unfoldable pub resume : Platform P V C → WorkflowEngine P V C → String → Returned P V C
  unfolding resume_for
  resume p m checkpoint_id = resume_for (p.max_steps + 1) p m checkpoint_id

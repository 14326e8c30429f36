-- ===== src/WorkflowEngine/Turns.antt =====
-- A turn of the loop of `executeFrom` in services/runtime/src/workflow-engine.ts: `act` is the part up
-- to the second look at the clock, and `leave` the rest. A call that throws, or a compensation that
-- does not resolve, leaves the promise of the whole run without an answer.
pub mod Acts
pub mod Soundness
use nova_test.Common.Map
use nova_test.Common.Map.{Map}
use nova_test.Common.{
  ℕ, zero, suc, ◌+◌, Bool, true, false, List, [], ◌∷◌, String, Option, none, some, ◌⊕◌, ◌||◌,
  if◌then◌else◌, length, add, contains, ltb, leb, is_empty, or_else,
}
use nova_test.Shared.{ErrorInfo, ErrorDetailValue, Result, ok, err, text, nova_wfl001}
use nova_test.Orchestration.{ExecutionStep, ExecutionResult}
use nova_test.WorkflowEngine.{
  Context, flag, word, WorkflowDefinition, NodeKind, task, choice, parallel_split, human_approval,
  join, rollback, end_node, workflow_error,
}
use nova_test.WorkflowEngine.Pending.{next_pending, outgoing}
use nova_test.WorkflowEngine.Validation.{validate}
use nova_test.WorkflowEngine.Checkpoints.{
  WorkflowEngine, WorkflowCheckpoint, is_valid, latest_checkpoint_id, persist_checkpoint,
}
use nova_test.WorkflowEngine.Platform.{turn, Platform, is_verified, failed, find_node}
use nova_test.WorkflowEngine.Branches.{execute_branches}

pub record WorkflowResult : Type 0 where
  pub workflow_id : String
  pub completed_node_ids : List String
  pub checkpoint_id : String

abbrev pub add_all : List String → List String → List String
add_all completed [] = completed
add_all completed (n ∷ ns) = add_all (add completed n) ns

abbrev pub add_results : List String → List (Result (List String)) → List String
add_results completed [] = completed
add_results completed (ok ns ∷ rs) = add_results (add_all completed ns) rs
add_results completed (err e ∷ rs) = add_results completed rs

abbrev pub first_failure : List (Result (List String)) → Option ErrorInfo
first_failure [] = none
first_failure (ok ns ∷ rs) = first_failure rs
first_failure (err e ∷ rs) = some e

-- The loop variables.
pub record Progress (P V C : Type 0) : Type 0 where
  pub engine : WorkflowEngine P V C
  pub completed : List String
  pub context : Context C
  pub checkpoint : String
  pub current : Option String
  pub steps : ℕ

-- A turn gets no answer, ends the loop or goes on.
pub data Turn (P V C : Type 0) : Type 0 where
  stuck : WorkflowEngine P V C → Turn P V C
  returned : WorkflowEngine P V C → Result WorkflowResult → Turn P V C
  went_on : Progress P V C → Turn P V C

abbrev pub checkpoint_node : String → String → List (String × ErrorDetailValue)
checkpoint_node checkpoint n = ("checkpointId", text checkpoint) ∷ ("nodeId", text n) ∷ []

-- `approve` may be absent, and may fail.
abbrev pub approved :
    {C : Type 0} → Option (ℕ → String → Context C → Option Bool) → ℕ → String → Context C → Bool
approved none i n context = false
approved (some approve) i n context = or_else (approve i n context) false

-- What a node does: an answer, with an error or with the nodes completed and the context. A split
-- adds itself first, then what its branches have completed.
abbrev pub Acted : Type 0 → Type 0
Acted C = Option (Result (List String × Context C))

abbrev pub after_task : {C : Type 0} → List String → Context C → Option ErrorInfo → Acted C
after_task completed context none = some (ok (completed, context))
after_task completed context (some e) = some (err e)

abbrev pub decided : {C : Type 0} → List String → Context C → String → Option String → Acted C
decided completed context n none = none
decided completed context n (some w) =
    some (ok (completed, Map.set context ("decision:" ⊕ n) (word w)))

-- `compensate` may be absent.
abbrev pub compensated :
    {C : Type 0} → Option (ℕ → List String → Context C → Bool) → ℕ → List String → Context C → Bool
compensated none i completed context = true
compensated (some compensate) i completed context = compensate i completed context

-- After the branches of a split, with the first failure among them.
abbrev pub merged :
    {C : Type 0}
    → List String
    → Context C
    → List (Result (List String))
    → Option ErrorInfo
    → Acted C
merged completed context results (some e) = some (err e)
merged completed context results none = some (ok (add_results completed results, context))

module _ {P V C : Type 0} where
  abbrev pub task_answer :
      Platform P V C
      → ExecutionStep P V
      → List (String × ErrorDetailValue)
      → Option (Result (ExecutionResult P V))
      → Option ErrorInfo
  task_answer p step details none =
      some (failed "Workflow task exceeded its configured timeout." details)
  task_answer p step details (some (err e)) =
      some (failed "Workflow task execution failed." details)
  task_answer p step details (some (ok result)) =
      if is_verified (p.verify step result)
      then none
      else some (failed "Workflow task did not reach a verified outcome." details)

  abbrev pub joined :
      Platform P V C → ℕ → List String → Context C → Option (List (Result (List String))) → Acted C
  joined p i completed context none = none
  joined p i completed context (some results) =
      merged completed context results (first_failure (p.settling i results))

  unfoldable pub act :
      Platform P V C → WorkflowDefinition P V C → Progress P V C → String → NodeKind P V C → Acted C
  act p d s n (task step) =
      after_task s.completed s.context
        (task_answer p step (checkpoint_node s.checkpoint n) (p.execute (turn s.steps) step))
  act p d s n (choice choose) = decided s.completed s.context n (choose s.context)
  act p d s n human_approval = some (
      ok (
        s.completed,
        Map.set s.context ("approval:" ⊕ n) (flag (approved p.approve s.steps n s.context)),
      ))
  act p d s n parallel_split =
      joined p s.steps (add s.completed n) s.context
        (execute_branches p d s.steps 0 (outgoing d.edges n))
  act p d s n rollback =
      if compensated p.compensate s.steps s.completed s.context
      then some (ok (s.completed, s.context))
      else none
  act p d s n join = some (ok (s.completed, s.context))
  act p d s n end_node = some (ok (s.completed, s.context))

  abbrev pub is_end : NodeKind P V C → Bool
  is_end end_node = true
  is_end _ = false

  -- After the new checkpoint.
  abbrev pub proceed : WorkflowDefinition P V C → NodeKind P V C → Progress P V C → Turn P V C
  proceed d kind s =
      if is_end kind
      then returned s.engine (
          ok (record {
            workflow_id = d.workflow_id;
            completed_node_ids = s.completed;
            checkpoint_id = s.checkpoint;
          }))
      else elim s.current [
        | some n ↦ went_on s
        | none ↦
            if ltb (length s.completed) (length d.nodes)
            then returned s.engine (
                err (
                  failed "Workflow execution reached a deadlock."
                    (("checkpointId", text s.checkpoint) ∷ [])))
            else went_on s
      ]

  unfoldable pub leave :
      Platform P V C
      → WorkflowDefinition P V C
      → Progress P V C
      → String
      → NodeKind P V C
      → Acted C
      → Turn P V C
  leave p d s n kind none = stuck s.engine
  leave p d s n kind (some (err e)) = returned s.engine (err e)
  leave p d s n kind (some (ok (done, context))) =
      if ltb (p.started_at + p.workflow_timeout_ms) (p.now_after (turn s.steps))
      then returned s.engine (
          err (
            failed "Workflow execution exceeded its configured timeout."
              (checkpoint_node s.checkpoint n)))
      else let completed = add done n in
        let saved =
          persist_checkpoint p.number_text (p.iso_now (s.engine.checkpoint_sequence)) s.engine
            d.workflow_id completed context in
        proceed d kind (record {
          engine = saved.0;
          completed = completed;
          context = context;
          checkpoint = saved.1;
          current = next_pending d.edges completed n context;
          steps = suc s.steps;
        })

  -- The node of the turn.
  unfoldable pub enter :
      Platform P V C → WorkflowDefinition P V C → Progress P V C → String → Turn P V C
  unfolding act leave
  enter p d s n = elim (find_node d.nodes n) [
    | none ↦ returned s.engine (
        err (
          workflow_error nova_wfl001 "Workflow node disappeared during execution."
            (("nodeId", text n) ∷ [])))
    | some node ↦
        if contains s.completed node.id
        then went_on
            (record s { current = next_pending {C = C} d.edges s.completed d.start_node_id [] })
        else leave p d s node.id node.kind (act p d s node.id node.kind)
  ]

  unfoldable pub take_turn : Platform P V C → WorkflowDefinition P V C → Progress P V C → Turn P V C
  unfolding enter
  take_turn p d s = elim s.current [
    | none ↦ returned s.engine (
        err
          (failed "Workflow ended without an end node." (("checkpointId", text s.checkpoint) ∷ [])))
    | some n ↦
        if ltb (p.started_at + p.workflow_timeout_ms) (p.now_before (turn s.steps))
          || leb p.max_steps s.steps
        then returned s.engine (
            err (
              failed "Workflow execution exceeded its configured bound."
                (("checkpointId", text s.checkpoint) ∷ [])))
        else enter p d s n
  ]

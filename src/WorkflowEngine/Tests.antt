-- ===== src/WorkflowEngine/Tests.antt =====
-- Runs of services/runtime/src/workflow-engine.ts, and its theorems at concrete definitions.
use mathlib.Core.Path.{subst}
use nova_test.Common.Map
use nova_test.Common.{
  ℕ, ◌≡◌, refl, ap, true, false, List, [], ◌∷◌, String, Option, none, some, contains, add, inl, inr,
  ◌↔◌, keep, text_dec, arith,
}
use nova_test.Shared.{Result, ok}
use nova_test.Orchestration.{
  ExecutionStep, verified, ground_truth, read_only, api, not_required, success, api_response,
}
use nova_test.WorkflowEngine.{
  WorkflowDefinition, WorkflowNode, WorkflowEdge, task, parallel_split, join, human_approval,
  rollback, end_node, Context, flag,
}
use nova_test.WorkflowEngine.Graphs.{visit, visit_each}
use nova_test.WorkflowEngine.Validation.{
  validate, adjacency, ids_error, edges_error, joins_error, graph_result,
}
use nova_test.WorkflowEngine.Soundness.{IsWorkflow, validate-ok_iff}
use nova_test.WorkflowEngine.Checkpoints.{
  WorkflowEngine, latest_in, latest_checkpoint_id, supersede, fresh_checkpoint, persist_checkpoint,
}
use nova_test.WorkflowEngine.Checkpoints.Currency.{AreSingle, count}
use nova_test.WorkflowEngine.Pending.{
  first_ready, incoming_done, outgoing, answer, candidates, next_pending,
}
use nova_test.WorkflowEngine.Pending.Order.{next_pending-only}
use nova_test.WorkflowEngine.Platform.{Platform}
use nova_test.WorkflowEngine.Branches.{
  branch_answer, is_join, branch_pass, execute_branch, execute_branches,
}
use nova_test.WorkflowEngine.Turns.{WorkflowResult, act, leave, enter, take_turn}
use nova_test.WorkflowEngine.Execution.{
  loop, start_at, execute_from, run_for, run, resume_for, resume,
}
use nova_test.WorkflowEngine.Execution.Saving.{running, after_calls, after_calls-AreSingle}

program : Unit {0}
unfolding text_dec contains add keep Map.get Map.set visit visit_each validate adjacency ids_error
    edges_error joins_error graph_result latest_in latest_checkpoint_id supersede fresh_checkpoint
    persist_checkpoint first_ready incoming_done outgoing answer candidates next_pending
    branch_answer is_join branch_pass execute_branch execute_branches act leave enter take_turn loop
    start_at execute_from run_for run resume_for resume after_calls count
program = tt

abbrev Node : Type 0
Node = WorkflowNode ℕ ℕ ℕ

abbrev step : ExecutionStep ℕ ℕ
step = record {
  step_id = "s1";
  task_id = "t1";
  correlation_id = "3f0c";
  capability_id = "files";
  resolved_tool_id = "fs";
  action_id = "read";
  parameters = 7;
  risk_tier = read_only;
  execution_tier = api;
  required_locks = [];
  timeout_ms = 1000;
  confirmation_status = not_required;
}

abbrev node : String → Node
node n = record { id = n; kind = task step }

abbrev edge : String → String → Option String → WorkflowEdge
edge a b c = record { from = a; to = b; condition = c }

-- Two tasks beside each other, after a split.
abbrev fork : WorkflowDefinition ℕ ℕ ℕ
fork = record {
  workflow_id = "w1";
  start_node_id = "split";
  nodes =
      record { id = "split"; kind = parallel_split }
      ∷ node "a"
      ∷ node "b"
      ∷ record { id = "join"; kind = join }
      ∷ record { id = "end"; kind = end_node }
      ∷ [];
  edges =
      edge "split" "a" none
      ∷ edge "split" "b" none
      ∷ edge "a" "join" none
      ∷ edge "b" "join" none
      ∷ edge "join" "end" none
      ∷ [];
}

-- A task that needs an approval.
abbrev gate : WorkflowDefinition ℕ ℕ ℕ
gate = record {
  workflow_id = "w2";
  start_node_id = "ask";
  nodes =
      record { id = "ask"; kind = human_approval }
      ∷ node "delete"
      ∷ record { id = "end"; kind = end_node }
      ∷ [];
  edges = edge "ask" "delete" (some "approved") ∷ edge "delete" "end" none ∷ [];
}

abbrev platform : Platform ℕ ℕ ℕ
platform = record {
  execute = λ o s. some (
      ok (record {
        step_id = s.step_id;
        status = success;
        evidence = record { type = api_response; value = 1 };
        affected_resources = [];
        error = none;
      }));
  verify = λ s r. ok (record {
    step_id = s.step_id;
    outcome = verified;
    confidence = 1;
    verification_method = ground_truth;
    explanation = "";
  });
  approve = some (λ i n c. some false);
  compensate = none;
  aborted_before = λ o. false;
  aborted_after = λ o. false;
  settling = λ i rs. rs;
  started_at = 0;
  now_before = λ o. 0;
  now_after = λ o. 0;
  iso_now = λ n. "now";
  number_text = λ n. "n";
  workflow_timeout_ms = 1000;
  max_steps = 10;
}

abbrev engine : WorkflowEngine ℕ ℕ ℕ
engine = record { checkpoints = []; workflows = []; checkpoint_sequence = 0 }

valid_fork : validate fork ≡ ok tt
unfolding program
valid_fork = refl

completed_in : WorkflowEngine ℕ ℕ ℕ × Option (Result WorkflowResult) → List String
completed_in (m, some (ok r)) = r.completed_node_ids
completed_in _ = []

fork_runs : completed_in (run platform engine fork []) ≡ "split" ∷ "a" ∷ "b" ∷ "join" ∷ "end" ∷ []
unfolding program completed_in
fork_runs = refl

-- The approval is denied, and the task runs nevertheless.
gate_runs : completed_in (run platform engine gate []) ≡ "ask" ∷ "delete" ∷ "end" ∷ []
unfolding program completed_in
gate_runs = refl

-- A rollback and then the end.
abbrev undo : WorkflowDefinition ℕ ℕ ℕ
undo = record {
  workflow_id = "w3";
  start_node_id = "undo";
  nodes = record { id = "undo"; kind = rollback } ∷ record { id = "end"; kind = end_node } ∷ [];
  edges = edge "undo" "end" none ∷ [];
}

undo_runs : completed_in (run platform engine undo []) ≡ "undo" ∷ "end" ∷ []
unfolding program completed_in
undo_runs = refl

-- A compensation that is rejected leaves the run without an answer.
undo_hangs :
    (run (record platform { compensate = some (λ i completed context. false) }) engine undo []).1
    ≡ none
unfolding program
undo_hangs = refl

validate-ok_iff_example : (validate fork ≡ ok tt) ↔ IsWorkflow fork
validate-ok_iff_example = validate-ok_iff fork

denied : Context ℕ
denied = ("approval:ask", flag false) ∷ []

next_pending-only_example : next_pending gate.edges ("ask" ∷ []) "ask" denied ≡ some "delete"
unfolding program
next_pending-only_example =
    next_pending-only gate.edges ("ask" ∷ []) "ask" denied (edge "ask" "delete" (some "approved"))
      (inl refl) refl refl refl refl
      (λ x i c f. elim i [
        | inl q ↦ ap (λ e. e.to) q
        | inr (inl q) ↦
            let k : contains ("ask" ∷ []) "delete" ≡ true =
              subst (λ e. contains ("ask" ∷ []) e.from ≡ true) q c in
            absurd (cc)
        | inr (inr q) ↦ absurd q
      ])

engine-AreSingle : AreSingle engine
unfolding count
engine-AreSingle = (tt, tt, λ w. omega arith)

after_calls-AreSingle_example : AreSingle (after_calls (running 11 platform gate [] ∷ []) engine)
after_calls-AreSingle_example =
    after_calls-AreSingle (running 11 platform gate [] ∷ []) engine engine-AreSingle

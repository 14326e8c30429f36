-- ===== src/RuntimeTaskCoordinator/Tests.antt =====
-- Runs of services/runtime/src/runtime-task-coordinator.ts, and its theorems at a concrete task.
use nova_test.Common.Map
use nova_test.Common.{
  ℕ, ◌≡◌, ◌≢◌, refl, Bool, true, some, List, [], ◌∷◌, none, All, includes, text_dec,
}
use nova_test.Shared.{ok}
use nova_test.TaskManager
use nova_test.TaskManager.{
  TaskState, TaskState-discrete, waiting_user, permission_confirmation, created, completed,
  executing, transitions, refusal, next_record, reason_text,
}
use nova_test.Orchestration.{ExecutionStep, read_only, api, api_response, success, not_required}
use nova_test.Orchestration.Planner.{resolved, plan, is_step, normalized}
use nova_test.Orchestration.Verifier.{verify}
use nova_test.RuntimeTaskCoordinator.{
  Task, Services, Coordinator, Answer, answered, persist, publish, deliver, transition,
  append_step_history,
}
use nova_test.RuntimeTaskCoordinator.Execution.{
  fail, run_steps, judge, outcome_of, record_verdicts, execute,
}
use nova_test.RuntimeTaskCoordinator.Execution.Stages.{IsVerified}
use nova_test.RuntimeTaskCoordinator.Execution.Completion.{execute-completed}
use nova_test.RuntimeTaskCoordinator.Decisions.{resolve_waiting, confirm_waiting_user}
use nova_test.RuntimeTaskCoordinator.Decisions.Stalling.{IsStalled, executing_stalls}

program : Unit {0}
unfolding text_dec includes Map.get Map.set TaskState-discrete transitions refusal next_record
    reason_text TaskManager.get TaskManager.transition TaskManager.append_step_history plan is_step
    normalized verify persist publish deliver transition append_step_history fail run_steps judge
    outcome_of record_verdicts execute resolve_waiting confirm_waiting_user
program = tt

abbrev step : ExecutionStep ℕ ℕ
step = record {
  step_id = "s1";
  task_id = "t1";
  correlation_id = "3f0c";
  capability_id = "files";
  resolved_tool_id = "fs";
  action_id = "read";
  parameters = 7;
  risk_tier = read_only;
  execution_tier = api;
  required_locks = [];
  timeout_ms = 1000;
  confirmation_status = not_required;
}

abbrev services : Services ℕ ℕ
services = record {
  is_uuid = λ s. true;
  planner = record { deterministic = ("list files", step) ∷ []; llm_planner = none };
  execute = λ i s. ok (record {
    step_id = s.step_id;
    status = success;
    evidence = record { type = api_response; value = 1 };
    affected_resources = [];
    error = none;
  });
  persistence = none;
  publish = λ i t. ok tt;
  now = λ i. "now";
  meanwhile = λ i m. m;
}

abbrev task_in : TaskState → Task ℕ ℕ
task_in state = record {
  task_id = "t1";
  goal = "list files";
  correlation_id = "3f0c";
  owner_device_id = none;
  state = state;
  retry_count = 0;
  step_history = [];
  waiting_user_reason = none;
  reason = none;
  updated_at = "start";
}

abbrev with_task : TaskState → Coordinator ℕ ℕ
with_task state = record {
  tasks = record { tasks = ("t1", task_in state) ∷ []; max_retries = 3 };
  awaits = 0;
}

abbrev task_of : Answer (Task ℕ ℕ) → Task ℕ ℕ
task_of (answered (ok t)) = t
task_of _ = task_in created

runs : (task_of (execute services (with_task created) "t1").1).state ≡ completed
unfolding program
runs = refl

execute-completed_example :
    (t : Task ℕ ℕ) × (steps : List (ExecutionStep ℕ ℕ)) × (TaskManager.get
        (with_task created).tasks
        "t1"
      ≡ ok t)
    × (plan ℕ ℕ services.is_uuid services.planner (record { task_id = t.task_id; goal = t.goal })
        ≡ resolved (ok steps))
    × (steps ≢ [])
    × All (IsVerified services) steps
unfolding program
execute-completed_example =
    execute-completed services (with_task created) (execute services (with_task created) "t1").0
      "t1" (task_of (execute services (with_task created) "t1").1) refl refl

abbrev asking : Coordinator ℕ ℕ
asking = record {
  tasks = record {
    tasks =
        ("t1", record (task_in waiting_user) { waiting_user_reason = some permission_confirmation })
        ∷ [];
    max_retries = 3;
  };
  awaits = 0;
}

abbrev confirmed_task : Task ℕ ℕ
confirmed_task = task_of (confirm_waiting_user services asking "t1" true).1

executing_stalls_example :
    (confirmed_task.state ≡ executing)
    × ((later : Coordinator ℕ ℕ) (u : Task ℕ ℕ) (confirmed : Bool)
        → Map.get later.tasks.tasks "t1" ≡ some u
        → u.state ≡ confirmed_task.state
        → IsStalled services later "t1" confirmed)
unfolding program
executing_stalls_example =
    executing_stalls services asking (confirm_waiting_user services asking "t1" true).0 "t1"
      confirmed_task refl

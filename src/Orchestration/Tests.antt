-- ===== src/Orchestration/Tests.antt =====
-- Runs of services/runtime/src/orchestration.ts, and its theorems at concrete steps.
use nova_test.Common.Map
use nova_test.Common.Sort.{sort, text_le}
use nova_test.Common.{
  ℕ, ◌≡◌, refl, inl, inr, [], ◌∷◌, String, none, some, true, false, Bool, contains, add, text_dec,
}
use nova_test.ResourceManager.{ResourceManager, acquire, release, holder}
use nova_test.Orchestration.{
  ExecutionStep, ToolAction, ToolRegistration, Settled, resolved, read_only, reversible_write, api,
  api_response, success, pending, approved,
}
use nova_test.Orchestration.Planner.{PlannerDependencies, PlanInput, plan, is_step, resolved}
use nova_test.Orchestration.Permission.{PermissionOptions, authorize}
use nova_test.Orchestration.Executor.{Executor, begin, execute, invoked, settle}
use nova_test.Orchestration.Executor.Safety.{Checked, begin-Checked, plan-begin}
use nova_test.Orchestration.Executor.Locking.{Holds, begin-Holds}
use nova_test.Orchestration.Verifier.{verify}

program : Unit {0}
unfolding text_dec contains add sort text_le Map.get Map.set plan authorize begin execute acquire
    release holder settle verify
program = tt

abbrev is_uuid : String → Bool
is_uuid s = true

abbrev Step : Type 0
Step = ExecutionStep ℕ ℕ

abbrev step : Step
step = record {
  step_id = "s1";
  task_id = "t1";
  correlation_id = "3f0c";
  capability_id = "files";
  resolved_tool_id = "fs";
  action_id = "write";
  parameters = 7;
  risk_tier = reversible_write;
  execution_tier = api;
  required_locks = "file:a" ∷ [];
  timeout_ms = 1000;
  confirmation_status = approved;
}

abbrev outcome : Settled ℕ ℕ
outcome = resolved (record {
  status = success;
  evidence = record { type = api_response; value = 1 };
  affected_resources = [];
  error = none;
})

abbrev write : ToolAction ℕ ℕ
write = record {
  risk_tier = reversible_write;
  verification_signal = api_response;
  idempotent = true;
  execute = λ _. outcome;
}

abbrev read : ToolAction ℕ ℕ
read = record write { risk_tier = read_only }

abbrev tool : ToolRegistration ℕ ℕ
tool = record {
  tool_id = "fs";
  deterministic = true;
  actions = ("write", write) ∷ ("read", read) ∷ [];
}

abbrev permissions : PermissionOptions
permissions = record { allowed_tool_ids = "fs" ∷ []; confirmation_timeout_ms = 5000 }

abbrev executor : Executor ℕ ℕ
executor = record { permissions = permissions; tools = ("fs", tool) ∷ [] }

abbrev clock : ℕ → ℕ
clock i = 5

abbrev idle : ResourceManager
idle = record { held = []; queued = []; max_lock_duration_ms = 100 }

abbrev locks : ResourceManager
locks = record idle { held = ("file:a", record { task_id = "t1"; acquired_at = 5 }) ∷ [] }

begun : begin ℕ ℕ executor (some idle) step clock ≡ (some locks, invoked write true)
unfolding program
begun = refl

begin-Checked_example : Checked ℕ ℕ executor step write
unfolding program
begin-Checked_example = begin-Checked ℕ ℕ executor (some idle) step clock write true refl

begin-Holds_example : Holds ℕ ℕ idle step (some locks)
unfolding program
begin-Holds_example = begin-Holds ℕ ℕ executor idle step clock write refl

-- The model proposes an approved write and a read.
abbrev dependencies : PlannerDependencies ℕ ℕ is_uuid
dependencies = record {
  deterministic = [];
  llm_planner = some (λ _. resolved (step ∷ record step { action_id = "read" } ∷ []));
}

abbrev input : PlanInput ℕ ℕ is_uuid
input = record { task_id = "t2"; goal = "tidy" }

abbrev planned : Step
planned = record step { task_id = "t2"; confirmation_status = pending }

abbrev planned_read : Step
planned_read = record planned { action_id = "read" }

plan-begin_example : read.risk_tier ≡ read_only
unfolding program is_step
plan-begin_example =
    plan-begin ℕ ℕ is_uuid dependencies input (planned ∷ planned_read ∷ []) executor none clock
      planned_read read false refl (inr (inl refl)) refl

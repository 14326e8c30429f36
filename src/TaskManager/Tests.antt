-- ===== src/TaskManager/Tests.antt =====
-- Runs of services/runtime/src/task-manager.ts, and its theorems at concrete tasks.
use nova_test.Common.Map
use nova_test.Common.{
  ℕ, ◌+◌, ◌≤◌, ◌≡◌, refl, ◌≢◌, ◌↔◌, String, List, [], ◌∷◌, Option, none, some, text_dec, inl,
}
use nova_test.Shared.{ok}
use nova_test.TaskManager.{
  TaskManager, TaskRecord, TaskState, TaskInput, Reason, planning, executing, verifying, completed,
  failed, retrying, waiting_user, clarification_requested, new, create, transition, restore,
  recovered, refusal, next_record,
}
use nova_test.TaskManager.Calls.{Call, step, run}
use nova_test.TaskManager.Invariant.{IsValid}
use nova_test.TaskManager.Diagram.{IsAllowed, transition-ok_iff}
use nova_test.TaskManager.Histories.{entries, retries_of, run_done, entries_bounded}
use nova_test.TaskManager.Restore.{IsReadAs, last_with, get-restore}

program : Unit {0}
unfolding new create transition restore run step text_dec Map.get Map.set refusal next_record
    recovered
program = tt

abbrev input : TaskInput
input = record { task_id = some "t"; goal = "sort"; correlation_id = none; owner_device_id = none }

abbrev move : TaskState → Call ℕ
move s = Call.transition "t" s none "now"

abbrev start : TaskManager ℕ
start = record { tasks = []; max_retries = 1 }

abbrev failing : List (Call ℕ)
failing =
    Call.create input "u" "c" "now"
    ∷ move planning
    ∷ move executing
    ∷ move failed
    ∷ move retrying
    ∷ move planning
    ∷ move failed
    ∷ move retrying
    ∷ []

abbrev finishing : List (Call ℕ)
finishing =
    Call.create input "u" "c" "now"
    ∷ move planning
    ∷ move executing
    ∷ move verifying
    ∷ move completed
    ∷ []

state_at : TaskManager ℕ → String → Option TaskState
state_at m id = elim (Map.get m.tasks id) [ none ↦ none | some r ↦ some r.state ]

-- The budget of one retry refuses the second.
failing_state : state_at (run start failing) "t" ≡ some failed
unfolding program state_at
failing_state = refl

finishing_state : state_at (run start finishing) "t" ≡ some completed
unfolding program state_at
finishing_state = refl

start-IsValid : IsValid start
start-IsValid = record { distinct = tt; good = tt }

transition-ok_iff_example :
    ((r : TaskRecord ℕ) × ((transition (run start failing) "t" retrying none "now").1 ≡ ok r))
    ↔ ((c : TaskRecord ℕ) × IsAllowed (run start failing) "t" retrying none c)
transition-ok_iff_example = transition-ok_iff (run start failing) "t" retrying none "now"

abbrev waiting : TaskRecord ℕ
waiting = record {
  task_id = "t";
  goal = "sort";
  correlation_id = "c";
  owner_device_id = none;
  state = waiting_user;
  retry_count = 0;
  step_history = [];
  waiting_user_reason = some clarification_requested;
  reason = none;
  updated_at = "now";
}

abbrev asking : TaskManager ℕ
asking = record { tasks = ("t", waiting) ∷ []; max_retries = 3 }

entries_bounded_example :
    (entries start failing "t" + retries_of (Map.get start.tasks "t")
      ≡ retries_of (Map.get (run start failing).tasks "t"))
    × (entries start failing "t" + retries_of (Map.get start.tasks "t") ≤ start.max_retries)
entries_bounded_example = entries_bounded start failing "t" start-IsValid

abbrev done : TaskRecord ℕ
done = record waiting { state = completed; waiting_user_reason = none }

abbrev finished : TaskManager ℕ
finished = record { tasks = ("t", done) ∷ []; max_retries = 3 }

run_done_example :
    (r : TaskRecord ℕ) × (Map.get (run finished failing).tasks "t" ≡ some r)
    × (r.state ≡ completed)
    × ((target : TaskState) (reason : Option Reason) (now : String)
        → (r' : TaskRecord ℕ) → (transition (run finished failing) "t" target reason now).1 ≢ ok r')
unfolding program
run_done_example = run_done finished failing "t" done refl (inl refl)

abbrev interrupted : TaskRecord ℕ
interrupted = record done { state = executing }

get-restore_example :
    IsReadAs
      (last_with (interrupted ∷ []) "t")
      (Map.get (restore start (interrupted ∷ [])).tasks "t")
get-restore_example = get-restore start (interrupted ∷ []) "t"

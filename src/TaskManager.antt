-- ===== src/TaskManager.antt =====
-- services/runtime/src/task-manager.ts: the store of task records and their state machine. The
-- clock and the generator of identifiers are arguments of the operations that read them.
pub mod Calls
pub mod Invariant
pub mod Diagram
pub mod Outcome
pub mod Histories
pub mod Restore
mod Tests
use mathlib.Core.Logic.{ite}
use nova_test.Common.Map
use nova_test.Common.Map.{Map}
use nova_test.Common.{
  ℕ, ◌+◌, Bool, true, false, List, [], ◌∷◌, ◌++◌, String, Option, none, some, includes, ◌⊕◌, leb,
  if◌then◌else◌, is_some, or_else, text_dec, ◌&&◌, ◌||◌, not,
}
use nova_test.Shared.{ErrorInfo, Result, ok, err, nova_tl002, nova_tl004, text, number}

pub data TaskState : Type 0 where
  created planning waiting_resources executing verifying completed unverified failed retrying paused
        waiting_user cancelled :
      TaskState

unfoldable pub TaskState-discrete : Discrete TaskState
TaskState-discrete = hlevel

pub data WaitingUserReason : Type 0 where
  permission_confirmation clarification_requested : WaitingUserReason

-- `WaitingUserReason | "resumed" | "denied"`
pub data Reason : Type 0 where
  blocking : WaitingUserReason → Reason
  resumed denied : Reason

unfoldable pub state_name : TaskState → String
state_name created = "Created"
state_name planning = "Planning"
state_name waiting_resources = "WaitingResources"
state_name executing = "Executing"
state_name verifying = "Verifying"
state_name completed = "Completed"
state_name unverified = "Unverified"
state_name failed = "Failed"
state_name retrying = "Retrying"
state_name paused = "Paused"
state_name waiting_user = "WaitingUser"
state_name cancelled = "Cancelled"

unfoldable pub reason_text : Option Reason → String
reason_text none = ""
reason_text (some (blocking permission_confirmation)) = "permission_confirmation"
reason_text (some (blocking clarification_requested)) = "clarification_requested"
reason_text (some resumed) = "resumed"
reason_text (some denied) = "denied"

unfoldable pub transitions : TaskState → List TaskState
transitions created = planning ∷ paused ∷ cancelled ∷ []
transitions planning =
    waiting_resources ∷ executing ∷ paused ∷ waiting_user ∷ failed ∷ cancelled ∷ []
transitions waiting_resources = executing ∷ paused ∷ cancelled ∷ []
transitions executing = verifying ∷ failed ∷ paused ∷ cancelled ∷ []
transitions verifying = completed ∷ unverified ∷ failed ∷ []
transitions completed = []
transitions unverified = retrying ∷ []
transitions failed = retrying ∷ []
transitions retrying = planning ∷ []
transitions paused = waiting_user ∷ planning ∷ executing ∷ []
transitions waiting_user = planning ∷ executing ∷ cancelled ∷ []
transitions cancelled = []

-- A step of the history is of any type.
pub record TaskRecord (Step : Type 0) : Type 0 where
  pub task_id : String
  pub goal : String
  pub correlation_id : String
  pub owner_device_id : Option String
  pub state : TaskState
  pub retry_count : ℕ
  pub step_history : List Step
  pub waiting_user_reason : Option WaitingUserReason
  pub reason : Option String
  pub updated_at : String

pub record TaskManager (Step : Type 0) : Type 0 where
  pub tasks : Map (TaskRecord Step)
  pub max_retries : ℕ

pub record TaskInput : Type 0 where
  pub task_id : Option String
  pub goal : String
  pub correlation_id : Option String
  pub owner_device_id : Option String

pub not_found : String → ErrorInfo
not_found id = record {
  code = nova_tl004;
  message = "Task does not exist.";
  retryable = false;
  details = ("taskId", text id) ∷ [];
}

pub already_exists : String → ErrorInfo
already_exists id = record {
  code = nova_tl004;
  message = "Task already exists.";
  retryable = false;
  details = ("taskId", text id) ∷ [];
}

pub illegal_transition : String → TaskState → TaskState → ErrorInfo
illegal_transition id from to = record {
  code = nova_tl002;
  message = "Illegal task transition: " ⊕ state_name from ⊕ " -> " ⊕ state_name to ⊕ ".";
  retryable = false;
  details =
      ("taskId", text id) ∷ ("from", text (state_name from)) ∷ ("to", text (state_name to)) ∷ [];
}

pub reason_required : ErrorInfo
reason_required = record {
  code = nova_tl002;
  message = "WaitingUser requires an explicit blocking reason.";
  retryable = false;
  details = [];
}

pub budget_exhausted : String → ℕ → ErrorInfo
budget_exhausted id max = record {
  code = nova_tl002;
  message = "Task retry budget is exhausted.";
  retryable = false;
  details = ("taskId", text id) ∷ ("maxRetries", number max) ∷ [];
}

pub owner_required : ErrorInfo
owner_required = record {
  code = nova_tl002;
  message = "Task owner device identifier is required.";
  retryable = false;
  details = [];
}

pub owner_fixed : String → String → ErrorInfo
owner_fixed id device = record {
  code = nova_tl002;
  message = "A task waiting for user confirmation cannot move to another device.";
  retryable = false;
  details = ("taskId", text id) ∷ ("ownerDeviceId", text device) ∷ [];
}

abbrev pub is_waiting_user : TaskState → Bool
is_waiting_user waiting_user = true
is_waiting_user _ = false

abbrev pub is_retrying : TaskState → Bool
is_retrying retrying = true
is_retrying _ = false

abbrev pub is_stopped : TaskState → Bool
is_stopped cancelled = true
is_stopped failed = true
is_stopped _ = false

-- the cast `reason as WaitingUserReason`, for a reason that names a blocker
abbrev pub blocker : Option Reason → Option WaitingUserReason
blocker (some (blocking w)) = some w
blocker _ = none

-- a test `owner !== undefined && owner !== device`
abbrev pub differs : Option String → String → Bool
differs none device = false
differs (some owner) device = ite (text_dec owner device) false true

unfoldable pub recovered_state : TaskState → TaskState
recovered_state executing = unverified
recovered_state verifying = unverified
recovered_state s = s

module _ {Step : Type 0} where
  -- `constructor`: three retries by default
  unfoldable pub new : Option ℕ → TaskManager Step
  new max_retries = record { tasks = []; max_retries = or_else max_retries 3 }

  unfoldable pub fresh_record : TaskInput → String → String → String → TaskRecord Step
  fresh_record input id correlation now = record {
    task_id = id;
    goal = input.goal;
    correlation_id = correlation;
    owner_device_id = input.owner_device_id;
    state = created;
    retry_count = 0;
    step_history = [];
    waiting_user_reason = none;
    reason = none;
    updated_at = now;
  }

  -- `uuid` and `uuid'` are what `randomUUID` would give for the task and for the correlation.
  unfoldable pub create :
      TaskManager Step
      → TaskInput
      → String
      → String
      → String
      → TaskManager Step × Result (TaskRecord Step)
  unfolding fresh_record
  create m input uuid uuid' now =
      let id = or_else input.task_id uuid in
      let task = fresh_record input id (or_else input.correlation_id uuid') now in
      if Map.has m.tasks id
      then (m, err (already_exists id))
      else (record m { tasks = Map.set m.tasks id task }, ok task)

  unfoldable pub get : TaskManager Step → String → Result (TaskRecord Step)
  get m id = elim (Map.get m.tasks id) [ some task ↦ ok task | none ↦ err (not_found id) ]

  pub list : TaskManager Step → List (TaskRecord Step)
  list m = Map.values m.tasks

  unfoldable pub recovered : TaskRecord Step → TaskRecord Step
  unfolding recovered_state
  recovered r = record r { state = recovered_state r.state }

  -- the loop of `restore`
  unfoldable pub restore_into :
      Map (TaskRecord Step) → List (TaskRecord Step) → Map (TaskRecord Step)
  restore_into tasks [] = tasks
  restore_into tasks (r ∷ rs) = restore_into (Map.set tasks r.task_id (recovered r)) rs

  unfoldable pub restore : TaskManager Step → List (TaskRecord Step) → TaskManager Step
  unfolding restore_into
  restore m records = record m { tasks = restore_into [] records }

  unfoldable pub next_record :
      TaskRecord Step → TaskState → Option Reason → String → TaskRecord Step
  unfolding reason_text
  next_record current target reason now = record {
    task_id = current.task_id;
    goal = current.goal;
    correlation_id = current.correlation_id;
    owner_device_id = current.owner_device_id;
    state = target;
    retry_count = if is_retrying target then current.retry_count + 1 else current.retry_count;
    step_history = current.step_history;
    waiting_user_reason = if is_waiting_user target then blocker reason else none;
    reason = if is_stopped target then some (reason_text reason) else none;
    updated_at = now;
  }

  -- the guards of `transition`: the error of the first that fails
  unfoldable pub refusal :
      ℕ → String → TaskRecord Step → TaskState → Option Reason → Option ErrorInfo
  unfolding transitions includes TaskState-discrete
  refusal max id current target reason =
      if not (includes TaskState-discrete (transitions current.state) target)
      then some (illegal_transition id current.state target)
      else if is_waiting_user target && not (is_some (blocker reason))
      then some reason_required
      else if is_retrying target && leb max current.retry_count
      then some (budget_exhausted id max)
      else none

  unfoldable pub transition :
      TaskManager Step
      → String
      → TaskState
      → Option Reason
      → String
      → TaskManager Step × Result (TaskRecord Step)
  transition m id target reason now = elim (Map.get m.tasks id) [
    | none ↦ (m, err (not_found id))
    | some current ↦ elim (refusal m.max_retries id current target reason) [
      | some e ↦ (m, err e)
      | none ↦
          let next = next_record current target reason now in
          (record m { tasks = Map.set m.tasks id next }, ok next)
    ]
  ]

  unfoldable pub assign_owner :
      TaskManager Step → String → String → String → TaskManager Step × Result (TaskRecord Step)
  assign_owner m id device now = elim (Map.get m.tasks id) [
    | none ↦ (m, err (not_found id))
    | some current ↦
        let next = record current { owner_device_id = some device; updated_at = now } in
        ite (text_dec device "") (m, err owner_required)
          (if is_waiting_user current.state && differs current.owner_device_id device
            then (m, err (owner_fixed id device))
            else (record m { tasks = Map.set m.tasks id next }, ok next))
  ]

  unfoldable pub append_step_history :
      TaskManager Step → String → Step → String → TaskManager Step × Result (TaskRecord Step)
  append_step_history m id step now = elim (Map.get m.tasks id) [
    | none ↦ (m, err (not_found id))
    | some current ↦
        let next = record current {
          step_history = current.step_history ++ step ∷ [];
          updated_at = now;
        } in
        (record m { tasks = Map.set m.tasks id next }, ok next)
  ]

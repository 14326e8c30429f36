-- ===== src/RuntimeTaskCoordinator.antt =====
-- services/runtime/src/runtime-task-coordinator.ts: a task goes through the planner, the executor and
-- the verifier, and each change of it is persisted and published. The task manager, the planner and
-- the verifier are those of TaskManager and Orchestration; the executor, the persistence and the
-- event bus answer as `Services` says. At each await, the rest of the runtime may use the tasks.
pub mod Execution
pub mod Decisions
mod Tests
use nova_test.Common.{ℕ, suc, Bool, true, false, List, [], ◌∷◌, String, Option, none, some, or_else}
use nova_test.Shared.{ErrorInfo, Result, ok, err}
use nova_test.TaskManager
use nova_test.TaskManager.{TaskManager, TaskRecord, TaskState, TaskInput, Reason}
use nova_test.Orchestration.{ExecutionStep, ExecutionResult, VerificationVerdict}
use nova_test.Orchestration.Planner.{PlannerDependencies}

-- What `execute` appends to the history of a task.
pub data HistoryEntry (P V : Type 0) : Type 0 where
  planning_error : ErrorInfo → HistoryEntry P V
  execution_error : ExecutionStep P V → ErrorInfo → HistoryEntry P V
  verification_error : ErrorInfo → HistoryEntry P V
  verdict_entry : ExecutionStep P V → ExecutionResult P V → VerificationVerdict → HistoryEntry P V

-- The status of a checkpoint.
pub data CheckpointStatus : Type 0 where
  created valid : CheckpointStatus

module _ (P V : Type 0) where
  abbrev pub Tasks : Type 0
  Tasks = TaskManager (HistoryEntry P V)

  abbrev pub Task : Type 0
  Task = TaskRecord (HistoryEntry P V)

  -- The occasion of each answer is the number of awaits before it.
  pub record Services : Type 0 where
    pub is_uuid : String → Bool
    pub planner : PlannerDependencies P V is_uuid
    pub execute : ℕ → ExecutionStep P V → Result (ExecutionResult P V)
    pub persistence : Option (ℕ → Task → CheckpointStatus → Result (Unit {0}))
    pub publish : ℕ → Task → Result (Unit {0})
    pub now : ℕ → String
    pub meanwhile : ℕ → Tasks → Tasks

  pub record Coordinator : Type 0 where
    pub tasks : Tasks
    pub awaits : ℕ

-- How a promise settles: with a result, or with the error that a failed publication throws or the
-- rejection of the model planner.
pub data Answer (A : Type 0) : Type 0 where
  answered : Result A → Answer A
  thrown : String → Answer A

abbrev pub published : Result (Unit {0}) → Answer (Unit {0})
published (ok u) = answered (ok u)
published (err e) = thrown e.message

module _ {P V : Type 0} where
  abbrev pub and_then :
      {A B : Type 0}
      → Coordinator P V × Answer A
      → (Coordinator P V → A → Coordinator P V × Answer B)
      → Coordinator P V × Answer B
  and_then (c, thrown message) next = (c, thrown message)
  and_then (c, answered (err e)) next = (c, answered (err e))
  and_then (c, answered (ok a)) next = next c a

  -- A call of the task manager.
  abbrev pub called :
      Coordinator P V → Tasks P V × Result (Task P V) → Coordinator P V × Answer (Task P V)
  called c (tasks, r) = (record c { tasks = tasks }, answered r)

  -- After an await.
  abbrev pub awaited : Services P V → Coordinator P V → Coordinator P V
  awaited s c = record { tasks = s.meanwhile c.awaits c.tasks; awaits = suc c.awaits }

  unfoldable pub persist :
      Services P V
      → Coordinator P V
      → Task P V
      → CheckpointStatus
      → Coordinator P V × Answer (Unit {0})
  persist s c task status = elim s.persistence [
    | none ↦ (awaited s c, answered (ok tt))
    | some append ↦ (awaited s c, answered (append c.awaits task status))
  ]

  unfoldable pub publish :
      Services P V → Coordinator P V → Task P V → Coordinator P V × Answer (Unit {0})
  publish s c task = (awaited s c, published (s.publish c.awaits task))

  -- What follows a transition: the record is persisted, published and returned.
  unfoldable pub deliver :
      Services P V
      → CheckpointStatus
      → Coordinator P V
      → Task P V
      → Coordinator P V × Answer (Task P V)
  unfolding persist publish
  deliver s status c task =
      and_then (persist s c task status)
        (λ c2 _. and_then (publish s c2 task) (λ c3 _. (c3, answered (ok task))))

  unfoldable pub transition :
      Services P V
      → Coordinator P V
      → String
      → TaskState
      → Option Reason
      → Coordinator P V × Answer (Task P V)
  unfolding deliver
  transition s c task_id target reason =
      and_then (called c (TaskManager.transition c.tasks task_id target reason (s.now c.awaits)))
        (deliver s valid)

  unfoldable pub append_step_history :
      Services P V
      → Coordinator P V
      → String
      → HistoryEntry P V
      → Coordinator P V × Answer (Task P V)
  unfolding persist
  append_step_history s c task_id step =
      and_then (called c (TaskManager.append_step_history c.tasks task_id step (s.now c.awaits)))
        (λ c2 task. and_then (persist s c2 task valid) (λ c3 _. (c3, answered (ok task))))

  -- `uuid` and `uuid'` are what the generator of identifiers gives.
  unfoldable pub submit :
      Services P V
      → Coordinator P V
      → TaskInput
      → String
      → String
      → Coordinator P V × Answer (Task P V)
  submit s c input uuid uuid' =
      called c (TaskManager.create c.tasks input uuid uuid' (s.now c.awaits))

  unfoldable pub submit_durable :
      Services P V
      → Coordinator P V
      → TaskInput
      → String
      → String
      → Coordinator P V × Answer (Task P V)
  unfolding submit deliver
  submit_durable s c input uuid uuid' = and_then (submit s c input uuid uuid') (deliver s created)

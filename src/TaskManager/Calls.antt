-- ===== src/TaskManager/Calls.antt =====
-- The calls of services/runtime/src/task-manager.ts that change one task, and histories of them.
-- `restore`, which replaces all tasks, is not among them: a history begins after the last of them.
use nova_test.Common.{String, List, [], ◌∷◌, Option}
use nova_test.TaskManager
use nova_test.TaskManager.{TaskManager, TaskState, Reason, TaskInput}

-- A call, with what it reads from the clock and from the generator of identifiers.
pub data Call (Step : Type 0) : Type 0 where
  create : TaskInput → String → String → String → Call Step
  transition : String → TaskState → Option Reason → String → Call Step
  assign_owner : String → String → String → Call Step
  append_step_history : String → Step → String → Call Step

module _ {Step : Type 0} where
  unfoldable pub step : TaskManager Step → Call Step → TaskManager Step
  step m (create input uuid uuid' now) = (TaskManager.create m input uuid uuid' now).0
  step m (transition id target reason now) = (TaskManager.transition m id target reason now).0
  step m (assign_owner id device now) = (TaskManager.assign_owner m id device now).0
  step m (append_step_history id s now) = (TaskManager.append_step_history m id s now).0

  unfoldable pub run : TaskManager Step → List (Call Step) → TaskManager Step
  run m [] = m
  run m (c ∷ cs) = run (step m c) cs

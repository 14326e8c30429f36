-- ===== src/RuntimeTaskCoordinator/Decisions.antt =====
-- The decisions of the user in services/runtime/src/runtime-task-coordinator.ts: `retry`,
-- `resumePaused`, `confirmWaitingUser` and `denyWaitingUser`.
pub mod Stalling
use nova_test.Common.{
  ℕ, Bool, true, false, List, [], ◌∷◌, String, Option, none, some, if◌then◌else◌,
}
use nova_test.Shared.{StableErrorCode, ErrorInfo, Result, ok, err, text, nova_sec001, nova_tl002}
use nova_test.TaskManager
use nova_test.TaskManager.{
  TaskState, Reason, resumed, denied, WaitingUserReason, permission_confirmation,
  clarification_requested, retrying, paused, waiting_user, executing, cancelled, state_name,
}
use nova_test.Orchestration.{failure_of}
use nova_test.RuntimeTaskCoordinator.{
  Task, Services, Coordinator, Answer, answered, thrown, and_then, transition,
}
use nova_test.RuntimeTaskCoordinator.Execution.{execute}

abbrev pub not_in_state : String → String → TaskState → ErrorInfo
not_in_state message task_id state = record (failure_of nova_tl002 message false) {
  details = ("taskId", text task_id) ∷ ("state", text (state_name state)) ∷ [];
}

abbrev pub reason_name : Option WaitingUserReason → String
reason_name none = "unknown"
reason_name (some permission_confirmation) = "permission_confirmation"
reason_name (some clarification_requested) = "clarification_requested"

abbrev pub needs_input : String → Option WaitingUserReason → ErrorInfo
needs_input task_id reason =
    record (failure_of nova_tl002
      "Clarification-blocked tasks require new user input before replanning." false) {
        details = ("taskId", text task_id) ∷ ("waitingUserReason", text (reason_name reason)) ∷ [];
      }

abbrev pub is_paused : TaskState → Bool
is_paused paused = true
is_paused _ = false

abbrev pub is_waiting_user : TaskState → Bool
is_waiting_user waiting_user = true
is_waiting_user _ = false

abbrev pub is_permission : Option WaitingUserReason → Bool
is_permission (some permission_confirmation) = true
is_permission _ = false

module _ {P V : Type 0} where
  abbrev pub refused : Coordinator P V → ErrorInfo → Coordinator P V × Answer (Task P V)
  refused c e = (c, answered (err e))

  unfoldable pub retry :
      Services P V → Coordinator P V → String → Bool → Coordinator P V × Answer (Task P V)
  unfolding transition execute
  retry s c task_id false =
      refused c (failure_of nova_sec001 "Retrying a task requires explicit confirmation." false)
  retry s c task_id true =
      and_then (transition s c task_id retrying none) (λ c2 _. execute s c2 task_id)

  unfoldable pub resume_paused :
      Services P V → Coordinator P V → String → Bool → Coordinator P V × Answer (Task P V)
  unfolding execute
  resume_paused s c task_id false =
      refused c
        (failure_of nova_sec001 "Resuming a paused task requires explicit confirmation." false)
  resume_paused s c task_id true =
      and_then (c, answered (TaskManager.get c.tasks task_id))
        (λ c2 current.
          if is_paused current.state
          then execute s c2 task_id
          else refused c2 (not_in_state "Only paused tasks can be resumed." task_id current.state))

  -- What `confirmWaitingUser` and `denyWaitingUser` share: they differ in their messages, the state
  -- they go to and its reason.
  unfoldable pub resolve_waiting :
      Services P V
      → Coordinator P V
      → String
      → String
      → TaskState
      → Reason
      → Coordinator P V × Answer (Task P V)
  unfolding transition
  resolve_waiting s c task_id message target reason =
      and_then (c, answered (TaskManager.get c.tasks task_id))
        (λ c2 current.
          if is_waiting_user current.state
          then (if is_permission current.waiting_user_reason
              then transition s c2 task_id target (some reason)
              else refused c2 (needs_input task_id current.waiting_user_reason))
          else refused c2 (not_in_state message task_id current.state))

  unfoldable pub confirm_waiting_user :
      Services P V → Coordinator P V → String → Bool → Coordinator P V × Answer (Task P V)
  unfolding resolve_waiting
  confirm_waiting_user s c task_id false = refused c (
      failure_of nova_sec001 "Resolving a permission-blocked task requires explicit confirmation."
        false)
  confirm_waiting_user s c task_id true =
      resolve_waiting s c task_id "Only tasks waiting for user input can be resolved." executing
        resumed

  unfoldable pub deny_waiting_user :
      Services P V → Coordinator P V → String → Bool → Coordinator P V × Answer (Task P V)
  unfolding resolve_waiting
  deny_waiting_user s c task_id false = refused c (
      failure_of nova_sec001 "Denying a permission-blocked task requires explicit confirmation."
        false)
  deny_waiting_user s c task_id true =
      resolve_waiting s c task_id "Only tasks waiting for user input can be denied." cancelled
        denied

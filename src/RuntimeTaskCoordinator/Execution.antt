-- ===== src/RuntimeTaskCoordinator/Execution.antt =====
-- `execute` of services/runtime/src/runtime-task-coordinator.ts.
pub mod Stages
pub mod Completion
use nova_test.Common.{
  ℕ, Bool, true, false, List, [], ◌∷◌, ◌++◌, String, Option, none, some, any, if◌then◌else◌,
}
use nova_test.Shared.{ErrorInfo, Result, ok, err, nova_tl002}
use nova_test.TaskManager
use nova_test.TaskManager.{TaskState, planning, executing, verifying, completed, unverified, failed}
use nova_test.Orchestration.{
  ExecutionStep, ExecutionResult, VerificationVerdict, VerificationOutcome, failure_of,
}
use nova_test.Orchestration.Planner.{Settled, resolved, rejected, plan}
use nova_test.Orchestration.Verifier.{verify}
use nova_test.RuntimeTaskCoordinator.{
  HistoryEntry, planning_error, execution_error, verification_error, verdict_entry, Task, Services,
  Coordinator, Answer, answered, thrown, and_then, awaited, transition, append_step_history,
}

-- A step with its result, and with its verdict.
abbrev pub Executed : Type 0 → Type 0 → Type 0
Executed P V = ExecutionStep P V × ExecutionResult P V

abbrev pub Judged : Type 0 → Type 0 → Type 0
Judged P V = ExecutionStep P V × ExecutionResult P V × VerificationVerdict

-- The first step that fails, with its error.
pub data Ran (P V : Type 0) : Type 0 where
  all_ran : List (Executed P V) → Ran P V
  failed_at : ExecutionStep P V → ErrorInfo → Ran P V

abbrev pub is_failed : VerificationOutcome → Bool
is_failed VerificationOutcome.failed = true
is_failed _ = false

abbrev pub is_unverified : VerificationOutcome → Bool
is_unverified VerificationOutcome.unverified = true
is_unverified _ = false

module _ {P V : Type 0} where
  unfoldable pub fail :
      Services P V
      → Coordinator P V
      → String
      → HistoryEntry P V
      → Coordinator P V × Answer (Task P V)
  unfolding append_step_history transition
  fail s c task_id history =
      and_then (append_step_history s c task_id history)
        (λ c2 _. transition s c2 task_id failed none)

  abbrev pub ran_before : Executed P V → Coordinator P V × Ran P V → Coordinator P V × Ran P V
  ran_before e (c, all_ran es) = (c, all_ran (e ∷ es))
  ran_before e (c, failed_at step x) = (c, failed_at step x)

  -- The loop over the steps of the plan.
  unfoldable pub run_steps :
      Services P V → Coordinator P V → List (ExecutionStep P V) → Coordinator P V × Ran P V
  run_steps s c [] = (c, all_ran [])
  run_steps s c (step ∷ steps) = elim (s.execute c.awaits step) [
    | err e ↦ (awaited s c, failed_at step e)
    | ok result ↦ ran_before (step, result) (run_steps s (awaited s c) steps)
  ]

  abbrev pub judged_before : Judged P V → Result (List (Judged P V)) → Result (List (Judged P V))
  judged_before j (ok js) = ok (j ∷ js)
  judged_before j (err e) = err e

  -- The loop over the results.
  unfoldable pub judge : List (Executed P V) → Result (List (Judged P V))
  unfolding verify
  judge [] = ok []
  judge ((step, result) ∷ es) = elim (verify P V step result) [
    | err e ↦ err e
    | ok v ↦ judged_before (step, result, v) (judge es)
  ]

  unfoldable pub outcome_of : List (Judged P V) → TaskState
  outcome_of js =
      if any (λ j. is_failed j.2.outcome) js
      then failed
      else if any (λ j. is_unverified j.2.outcome) js
      then unverified
      else completed

  -- The loop that appends the verdicts, and the last transition.
  unfoldable pub record_verdicts :
      Services P V
      → Coordinator P V
      → String
      → TaskState
      → List (Judged P V)
      → Coordinator P V × Answer (Task P V)
  unfolding append_step_history transition
  record_verdicts s c task_id outcome [] = transition s c task_id outcome none
  record_verdicts s c task_id outcome ((step, result, v) ∷ js) =
      and_then (append_step_history s c task_id (verdict_entry step result v))
        (λ c2 _. record_verdicts s c2 task_id outcome js)

  abbrev pub verdicts_of :
      Services P V
      → Coordinator P V
      → String
      → Result (List (Judged P V))
      → Coordinator P V × Answer (Task P V)
  verdicts_of s c task_id (err e) = fail s c task_id (verification_error e)
  verdicts_of s c task_id (ok js) = record_verdicts s c task_id (outcome_of js) js

  abbrev pub after_run :
      Services P V → String → Coordinator P V × Ran P V → Coordinator P V × Answer (Task P V)
  after_run s task_id (c, failed_at step e) = fail s c task_id (execution_error step e)
  after_run s task_id (c, all_ran es) =
      and_then (transition s c task_id verifying none) (λ c2 _. verdicts_of s c2 task_id (judge es))

  abbrev pub after_plan :
      Services P V
      → Coordinator P V
      → String
      → Result (List (ExecutionStep P V))
      → Coordinator P V × Answer (Task P V)
  after_plan s c task_id (err e) = fail s c task_id (planning_error e)
  after_plan s c task_id (ok []) =
      fail s c task_id
        (planning_error (failure_of nova_tl002 "Planner returned no executable steps." false))
  after_plan s c task_id (ok (step ∷ steps)) =
      and_then (transition s c task_id executing none)
        (λ c2 _. after_run s task_id (run_steps s c2 (step ∷ steps)))

  -- When the promise of the planner has settled.
  abbrev pub after_planner :
      Services P V
      → Coordinator P V
      → String
      → Settled (Result (List (ExecutionStep P V)))
      → Coordinator P V × Answer (Task P V)
  after_planner s c task_id (rejected message) = (c, thrown message)
  after_planner s c task_id (resolved planned) = after_plan s c task_id planned

  unfoldable pub execute :
      Services P V → Coordinator P V → String → Coordinator P V × Answer (Task P V)
  unfolding fail run_steps judge outcome_of record_verdicts transition
  execute s c task_id =
      and_then (c, answered (TaskManager.get c.tasks task_id))
        (λ c1 _. and_then (transition s c1 task_id planning none) (λ c2 task.
          after_planner s (awaited s c2) task_id
            (plan P V s.is_uuid s.planner (record { task_id = task.task_id; goal = task.goal }))))

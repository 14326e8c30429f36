-- ===== src/RuntimeTaskCoordinator/Execution/Completion.antt =====
-- When a task is completed by services/runtime/src/runtime-task-coordinator.ts.
use mathlib.Core.Path.{subst}
use nova_test.Common.{
  ◌≡◌, ◌≢◌, ◌∙◌, refl, sym, ap, List, [], ◌∷◌, String, none, All, inl, inr, arith,
}
use nova_test.Shared.{Result, ok, err, Result-cases}
use nova_test.TaskManager
use nova_test.TaskManager.{
  TaskManager, TaskRecord, TaskState, Reason, planning, executing, verifying, completed, failed,
  next_record, refusal,
}
use nova_test.Orchestration.{ExecutionStep, ExecutionResult, VerificationVerdict}
use nova_test.Orchestration.Planner.{Settled, resolved, rejected, plan}
use nova_test.Orchestration.Verifier.{verify}
use nova_test.RuntimeTaskCoordinator.{
  Task, Services, Coordinator, Answer, answered, awaited, transition,
}
use nova_test.RuntimeTaskCoordinator.Execution.{
  Executed, Judged, Ran, all_ran, failed_at, ran_before, run_steps, judged_before, judge,
  outcome_of, verdicts_of, after_run, after_plan, after_planner, execute,
}
use nova_test.RuntimeTaskCoordinator.Execution.Stages.{
  and_then-ok, done, fail-state, record_verdicts-state, AllVerified, outcome_of-completed,
  IsVerified, transition-same,
}

module _ {P V : Type 0} where
  ran_before-all :
      (x : Executed P V) (y : Coordinator P V × Ran P V) (d : Coordinator P V)
      (es : List (Executed P V))
      → ran_before x y ≡ (d, all_ran es)
      → (rest : List (Executed P V)) × (y ≡ (d, all_ran rest)) × (es ≡ x ∷ rest)
  ran_before-all x (c, all_ran rest) d es e = (rest, ground arith, ground arith)
  ran_before-all x (c, failed_at step m) d es e = absurd (ground arith)

  judged_before-ok :
      (j : Judged P V) (r : Result (List (Judged P V))) (js : List (Judged P V))
      → judged_before j r ≡ ok js
      → (rest : List (Judged P V)) × (r ≡ ok rest) × (js ≡ j ∷ rest)
  judged_before-ok j (ok rest) js e = (rest, refl, ground arith)
  judged_before-ok j (err x) js e = absurd (ground arith)

  judge-cons :
      (step : ExecutionStep P V) (result : ExecutionResult P V) (es : List (Executed P V))
      → (js : List (Judged P V)) → judge ((step, result) ∷ es) ≡ ok js
      → (v : VerificationVerdict) × (rest : List (Judged P V)) × (verify P V step result ≡ ok v)
        × (judge es ≡ ok rest)
        × (js ≡ (step, result, v) ∷ rest)
  unfolding judge
  judge-cons step result es js e = elim (Result-cases (verify P V step result)) [
    | inr (x, q) ↦ absurd (ground arith)
    | inl (v, q) ↦
        let (rest, a, b) = judged_before-ok (step, result, v) (judge es) js (ground arith) in
        (v, rest, q, a, b)
  ]

  run_steps-IsVerified :
      (s : Services P V) (c d : Coordinator P V) (steps : List (ExecutionStep P V))
      → (es : List (Executed P V)) (js : List (Judged P V)) → run_steps s c steps ≡ (d, all_ran es)
      → judge es ≡ ok js
      → AllVerified js
      → All (IsVerified s) steps
  unfolding run_steps
  run_steps-IsVerified s c d [] es js e f h = tt
  run_steps-IsVerified s c d (step ∷ steps) es js e f h =
      elim (Result-cases (s.execute c.awaits step)) [
        | inr (x, q) ↦ absurd (ground arith)
        | inl (result, q) ↦
            let (rest, a, b) =
              ran_before-all (step, result) (run_steps s (awaited s c) steps) d es (ground arith) in
            let (v, vs, k, l, m) =
              judge-cons step result rest js (subst (λ x. judge x ≡ ok js) b f) in
            let (o, more) = subst AllVerified m h in
            (
              (c.awaits, result, v, q, k, o),
              run_steps-IsVerified s (awaited s c) d steps rest vs a l more,
            )
      ]

  verdicts_of-completed :
      (s : Services P V) (c d : Coordinator P V) (id : String) (o : Result (List (Judged P V)))
      → (r : Task P V) → verdicts_of s c id o ≡ done d r
      → r.state ≡ completed
      → (js : List (Judged P V)) × (o ≡ ok js) × AllVerified js
  verdicts_of-completed s c d id (ok js) r e h = (
    js,
    refl,
    outcome_of-completed js (sym (record_verdicts-state s c d id (outcome_of js) js r e) ∙ h),
  )
  verdicts_of-completed s c d id (err x) r e h =
      let q = fail-state s c d id _ r e in absurd (ground arith)

  after_run-completed :
      (s : Services P V) (d : Coordinator P V) (id : String) (x : Coordinator P V × Ran P V)
      → (r : Task P V) → after_run s id x ≡ done d r
      → r.state ≡ completed
      → (c : Coordinator P V) × (es : List (Executed P V)) × (js : List (Judged P V)) × (x
          ≡ (c, all_ran es))
        × (judge es ≡ ok js)
        × AllVerified js
  after_run-completed s d id (c, failed_at step m) r e h =
      let q = fail-state s c d id _ r e in absurd (ground arith)
  after_run-completed s d id (c, all_ran es) r e h =
      let (x, t, y, z) = and_then-ok (transition s c id verifying none) _ d r e in
      let (js, a, b) = verdicts_of-completed s x d id (judge es) r z h in (c, es, js, refl, a, b)

  after_plan-completed :
      (s : Services P V) (c d : Coordinator P V) (id : String)
      → (o : Result (List (ExecutionStep P V))) → (r : Task P V) → after_plan s c id o ≡ done d r
      → r.state ≡ completed
      → (steps : List (ExecutionStep P V)) × (o ≡ ok steps)
        × (steps ≢ [])
        × All (IsVerified s) steps
  after_plan-completed s c d id (err x) r e h =
      let q = fail-state s c d id _ r e in absurd (ground arith)
  after_plan-completed s c d id (ok []) r e h =
      let q = fail-state s c d id _ r e in absurd (ground arith)
  after_plan-completed s c d id (ok (step ∷ steps)) r e h =
      let (x, t, y, z) = and_then-ok (transition s c id executing none) _ d r e in
      let (x2, es, js, a, b, f) = after_run-completed s d id (run_steps s x (step ∷ steps)) r z h in
      (step ∷ steps, refl, λ q. cc, run_steps-IsVerified s x x2 (step ∷ steps) es js a b f)

  after_planner-completed :
      (s : Services P V) (c d : Coordinator P V) (id : String)
      → (o : Settled (Result (List (ExecutionStep P V)))) (r : Task P V)
      → after_planner s c id o ≡ done d r
      → r.state ≡ completed
      → (steps : List (ExecutionStep P V)) × (o ≡ resolved (ok steps))
        × (steps ≢ [])
        × All (IsVerified s) steps
  after_planner-completed s c d id (rejected m) r e h = absurd (ground arith)
  after_planner-completed s c d id (resolved p) r e h =
      let (steps, f, g, k) = after_plan-completed s c d id p r e h in
      (steps, ap (λ x. resolved x) f, g, k)

  answered-inj :
      (c d : Coordinator P V) (o : Result (Task P V)) (t : Task P V)
      → ◌≡◌ {A = Coordinator P V × Answer (Task P V)} (c, answered o) (d, answered (ok t))
      → (c ≡ d) × (o ≡ ok t)
  answered-inj c d o t e = (ground arith, ground arith)

  planned :
      (s : Services P V) (id id' goal goal' : String) (steps : List (ExecutionStep P V))
      → id ≡ id'
      → goal ≡ goal'
      → plan P V s.is_uuid s.planner (record { task_id = id; goal = goal }) ≡ resolved (ok steps)
      → plan P V s.is_uuid s.planner (record { task_id = id'; goal = goal' }) ≡ resolved (ok steps)
  planned s id id' goal goal' steps i j f =
      subst
        (λ x.
          plan P V s.is_uuid s.planner (record { task_id = x; goal = goal' }) ≡ resolved (ok steps))
        i
        (subst
          (λ x.
            plan P V s.is_uuid s.planner (record { task_id = id; goal = x }) ≡ resolved (ok steps))
          j f)

  -- If `execute` answers with a completed task, the manager knew the task when `execute` was called,
  -- the planner has given a plan with at least one step for the identifier and the goal of this task,
  -- each step of it has been executed with a result, and the verifier has verified that result.
  -- Whatever the rest of the runtime does at the awaits, and whether or not there is a persistence.
  pub execute-completed :
      (s : Services P V) (c after : Coordinator P V) (task_id : String) (r : Task P V)
      → execute s c task_id ≡ (after, answered (ok r))
      → r.state ≡ completed
      → (t : Task P V) × (steps : List (ExecutionStep P V)) × (TaskManager.get c.tasks task_id
          ≡ ok t)
        × (plan P V s.is_uuid s.planner (record { task_id = t.task_id; goal = t.goal })
            ≡ resolved (ok steps))
        × (steps ≢ [])
        × All (IsVerified s) steps
  unfolding execute
  execute-completed s c after task_id r e h =
      let (x, t, y, z) = and_then-ok (c, answered (TaskManager.get c.tasks task_id)) _ after r e in
      let (x2, t2, y2, z2) = and_then-ok (transition s x task_id planning none) _ after r z in
      let (a, b) = answered-inj c x (TaskManager.get c.tasks task_id) t y in
      let (i, j) =
        transition-same s x x2 task_id planning none t t2
          (subst (λ w. TaskManager.get w.tasks task_id ≡ ok t) a b) y2 in
      let (steps, f, g, k) =
        after_planner-completed s (awaited s x2) after task_id
          (plan P V s.is_uuid s.planner (record { task_id = t2.task_id; goal = t2.goal })) r z2 h in
      (t, steps, b, planned s t2.task_id t.task_id t2.goal t.goal steps i j f, g, k)

-- ===== src/Orchestration/Executor/Locking.antt =====
-- The locks of a step under the executor of services/runtime/src/orchestration.ts.
use nova_test.Common.Map
use nova_test.Common.Map.{Map}
use nova_test.Common.{
  ℕ, ◌+◌, ◌≡◌, refl, ◌≢◌, inl, inr, true, false, String, Option, some, arith, contains, any, List,
  [], ◌∷◌, length, Distinct, Bool-cases, Option-cases,
}
use nova_test.Shared.{Result-cases}
use nova_test.ResourceManager.{
  ResourceManager, HeldLock, QueuedRequest, LockStatus, granted, queued, acquire, release, holder,
  is_request_of, grant_queued, is_free, lock_all, drop_locks,
}
use nova_test.ResourceManager.Locks.{acquire-Answers}
use nova_test.ResourceManager.Granting.{release-Releases}
use nova_test.Orchestration.{ExecutionStep, ToolAction}
use nova_test.Orchestration.Executor.{
  Executor, invoked, begin, begin_action, begin_locked, execute, finish,
}
use mathlib.Core.Path.{subst}
use nova_test.Orchestration.Permission.{authorize, is_read_only}

-- Only tasks with a request in the queue are granted locks by a release.
granted-queued :
    (held : Map HeldLock) (queue : List QueuedRequest) (clock : ℕ → ℕ) (task : String)
    → any (is_request_of task) queue ≡ false
    → contains (grant_queued held queue clock).2 task ≡ false
unfolding grant_queued contains
granted-queued held [] clock task h = refl
granted-queued held (q ∷ qs) clock task h = elim (Bool-cases (is_free held q.resources)) [
  | inl free ↦ rw free (
      ground (
        arith,
        granted-queued (lock_all held q.task_id q.resources clock) qs
            (λ i. clock (length q.resources + i)) task,
      ))
  | inr busy ↦ rw busy (granted-queued held qs clock task (ground arith))
]

release-none :
    (m : ResourceManager) (task : String) (clock : ℕ → ℕ) (r : String)
    → Distinct (Map.keys m.held)
    → any (is_request_of task) m.queued ≡ false
    → holder (release m task clock).0 r ≢ some task
unfolding release
release-none m task clock r d h e = elim ((release-Releases m task clock d).origin r task e) [
  | inl (_, n) ↦ n refl
  | inr c ↦ absurd (ground (arith, granted-queued (drop_locks m.held task) m.queued clock task h))
]

module _ (P V : Type 0) where
  -- The locks of a step whose action runs: taken on the manager's answer to `acquire`.
  pub record Locked (m : ResourceManager) (step : ExecutionStep P V) (clock : ℕ → ℕ)
      (after : Option ResourceManager) : Type 0 where
    pub answer : (acquire m step.task_id step.required_locks clock).1.status ≡ granted
    pub manager : after ≡ some (acquire m step.task_id step.required_locks clock).0

  begin_locked-Locked :
      (m : ResourceManager) (step : ExecutionStep P V) (action a : ToolAction P V)
      (status : LockStatus)
      → (begin_locked P V step action m status).1 ≡ invoked a true
      → (status ≡ granted) × ((begin_locked P V step action m status).0 ≡ some m)
  begin_locked-Locked m step action a granted h = (refl, refl)
  begin_locked-Locked m step action a queued h = absurd (ground arith)

  begin_action-Locked :
      (m : ResourceManager) (step : ExecutionStep P V) (action a : ToolAction P V) (clock : ℕ → ℕ)
      → (begin_action P V (some m) step action clock).1 ≡ invoked a true
      → Locked m step clock (begin_action P V (some m) step action clock).0
  unfolding begin_action
  begin_action-Locked m step action a clock h = elim (Bool-cases (is_read_only action.risk_tier)) [
    | inl reads ↦ absurd (ground arith)
    | inr writes ↦
        let g =
          begin_locked-Locked (acquire m step.task_id step.required_locks clock).0 step action a
            (acquire m step.task_id step.required_locks clock).1.status (ground arith) in
        rw writes (record { answer = g.0; manager = g.1 })
  ]

  begin-Locked :
      (x : Executor P V) (m : ResourceManager) (step : ExecutionStep P V) (clock : ℕ → ℕ)
      (a : ToolAction P V)
      → (begin P V x (some m) step clock).1 ≡ invoked a true
      → Locked m step clock (begin P V x (some m) step clock).0
  unfolding begin
  begin-Locked x m step clock a h = elim (Option-cases (Map.get x.tools step.resolved_tool_id)) [
    | inl e ↦ absurd (ground arith)
    | inr (tool, e) ↦ elim (Result-cases (authorize P V x.permissions step tool)) [
      | inr (e', r) ↦ absurd (ground arith)
      | inl (al, r) ↦ elim (Option-cases (Map.get tool.actions step.action_id)) [
        | inl e' ↦ absurd (ground arith)
        | inr (action, e') ↦
            let g = begin_action-Locked m step action a clock (ground arith) in
            record { answer = g.answer; manager = ground (arith, g.manager) }
      ]
    ]
  ]

  -- While the action runs, the task holds the locks of the step, and none was taken from another.
  pub record Holds (m : ResourceManager) (step : ExecutionStep P V) (after : Option ResourceManager)
      : Type 0 where
    pub manager : ResourceManager
    pub is : after ≡ some manager
    pub holds :
        (r : String) → contains step.required_locks r ≡ true → holder manager r ≡ some step.task_id
    pub fair :
        (r u : String)
        → contains step.required_locks r ≡ true
        → holder m r ≡ some u
        → u ≡ step.task_id

  -- When the executor invokes an action with locks, the task holds every lock that the step
  -- requires, and no other task held one of them.
  pub begin-Holds :
      (x : Executor P V) (m : ResourceManager) (step : ExecutionStep P V) (clock : ℕ → ℕ)
      (action : ToolAction P V)
      → (begin P V x (some m) step clock).1 ≡ invoked action true
      → Holds m step (begin P V x (some m) step clock).0
  begin-Holds x m step clock action h =
      let locked = begin-Locked x m step clock action h in
      let answers = acquire-Answers m step.task_id step.required_locks clock in
      record {
        manager = (acquire m step.task_id step.required_locks clock).0;
        is = locked.manager;
        holds = λ r c. ground (arith, answers.grants locked.answer r);
        fair = λ r u c f. answers.safe locked.answer r u c f;
      }

  -- After an invocation with locks the task holds no lock at all, provided that it has no request
  -- in the queue when the action settles.
  pub execute-none :
      (x : Executor P V) (m : ResourceManager) (step : ExecutionStep P V) (clock later : ℕ → ℕ)
      (meanwhile : ResourceManager → ResourceManager) (action : ToolAction P V)
      (n : ResourceManager) (r : String)
      → (begin P V x (some m) step clock).1 ≡ invoked action true
      → Distinct (Map.keys (meanwhile (acquire m step.task_id step.required_locks clock).0).held)
      → any
          (is_request_of step.task_id)
          (meanwhile (acquire m step.task_id step.required_locks clock).0).queued
        ≡ false
      → (execute P V x (some m) step clock meanwhile later).0 ≡ some n
      → holder n r ≢ some step.task_id
  unfolding execute finish
  execute-none x m step clock later meanwhile action n r h d q e =
      let locked = begin-Locked x m step clock action h in
      let after = meanwhile (acquire m step.task_id step.required_locks clock).0 in
      let same : (release after step.task_id later).0 ≡ n = ground (arith, locked.manager) in
      subst (λ k. holder k r ≢ some step.task_id) same (release-none after step.task_id later r d q)

-- ===== src/Orchestration/Executor.antt =====
-- `Executor` of services/runtime/src/orchestration.ts over the permission check and the locks of
-- services/runtime/src/resource-manager.ts. An invocation is asynchronous: `meanwhile` is what the
-- rest of the runtime does to the locks until the action settles. `acquire` gives no error.
pub mod Safety
pub mod Locking
use nova_test.Common.Map
use nova_test.Common.Map.{Map}
use nova_test.Common.{ℕ, Bool, true, false, String, Option, none, some, if◌then◌else◌, [], ◌∷◌}
use nova_test.Shared.{Result, ok, err, text, nova_tl002, nova_tl003, nova_tl004}
use nova_test.ResourceManager.{ResourceManager, LockStatus, granted, queued, acquire, release}
use nova_test.Orchestration.{
  ExecutionStep, ToolRegistration, ToolAction, RiskTier, read_only, reversible_write,
  destructive_irreversible, ExecutionResult, ActionResult, Settled, resolved, threw_error, threw,
  failure_of,
}
use nova_test.Orchestration.Permission.{PermissionOptions, Allowed, authorize, is_read_only}

module _ (P V : Type 0) where
  pub record Executor : Type 0 where
    pub permissions : PermissionOptions
    pub tools : Map (ToolRegistration P V)

  -- What `execute` does before the action runs: a refusal, or the call of an action, which says
  -- whether locks were taken for it.
  pub data Begun : Type 0 where
    rejected : Result (ExecutionResult P V) → Begun
    invoked : ToolAction P V → Bool → Begun

  unfoldable pub lock_queued : ExecutionStep P V → Result (ExecutionResult P V)
  lock_queued step =
      err
        (record (failure_of nova_tl003 "Required resource locks are currently held by another task."
          true) { details = ("taskId", text step.task_id) ∷ [] })

  abbrev pub begin_locked :
      ExecutionStep P V
      → ToolAction P V
      → ResourceManager
      → LockStatus
      → Option ResourceManager × Begun
  begin_locked step action m queued = (some m, rejected (lock_queued step))
  begin_locked step action m granted = (some m, invoked action true)

  -- From the check of the resources to the call of the action.
  unfoldable pub begin_action :
      Option ResourceManager
      → ExecutionStep P V
      → ToolAction P V
      → (ℕ → ℕ)
      → Option ResourceManager × Begun
  begin_action none step action clock = (none, invoked action false)
  begin_action (some m) step action clock =
      if is_read_only action.risk_tier
      then (some m, invoked action false)
      else begin_locked step action (acquire m step.task_id step.required_locks clock).0
          (acquire m step.task_id step.required_locks clock).1.status

  unfoldable pub begin :
      Executor
      → Option ResourceManager
      → ExecutionStep P V
      → (ℕ → ℕ)
      → Option ResourceManager × Begun
  unfolding begin_action
  begin x m step clock = elim (Map.get x.tools step.resolved_tool_id) [
    | none ↦ (m, rejected (err (failure_of nova_tl004 "Requested tool is unavailable." false)))
    | some tool ↦ elim (authorize P V x.permissions step tool) [
      | err e ↦ (m, rejected (err e))
      | ok _ ↦ elim (Map.get tool.actions step.action_id) [
        | none ↦ (
          m,
          rejected (err (failure_of nova_tl004 "Requested tool action is unavailable." false)),
        )
        | some action ↦ begin_action m step action clock
      ]
    ]
  ]

  unfoldable pub settle :
      ExecutionStep P V → ToolAction P V → Settled P V → Result (ExecutionResult P V)
  settle step action (resolved r) = ok (record {
    step_id = step.step_id;
    status = r.status;
    evidence = r.evidence;
    affected_resources = r.affected_resources;
    error = r.error;
  })
  settle step action (threw_error message) = err (failure_of nova_tl002 message action.idempotent)
  settle step action threw = err (failure_of nova_tl002 "Tool invocation failed." action.idempotent)

  -- The `finally` of `execute`.
  abbrev pub finally : Bool → ResourceManager → String → (ℕ → ℕ) → ResourceManager
  finally true m task clock = (release m task clock).0
  finally false m task clock = m

  unfoldable pub finish :
      ExecutionStep P V
      → Option ResourceManager × Begun
      → (ResourceManager → ResourceManager)
      → (ℕ → ℕ)
      → Option ResourceManager × Result (ExecutionResult P V)
  unfolding settle
  finish step (m, rejected r) meanwhile clock = (m, r)
  finish step (none, invoked action locked) meanwhile clock =
      (none, settle step action (action.execute step.parameters))
  finish step (some m, invoked action locked) meanwhile clock = (
    some (finally locked (meanwhile m) step.task_id clock),
    settle step action (action.execute step.parameters),
  )

  -- `clock` times the locks of the step, `later` those granted by its release.
  unfoldable pub execute :
      Executor
      → Option ResourceManager
      → ExecutionStep P V
      → (ℕ → ℕ)
      → (ResourceManager → ResourceManager)
      → (ℕ → ℕ)
      → Option ResourceManager × Result (ExecutionResult P V)
  unfolding begin finish
  execute x m step clock meanwhile later = finish step (begin x m step clock) meanwhile later

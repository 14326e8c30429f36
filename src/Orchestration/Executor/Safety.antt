-- ===== src/Orchestration/Executor/Safety.antt =====
-- Which actions the executor of services/runtime/src/orchestration.ts runs.
use nova_test.Common.Map
use nova_test.Common.{
  ℕ, ◌≡◌, inl, inr, ◌∙◌, ap, Bool, true, String, Option, none, some, arith, contains, In, All-In,
  List, Option-cases,
}
use mathlib.Core.Path.{subst}
use nova_test.Shared.{Result-cases, ok}
use nova_test.ResourceManager.{ResourceManager, LockStatus, granted, queued, acquire}
use nova_test.Orchestration.{ExecutionStep, ToolRegistration, ToolAction, read_only}
use nova_test.Orchestration.Planner.{
  PlannerDependencies, PlanInput, plan, resolved, plan-IsProposed, IsProposed,
}
use nova_test.Orchestration.Permission.{IsPermitted, authorize, authorize-allowed_iff, allowed}
use nova_test.Orchestration.Executor.{Executor, invoked, begin, begin_action, begin_locked}

module _ (P V : Type 0) where
  begin_locked-invokes :
      (m : ResourceManager) (step : ExecutionStep P V) (action a : ToolAction P V)
      (status : LockStatus) (locked : Bool)
      → (begin_locked P V step action m status).1 ≡ invoked a locked
      → action ≡ a
  begin_locked-invokes m step action a granted locked h = cc
  begin_locked-invokes m step action a queued locked h = cc

  begin_action-invokes :
      (m : Option ResourceManager) (step : ExecutionStep P V) (action a : ToolAction P V)
      (clock : ℕ → ℕ) (locked : Bool)
      → (begin_action P V m step action clock).1 ≡ invoked a locked
      → action ≡ a
  unfolding begin_action
  begin_action-invokes none step action a clock locked h = cc
  begin_action-invokes (some m) step action a clock locked h = ground (
    arith,
    begin_locked-invokes (acquire m step.task_id step.required_locks clock).0 step action a
        (acquire m step.task_id step.required_locks clock).1.status locked,
  )

  -- What `begin` checks before it invokes an action.
  pub record Checked (x : Executor P V) (step : ExecutionStep P V) (action : ToolAction P V)
      : Type 0 where
    pub tool : ToolRegistration P V
    pub registered : Map.get x.tools step.resolved_tool_id ≡ some tool
    pub listed : contains x.permissions.allowed_tool_ids tool.tool_id ≡ true
    pub found : Map.get tool.actions step.action_id ≡ some action
    pub permitted : IsPermitted P V x.permissions step action

  -- The executor invokes an action only if it is the action of a registered tool on the allowlist
  -- that the step names, and it either reads only with a verification signal or the step is
  -- approved.
  pub begin-Checked :
      (x : Executor P V) (m : Option ResourceManager) (step : ExecutionStep P V) (clock : ℕ → ℕ)
      (action : ToolAction P V) (locked : Bool)
      → (begin P V x m step clock).1 ≡ invoked action locked
      → Checked x step action
  unfolding begin
  begin-Checked x m step clock action locked h =
      elim (Option-cases (Map.get x.tools step.resolved_tool_id)) [
        | inl e ↦ absurd (ground arith)
        | inr (tool, e) ↦ elim (Result-cases (authorize P V x.permissions step tool)) [
          | inr (e', r) ↦ absurd (ground arith)
          | inl (allowed, r) ↦
              let (listed, a, found, p) = (authorize-allowed_iff P V x.permissions step tool).0 r in
              let same : a ≡ action =
                begin_action-invokes m step a action clock locked (ground arith) in
              record {
                tool = tool;
                registered = e;
                listed = listed;
                found = found ∙ ap some same;
                permitted = subst (IsPermitted P V x.permissions step) same p;
              }
        ]
      ]

  -- An action that a step of a plan invokes before anybody approved the step reads only.
  pub plan-begin :
      (is_uuid : String → Bool) (d : PlannerDependencies P V is_uuid)
      (input : PlanInput P V is_uuid) (steps : List (ExecutionStep P V)) (x : Executor P V)
      (m : Option ResourceManager) (clock : ℕ → ℕ) (step : ExecutionStep P V)
      (action : ToolAction P V) (locked : Bool)
      → plan P V is_uuid d input ≡ resolved (ok steps)
      → In step steps
      → (begin P V x m step clock).1 ≡ invoked action locked
      → action.risk_tier ≡ read_only
  plan-begin is_uuid d input steps x m clock step action locked h i e =
      elim (begin-Checked x m step clock action locked e).permitted [
        | inl (reads, _) ↦ reads
        | inr (confirmed, _) ↦
            let proposed =
              All-In (IsProposed P V is_uuid input) step steps
                (plan-IsProposed P V is_uuid d input steps h) i in
            absurd (proposed.unconfirmed confirmed)
      ]

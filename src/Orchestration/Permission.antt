-- ===== src/Orchestration/Permission.antt =====
-- `PermissionManager` of services/runtime/src/orchestration.ts: which steps may run.
use nova_test.Common.Map
use nova_test.Common.{
  ℕ, ◌<◌, ◌≡◌, refl, ◌≢◌, ◌⊎◌, ◌↔◌, inl, inr, Bool, true, false, ◌&&◌, ◌||◌, not, List, [], ◌∷◌,
  String, none, some, arith, contains, leb, if◌then◌else◌, Bool-cases, Option-cases,
}
use nova_test.Shared.{Result, ok, err, text, nova_sec001, nova_tl004}
use nova_test.Orchestration.{
  ExecutionStep, ToolRegistration, ToolAction, RiskTier, VerificationSignal, ConfirmationStatus,
  approved, read_only, no_signal, failure_of,
}

pub record PermissionOptions : Type 0 where
  pub allowed_tool_ids : List String
  pub confirmation_timeout_ms : ℕ

pub data Allowed : Type 0 where
  allowed : Allowed

abbrev pub is_read_only : RiskTier → Bool
is_read_only read_only = true
is_read_only _ = false

abbrev pub is_signal : VerificationSignal → Bool
is_signal no_signal = false
is_signal _ = true

abbrev pub is_approved : ConfirmationStatus → Bool
is_approved approved = true
is_approved _ = false

read_only_of : (r : RiskTier) → is_read_only r ≡ true → r ≡ read_only
read_only_of read_only h = refl
read_only_of _ h = cc

signal_of : (v : VerificationSignal) → is_signal v ≡ true → v ≢ no_signal
signal_of v h e = ground arith

approved_of : (c : ConfirmationStatus) → is_approved c ≡ true → c ≡ approved
approved_of approved h = refl
approved_of _ h = cc

module _ (P V : Type 0) where
  unfoldable pub authorize_action :
      PermissionOptions → ExecutionStep P V → ToolAction P V → Result Allowed
  authorize_action o step action =
      if is_read_only action.risk_tier && is_signal action.verification_signal
      then ok allowed
      else if not (is_approved step.confirmation_status) || leb o.confirmation_timeout_ms 0
      then err (
          failure_of nova_sec001 "Explicit confirmation is required before this action can execute."
            false)
      else ok allowed

  unfoldable pub authorize :
      PermissionOptions → ExecutionStep P V → ToolRegistration P V → Result Allowed
  unfolding authorize_action
  authorize o step tool =
      if contains o.allowed_tool_ids tool.tool_id
      then elim (Map.get tool.actions step.action_id) [
        | none ↦ err (failure_of nova_tl004 "Requested tool action is unavailable." false)
        | some action ↦ authorize_action o step action
      ]
      else err
          (record (failure_of nova_sec001 "Tool is outside the agent-scoped allowlist." false) {
            details = ("toolId", text tool.tool_id) ∷ [];
          })

  -- The action reads only and its effect can be verified, or the step was approved.
  abbrev pub IsPermitted : PermissionOptions → ExecutionStep P V → ToolAction P V → Type 0
  IsPermitted o step action =
      ((action.risk_tier ≡ read_only) × (action.verification_signal ≢ no_signal))
      ⊎ ((step.confirmation_status ≡ approved) × (0 < o.confirmation_timeout_ms))

  action-IsPermitted :
      (o : PermissionOptions) (step : ExecutionStep P V) (action : ToolAction P V)
      → authorize_action o step action ≡ ok allowed
      → IsPermitted o step action
  unfolding authorize_action
  action-IsPermitted o step action h =
      elim (Bool-cases (is_read_only action.risk_tier && is_signal action.verification_signal)) [
        | inl e ↦ inl (
          read_only_of action.risk_tier (ground arith),
          signal_of action.verification_signal (ground arith),
        )
        | inr e ↦ inr (approved_of step.confirmation_status (ground arith), ground arith)
      ]

  permitted_action :
      (o : PermissionOptions) (step : ExecutionStep P V) (action : ToolAction P V)
      → IsPermitted o step action
      → authorize_action o step action ≡ ok allowed
  unfolding authorize_action
  permitted_action o step action (inl p) = ground arith
  permitted_action o step action (inr p) = ground arith

  -- `authorize` allows a step exactly if its tool is on the allowlist, the tool has the action, and
  -- either the action reads only and has a verification signal or the step is approved and
  -- confirmations have a positive timeout.
  pub authorize-allowed_iff :
      (o : PermissionOptions) (step : ExecutionStep P V) (tool : ToolRegistration P V)
      → (authorize o step tool ≡ ok allowed) ↔ (
          (contains o.allowed_tool_ids tool.tool_id ≡ true)
          × (action : ToolAction P V) × (Map.get tool.actions step.action_id ≡ some action)
          × IsPermitted o step action)
  unfolding authorize
  authorize-allowed_iff o step tool = elim (Option-cases (Map.get tool.actions step.action_id)) [
    | inl e ↦ (λ h. absurd (ground arith), λ (listed, a, found, p). absurd (ground arith))
    | inr (action, e) ↦ (
      λ h. (ground arith, action, e, action-IsPermitted o step action (ground arith)),
      λ (listed, a, found, p). rw (listed, found) (permitted_action o step a p),
    )
  ]

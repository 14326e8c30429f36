-- ===== src/WorkflowEngine/Execution/Runs.antt =====
-- That a run of services/runtime/src/workflow-engine.ts ends, and what it has completed.
use nova_test.Common.{◌≡◌, refl, none, some, ◌⊎◌, inl, inr}
use nova_test.Common.Map
use nova_test.Shared.{Result}
use nova_test.WorkflowEngine.{WorkflowDefinition}
use nova_test.WorkflowEngine.Checkpoints.{WorkflowEngine}
use nova_test.WorkflowEngine.Platform.{Platform}
use nova_test.WorkflowEngine.Turns.{WorkflowResult, Progress, Turn, stuck, returned, went_on}
use nova_test.WorkflowEngine.Execution.{Returned}
use nova_test.WorkflowEngine.Turns.Acts.{Unresolved}
use nova_test.WorkflowEngine.Turns.Soundness.{ResultIsSound}

pub Turn-cases :
    {P V C : Type 0} (t : Turn P V C)
    → ((m : WorkflowEngine P V C) × (t ≡ stuck m))
      ⊎ (((m : WorkflowEngine P V C) × (r : Result WorkflowResult) × (t ≡ returned m r))
          ⊎ ((s : Progress P V C) × (t ≡ went_on s)))
Turn-cases (stuck m) = inl (m, refl)
Turn-cases (returned m r) = inr (inl (m, r, refl))
Turn-cases (went_on s) = inr (inr (s, refl))

module _ {P V C : Type 0} (p : Platform P V C) (d : WorkflowDefinition P V C) where
  -- A sound answer, or none, and then a call has thrown or has not resolved.
  pub data IsAnswer (o : Returned P V C) : Type 0 where
    settled : (r : Result WorkflowResult) → o.1 ≡ some r → ResultIsSound p d r → IsAnswer o
    unsettled : o.1 ≡ none → Unresolved p d → IsAnswer o

-- ===== src/Orchestration/Verifier.antt =====
-- `Verifier` of services/runtime/src/orchestration.ts: the verdict on the result of a step.
use nova_test.Common.{ℕ, ◌≡◌, refl, ◌≢◌, String, arith, false, ap, text_dec}
use nova_test.Shared.{Result, ok, err, nova_tl002}
use nova_test.Orchestration.{
  ExecutionStep, ExecutionResult, ExecutionStatus, VerificationSignal, VerificationVerdict,
  VerificationOutcome, success, failure, partial, no_signal, verified, unverified, failed,
  ground_truth, failure_of, ToolAction, Settled, resolved, threw_error, threw,
}
use nova_test.Orchestration.Executor.{settle}

abbrev pub verdict : String → VerificationOutcome → ℕ → String → VerificationVerdict
verdict step outcome confidence explanation = record {
  step_id = step;
  outcome = outcome;
  confidence = confidence;
  verification_method = ground_truth;
  explanation = explanation;
}

abbrev pub verdict_on : String → ExecutionStatus → VerificationSignal → VerificationVerdict
verdict_on step success no_signal =
    verdict step unverified 0 "No sufficient verification signal was provided."
verdict_on step success _ =
    verdict step verified 1 "Ground-truth evidence confirms the step result."
verdict_on step _ _ =
    verdict step failed 1
      "Ground-truth evidence confirms the step failed or only partially completed."

module _ (P V : Type 0) where
  unfoldable pub verify : ExecutionStep P V → ExecutionResult P V → Result VerificationVerdict
  verify step result = elim (text_dec step.step_id result.step_id) [
    | no _ ↦
        err (failure_of nova_tl002 "Executor result step_id does not match the planned step." false)
    | yes _ ↦ ok (verdict_on step.step_id result.status result.evidence.type)
  ]

  -- The outcome that a status and a signal deserve.
  abbrev pub IsOutcome : ExecutionStatus → VerificationSignal → VerificationOutcome → Type 0
  IsOutcome s v verified = (s ≡ success) × (v ≢ no_signal)
  IsOutcome s v unverified = (s ≡ success) × (v ≡ no_signal)
  IsOutcome s v failed = s ≢ success

  verdict_on-IsOutcome :
      (id : String) (s : ExecutionStatus) (v : VerificationSignal)
      → IsOutcome s v (verdict_on id s v).outcome
  verdict_on-IsOutcome id success no_signal = (refl, refl)
  verdict_on-IsOutcome id success _ = (refl, λ e. cc)
  verdict_on-IsOutcome id failure v = λ e. cc
  verdict_on-IsOutcome id partial v = λ e. cc

  settled_step :
      (step : ExecutionStep P V) (action : ToolAction P V) (outcome : Settled P V)
      (result : ExecutionResult P V)
      → settle P V step action outcome ≡ ok result
      → step.step_id ≡ result.step_id
  unfolding settle
  settled_step step action (resolved r) result h =
      ap (λ o. elim o [ ok q ↦ q.step_id | err _ ↦ step.step_id ]) h
  settled_step step action (threw_error m) result h = absurd (ground arith)
  settled_step step action threw result h = absurd (ground arith)

  -- The result of an invocation always gets a verdict: it is verified exactly for a success with a
  -- signal, unverified for a success without one, and failed for all else.
  pub verify-settle :
      (step : ExecutionStep P V) (action : ToolAction P V) (outcome : Settled P V)
      (result : ExecutionResult P V)
      → settle P V step action outcome ≡ ok result
      → (v : VerificationVerdict) × (verify step result ≡ ok v)
        × IsOutcome result.status result.evidence.type v.outcome
  unfolding verify
  verify-settle step action outcome result h =
      let same = settled_step step action outcome result h in
      (
        verdict_on step.step_id result.status result.evidence.type,
        ground arith,
        verdict_on-IsOutcome step.step_id result.status result.evidence.type,
      )

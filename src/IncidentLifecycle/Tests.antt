-- ===== src/IncidentLifecycle/Tests.antt =====
-- Runs of services/runtime/src/incident-lifecycle.ts, and its theorem at a concrete history.
use nova_test.Common.Map
use nova_test.Common.{ℕ, ◌≡◌, refl, List, [], ◌∷◌, String, map, text_dec}
use nova_test.IncidentLifecycle.{
  IncidentStage-discrete, new, high, detected, triaged, mitigated, timeline, detect, triage,
  mitigate, resolve, last_stage,
}
use nova_test.IncidentLifecycle.Stages
use nova_test.IncidentLifecycle.Stages.{IsOrdered, run-IsOrdered}

program : Unit {0}
unfolding text_dec IncidentStage-discrete Map.get Map.set new detect triage mitigate resolve
    timeline last_stage Stages.run
program = tt

-- The first resolution is refused, since the incident is not mitigated yet.
abbrev calls : List Stages.Call
calls =
    Stages.Call.detects "disk full" 1
    ∷ Stages.Call.triages "inc-1" high 2
    ∷ Stages.Call.resolves "inc-1" "too early" 3
    ∷ Stages.Call.mitigates "inc-1" "freed" 4
    ∷ []

abbrev show : ℕ → String
show n = "1"

stages_run :
    map (λ e. e.stage) (timeline (Stages.run show (new "ops") calls) "inc-1")
    ≡ detected ∷ triaged ∷ mitigated ∷ []
unfolding program
stages_run = refl

run-IsOrdered_example : IsOrdered (Stages.run show (new "ops") calls)
unfolding new
run-IsOrdered_example = run-IsOrdered show (new "ops") calls tt

-- ===== src/IncidentLifecycle/Stages.antt =====
-- The timelines of services/runtime/src/incident-lifecycle.ts follow the stages in order.
use nova_test.Common.Map
use nova_test.Common.{
  ℕ, ◌≡◌, refl, ap, ◌∙◌, inl, inr, List, [], ◌∷◌, ◌++◌, String, Option, some, arith, Option-cases,
  Bool-cases,
}
use mathlib.Core.Path.{subst}
use nova_test.IncidentLifecycle.{
  IncidentManager, IncidentEntry, IncidentStage, IncidentSeverity, detected, triaged, mitigated,
  resolved, postmortem_held, detect, transition, last_stage, is_stage, entry, triage, mitigate,
  resolve, postmortem,
}

pub data Next : IncidentStage → IncidentStage → Type 0 where
  to_triage : Next detected triaged
  to_mitigation : Next triaged mitigated
  to_resolution : Next mitigated resolved
  to_postmortem : Next resolved postmortem_held

-- Timelines that end in the stage: each entry has the stage after that of the entry before it.
pub data Follows : List IncidentEntry → IncidentStage → Type 0 where
  begins : (e : IncidentEntry) → e.stage ≡ detected → Follows (e ∷ []) detected
  advances :
      (es : List IncidentEntry) (s t : IncidentStage) (e : IncidentEntry)
      → Follows es s
      → Next s t
      → e.stage ≡ t
      → Follows (es ++ e ∷ []) t

last_append :
    (es : List IncidentEntry) (e : IncidentEntry) → last_stage (es ++ e ∷ []) ≡ some e.stage
unfolding last_stage
last_append [] e = refl
last_append (x ∷ []) e = refl
last_append (x ∷ y ∷ es) e = last_append (y ∷ es) e

last_stage-Follows :
    (es : List IncidentEntry) (s : IncidentStage) → Follows es s → last_stage es ≡ some s
unfolding last_stage
last_stage-Follows _ s (begins e h) = ap some h
last_stage-Follows _ t (advances es s t' e f n h) = last_append es e ∙ ap some h

abbrev pub IsOrdered : IncidentManager → Type 0
IsOrdered m = Map.All (λ id es. (s : IncidentStage) × Follows es s) m.timelines

-- A step from the last stage of a timeline to the next one keeps all timelines ordered.
transition-IsOrdered :
    (m : IncidentManager) (id : String) (s t : IncidentStage) (detail : String)
    (severity : Option IncidentSeverity) (now : ℕ)
    → Next s t
    → IsOrdered m
    → IsOrdered (transition m id s t detail severity now).0
unfolding transition entry
transition-IsOrdered m id s t detail severity now n h =
    elim (Option-cases (Map.get m.timelines id)) [
      | inl e ↦
          let f : m ≡ (transition m id s t detail severity now).0 = ground arith in
          subst IsOrdered f h
      | inr (es, e) ↦ elim (Bool-cases (is_stage s (last_stage es))) [
        | inr g ↦
            let f : m ≡ (transition m id s t detail severity now).0 = ground arith in
            subst IsOrdered f h
        | inl g ↦
            let (u, follows) =
              Map.get-All (λ id es. (s : IncidentStage) × Follows es s) m.timelines id es h e in
            let same : u ≡ s = ground (arith, last_stage-Follows es u follows) in
            let f : record m {
              timelines = Map.set m.timelines id (es ++ entry m id t detail severity now ∷ []);
            }
                ≡ (transition m id s t detail severity now).0 =
              ground arith in
            subst IsOrdered f (
              Map.set-All (λ id es. (s : IncidentStage) × Follows es s) m.timelines id _ h
                (
                  t,
                  advances es s t (entry m id t detail severity now)
                      (subst (Follows es) same follows) n refl,
                ))
      ]
    ]

pub data Call : Type 0 where
  detects : String → ℕ → Call
  triages : String → IncidentSeverity → ℕ → Call
  mitigates resolves reviews : String → String → ℕ → Call

unfoldable pub step : (ℕ → String) → IncidentManager → Call → IncidentManager
step show m (detects detail now) = (detect show m detail now).0
step show m (triages id severity now) = (triage m id severity now).0
step show m (mitigates id detail now) = (mitigate m id detail now).0
step show m (resolves id detail now) = (resolve m id detail now).0
step show m (reviews id detail now) = (postmortem m id detail now).0

unfoldable pub run : (ℕ → String) → IncidentManager → List Call → IncidentManager
unfolding step
run show m [] = m
run show m (c ∷ cs) = run show (step show m c) cs

step-IsOrdered :
    (show : ℕ → String) (m : IncidentManager) (c : Call) → IsOrdered m → IsOrdered (step show m c)
unfolding step detect entry triage mitigate resolve postmortem
step-IsOrdered show m (detects detail now) h =
    Map.set-All (λ id es. (s : IncidentStage) × Follows es s) m.timelines _ _ h
      (detected, begins _ refl)
step-IsOrdered show m (triages id severity now) h =
    transition-IsOrdered m id detected triaged _ _ now to_triage h
step-IsOrdered show m (mitigates id detail now) h =
    transition-IsOrdered m id triaged mitigated _ _ now to_mitigation h
step-IsOrdered show m (resolves id detail now) h =
    transition-IsOrdered m id mitigated resolved _ _ now to_resolution h
step-IsOrdered show m (reviews id detail now) h =
    transition-IsOrdered m id resolved postmortem_held _ _ now to_postmortem h

-- In every history each timeline begins with a detection, and each later entry has the stage after
-- that of the entry before it.
pub run-IsOrdered :
    (show : ℕ → String) (m : IncidentManager) (cs : List Call)
    → IsOrdered m
    → IsOrdered (run show m cs)
unfolding run
run-IsOrdered show m [] h = h
run-IsOrdered show m (c ∷ cs) h = run-IsOrdered show (step show m c) cs (step-IsOrdered show m c h)

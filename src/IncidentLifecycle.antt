-- ===== src/IncidentLifecycle.antt =====
-- services/runtime/src/incident-lifecycle.ts: incidents and their timelines. The timestamp of an
-- entry and the text of a number are arguments.
pub mod Stages
mod Tests
use nova_test.Common.Map
use nova_test.Common.Map.{Map}
use nova_test.Common.{
  ℕ, suc, ◌+◌, Bool, true, false, List, [], ◌∷◌, ◌++◌, String, Option, none, some, or_else, ◌⊕◌,
  refl, if◌then◌else◌,
}
use mathlib.Core.Logic.{ite}
use nova_test.Shared.{ErrorInfo, Result, ok, err, nova_evt002}

pub data IncidentStage : Type 0 where
  detected triaged mitigated resolved postmortem_held : IncidentStage

unfoldable pub IncidentStage-discrete : Discrete IncidentStage
IncidentStage-discrete detected detected = yes refl
IncidentStage-discrete triaged triaged = yes refl
IncidentStage-discrete mitigated mitigated = yes refl
IncidentStage-discrete resolved resolved = yes refl
IncidentStage-discrete postmortem_held postmortem_held = yes refl
IncidentStage-discrete _ _ = no (λ e. cc)

pub data IncidentSeverity : Type 0 where
  low medium high critical : IncidentSeverity

abbrev pub severity_text : IncidentSeverity → String
severity_text low = "Low"
severity_text medium = "Medium"
severity_text high = "High"
severity_text critical = "Critical"

pub record IncidentEntry : Type 0 where
  pub incident_id : String
  pub stage : IncidentStage
  pub owner : String
  pub timestamp : ℕ
  pub detail : String
  pub severity : Option IncidentSeverity

pub record IncidentManager : Type 0 where
  pub timelines : Map (List IncidentEntry)
  pub next_id : ℕ
  pub owner : String

abbrev pub incident_error : String → ErrorInfo
incident_error message = record {
  code = nova_evt002;
  message = message;
  retryable = false;
  details = [];
}

unfoldable pub new : String → IncidentManager
new owner = record { timelines = []; next_id = 1; owner = owner }

unfoldable pub entry :
    IncidentManager → String → IncidentStage → String → Option IncidentSeverity → ℕ → IncidentEntry
entry m id stage detail severity now = record {
  incident_id = id;
  stage = stage;
  owner = m.owner;
  timestamp = now;
  detail = detail;
  severity = severity;
}

unfoldable pub detect :
    (ℕ → String) → IncidentManager → String → ℕ → IncidentManager × Result IncidentEntry
unfolding entry
detect show m detail now =
    let id = "inc-" ⊕ show m.next_id in
    let e = entry m id detected detail none now in
    (record m { timelines = Map.set m.timelines id (e ∷ []); next_id = m.next_id + 1 }, ok e)

-- `timeline.at(-1)?.stage`
unfoldable pub last_stage : List IncidentEntry → Option IncidentStage
last_stage [] = none
last_stage (e ∷ []) = some e.stage
last_stage (e ∷ f ∷ es) = last_stage (f ∷ es)

abbrev pub is_stage : IncidentStage → Option IncidentStage → Bool
is_stage expected none = false
is_stage expected (some s) = ite (IncidentStage-discrete s expected) true false

unfoldable pub transition :
    IncidentManager
    → String
    → IncidentStage
    → IncidentStage
    → String
    → Option IncidentSeverity
    → ℕ
    → IncidentManager × Result IncidentEntry
unfolding entry last_stage
transition m id expected stage detail severity now = elim (Map.get m.timelines id) [
  | none ↦ (m, err (incident_error "Incident stage transition is invalid."))
  | some timeline ↦
      if is_stage expected (last_stage timeline)
      then (
        record m {
          timelines =
              Map.set m.timelines id (timeline ++ entry m id stage detail severity now ∷ []);
        },
        ok (entry m id stage detail severity now),
      )
      else (m, err (incident_error "Incident stage transition is invalid."))
]

unfoldable pub triage :
    IncidentManager → String → IncidentSeverity → ℕ → IncidentManager × Result IncidentEntry
unfolding transition
triage m id severity now =
    transition m id detected triaged ("severity:" ⊕ severity_text severity) (some severity) now

unfoldable pub mitigate :
    IncidentManager → String → String → ℕ → IncidentManager × Result IncidentEntry
unfolding transition
mitigate m id detail now = transition m id triaged mitigated detail none now

unfoldable pub resolve :
    IncidentManager → String → String → ℕ → IncidentManager × Result IncidentEntry
unfolding transition
resolve m id detail now = transition m id mitigated resolved detail none now

unfoldable pub postmortem :
    IncidentManager → String → String → ℕ → IncidentManager × Result IncidentEntry
unfolding transition
postmortem m id detail now = transition m id resolved postmortem_held detail none now

unfoldable pub timeline : IncidentManager → String → List IncidentEntry
timeline m id = or_else (Map.get m.timelines id) []

-- ===== src/Shared/Lifecycle.antt =====
-- packages/shared/src/service-lifecycle.ts: the state machine of a service.
use nova_test.Common.{
  false, List, [], ◌∷◌, String, ◌≡◌, ◌⊎◌, ◌↔◌, arith, includes, ◌⊕◌, if◌then◌else◌,
}
use nova_test.Shared.{ErrorInfo, Result, ok, err, nova_evt001, text}

pub data ServiceState : Type 0 where
  created initializing healthy degraded restarting stopping stopped failed : ServiceState

unfoldable pub ServiceState-discrete : Discrete ServiceState
ServiceState-discrete = hlevel

unfoldable pub state_name : ServiceState → String
state_name created = "Created"
state_name initializing = "Initializing"
state_name healthy = "Healthy"
state_name degraded = "Degraded"
state_name restarting = "Restarting"
state_name stopping = "Stopping"
state_name stopped = "Stopped"
state_name failed = "Failed"

unfoldable pub transitions : ServiceState → List ServiceState
transitions created = initializing ∷ []
transitions initializing = healthy ∷ failed ∷ []
transitions healthy = degraded ∷ stopping ∷ []
transitions degraded = healthy ∷ stopping ∷ restarting ∷ []
transitions restarting = initializing ∷ failed ∷ []
transitions stopping = stopped ∷ []
transitions stopped = []
transitions failed = restarting ∷ []

pub illegal : ServiceState → ServiceState → ErrorInfo
illegal from to = record {
  code = nova_evt001;
  message = "Illegal lifecycle transition: " ⊕ state_name from ⊕ " -> " ⊕ state_name to ⊕ ".";
  retryable = false;
  details = ("from", text (state_name from)) ∷ ("to", text (state_name to)) ∷ [];
}

-- The machine is its current state.
unfoldable pub transition : ServiceState → ServiceState → ServiceState × Result ServiceState
unfolding transitions includes ServiceState-discrete
transition current next =
    if includes ServiceState-discrete (transitions current) next
    then (next, ok next)
    else (current, err (illegal current next))

-- A sequence of requests, refused ones included.
unfoldable pub run : ServiceState → List ServiceState → ServiceState
run s [] = s
run s (t ∷ ts) = run (transition s t).0 ts

abbrev pub IsClosing : ServiceState → Type 0
IsClosing s = (s ≡ stopping) ⊎ (s ≡ stopped)

transition-IsClosing : (s t : ServiceState) → IsClosing s → IsClosing (transition s t).0
unfolding transition
transition-IsClosing s t h = ground arith

run-IsClosing : (s : ServiceState) (ts : List ServiceState) → IsClosing s → IsClosing (run s ts)
unfolding run
run-IsClosing s [] h = h
run-IsClosing s (t ∷ ts) h = run-IsClosing (transition s t).0 ts (transition-IsClosing s t h)

recovery : ServiceState → List ServiceState
recovery created = initializing ∷ healthy ∷ []
recovery initializing = healthy ∷ []
recovery degraded = healthy ∷ []
recovery restarting = initializing ∷ healthy ∷ []
recovery failed = restarting ∷ initializing ∷ healthy ∷ []
recovery _ = []

run-recovery : (s : ServiceState) → ¬ IsClosing s → run s (recovery s) ≡ healthy
unfolding run recovery transition
run-recovery s h = ground arith

-- Some sequence of requests brings a service to Healthy exactly if it is neither Stopping nor
-- Stopped.
pub recoverable_iff :
    (s : ServiceState) → ((ts : List ServiceState) × (run s ts ≡ healthy)) ↔ (¬ IsClosing s)
recoverable_iff s =
    (λ p c. ground (arith, run-IsClosing s p.0 c), λ h. (recovery s, run-recovery s h))

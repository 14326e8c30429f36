-- ===== src/SessionContinuity.antt =====
-- services/runtime/src/session-continuity.ts: the presence and capabilities of devices, and the
-- sessions that run on them. The readings of the clock are arguments. `A` is what a remote
-- execution gives, `none` for a rejection; `meanwhile` is what happens until it settles.
pub mod Anchors
mod Tests
use nova_test.Common.Map
use nova_test.Common.Map.{Map}
use nova_test.Common.{
  ℕ, ◌+◌, suc, Bool, true, false, List, [], ◌∷◌, String, Option, none, some, ltb, if◌then◌else◌,
  or_else, map, ◌⊕◌, text_dec,
}
use mathlib.Core.Logic.{ite}
use nova_test.Shared.{ErrorInfo, Result, ok, err, nova_sec001, nova_evt001}

pub data PresenceState : Type 0 where
  online idle busy sleeping offline syncing updating : PresenceState

pub data CapabilityStatus : Type 0 where
  supported not_supported permission_denied degraded : CapabilityStatus

abbrev pub status_text : CapabilityStatus → String
status_text supported = "Supported"
status_text not_supported = "Not supported"
status_text permission_denied = "Permission denied"
status_text degraded = "Degraded"

pub record DeviceCapability : Type 0 where
  pub capability_id : String
  pub status : CapabilityStatus

-- A capability of `registerDevice`: a text, or one with a status.
pub data CapabilityInput : Type 0 where
  named : String → CapabilityInput
  rated : DeviceCapability → CapabilityInput

pub record SessionState : Type 0 where
  pub session_id : String
  pub active_device_id : String

pub record DeviceSnapshot : Type 0 where
  pub device_id : String
  pub presence : PresenceState
  pub capabilities : List DeviceCapability

pub record DeviceState : Type 0 where
  pub device_id : String
  pub presence : PresenceState
  pub last_heartbeat : ℕ
  pub capabilities : Map CapabilityStatus

pub record SessionContinuityManager : Type 0 where
  pub devices : Map DeviceState
  pub sessions : Map SessionState
  pub heartbeat_interval_ms : ℕ

abbrev pub error : String → ErrorInfo
error message = record { code = nova_sec001; message = message; retryable = false; details = [] }

pub data Done : Type 0 where
  done : Done

unfoldable pub new : Option ℕ → SessionContinuityManager
new interval = record {
  devices = [];
  sessions = [];
  heartbeat_interval_ms = or_else interval 30000;
}

unfoldable pub capability_map : Map CapabilityStatus → List CapabilityInput → Map CapabilityStatus
capability_map m [] = m
capability_map m (named c ∷ cs) = capability_map (Map.set m c supported) cs
capability_map m (rated c ∷ cs) = capability_map (Map.set m c.capability_id c.status) cs

unfoldable pub register_device :
    SessionContinuityManager → String → List CapabilityInput → ℕ → SessionContinuityManager
unfolding capability_map
register_device m id capabilities now = record m {
  devices = Map.set m.devices id (record {
    device_id = id;
    presence = online;
    last_heartbeat = now;
    capabilities = capability_map [] capabilities;
  });
}

unfoldable pub drop_sessions : Map SessionState → String → Map SessionState
drop_sessions [] id = []
drop_sessions ((s, x) ∷ rest) id =
    ite (text_dec x.active_device_id id) (drop_sessions rest id) ((s, x) ∷ drop_sessions rest id)

unfoldable pub unregister_device : SessionContinuityManager → String → SessionContinuityManager
unfolding drop_sessions
unregister_device m id = record m {
  devices = Map.delete m.devices id;
  sessions = drop_sessions m.sessions id;
}

unfoldable pub heartbeat :
    SessionContinuityManager → String → PresenceState → ℕ → SessionContinuityManager × Result Done
heartbeat m id presence now = elim (Map.get m.devices id) [
  | none ↦ (m, err (error "Device is not registered."))
  | some d ↦ (
    record m {
      devices = Map.set m.devices id (record d { presence = presence; last_heartbeat = now });
    },
    ok done,
  )
]

unfoldable pub presence : SessionContinuityManager → String → ℕ → PresenceState
presence m id now = elim (Map.get m.devices id) [
  | none ↦ offline
  | some d ↦ if ltb (d.last_heartbeat + m.heartbeat_interval_ms) now then offline else d.presence
]

-- `listDevices` over the devices given; `clock i` is its reading for the device `i`.
unfoldable pub list_from :
    SessionContinuityManager → List DeviceState → (ℕ → ℕ) → List DeviceSnapshot
unfolding presence
list_from m [] clock = []
list_from m (d ∷ ds) clock =
    record {
      device_id = d.device_id;
      presence = presence m d.device_id (clock 0);
      capabilities = map (λ e. record { capability_id = e.0; status = e.1 }) d.capabilities;
    }
    ∷ list_from m ds (λ i. clock (suc i))

unfoldable pub list_devices : SessionContinuityManager → (ℕ → ℕ) → List DeviceSnapshot
unfolding list_from
list_devices m clock = list_from m (Map.values m.devices) clock

abbrev pub is_offline : PresenceState → Bool
is_offline offline = true
is_offline _ = false

unfoldable pub receive_message :
    SessionContinuityManager → String → String → ℕ → SessionContinuityManager × Result SessionState
unfolding presence
receive_message m session id now =
    if Map.has m.devices id
    then if is_offline (presence m id now) then (m, err (error "Device is offline.")) else (
      record m {
        sessions =
            Map.set m.sessions session (record { session_id = session; active_device_id = id });
      },
      ok (record { session_id = session; active_device_id = id }),
    )
    else (m, err (error "Device is not registered."))

-- The status of the answer of `negotiate`; its identifiers are the arguments.
unfoldable pub negotiate : SessionContinuityManager → String → String → ℕ → Result CapabilityStatus
unfolding presence
negotiate m id capability now = elim (Map.get m.devices id) [
  | none ↦ err (error "Device is not registered.")
  | some d ↦
      if is_offline (presence m id now)
      then ok not_supported
      else ok (or_else (Map.get d.capabilities capability) not_supported)
]

unfoldable pub update_capability :
    SessionContinuityManager → String → DeviceCapability → SessionContinuityManager × Result Done
update_capability m id c = elim (Map.get m.devices id) [
  | none ↦ (m, err (error "Device is not registered."))
  | some d ↦ (
    record m {
      devices =
          Map.set m.devices id
            (record d { capabilities = Map.set d.capabilities c.capability_id c.status });
    },
    ok done,
  )
]

abbrev pub is_supported : CapabilityStatus → Bool
is_supported supported = true
is_supported _ = false

-- The manager afterwards, whether the execution was called, and the result.
unfoldable pub remote_execute :
    {A : Type 0}
    → (SessionContinuityManager → SessionContinuityManager)
    → Option A
    → SessionContinuityManager
    → String
    → String
    → ℕ
    → SessionContinuityManager × Bool × Result A
unfolding negotiate update_capability
remote_execute meanwhile outcome m id capability now = elim (negotiate m id capability now) [
  | err e ↦ (m, false, err e)
  | ok status ↦
      if is_supported status
      then elim outcome [
        | some a ↦ (meanwhile m, true, ok a)
        | none ↦ (
          (update_capability (meanwhile m) id
              (record { capability_id = capability; status = degraded })).0,
          true,
          err (record {
            code = nova_evt001;
            message = "Remote execution failed after capability re-validation.";
            retryable = true;
            details = [];
          }),
        )
      ]
      else (m, false, err (error ("Remote capability is " ⊕ status_text status ⊕ ".")))
]

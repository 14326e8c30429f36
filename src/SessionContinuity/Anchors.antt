-- ===== src/SessionContinuity/Anchors.antt =====
-- What the devices and sessions of services/runtime/src/session-continuity.ts keep.
use nova_test.Common.Map
use nova_test.Common.Map.{Map}
use nova_test.Common.{
  ℕ, ◌≡◌, refl, ap, ◌∙◌, inl, inr, true, false, List, [], ◌∷◌, String, Option, some, arith,
  text_dec, Option-cases, Bool-cases,
}
use mathlib.Core.Logic.{if_pos, if_neg}
use mathlib.Core.Path.{subst}
use nova_test.Shared.{Result-cases, ok}
use nova_test.SessionContinuity.{
  SessionContinuityManager, SessionState, DeviceState, DeviceCapability, CapabilityInput,
  PresenceState, CapabilityStatus, supported, register_device, unregister_device, drop_sessions,
  heartbeat, presence, receive_message, negotiate, update_capability, remote_execute, is_offline,
  is_supported,
}

pub data Call : Type 0 where
  registers : String → List CapabilityInput → ℕ → Call
  unregisters : String → Call
  beats : String → PresenceState → ℕ → Call
  receives : String → String → ℕ → Call
  updates : String → DeviceCapability → Call

unfoldable pub step : SessionContinuityManager → Call → SessionContinuityManager
step m (registers id cs now) = register_device m id cs now
step m (unregisters id) = unregister_device m id
step m (beats id p now) = (heartbeat m id p now).0
step m (receives session id now) = (receive_message m session id now).0
step m (updates id c) = (update_capability m id c).0

unfoldable pub run : SessionContinuityManager → List Call → SessionContinuityManager
unfolding step
run m [] = m
run m (c ∷ cs) = run (step m c) cs

-- Every session is on a registered device.
abbrev pub Anchored : Map DeviceState → Map SessionState → Type 0
Anchored devices = Map.All (λ s x. Map.has devices x.active_device_id ≡ true)

set-Anchored :
    (devices : Map DeviceState) (sessions : Map SessionState) (id : String) (d : DeviceState)
    → Anchored devices sessions
    → Anchored (Map.set devices id d) sessions
set-Anchored devices [] id d h = tt
set-Anchored devices ((s, x) ∷ rest) id d h = (
  ground (arith, h.0, Map.get-set devices id d x.active_device_id),
  set-Anchored devices rest id d h.1,
)

drop-Anchored :
    (devices : Map DeviceState) (sessions : Map SessionState) (id : String)
    → Anchored devices sessions
    → Anchored (Map.delete devices id) (drop_sessions sessions id)
unfolding drop_sessions
drop-Anchored devices [] id h = tt
drop-Anchored devices ((s, x) ∷ rest) id h = elim (text_dec x.active_device_id id) [
  | yes e ↦ rw (if_pos _ e) (drop-Anchored devices rest id h.1)
  | no n ↦ rw (if_neg _ n) (
    ground (arith, h.0, Map.get-delete devices id x.active_device_id),
    drop-Anchored devices rest id h.1,
  )
]

abbrev pub IsAnchored : SessionContinuityManager → Type 0
IsAnchored m = Anchored m.devices m.sessions

heartbeat-IsAnchored :
    (m : SessionContinuityManager) (id : String) (p : PresenceState) (now : ℕ)
    → IsAnchored m
    → IsAnchored (heartbeat m id p now).0
unfolding heartbeat
heartbeat-IsAnchored m id p now h = elim (Option-cases (Map.get m.devices id)) [
  | inl e ↦ let f : m ≡ (heartbeat m id p now).0 = ground arith in subst IsAnchored f h
  | inr (d, e) ↦
      let n : SessionContinuityManager = record m {
        devices = Map.set m.devices id (record d { presence = p; last_heartbeat = now });
      } in
      let f : n ≡ (heartbeat m id p now).0 = ground arith in
      subst IsAnchored f (set-Anchored m.devices m.sessions id _ h)
]

update_capability-IsAnchored :
    (m : SessionContinuityManager) (id : String) (c : DeviceCapability)
    → IsAnchored m
    → IsAnchored (update_capability m id c).0
unfolding update_capability
update_capability-IsAnchored m id c h = elim (Option-cases (Map.get m.devices id)) [
  | inl e ↦ let f : m ≡ (update_capability m id c).0 = ground arith in subst IsAnchored f h
  | inr (d, e) ↦
      let n : SessionContinuityManager = record m {
        devices =
            Map.set m.devices id
              (record d { capabilities = Map.set d.capabilities c.capability_id c.status });
      } in
      let f : n ≡ (update_capability m id c).0 = ground arith in
      subst IsAnchored f (set-Anchored m.devices m.sessions id _ h)
]

receive_message-IsAnchored :
    (m : SessionContinuityManager) (session id : String) (now : ℕ)
    → IsAnchored m
    → IsAnchored (receive_message m session id now).0
unfolding receive_message
receive_message-IsAnchored m session id now h = elim (Bool-cases (Map.has m.devices id)) [
  | inr e ↦ let f : m ≡ (receive_message m session id now).0 = ground arith in subst IsAnchored f h
  | inl e ↦ elim (Bool-cases (is_offline (presence m id now))) [
    | inl g ↦
        let f : m ≡ (receive_message m session id now).0 = ground arith in subst IsAnchored f h
    | inr g ↦
        let x : SessionState = record { session_id = session; active_device_id = id } in
        let f : record m { sessions = Map.set m.sessions session x }
            ≡ (receive_message m session id now).0 =
          ground arith in
        subst IsAnchored f (
          Map.set-All (λ s y. Map.has m.devices y.active_device_id ≡ true) m.sessions session x h e)
  ]
]

step-IsAnchored : (m : SessionContinuityManager) (c : Call) → IsAnchored m → IsAnchored (step m c)
unfolding step register_device unregister_device
step-IsAnchored m (registers id cs now) h = set-Anchored m.devices m.sessions id _ h
step-IsAnchored m (unregisters id) h = drop-Anchored m.devices m.sessions id h
step-IsAnchored m (beats id p now) h = heartbeat-IsAnchored m id p now h
step-IsAnchored m (receives session id now) h = receive_message-IsAnchored m session id now h
step-IsAnchored m (updates id c) h = update_capability-IsAnchored m id c h

-- In every history each session is on a device that is registered.
pub run-IsAnchored :
    (m : SessionContinuityManager) (cs : List Call) → IsAnchored m → IsAnchored (run m cs)
unfolding run
run-IsAnchored m [] h = h
run-IsAnchored m (c ∷ cs) h = run-IsAnchored (step m c) cs (step-IsAnchored m c h)

supported_of : (s : CapabilityStatus) → is_supported s ≡ true → s ≡ supported
supported_of supported h = refl
supported_of _ h = cc

executed :
    {A : Type 0} (meanwhile : SessionContinuityManager → SessionContinuityManager)
    (outcome : Option A) (m : SessionContinuityManager) (id capability : String) (now : ℕ)
    → (remote_execute meanwhile outcome m id capability now).1 ≡ true
    → negotiate m id capability now ≡ ok supported
unfolding remote_execute
executed meanwhile outcome m id capability now h =
    elim (Result-cases (negotiate m id capability now)) [
      | inr (e, f) ↦ absurd (ground arith)
      | inl (status, f) ↦ elim (Bool-cases (is_supported status)) [
        | inr g ↦ absurd (ground arith)
        | inl g ↦ f ∙ ap ok (supported_of status g)
      ]
    ]

-- A remote execution is called only on a device that is registered, not offline, and supports the
-- capability.
pub remote_execute-supported :
    {A : Type 0} (meanwhile : SessionContinuityManager → SessionContinuityManager)
    (outcome : Option A) (m : SessionContinuityManager) (id capability : String) (now : ℕ)
    → (remote_execute meanwhile outcome m id capability now).1 ≡ true
    → (d : DeviceState) × (Map.get m.devices id ≡ some d)
      × (is_offline (presence m id now) ≡ false)
      × (Map.get d.capabilities capability ≡ some supported)
unfolding negotiate
remote_execute-supported meanwhile outcome m id capability now h =
    let agreed = executed meanwhile outcome m id capability now h in
    elim (Option-cases (Map.get m.devices id)) [
      | inl e ↦ absurd (ground arith)
      | inr (d, e) ↦ elim (Bool-cases (is_offline (presence m id now))) [
        | inl f ↦ absurd (ground arith)
        | inr f ↦ elim (Option-cases (Map.get d.capabilities capability)) [
          | inl g ↦ absurd (ground arith)
          | inr (s, g) ↦ (d, e, f, ground arith)
        ]
      ]
    ]

-- ===== src/SessionContinuity/Tests.antt =====
-- Runs of services/runtime/src/session-continuity.ts, and its theorems at concrete devices.
use nova_test.Common.Map
use nova_test.Common.{ℕ, ◌≡◌, refl, List, [], ◌∷◌, none, text_dec}
use nova_test.Shared.{ok}
use nova_test.SessionContinuity.{
  SessionContinuityManager, DeviceState, named, new, online, supported, negotiate, degraded,
  presence, remote_execute, register_device, receive_message, unregister_device,
}
use nova_test.SessionContinuity.Anchors
use nova_test.SessionContinuity.Anchors.{IsAnchored, run-IsAnchored, remote_execute-supported}

program : Unit {0}
unfolding text_dec Map.get Map.set Map.delete new register_device receive_message unregister_device
    presence remote_execute Anchors.run
program = tt

abbrev calls : List Anchors.Call
calls =
    Anchors.Call.registers "phone" (named "camera" ∷ []) 10
    ∷ Anchors.Call.receives "s1" "phone" 20
    ∷ []

abbrev phone : DeviceState
phone = record {
  device_id = "phone";
  presence = online;
  last_heartbeat = 10;
  capabilities = ("camera", supported) ∷ [];
}

abbrev paired : SessionContinuityManager
paired = record {
  devices = ("phone", phone) ∷ [];
  sessions = ("s1", record { session_id = "s1"; active_device_id = "phone" }) ∷ [];
  heartbeat_interval_ms = 30000;
}

paired_run : Anchors.run (new none) calls ≡ paired
unfolding program
paired_run = refl

run-IsAnchored_example : IsAnchored (Anchors.run (new none) calls)
unfolding new
run-IsAnchored_example = run-IsAnchored (new none) calls tt

-- A capability whose execution was rejected is refused the next time.
degraded_run :
    negotiate
      (remote_execute {A = ℕ} (λ m. m) none paired "phone" "camera" 20).0
      "phone"
      "camera"
      21
    ≡ ok degraded
unfolding program
degraded_run = refl

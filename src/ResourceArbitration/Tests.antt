-- ===== src/ResourceArbitration/Tests.antt =====
-- Runs of services/runtime/src/resource-arbitration.ts, and its theorems at concrete requests.
use nova_test.Common.Map
use nova_test.Common.{◌≡◌, refl, List, [], ◌∷◌, Option, none, some, true, false, text_dec}
use mathlib.Core.Logic.{ite}
use nova_test.ResourceArbitration.{
  ResourceArbitrator, ResourceRequest, local, remote, acquire, release, OfflineAction,
  OfflineActionResult, OfflineActionQueue, completed, retry, reconnect,
}
use nova_test.ResourceArbitration.Queues
use nova_test.ResourceArbitration.Queues.{IsFair, run-IsFair, reconnect_loses}

program : Unit {0}
unfolding text_dec Map.get Map.set Map.delete acquire release retry reconnect Queues.run
program = tt

abbrev initial : ResourceArbitrator
initial = record { held = []; queues = [] }

abbrev desk : ResourceRequest
desk = record { request_id = "desk"; origin = local; explicit_remote_override = false }

abbrev phone : ResourceRequest
phone = record { request_id = "phone"; origin = remote; explicit_remote_override = true }

abbrev tablet : ResourceRequest
tablet = record phone { request_id = "tablet"; explicit_remote_override = false }

abbrev calls : List Queues.Call
calls =
    Queues.Call.acquires "mic" desk
    ∷ Queues.Call.acquires "mic" tablet
    ∷ Queues.Call.acquires "mic" phone
    ∷ Queues.Call.releases "mic" "phone"
    ∷ []

-- The override of the phone takes the microphone from the desk; the tablet is next.
override_run : Map.get (Queues.run initial calls).held "mic" ≡ some tablet
unfolding program
override_run = refl

initial-IsFair : IsFair initial
unfolding Map.get
initial-IsFair r e = refl

run-IsFair_example : IsFair (Queues.run initial calls)
run-IsFair_example = run-IsFair initial calls initial-IsFair

abbrev send : OfflineAction
send = record { action_id = "send"; description = "mail" }

abbrev upload : OfflineAction
upload = record { action_id = "upload"; description = "file" }

abbrev print : OfflineAction
print = record { action_id = "print"; description = "page" }

abbrev execute : OfflineAction → Option OfflineActionResult
execute a =
    ite (text_dec a.action_id "upload") none
      (some (record { action_id = a.action_id; status = completed }))

abbrev offline : OfflineActionQueue
offline = record { online = false; pending = send ∷ upload ∷ print ∷ [] }

reconnect_loses_example :
    ((reconnect execute offline).1 ≡ send ∷ upload ∷ [])
    × ((reconnect execute offline).0.pending ≡ [])
unfolding program
reconnect_loses_example =
    reconnect_loses execute offline (send ∷ []) upload (print ∷ [])
      (record { action_id = "send"; status = completed } ∷ []) refl refl refl

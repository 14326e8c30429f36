-- ===== src/DistributedScheduler/Tests.antt =====
-- Runs of services/runtime/src/distributed-scheduler.ts, and its theorem at concrete peers.
use nova_test.Common.Sort.{sort, insert}
use nova_test.Common.{
  ℕ, ◌≡◌, ◌≢◌, refl, true, false, List, [], ◌∷◌, String, some, contains, keep, text_dec,
}
use nova_test.Shared.{ok}
use nova_test.TaskManager.{planning, waiting_user}
use nova_test.DistributedScheduler.{
  PeerSnapshot, full_peer, companion, TaskPlacementRequest, TaskAssignment,
  DistributedTaskScheduler, capability, origin, is_eligible, score, stands_before, select, assign,
}
use nova_test.DistributedScheduler.Placement.{IsBestPeer, assign-IsBest}

program : Unit {0}
unfolding text_dec contains keep insert sort is_eligible score stands_before select assign
program = tt

abbrev peer : String → ℕ → List String → PeerSnapshot
peer id headroom capabilities = record {
  device_id = id;
  role = full_peer;
  reachable = true;
  degraded = false;
  resource_headroom = headroom;
  capabilities = capabilities;
}

abbrev scheduler : DistributedTaskScheduler
scheduler = record { scale = 100; minimum_origin_headroom = 25; locale_le = λ a b. true }

abbrev request : TaskPlacementRequest
request = record {
  task_id = "t1";
  origin_device_id = "phone";
  required_capability = some "shell";
  state = planning;
  cross_peer_assignment_enabled = true;
  peers =
      record (peer "phone" 90 []) { role = companion }
      ∷ peer "laptop" 30 ("shell" ∷ [])
      ∷ peer "desktop" 60 ("shell" ∷ [])
      ∷ peer "server" 99 []
      ∷ [];
}

abbrev to_desktop : TaskAssignment
to_desktop = record {
  task_id = "t1";
  device_id = "desktop";
  reassigned = true;
  reason = capability;
}

placed : assign scheduler request ≡ ok to_desktop
unfolding program
placed = refl

stays_for_user :
    assign scheduler (record request { state = waiting_user })
    ≡ ok (record to_desktop { device_id = "phone"; reassigned = false; reason = origin })
unfolding program
stays_for_user = refl

assign-IsBest_example :
    (request.cross_peer_assignment_enabled ≡ true)
    × (request.state ≢ waiting_user)
    × ((p : PeerSnapshot) × (p.device_id ≡ to_desktop.device_id) × IsBestPeer request p)
assign-IsBest_example = assign-IsBest scheduler request to_desktop placed refl

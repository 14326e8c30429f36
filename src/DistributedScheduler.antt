-- ===== src/DistributedScheduler.antt =====
-- services/runtime/src/distributed-scheduler.ts: the device that runs a task. A headroom is a natural
-- multiple of one over `scale`; `locale_le` is the order of `localeCompare`.
pub mod Sorting
pub mod Eligibility
pub mod Placement
mod Tests
use nova_test.Common.Sort.{sort}
use nova_test.Common.{
  ℕ, ◌+◌, Bool, true, false, not, List, [], ◌∷◌, String, Option, none, some, same, ltb, ◌==◌, keep,
  contains, ◌&&◌, ◌||◌, if◌then◌else◌,
}
use nova_test.Shared.{ErrorInfo, Result, ok, err, nova_net001}
use nova_test.TaskManager.{TaskState, is_waiting_user}

pub data PeerRole : Type 0 where
  full_peer companion : PeerRole

pub record PeerSnapshot : Type 0 where
  pub device_id : String
  pub role : PeerRole
  pub reachable : Bool
  pub degraded : Bool
  pub resource_headroom : ℕ
  pub capabilities : List String

pub record TaskPlacementRequest : Type 0 where
  pub task_id : String
  pub origin_device_id : String
  pub required_capability : Option String
  pub state : TaskState
  pub cross_peer_assignment_enabled : Bool
  pub peers : List PeerSnapshot

pub data AssignmentReason : Type 0 where
  origin resource capability : AssignmentReason

pub record TaskAssignment : Type 0 where
  pub task_id : String
  pub device_id : String
  pub reassigned : Bool
  pub reason : AssignmentReason

pub record DistributedTaskScheduler : Type 0 where
  pub scale : ℕ
  pub minimum_origin_headroom : ℕ
  pub locale_le : String → String → Bool

abbrev pub network_error : String → ErrorInfo
network_error message = record {
  code = nova_net001;
  message = message;
  retryable = true;
  details = [];
}

abbrev pub find_peer : List PeerSnapshot → String → Option PeerSnapshot
find_peer [] id = none
find_peer (p ∷ ps) id = if same p.device_id id then some p else find_peer ps id

abbrev pub is_full_peer : PeerRole → Bool
is_full_peer full_peer = true
is_full_peer companion = false

-- `required && !capabilities.includes(required)`: the empty text requires nothing.
abbrev pub lacks : Option String → List String → Bool
lacks none capabilities = false
lacks (some required) capabilities =
    if same required "" then false else not (contains capabilities required)

-- `required && capabilities.includes(required)`
abbrev pub offers : Option String → List String → Bool
offers none capabilities = false
offers (some required) capabilities =
    if same required "" then false else contains capabilities required

-- `required !== undefined && !capabilities.includes(required)`
abbrev pub has_gap : Option String → List String → Bool
has_gap none capabilities = false
has_gap (some required) capabilities = not (contains capabilities required)

unfoldable pub is_eligible : Option String → PeerSnapshot → Bool
is_eligible required p =
    if not (is_full_peer p.role) || not p.reachable || p.degraded
    then false
    else not (lacks required p.capabilities)

unfoldable pub score : DistributedTaskScheduler → Option String → PeerSnapshot → ℕ
score m required p = p.resource_headroom + (if offers required p.capabilities then m.scale else 0)

-- The comparison of the sort, by which `a` may stand before `b`.
unfoldable pub stands_before :
    DistributedTaskScheduler → Option String → PeerSnapshot → PeerSnapshot → Bool
unfolding score
stands_before m required a b =
    if ltb (score m required b) (score m required a)
    then true
    else score m required b == score m required a && m.locale_le a.device_id b.device_id

abbrev pub first : List PeerSnapshot → Option PeerSnapshot
first [] = none
first (p ∷ ps) = some p

unfoldable pub select : DistributedTaskScheduler → TaskPlacementRequest → Option PeerSnapshot
unfolding stands_before is_eligible
select m r = first (
    sort (stands_before m r.required_capability) (keep (is_eligible r.required_capability) r.peers))

abbrev pub is_constrained : DistributedTaskScheduler → PeerSnapshot → Bool
is_constrained m p =
    not p.reachable || p.degraded || ltb p.resource_headroom m.minimum_origin_headroom

abbrev pub origin_assignment : TaskPlacementRequest → PeerSnapshot → TaskAssignment
origin_assignment r p = record {
  task_id = r.task_id;
  device_id = p.device_id;
  reassigned = false;
  reason = origin;
}

abbrev pub assigned :
    TaskPlacementRequest → PeerSnapshot → Option PeerSnapshot → Result TaskAssignment
assigned r p none =
    err (network_error "No reachable Full Peer satisfies the task placement requirements.")
assigned r p (some selected) = ok (record {
  task_id = r.task_id;
  device_id = selected.device_id;
  reassigned = not (same selected.device_id p.device_id);
  reason = if has_gap r.required_capability p.capabilities then capability else resource;
})

abbrev pub assign_from :
    DistributedTaskScheduler → TaskPlacementRequest → Option PeerSnapshot → Result TaskAssignment
assign_from m r none = err (network_error "Originating device is not paired.")
assign_from m r (some p) =
    if not r.cross_peer_assignment_enabled || is_waiting_user r.state
    then ok (origin_assignment r p)
    else if not (has_gap r.required_capability p.capabilities) && not (is_constrained m p)
    then ok (origin_assignment r p)
    else assigned r p (select m r)

unfoldable pub assign : DistributedTaskScheduler → TaskPlacementRequest → Result TaskAssignment
unfolding select
assign m r = assign_from m r (find_peer r.peers r.origin_device_id)

-- ===== src/ResourceArbitration.antt =====
-- services/runtime/src/resource-arbitration.ts: sessions that share resources one at a time, and
-- actions that wait until the device is online. `execute` is what an action settles to, `none` for
-- a rejection.
pub mod Queues
mod Tests
use nova_test.Common.Map
use nova_test.Common.Map.{Map}
use nova_test.Common.{
  Bool, true, false, ◌&&◌, List, [], ◌∷◌, ◌++◌, String, Option, none, some, if◌then◌else◌, or_else,
  text_dec,
}
use mathlib.Core.Logic.{ite}
use nova_test.Shared.{ErrorInfo, Result, ok, err, nova_evt001}

pub data Origin : Type 0 where
  local remote : Origin

pub record ResourceRequest : Type 0 where
  pub request_id : String
  pub origin : Origin
  pub explicit_remote_override : Bool

pub data DecisionStatus : Type 0 where
  granted queued : DecisionStatus

pub record ResourceDecision : Type 0 where
  pub status : DecisionStatus
  pub request_id : String

pub record ResourceArbitrator : Type 0 where
  pub held : Map ResourceRequest
  pub queues : Map (List ResourceRequest)

abbrev pub event_error : String → ErrorInfo
event_error message = record {
  code = nova_evt001;
  message = message;
  retryable = true;
  details = [];
}

abbrev pub is_remote : Origin → Bool
is_remote remote = true
is_remote local = false

unfoldable pub take_resource :
    ResourceArbitrator → String → ResourceRequest → ResourceArbitrator × Result ResourceDecision
take_resource a resource r = (
  record a { held = Map.set a.held resource r },
  ok (record { status = granted; request_id = r.request_id }),
)

unfoldable pub acquire :
    ResourceArbitrator → String → ResourceRequest → ResourceArbitrator × Result ResourceDecision
unfolding take_resource
acquire a resource r = elim (Map.get a.held resource) [
  | none ↦ take_resource a resource r
  | some _ ↦
      if is_remote r.origin && r.explicit_remote_override then take_resource a resource r else (
        record a {
          queues = Map.set a.queues resource (or_else (Map.get a.queues resource) [] ++ r ∷ []);
        },
        ok (record { status = queued; request_id = r.request_id }),
      )
]

-- The end of `release`, on the queue of the resource: the request that is granted, if any.
unfoldable pub hand_over :
    ResourceArbitrator → String → List ResourceRequest → ResourceArbitrator × Result (Option String)
hand_over a resource [] =
    (record { held = Map.delete a.held resource; queues = Map.delete a.queues resource }, ok none)
hand_over a resource (next ∷ queue) = (
  record { held = Map.set a.held resource next; queues = Map.set a.queues resource queue },
  ok (some next.request_id),
)

unfoldable pub release :
    ResourceArbitrator → String → String → ResourceArbitrator × Result (Option String)
unfolding hand_over
release a resource id = elim (Map.get a.held resource) [
  | none ↦ (a, err (event_error "Resource is not held by the requesting session."))
  | some current ↦
      ite (text_dec current.request_id id)
        (hand_over a resource (or_else (Map.get a.queues resource) []))
        (a, err (event_error "Resource is not held by the requesting session."))
]

pub record OfflineAction : Type 0 where
  pub action_id : String
  pub description : String

pub data ActionStatus : Type 0 where
  completed failed : ActionStatus

pub record OfflineActionResult : Type 0 where
  pub action_id : String
  pub status : ActionStatus

pub data Submitted : Type 0 where
  queued_offline : Submitted
  executed : OfflineActionResult → Submitted

pub record OfflineActionQueue : Type 0 where
  pub online : Bool
  pub pending : List OfflineAction

unfoldable pub set_online : OfflineActionQueue → Bool → OfflineActionQueue
set_online q online = record q { online = online }

unfoldable pub submit :
    (OfflineAction → Option OfflineActionResult)
    → OfflineActionQueue
    → OfflineAction
    → OfflineActionQueue × Result Submitted
submit execute q action =
    if q.online
    then elim (execute action) [
      | some result ↦ (q, ok (executed result))
      | none ↦ (q, err (event_error "Offline action execution failed."))
    ]
    else (record q { pending = q.pending ++ action ∷ [] }, ok queued_offline)

-- The loop of `reconnect`: the actions that it executes, and the results unless one is rejected.
unfoldable pub retry :
    (OfflineAction → Option OfflineActionResult)
    → List OfflineAction
    → List OfflineAction × Option (List OfflineActionResult)
retry execute [] = ([], some [])
retry execute (action ∷ rest) =
    let later = retry execute rest in
    elim (execute action) [
      | none ↦ (action ∷ [], none)
      | some result ↦
          (action ∷ later.0, elim later.1 [ none ↦ none | some results ↦ some (result ∷ results) ])
    ]

-- Beside the result stand the actions that were executed.
unfoldable pub reconnect :
    (OfflineAction → Option OfflineActionResult)
    → OfflineActionQueue
    → OfflineActionQueue × List OfflineAction × Result (List OfflineActionResult)
unfolding retry
reconnect execute q = (
  record { online = true; pending = [] },
  (retry execute q.pending).0,
  elim (retry execute q.pending).1 [
    | some results ↦ ok results
    | none ↦ err (event_error "Queued offline action retry failed.")
  ],
)

-- ===== src/ResourceArbitration/Queues.antt =====
-- The queues of services/runtime/src/resource-arbitration.ts in every history, and the actions that
-- a failed reconnection loses.
use nova_test.Common.Map
use nova_test.Common.Map.{Map}
use nova_test.Common.{
  ◌≡◌, refl, ap, ◌∙◌, inl, inr, List, [], ◌∷◌, ◌++◌, String, Option, none, some, arith, or_else,
  Option-cases,
}
use nova_test.ResourceArbitration.{
  ResourceArbitrator, ResourceRequest, acquire, release, take_resource, hand_over, OfflineAction,
  OfflineActionResult, OfflineActionQueue, retry, reconnect,
}

pub data Call : Type 0 where
  acquires : String → ResourceRequest → Call
  releases : String → String → Call

unfoldable pub step : ResourceArbitrator → Call → ResourceArbitrator
step a (acquires resource r) = (acquire a resource r).0
step a (releases resource id) = (release a resource id).0

unfoldable pub run : ResourceArbitrator → List Call → ResourceArbitrator
unfolding step
run a [] = a
run a (c ∷ cs) = run (step a c) cs

-- A resource that nobody holds has no queue.
abbrev pub IsFair : ResourceArbitrator → Type 0
IsFair a = (r : String) → Map.get a.held r ≡ none → Map.get a.queues r ≡ none

acquire-IsFair :
    (a : ResourceArbitrator) (resource : String) (q : ResourceRequest)
    → IsFair a
    → IsFair (acquire a resource q).0
unfolding acquire take_resource
acquire-IsFair a resource q h r e = elim (Option-cases (Map.get a.held resource)) [
  | inl n ↦ ground (arith, h r, Map.get-set a.held resource q r)
  | inr (c, n) ↦ ground (
    arith,
    h r,
    Map.get-set a.held resource q r,
    Map.get-set a.queues resource (or_else (Map.get a.queues resource) [] ++ q ∷ []) r,
  )
]

hand_over-IsFair :
    (a : ResourceArbitrator) (resource : String) (queue : List ResourceRequest)
    → IsFair a
    → IsFair (hand_over a resource queue).0
unfolding hand_over
hand_over-IsFair a resource [] h r e =
    ground (arith, h r, Map.get-delete a.held resource r, Map.get-delete a.queues resource r)
hand_over-IsFair a resource (next ∷ queue) h r e =
    ground (arith, h r, Map.get-set a.held resource next r, Map.get-set a.queues resource queue r)

release-IsFair :
    (a : ResourceArbitrator) (resource id : String) → IsFair a → IsFair (release a resource id).0
unfolding release
release-IsFair a resource id h r e = elim (Option-cases (Map.get a.held resource)) [
  | inl n ↦ ground (arith, h r)
  | inr (c, n) ↦
      ground (arith, h r, hand_over-IsFair a resource (or_else (Map.get a.queues resource) []) h r)
]

-- In every history of requests and releases, no request waits for a resource that nobody holds.
pub run-IsFair : (a : ResourceArbitrator) (cs : List Call) → IsFair a → IsFair (run a cs)
unfolding run step
run-IsFair a [] h = h
run-IsFair a (acquires resource q ∷ cs) h =
    run-IsFair (acquire a resource q).0 cs (acquire-IsFair a resource q h)
run-IsFair a (releases resource id ∷ cs) h =
    run-IsFair (release a resource id).0 cs (release-IsFair a resource id h)

retry-stops :
    (execute : OfflineAction → Option OfflineActionResult) (first : List OfflineAction)
    (action : OfflineAction) (rest : List OfflineAction) (results : List OfflineActionResult)
    → (retry execute first).1 ≡ some results
    → execute action ≡ none
    → (retry execute (first ++ action ∷ rest)).0 ≡ first ++ action ∷ []
unfolding retry
retry-stops execute [] action rest results h e = ground arith
retry-stops execute (x ∷ first) action rest results h e = elim (Option-cases (execute x)) [
  | inl n ↦ absurd (ground arith)
  | inr (y, n) ↦ elim (Option-cases (retry execute first).1) [
    | inl m ↦ absurd (ground arith)
    | inr (ys, m) ↦ ground (arith, retry-stops execute first action rest ys m e)
  ]
]

-- A reconnection at which an action is rejected loses the actions queued after it: they are not
-- executed, and none is pending afterwards.
pub reconnect_loses :
    (execute : OfflineAction → Option OfflineActionResult) (q : OfflineActionQueue)
    (first : List OfflineAction) (action : OfflineAction) (rest : List OfflineAction)
    (results : List OfflineActionResult)
    → q.pending ≡ first ++ action ∷ rest
    → (retry execute first).1 ≡ some results
    → execute action ≡ none
    → ((reconnect execute q).1 ≡ first ++ action ∷ []) × ((reconnect execute q).0.pending ≡ [])
unfolding reconnect
reconnect_loses execute q first action rest results p h e =
    (ap (λ l. (retry execute l).0) p ∙ retry-stops execute first action rest results h e, refl)

-- ===== src/DistributedScheduler/Placement.antt =====
-- Which device services/runtime/src/distributed-scheduler.ts gives a task to.
use mathlib.Core.Path.{subst}
use nova_test.Common.Sort.{sort}
use nova_test.Common.{
  ℕ, ◌≤◌, ◌≡◌, ◌≢◌, ◌∙◌, ap, String, sym, true, false, not, List, [], ◌∷◌, Option, some, ◌&&◌, ◌||◌,
  keep, All-In, In, inl, inr, arith, Option-cases, Bool-cases, none,
}
use nova_test.Shared.{ok, err}
use nova_test.TaskManager.{waiting_user, is_waiting_user}
use nova_test.DistributedScheduler.{
  lacks, PeerSnapshot, TaskPlacementRequest, TaskAssignment, DistributedTaskScheduler, find_peer,
  is_eligible, score, stands_before, first, select, is_constrained, has_gap, origin_assignment,
  assigned, assign,
}
use nova_test.DistributedScheduler.Sorting.{In-sort, sort-All, IsLed, sort-IsLed, keep-All, In-keep}
use nova_test.DistributedScheduler.Eligibility.{
  CanTake, HasCapability-lacks, is_eligible-CanTake, CanTake-is_eligible,
}

stands_before-above :
    (m : DistributedTaskScheduler) (c : Option String) (a b : PeerSnapshot)
    → stands_before m c a b ≡ true
    → score m c b ≤ score m c a
unfolding stands_before
stands_before-above m c a b e = ground arith

stands_before-below :
    (m : DistributedTaskScheduler) (c : Option String) (a b : PeerSnapshot)
    → stands_before m c a b ≡ false
    → score m c a ≤ score m c b
unfolding stands_before
stands_before-below m c a b e = ground arith

assigned-device :
    (r : TaskPlacementRequest) (p s : PeerSnapshot) (a : TaskAssignment)
    → assigned r p (some s) ≡ ok a
    → s.device_id ≡ a.device_id
assigned-device r p s a e = ap (λ x. elim x [ ok y ↦ y.device_id | err _ ↦ s.device_id ]) e

-- Peers that can both take the task get the same bonus.
score-headroom :
    (m : DistributedTaskScheduler) (required : Option String) (p q : PeerSnapshot)
    → lacks required p.capabilities ≡ false
    → lacks required q.capabilities ≡ false
    → score m required q ≤ score m required p
    → q.resource_headroom ≤ p.resource_headroom
unfolding score
score-headroom m none p q h k l = omega (arith, l)
score-headroom m (some r) p q h k l = ground (arith, l)

-- The peer is one of the request's, can take the task, and none that can has more headroom.
abbrev pub IsBestPeer : TaskPlacementRequest → PeerSnapshot → Type 0
IsBestPeer r p =
    In p r.peers
    × CanTake r.required_capability p
    × ((q : PeerSnapshot)
        → In q r.peers
        → CanTake r.required_capability q
        → q.resource_headroom ≤ p.resource_headroom)

-- The peer is one of the request's, can take the task, and none that can has a greater score.
abbrev IsBest : DistributedTaskScheduler → TaskPlacementRequest → PeerSnapshot → Type 0
IsBest m r p =
    In p r.peers
    × (is_eligible r.required_capability p ≡ true)
    × ((q : PeerSnapshot)
        → In q r.peers
        → is_eligible r.required_capability q ≡ true
        → score m r.required_capability q ≤ score m r.required_capability p)

first-In :
    (f : PeerSnapshot → ℕ) (ps : List PeerSnapshot) (p : PeerSnapshot)
    → first ps ≡ some p
    → IsLed f ps
    → In p ps × ((q : PeerSnapshot) → In q ps → f q ≤ f p)
first-In f [] p e h = absurd (ground arith)
first-In f (x ∷ ps) p e h =
    let w : x ≡ p = ground arith in
    (
      inl (sym w),
      λ q i. elim i [
        | inl z ↦ rw (z) (subst (λ y. f x ≤ f y) w (omega arith))
        | inr j ↦ subst (λ y. f q ≤ f y) w (All-In (λ y. f y ≤ f x) q ps h j)
      ],
    )

select-IsBest :
    (m : DistributedTaskScheduler) (r : TaskPlacementRequest) (p : PeerSnapshot)
    → select m r ≡ some p
    → IsBest m r p
unfolding select
select-IsBest m r p e =
    let cap = r.required_capability in
    let le = stands_before m cap in
    let kept = keep (is_eligible cap) r.peers in
    let led =
      sort-IsLed (score m cap) le (stands_before-above m cap) (stands_before-below m cap) kept in
    let (i, best) = first-In (score m cap) (sort le kept) p e led in
    let Q : PeerSnapshot → Type 0 = λ q. In q r.peers × (is_eligible cap q ≡ true) in
    let all = sort-All Q le kept (keep-All Q (is_eligible cap) r.peers (λ q j t. (j, t))) in
    let (held, ready) = All-In Q p (sort le kept) all i in
    (held, ready, λ q j t. best q (In-sort le q kept (In-keep (is_eligible cap) q r.peers j t)))

IsBest-IsBestPeer :
    (m : DistributedTaskScheduler) (r : TaskPlacementRequest) (p : PeerSnapshot)
    → IsBest m r p
    → IsBestPeer r p
IsBest-IsBestPeer m r p (i, e, h) =
    let c = is_eligible-CanTake r.required_capability p e in
    let cap = r.required_capability in
    (
      i,
      c,
      λ q j k.
          score-headroom m cap p q (HasCapability-lacks cap p.capabilities c.capable)
            (HasCapability-lacks cap q.capabilities k.capable)
            (h q j (CanTake-is_eligible cap q k)),
    )

-- A task that is given to another device is not waiting for the user, and the request allows it; the
-- device is a reachable full peer that is not degraded and has the capability that is required, and
-- no such peer has more headroom. The empty text requires no capability.
pub assign-IsBest :
    (m : DistributedTaskScheduler) (r : TaskPlacementRequest) (a : TaskAssignment)
    → assign m r ≡ ok a
    → a.reassigned ≡ true
    → (r.cross_peer_assignment_enabled ≡ true)
      × (r.state ≢ waiting_user)
      × ((p : PeerSnapshot) × (p.device_id ≡ a.device_id) × IsBestPeer r p)
unfolding assign
assign-IsBest m r a e t = elim (Option-cases (find_peer r.peers r.origin_device_id)) [
  | inl q ↦ absurd (ground arith)
  | inr (p, q) ↦
      elim (Bool-cases (not r.cross_peer_assignment_enabled || is_waiting_user r.state)) [
        | inl b ↦
            let w : origin_assignment r p ≡ a = ground arith in
            let z : false ≡ true = ap (λ x. x.reassigned) w ∙ t in absurd (cc)
        | inr b ↦
            elim (Bool-cases
              (not (has_gap r.required_capability p.capabilities) && not (is_constrained m p))) [
                | inl k ↦
                    let w : origin_assignment r p ≡ a = ground arith in
                    let z : false ≡ true = ap (λ x. x.reassigned) w ∙ t in absurd (cc)
                | inr k ↦ elim (Option-cases (select m r)) [
                  | inl n ↦ absurd (ground arith)
                  | inr (s, n) ↦
                      let w : assigned r p (some s) ≡ ok a = ground arith in
                      let d : s.device_id ≡ a.device_id = assigned-device r p s a w in
                      (
                        ground arith,
                        λ x. absurd (ground arith),
                        (s, d, IsBest-IsBestPeer m r s (select-IsBest m r s n)),
                      )
                ]
              ]
      ]
]

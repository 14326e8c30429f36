-- ===== src/DistributedScheduler/Eligibility.antt =====
-- Which peers of services/runtime/src/distributed-scheduler.ts can take a task.
use nova_test.Common.{
  ◌≡◌, String, refl, sym, true, false, List, [], ◌∷◌, Option, some, In, inl, inr, arith, ◌⊎◌, none,
  contains, text_dec,
}
use nova_test.DistributedScheduler.{
  PeerRole, full_peer, companion, lacks, is_full_peer, PeerSnapshot, is_eligible,
}

-- The capability that the request names, if it names one, is among those of the peer.
abbrev pub HasCapability : Option String → List String → Type 0
HasCapability none capabilities = Unit {0}
HasCapability (some required) capabilities = (required ≡ "") ⊎ In required capabilities

-- A reachable full peer that is not degraded and has the capability.
pub record CanTake (required : Option String) (p : PeerSnapshot) : Type 0 where
  pub full : p.role ≡ full_peer
  pub reachable : p.reachable ≡ true
  pub healthy : p.degraded ≡ false
  pub capable : HasCapability required p.capabilities

contains-In : (x : String) (xs : List String) → contains xs x ≡ true → In x xs
unfolding contains
contains-In x [] e = absurd (ground arith)
contains-In x (y ∷ ys) e = elim (text_dec y x) [
  | yes p ↦ inl (sym p)
  | no n ↦ inr (contains-In x ys (ground arith))
]

In-contains : (x : String) (xs : List String) → In x xs → contains xs x ≡ true
unfolding contains
In-contains x [] i = absurd i
In-contains x (y ∷ ys) (inl e) = ground arith
In-contains x (y ∷ ys) (inr i) = ground (arith, In-contains x ys i)

lacks-HasCapability :
    (required : Option String) (cs : List String)
    → lacks required cs ≡ false
    → HasCapability required cs
lacks-HasCapability none cs e = tt
lacks-HasCapability (some r) cs e = elim (text_dec r "") [
  | yes p ↦ inl p
  | no n ↦ inr (contains-In r cs (ground arith))
]

pub HasCapability-lacks :
    (required : Option String) (cs : List String)
    → HasCapability required cs
    → lacks required cs ≡ false
HasCapability-lacks none cs h = refl
HasCapability-lacks (some r) cs (inl e) = ground arith
HasCapability-lacks (some r) cs (inr i) = ground (arith, In-contains r cs i)

full_peer-role : (r : PeerRole) → is_full_peer r ≡ true → r ≡ full_peer
full_peer-role full_peer e = refl
full_peer-role companion e = absurd (ground arith)

pub is_eligible-CanTake :
    (required : Option String) (p : PeerSnapshot)
    → is_eligible required p ≡ true
    → CanTake required p
unfolding is_eligible
is_eligible-CanTake required p e = record {
  full = full_peer-role p.role (ground arith);
  reachable = ground arith;
  healthy = ground arith;
  capable = lacks-HasCapability required p.capabilities (ground arith);
}

pub CanTake-is_eligible :
    (required : Option String) (p : PeerSnapshot)
    → CanTake required p
    → is_eligible required p ≡ true
unfolding is_eligible
CanTake-is_eligible required p h =
    ground
      (arith, h.full, h.reachable, h.healthy, HasCapability-lacks required p.capabilities h.capable)

-- ===== src/ResourceManager/Granting.antt =====
-- `release` of services/runtime/src/resource-manager.ts: which locks go, and which requests are
-- granted theirs.
use mathlib.Core.Logic.{ite}
use nova_test.Common.Map
use nova_test.Common.Map.{Map}
use nova_test.Common.{
  ℕ, ◌+◌, ◌≡◌, refl, ◌≢◌, ◌⊎◌, inl, inr, true, false, Distinct, List, [], ◌∷◌, String, Option, none,
  some, arith, contains, text_dec, Option-cases, Bool-cases, All, length, All-mono, In,
}
use nova_test.ResourceManager.{
  ResourceManager, HeldLock, QueuedRequest, task_of, holder, lock_all, drop_locks, is_free,
  grant_queued, release,
}
use nova_test.ResourceManager.Locks.{lock_all-holder}

abbrev pub holder_in : Map HeldLock → String → Option String
holder_in held r = task_of (Map.get held r)

pub is_free_at :
    (held : Map HeldLock) (rs : List String) (r : String)
    → is_free held rs ≡ true
    → contains rs r ≡ true
    → holder_in held r ≡ none
unfolding is_free contains
is_free_at held [] r h c = cc
is_free_at held (x ∷ rs) r h c = ground (arith, is_free_at held rs r)

-- Some resource of the request is held.
abbrev pub IsBlocked : Map HeldLock → QueuedRequest → Type 0
IsBlocked held q =
    (r : String) × (u : String) × (contains q.resources r ≡ true) × (holder_in held r ≡ some u)

blocker :
    (held : Map HeldLock) (rs : List String)
    → is_free held rs ≡ false
    → (r : String) × (u : String) × (contains rs r ≡ true) × (holder_in held r ≡ some u)
unfolding is_free contains
blocker held [] h = cc
blocker held (x ∷ rs) h = elim (Option-cases (Map.get held x)) [
  | inr (l, e) ↦ (x, l.task_id, ground arith, ground arith)
  | inl e ↦ let (r, u, c, f) = blocker held rs (ground arith) in (r, u, ground arith, f)
]

-- The request is granted: its task holds all of its resources.
abbrev pub IsServed : Map HeldLock → QueuedRequest → Type 0
IsServed held q = (r : String) → contains q.resources r ≡ true → holder_in held r ≡ some q.task_id

pub record Grants (held : Map HeldLock) (queue : List QueuedRequest)
    (a : Map HeldLock × List QueuedRequest × List String) : Type 0 where
  pub keeps : (r u : String) → holder_in held r ≡ some u → holder_in a.0 r ≡ some u
  pub origin :
      (r u : String)
      → holder_in a.0 r ≡ some u
      → (holder_in held r ≡ some u) ⊎ (contains a.2 u ≡ true)
  pub served : All (λ q. In q a.1 ⊎ IsServed a.0 q) queue
  pub blocked : All (IsBlocked a.0) a.1

grant-Grants :
    (held : Map HeldLock) (q : QueuedRequest) (qs : List QueuedRequest) (clock : ℕ → ℕ)
    (a : Map HeldLock × List QueuedRequest × List String)
    → is_free held q.resources ≡ true
    → Grants (lock_all held q.task_id q.resources clock) qs a
    → Grants held (q ∷ qs) (a.0, a.1, q.task_id ∷ a.2)
unfolding contains
grant-Grants held q qs clock a free g =
    let locked = lock_all-holder held q.task_id q.resources clock in
    record {
      keeps = λ r u h. g.keeps r u (ground (arith, locked r, is_free_at held q.resources r free));
      origin = λ r u h. ground (arith, g.origin r u h, locked r);
      served = (inr (λ r c. g.keeps r q.task_id (ground (arith, locked r))), g.served);
      blocked = g.blocked;
    }

skip-Grants :
    (held : Map HeldLock) (q : QueuedRequest) (qs : List QueuedRequest)
    (a : Map HeldLock × List QueuedRequest × List String)
    → is_free held q.resources ≡ false
    → Grants held qs a
    → Grants held (q ∷ qs) (a.0, q ∷ a.1, a.2)
skip-Grants held q qs a busy g =
    let (r, u, c, f) = blocker held q.resources busy in
    record {
      keeps = g.keeps;
      origin = g.origin;
      served = (
        inl (inl refl),
        All-mono (λ p. In p a.1 ⊎ IsServed a.0 p) (λ p. In p (q ∷ a.1) ⊎ IsServed a.0 p)
            (λ p s. elim s [ inl m ↦ inl (inr m) | inr t ↦ inr t ]) qs g.served,
      );
      blocked = ((r, u, c, g.keeps r u f), g.blocked);
    }

pub grant_queued-Grants :
    (held : Map HeldLock) (queue : List QueuedRequest) (clock : ℕ → ℕ)
    → Grants held queue (grant_queued held queue clock)
unfolding grant_queued
grant_queued-Grants held [] clock = record {
  keeps = λ r u h. h;
  origin = λ r u h. inl h;
  served = tt;
  blocked = tt;
}
grant_queued-Grants held (q ∷ qs) clock = elim (Bool-cases (is_free held q.resources)) [
  | inl free ↦ rw free (
      grant-Grants held q qs clock _ free (
        grant_queued-Grants (lock_all held q.task_id q.resources clock) qs
          (λ i. clock (length q.resources + i))))
  | inr busy ↦ rw busy (skip-Grants held q qs _ busy (grant_queued-Grants held qs clock))
]

drop_locks-absent :
    (held : Map HeldLock) (task r : String)
    → Map.get held r ≡ none
    → Map.get (drop_locks held task) r ≡ none
unfolding drop_locks Map.get
drop_locks-absent [] task r h = refl
drop_locks-absent ((x, l) ∷ held) task r h = ground (arith, drop_locks-absent held task r)

-- Exactly the locks of the other tasks stay.
pub drop_locks-holder :
    (held : Map HeldLock) (task r : String)
    → Distinct (Map.keys held)
    → holder_in (drop_locks held task) r ≡ elim (Map.get held r) [
      | none ↦ none
      | some l ↦ ite (text_dec l.task_id task) none (some l.task_id)
    ]
unfolding drop_locks Map.get
drop_locks-holder [] task r d = refl
drop_locks-holder ((x, l) ∷ held) task r d = elim (text_dec x r) [
  | no n ↦ ground (arith, drop_locks-holder held task r d.1)
  | yes p ↦
      let gone = Map.get-absent held x d.0 in
      ground (arith, gone, drop_locks-absent held task x gone)
]

-- What `release` does: the other tasks keep their locks; whoever holds one afterwards held it
-- before or is among the granted; each request is served in full or stays queued; and each that
-- stays is blocked by a lock.
pub record Releases (m : ResourceManager) (task : String) (a : ResourceManager × List String)
    : Type 0 where
  pub keeps : (r u : String) → holder m r ≡ some u → u ≢ task → holder a.0 r ≡ some u
  pub origin :
      (r u : String)
      → holder a.0 r ≡ some u
      → ((holder m r ≡ some u) × (u ≢ task)) ⊎ (contains a.1 u ≡ true)
  pub served : All (λ q. In q a.0.queued ⊎ IsServed a.0.held q) m.queued
  pub blocked : All (IsBlocked a.0.held) a.0.queued

-- `release` takes no lock from another task, gives locks only to the tasks that it reports, serves
-- each queued request in full or leaves it queued, and each that is left asks for a resource that is
-- held, be it by its own task.
pub release-Releases :
    (m : ResourceManager) (task : String) (clock : ℕ → ℕ)
    → Distinct (Map.keys m.held)
    → Releases m task (release m task clock)
unfolding release holder
release-Releases m task clock d =
    let g = grant_queued-Grants (drop_locks m.held task) m.queued clock in
    let left = λ (r : String). drop_locks-holder m.held task r d in
    record {
      keeps = λ r u h n. g.keeps r u (ground (arith, left r));
      origin = λ r u h. ground (arith, g.origin r u h, left r);
      served = g.served;
      blocked = g.blocked;
    }

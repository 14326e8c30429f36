-- ===== src/ResourceManager/Stalls.antt =====
-- Where requests and locks of services/runtime/src/resource-manager.ts are left behind.
use nova_test.Common.Map
use nova_test.Common.Map.{Map}
use nova_test.Common.{
  ◌∙◌, ap, ℕ, ◌+◌, ◌≤◌, suc, ◌≡◌, refl, ◌≢◌, ◌⊎◌, inl, inr, true, false, Distinct, List, [], ◌∷◌,
  String, none, some, arith, contains, Bool-cases, In, length, add,
}
use nova_test.ResourceManager.{
  ResourceManager, HeldLock, QueuedRequest, holder, lock_all, drop_locks, is_free, grant_queued,
  release, expire_into, expire_locks,
}
use nova_test.ResourceManager.Locks.{lock_all-holder}
use nova_test.ResourceManager.Granting.{
  holder_in, is_free_at, grant_queued-Grants, drop_locks-holder,
}

not-is_free :
    (held : Map HeldLock) (rs : List String) (r u : String)
    → contains rs r ≡ true
    → holder_in held r ≡ some u
    → is_free held rs ≡ false
not-is_free held rs r u c h = elim (Bool-cases (is_free held rs)) [
  | inr no_way ↦ no_way
  | inl free ↦ absurd (ground (arith, is_free_at held rs r free c))
]

lock_all-keeps :
    (held : Map HeldLock) (q : QueuedRequest) (clock : ℕ → ℕ) (r u : String)
    → is_free held q.resources ≡ true
    → holder_in held r ≡ some u
    → holder_in (lock_all held q.task_id q.resources clock) r ≡ some u
lock_all-keeps held q clock r u free h =
    ground (
      arith,
      lock_all-holder held q.task_id q.resources clock r,
      is_free_at held q.resources r free,
    )

held-stays :
    (held : Map HeldLock) (queue : List QueuedRequest) (clock : ℕ → ℕ) (q : QueuedRequest)
    (r u : String)
    → In q queue
    → contains q.resources r ≡ true
    → holder_in held r ≡ some u
    → In q (grant_queued held queue clock).1
unfolding grant_queued
held-stays held [] clock q r u m c h = m
held-stays held (p ∷ queue) clock q r u m c h = elim (Bool-cases (is_free held p.resources)) [
  | inl free ↦ rw free (elim m [
    | inl e ↦ absurd (ground (arith, not-is_free held q.resources r u c h))
    | inr m' ↦
        held-stays (lock_all held p.task_id p.resources clock) queue _ q r u m' c
          (lock_all-keeps held p clock r u free h)
  ])
  | inr busy ↦
      rw busy (elim m [ inl e ↦ inl e | inr m' ↦ inr (held-stays held queue clock q r u m' c h) ])
]

-- A queued request for a resource that its own task already holds stays queued whatever other task
-- releases its locks.
pub release_self_blocked :
    (m : ResourceManager) (task : String) (clock : ℕ → ℕ) (q : QueuedRequest) (r : String)
    → Distinct (Map.keys m.held)
    → In q m.queued
    → contains q.resources r ≡ true
    → holder m r ≡ some q.task_id
    → q.task_id ≢ task
    → In q (release m task clock).0.queued
unfolding release holder
release_self_blocked m task clock q r d i c h n =
    held-stays (drop_locks m.held task) m.queued clock q r q.task_id i c
      (ground (arith, drop_locks-holder m.held task r d))

free_of_holders :
    (held : Map HeldLock) (rs : List String)
    → ((r : String) → contains rs r ≡ true → holder_in held r ≡ none)
    → is_free held rs ≡ true
unfolding is_free contains
free_of_holders held [] h = refl
free_of_holders held (x ∷ rs) h =
    ground (arith, h x, free_of_holders held rs (λ r c. h r (ground arith)))

-- The request at the head of the queue is served if each of its resources is free or held by the
-- task that releases.
release_serves_head :
    (m : ResourceManager) (task : String) (clock : ℕ → ℕ) (q : QueuedRequest)
    (queue : List QueuedRequest)
    → Distinct (Map.keys m.held)
    → m.queued ≡ q ∷ queue
    → ((r : String)
        → contains q.resources r ≡ true
        → (holder m r ≡ none) ⊎ (holder m r ≡ some task))
    → (r : String) → contains q.resources r ≡ true
    → holder (release m task clock).0 r ≡ some q.task_id
unfolding release holder grant_queued
release_serves_head m task clock q queue d e h r c =
    let left = λ (x : String). drop_locks-holder m.held task x d in
    let free =
      free_of_holders (drop_locks m.held task) q.resources (λ x k. ground (arith, left x, h x k)) in
    rw (e, grant_queued)
      (rw free (
        (grant_queued-Grants (lock_all (drop_locks m.held task) q.task_id q.resources clock) queue
            (λ i. clock (length q.resources + i))).keeps
          r q.task_id
          (ground (arith, lock_all-holder (drop_locks m.held task) q.task_id q.resources clock r))))

-- A task that releases while its own request is at the head of the queue, with every resource of it
-- free or its own, holds all of them after the release.
pub release_regrants :
    (m : ResourceManager) (task : String) (clock : ℕ → ℕ) (q : QueuedRequest)
    (queue : List QueuedRequest)
    → Distinct (Map.keys m.held)
    → m.queued ≡ q ∷ queue
    → q.task_id ≡ task
    → ((r : String)
        → contains q.resources r ≡ true
        → (holder m r ≡ none) ⊎ (holder m r ≡ some task))
    → (r : String) → contains q.resources r ≡ true
    → holder (release m task clock).0 r ≡ some task
release_regrants m task clock q queue d e own h r c =
    release_serves_head m task clock q queue d e h r c ∙ ap some own

-- Every lock has been held for the maximal duration when `expireLocks` reads the clock for it.
abbrev pub IsOverdue : ℕ → Map HeldLock → (ℕ → ℕ) → Type 0
IsOverdue max [] clock = Unit {0}
IsOverdue max ((r, l) ∷ held) clock =
    (l.acquired_at + max ≤ clock 0) × IsOverdue max held (λ i. clock (suc i))

expire_into-nil :
    (max : ℕ) (held : Map HeldLock) (expired : List String) (clock : ℕ → ℕ)
    → IsOverdue max held clock
    → (expire_into max held expired clock).0 ≡ []
unfolding expire_into
expire_into-nil max [] expired clock h = refl
expire_into-nil max ((r, l) ∷ held) expired clock h =
    ground (arith, expire_into-nil max held (add expired l.task_id) (λ i. clock (suc i)) h.1)

-- When the maximal duration of every lock has passed, `expireLocks` leaves no lock at all, so that all
-- resources of any request are free, and leaves every request in the queue.
pub expire_strands :
    (m : ResourceManager) (clock : ℕ → ℕ)
    → IsOverdue m.max_lock_duration_ms m.held clock
    → ((expire_locks m clock).0.held ≡ [])
      × ((expire_locks m clock).0.queued ≡ m.queued)
      × ((q : QueuedRequest)
          → In q m.queued
          → is_free (expire_locks m clock).0.held q.resources ≡ true)
unfolding expire_locks Map.get
expire_strands m clock h = (
  expire_into-nil m.max_lock_duration_ms m.held [] clock h,
  refl,
  λ q i.
      rw (expire_into-nil m.max_lock_duration_ms m.held [] clock h)
        (free_of_holders [] q.resources (λ r c. refl)),
)

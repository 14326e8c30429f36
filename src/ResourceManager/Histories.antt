-- ===== src/ResourceManager/Histories.antt =====
-- What every history of calls of services/runtime/src/resource-manager.ts keeps.
use nova_test.Common.Map
use nova_test.Common.Map.{Map}
use nova_test.Common.{
  ℕ, ◌+◌, suc, ◌≡◌, refl, ◌∙◌, sym, ap, false, inl, inr, Distinct, List, [], ◌∷◌, ◌++◌, String,
  arith, any, contains, add, Bool-cases, length, map, append-Distinct,
}
use nova_test.ResourceManager
use nova_test.ResourceManager.{
  ResourceManager, HeldLock, QueuedRequest, lock_all, drop_locks, is_free, grant_queued,
  expire_into, acquire_normalized, normalize, held_elsewhere, is_request_of,
}

abbrev pub tasks : List QueuedRequest → List String
tasks = map (λ q. q.task_id)

-- A resource has one lock, and a task at most one request in the queue.
pub record IsSound (m : ResourceManager) : Type 0 where
  pub locks : Distinct (Map.keys m.held)
  pub requests : Distinct (tasks m.queued)

lock_all-Distinct :
    (held : Map HeldLock) (task : String) (rs : List String) (clock : ℕ → ℕ)
    → Distinct (Map.keys held)
    → Distinct (Map.keys (lock_all held task rs clock))
unfolding lock_all
lock_all-Distinct held task [] clock d = d
lock_all-Distinct held task (r ∷ rs) clock d =
    let l : HeldLock = record { task_id = task; acquired_at = clock 0 } in
    lock_all-Distinct (Map.set held r l) task rs (λ i. clock (suc i)) (Map.set-Distinct held r l d)

drop_locks-key :
    (held : Map HeldLock) (task r : String)
    → contains (Map.keys held) r ≡ false
    → contains (Map.keys (drop_locks held task)) r ≡ false
unfolding drop_locks contains
drop_locks-key [] task r h = h
drop_locks-key ((x, l) ∷ held) task r h = ground (arith, drop_locks-key held task r)

drop_locks-Distinct :
    (held : Map HeldLock) (task : String)
    → Distinct (Map.keys held)
    → Distinct (Map.keys (drop_locks held task))
unfolding drop_locks
drop_locks-Distinct [] task d = d
drop_locks-Distinct ((x, l) ∷ held) task d =
    ground (arith, drop_locks-key held task x d.0, drop_locks-Distinct held task d.1)

expire_into-key :
    (max : ℕ) (held : Map HeldLock) (expired : List String) (clock : ℕ → ℕ) (r : String)
    → contains (Map.keys held) r ≡ false
    → contains (Map.keys (expire_into max held expired clock).0) r ≡ false
unfolding expire_into contains
expire_into-key max [] expired clock r h = h
expire_into-key max ((x, l) ∷ held) expired clock r h = ground (
  arith,
  expire_into-key max held (add expired l.task_id) (λ i. clock (suc i)) r,
  expire_into-key max held expired (λ i. clock (suc i)) r,
)

expire_into-Distinct :
    (max : ℕ) (held : Map HeldLock) (expired : List String) (clock : ℕ → ℕ)
    → Distinct (Map.keys held)
    → Distinct (Map.keys (expire_into max held expired clock).0)
unfolding expire_into
expire_into-Distinct max [] expired clock d = d
expire_into-Distinct max ((x, l) ∷ held) expired clock d = ground (
  arith,
  expire_into-key max held expired (λ i. clock (suc i)) x d.0,
  expire_into-Distinct max held expired (λ i. clock (suc i)) d.1,
  expire_into-Distinct max held (add expired l.task_id) (λ i. clock (suc i)) d.1,
)

grant_queued-locks :
    (held : Map HeldLock) (queue : List QueuedRequest) (clock : ℕ → ℕ)
    → Distinct (Map.keys held)
    → Distinct (Map.keys (grant_queued held queue clock).0)
unfolding grant_queued
grant_queued-locks held [] clock d = d
grant_queued-locks held (q ∷ queue) clock d = elim (Bool-cases (is_free held q.resources)) [
  | inl free ↦ rw free (
      grant_queued-locks (lock_all held q.task_id q.resources clock) queue _
        (lock_all-Distinct held q.task_id q.resources clock d))
  | inr busy ↦ rw busy (grant_queued-locks held queue clock d)
]

grant_queued-task :
    (held : Map HeldLock) (queue : List QueuedRequest) (clock : ℕ → ℕ) (x : String)
    → contains (tasks queue) x ≡ false
    → contains (tasks (grant_queued held queue clock).1) x ≡ false
unfolding grant_queued contains
grant_queued-task held [] clock x h = h
grant_queued-task held (q ∷ queue) clock x h = ground (
  arith,
  grant_queued-task (lock_all held q.task_id q.resources clock) queue
      (λ i. clock (length q.resources + i)) x,
  grant_queued-task held queue clock x,
)

grant_queued-requests :
    (held : Map HeldLock) (queue : List QueuedRequest) (clock : ℕ → ℕ)
    → Distinct (tasks queue)
    → Distinct (tasks (grant_queued held queue clock).1)
unfolding grant_queued
grant_queued-requests held [] clock d = d
grant_queued-requests held (q ∷ queue) clock d = elim (Bool-cases (is_free held q.resources)) [
  | inl free ↦
      rw free (grant_queued-requests (lock_all held q.task_id q.resources clock) queue _ d.1)
  | inr busy ↦
      rw busy (
        grant_queued-task held queue clock q.task_id d.0,
        grant_queued-requests held queue clock d.1,
      )
]

any-tasks :
    (task : String) (qs : List QueuedRequest)
    → any (is_request_of task) qs ≡ contains (tasks qs) task
unfolding contains
any-tasks task [] = refl
any-tasks task (q ∷ qs) = ground (arith, any-tasks task qs)

tasks-append :
    (qs : List QueuedRequest) (q : QueuedRequest)
    → tasks (qs ++ q ∷ []) ≡ tasks qs ++ q.task_id ∷ []
tasks-append [] q = refl
tasks-append (p ∷ qs) q = ap (◌∷◌ p.task_id) (tasks-append qs q)

acquire_normalized-IsSound :
    (m : ResourceManager) (task : String) (rs : List String) (clock : ℕ → ℕ)
    → IsSound m
    → IsSound (acquire_normalized m task rs clock).0
unfolding acquire_normalized
acquire_normalized-IsSound m task [] clock v = v
acquire_normalized-IsSound m task (r ∷ rs) clock v =
    let q : QueuedRequest = record { task_id = task; resources = r ∷ rs } in
    elim (Bool-cases (held_elsewhere m.held task (r ∷ rs))) [
      | inr free ↦ rw free (record {
        locks = lock_all-Distinct m.held task (r ∷ rs) clock v.locks;
        requests = v.requests;
      })
      | inl busy ↦ elim (Bool-cases (any (is_request_of task) m.queued)) [
        | inl old ↦ rw (busy, old) v
        | inr new ↦
            rw (busy, new)
              (record {
                locks = v.locks;
                requests = rw (tasks-append m.queued q) (
                    append-Distinct (tasks m.queued) task (sym (any-tasks task m.queued) ∙ new)
                      v.requests);
              })
      ]
    ]

pub data Call : Type 0 where
  acquire : String → List String → (ℕ → ℕ) → Call
  release : String → (ℕ → ℕ) → Call
  expire_locks : (ℕ → ℕ) → Call

unfoldable pub step : ResourceManager → Call → ResourceManager
step m (Call.acquire task rs clock) = (ResourceManager.acquire m task rs clock).0
step m (Call.release task clock) = (ResourceManager.release m task clock).0
step m (Call.expire_locks clock) = (ResourceManager.expire_locks m clock).0

step-IsSound : (m : ResourceManager) (c : Call) → IsSound m → IsSound (step m c)
unfolding step ResourceManager.acquire ResourceManager.release ResourceManager.expire_locks
step-IsSound m (Call.acquire task rs clock) v =
    acquire_normalized-IsSound m task (normalize rs) clock v
step-IsSound m (Call.release task clock) v = record {
  locks =
      grant_queued-locks (drop_locks m.held task) m.queued clock
        (drop_locks-Distinct m.held task v.locks);
  requests = grant_queued-requests (drop_locks m.held task) m.queued clock v.requests;
}
step-IsSound m (Call.expire_locks clock) v = record {
  locks = expire_into-Distinct m.max_lock_duration_ms m.held [] clock v.locks;
  requests = v.requests;
}

unfoldable pub run : ResourceManager → List Call → ResourceManager
run m [] = m
run m (c ∷ cs) = run (step m c) cs

-- In every history of calls a resource has at most one lock and a task at most one request in the
-- queue, if so at its start.
pub run-IsSound : (m : ResourceManager) (cs : List Call) → IsSound m → IsSound (run m cs)
unfolding run
run-IsSound m [] v = v
run-IsSound m (c ∷ cs) v = run-IsSound (step m c) cs (step-IsSound m c v)

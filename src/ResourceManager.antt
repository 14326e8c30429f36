-- ===== src/ResourceManager.antt =====
-- services/runtime/src/resource-manager.ts: exclusive locks on named resources, taken in batches,
-- and the queue of the requests that wait. `clock i` is the reading of `now()` that an operation
-- makes as its i-th, in whole milliseconds.
pub mod Locks
pub mod Granting
pub mod Stalls
pub mod Histories
mod Tests
use nova_test.Common.Map
use nova_test.Common.Map.{Map}
use nova_test.Common.Sort.{text_le, sort}
use nova_test.Common.{
  ℕ, zero, suc, ◌+◌, Bool, true, false, not, List, [], ◌∷◌, ◌++◌, String, Option, none, some,
  length, any, every, contains, add, leb, text_dec, if◌then◌else◌, or_else, take, map,
}
use mathlib.Core.Logic.{ite}

pub data LockStatus : Type 0 where
  granted queued : LockStatus

pub record LockGrant : Type 0 where
  pub status : LockStatus
  pub task_id : String
  pub resources : List String

pub record HeldLock : Type 0 where
  pub task_id : String
  pub acquired_at : ℕ

pub record HeldResourceLock : Type 0 where
  pub resource : String
  pub task_id : String
  pub acquired_at : ℕ

pub record QueuedRequest : Type 0 where
  pub task_id : String
  pub resources : List String

pub record ResourceManager : Type 0 where
  pub held : Map HeldLock
  pub queued : List QueuedRequest
  pub max_lock_duration_ms : ℕ

unfoldable pub new : Option ℕ → ResourceManager
new max = record { held = []; queued = []; max_lock_duration_ms = or_else max 60000 }

-- `[...new Set(resources)]`
unfoldable pub dedupe_into : List String → List String → List String
dedupe_into seen [] = seen
dedupe_into seen (r ∷ rs) = dedupe_into (add seen r) rs

unfoldable pub normalize : List String → List String
unfolding dedupe_into sort text_le
normalize resources = sort text_le (dedupe_into [] resources)

abbrev pub task_of : Option HeldLock → Option String
task_of none = none
task_of (some l) = some l.task_id

unfoldable pub holder : ResourceManager → String → Option String
holder m resource = task_of (Map.get m.held resource)

-- `held.has(resource) && held.get(resource)?.task_id !== taskId`
abbrev pub is_foreign : String → Option HeldLock → Bool
is_foreign task none = false
is_foreign task (some l) = ite (text_dec l.task_id task) false true

unfoldable pub held_elsewhere : Map HeldLock → String → List String → Bool
held_elsewhere held task = any (λ r. is_foreign task (Map.get held r))

-- The loops that store a lock for each resource of a request.
unfoldable pub lock_all : Map HeldLock → String → List String → (ℕ → ℕ) → Map HeldLock
lock_all held task [] clock = held
lock_all held task (r ∷ rs) clock =
    lock_all (Map.set held r (record { task_id = task; acquired_at = clock 0 })) task rs
      (λ i. clock (suc i))

abbrev pub is_request_of : String → QueuedRequest → Bool
is_request_of task q = ite (text_dec q.task_id task) true false

abbrev pub grant : LockStatus → String → List String → LockGrant
grant status task resources = record { status = status; task_id = task; resources = resources }

-- `acquire` on the sorted resources without repetitions; the result is never an error.
unfoldable pub acquire_normalized :
    ResourceManager → String → List String → (ℕ → ℕ) → ResourceManager × LockGrant
unfolding held_elsewhere lock_all
acquire_normalized m task [] clock = (m, grant granted task [])
acquire_normalized m task (r ∷ rs) clock =
    if held_elsewhere m.held task (r ∷ rs)
    then (
      if any (is_request_of task) m.queued
          then m
          else record m { queued = m.queued ++ record { task_id = task; resources = r ∷ rs } ∷ [] },
      grant queued task (r ∷ rs),
    )
    else (record m { held = lock_all m.held task (r ∷ rs) clock }, grant granted task (r ∷ rs))

unfoldable pub acquire :
    ResourceManager → String → List String → (ℕ → ℕ) → ResourceManager × LockGrant
unfolding normalize acquire_normalized
acquire m task resources clock = acquire_normalized m task (normalize resources) clock

-- The first loop of `release`.
unfoldable pub drop_locks : Map HeldLock → String → Map HeldLock
drop_locks [] task = []
drop_locks ((r, l) ∷ held) task =
    ite (text_dec l.task_id task) (drop_locks held task) ((r, l) ∷ drop_locks held task)

unfoldable pub is_free : Map HeldLock → List String → Bool
is_free held = every (λ r. not (Map.has held r))

-- The second loop of `release`: the locks, the requests left in the queue, and the tasks that were
-- granted theirs.
unfoldable pub grant_queued :
    Map HeldLock → List QueuedRequest → (ℕ → ℕ) → Map HeldLock × List QueuedRequest × List String
unfolding is_free lock_all
grant_queued held [] clock = (held, [], [])
grant_queued held (q ∷ qs) clock =
    let locked =
      grant_queued (lock_all held q.task_id q.resources clock) qs
        (λ i. clock (length q.resources + i)) in
    let skipped = grant_queued held qs clock in
    if is_free held q.resources
    then (locked.0, locked.1, q.task_id ∷ locked.2)
    else (skipped.0, q ∷ skipped.1, skipped.2)

unfoldable pub release : ResourceManager → String → (ℕ → ℕ) → ResourceManager × List String
unfolding drop_locks grant_queued
release m task clock =
    let done = grant_queued (drop_locks m.held task) m.queued clock in
    (record m { held = done.0; queued = done.1 }, done.2)

-- `listHeldLocks`, over the locale order of the platform.
unfoldable pub list_held_locks : (String → String → Bool) → ResourceManager → List HeldResourceLock
list_held_locks locale_le m =
    map (λ e. record { resource = e.0; task_id = e.1.task_id; acquired_at = e.1.acquired_at })
      (take 256 (sort (λ a b. locale_le a.0 b.0) m.held))

-- `expireLocks`: the locks that stay, and the tasks that lost one.
unfoldable pub expire_into : ℕ → Map HeldLock → List String → (ℕ → ℕ) → Map HeldLock × List String
expire_into max [] expired clock = ([], expired)
expire_into max ((r, l) ∷ held) expired clock =
    let over = leb (l.acquired_at + max) (clock 0) in
    let rest =
      expire_into max held (if over then add expired l.task_id else expired) (λ i. clock (suc i)) in
    (if over then rest.0 else (r, l) ∷ rest.0, rest.1)

unfoldable pub expire_locks : ResourceManager → (ℕ → ℕ) → ResourceManager × List String
unfolding expire_into
expire_locks m clock =
    let done = expire_into m.max_lock_duration_ms m.held [] clock in
    (record m { held = done.0 }, done.1)

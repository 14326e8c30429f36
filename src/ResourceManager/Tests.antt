-- ===== src/ResourceManager/Tests.antt =====
-- Runs of services/runtime/src/resource-manager.ts, and its theorems at concrete locks.
use nova_test.Common.Map
use nova_test.Common.Sort.{text_le, sort}
use nova_test.Common.{
  ℕ, ◌≡◌, refl, ◌⊎◌, inl, [], ◌∷◌, String, none, some, arith, contains, add, text_dec, In, Distinct,
  text-ne, true,
}
use nova_test.ResourceManager.{
  ResourceManager, HeldLock, QueuedRequest, holder, acquire, release, expire_locks, is_free, new,
}
use nova_test.ResourceManager.Locks.{Answers, acquire-Answers}
use nova_test.ResourceManager.Granting.{Releases, release-Releases}
use nova_test.ResourceManager.Stalls.{release_self_blocked, expire_strands}

program : Unit {0}
unfolding text_dec contains add Map.get Map.set text_le sort new holder acquire release expire_locks
program = tt

abbrev clock : ℕ → ℕ
clock i = 1000

abbrev initial : ResourceManager
initial = record { held = []; queued = []; max_lock_duration_ms = 100 }

abbrev lock : String → HeldLock
lock task = record { task_id = task; acquired_at = 1000 }

-- Task b waits for the file that task a holds.
abbrev contended : ResourceManager
contended = record initial {
  held = ("file:a", lock "a") ∷ ("file:b", lock "a") ∷ [];
  queued = record { task_id = "b"; resources = "file:a" ∷ "file:c" ∷ [] } ∷ [];
}

contended_run :
    (acquire
      (acquire initial "a" ("file:b" ∷ "file:a" ∷ []) clock).0
      "b"
      ("file:c" ∷ "file:a" ∷ [])
      clock).0
    ≡ contended
unfolding program
contended_run = refl

granted_after_release : (release contended "a" clock).1 ≡ "b" ∷ []
unfolding program
granted_after_release = refl

acquire-Answers_example :
    Answers contended "b" (contains ("file:a" ∷ [])) (acquire contended "b" ("file:a" ∷ []) clock)
acquire-Answers_example = acquire-Answers contended "b" ("file:a" ∷ []) clock

contended-Distinct : Distinct (Map.keys contended.held)
unfolding program
contended-Distinct = (refl, (refl, tt))

release-Releases_example : Releases contended "a" (release contended "a" clock)
release-Releases_example = release-Releases contended "a" clock contended-Distinct

expire_strands_example :
    ((expire_locks contended (λ _. 1100)).0.held ≡ [])
    × ((expire_locks contended (λ _. 1100)).0.queued ≡ contended.queued)
    × ((q : QueuedRequest)
        → In q contended.queued
        → is_free (expire_locks contended (λ _. 1100)).0.held q.resources ≡ true)
expire_strands_example = expire_strands contended (λ _. 1100) (omega arith, (omega arith, tt))

-- Task b holds one file and waits for both.
abbrev request : QueuedRequest
request = record { task_id = "b"; resources = "file:a" ∷ "file:b" ∷ [] }

abbrev half : ResourceManager
half = record initial {
  held = ("file:a", lock "a") ∷ ("file:b", lock "b") ∷ [];
  queued = request ∷ [];
}

half_run :
    (acquire
      (acquire (acquire initial "a" ("file:a" ∷ []) clock).0 "b" ("file:b" ∷ []) clock).0
      "b"
      ("file:a" ∷ "file:b" ∷ [])
      clock).0
    ≡ half
unfolding program
half_run = refl

release_self_blocked_example : In request (release half "a" clock).0.queued
unfolding program
release_self_blocked_example =
    release_self_blocked half "a" clock request "file:b" (refl, (refl, tt)) (inl refl) refl refl
      (text-ne "b" "a" refl)

-- The lock that task b waited for expired, and b took it anew: its old request is still queued.
abbrev stale_request : QueuedRequest
stale_request = record { task_id = "b"; resources = "file:a" ∷ [] }

abbrev stale : ResourceManager
stale = record initial { held = ("file:a", lock "b") ∷ []; queued = stale_request ∷ [] }

stale_run :
    (acquire
      (expire_locks
        (acquire (acquire initial "a" ("file:a" ∷ []) (λ _. 0)).0 "b" ("file:a" ∷ []) (λ _. 50)).0
        (λ _. 100)).0
      "b"
      ("file:a" ∷ [])
      clock).0
    ≡ stale
unfolding program
stale_run = refl

stale_owner :
    (r : String)
    → contains stale_request.resources r ≡ true
    → (holder stale r ≡ none) ⊎ (holder stale r ≡ some "b")
unfolding contains holder Map.get
stale_owner r h = ground arith

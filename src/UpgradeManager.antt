-- ===== src/UpgradeManager.antt =====
-- services/runtime/src/upgrade-manager.ts: an upgrade through a chain of migrations, and its
-- recovery. The adapter is what its functions answer; `none` and `false` stand for a rejected
-- promise, and in the two hooks the outer `none` for a missing one. No function is called twice with the same
-- arguments, so that answers suffice. The calls of an upgrade are listed in order.
mod Attempts
pub mod Recovery
mod Tests
use nova_test.Common.{
  ℕ, zero, suc, ◌-◌, Bool, true, false, not, ◌&&◌, List, [], ◌∷◌, ◌++◌, String, Option, none, some,
  ltb, ◌==◌, if◌then◌else◌, is_some,
}
use nova_test.Shared.{ErrorInfo, Result, ok, err, nova_evt002}

pub record UpgradeRequest : Type 0 where
  pub current_version : ℕ
  pub target_version : ℕ

pub record UpgradeAdapter : Type 0 where
  pub snapshot : Option String
  pub pause_in_flight : Option Bool
  pub migrate : ℕ → ℕ → Option ℕ
  pub update_plugins : Bool
  pub verify : Option Bool
  pub resume_after_upgrade : Option Bool
  pub rollback : String → Bool

-- `{ status: "Upgraded", version }`
pub record UpgradeResult : Type 0 where
  pub version : ℕ

pub data Call : Type 0 where
  snapshot pause_in_flight update_plugins verify resume_after_upgrade : Call
  migrate : ℕ → ℕ → Call
  rollback : String → Call

-- The `try` block: its calls, whether it ran to its end, and the variables that `catch` reads.
pub record Attempt : Type 0 where
  pub calls : List Call
  pub completed : Bool
  pub snapshot_id : Option String
  pub paused : Bool
  pub resume_attempted : Bool

abbrev pub recovery_error : String → ErrorInfo
recovery_error message = record {
  code = nova_evt002;
  message = message;
  retryable = false;
  details = [];
}

abbrev pub after : Call → Attempt → Attempt
after c a = record a { calls = c ∷ a.calls }

abbrev pub ended : Bool → String → Bool → Bool → List Call → Attempt
ended completed id paused resumed calls = record {
  calls = calls;
  completed = completed;
  snapshot_id = some id;
  paused = paused;
  resume_attempted = resumed;
}

-- The resumption after the verification, on the hook's answer.
unfoldable pub resumed : String → Option Bool → Attempt
resumed id none = ended true id true false []
resumed id (some done) = ended done id true true (resume_after_upgrade ∷ [])

unfoldable pub resume : UpgradeAdapter → String → Bool → Attempt
unfolding resumed
resume a id false = ended true id false false []
resume a id true = resumed id a.resume_after_upgrade

unfoldable pub checked : String → Bool → Option Bool → Attempt → Attempt
checked id paused (some true) rest = after verify rest
checked id paused _ rest = ended false id paused false (verify ∷ [])

unfoldable pub check : UpgradeAdapter → String → Bool → Attempt
unfolding resume checked
check a id paused = checked id paused a.verify (resume a id paused)

unfoldable pub update : UpgradeAdapter → String → Bool → Attempt
unfolding check
update a id paused =
    if a.update_plugins
    then after update_plugins (check a id paused)
    else ended false id paused false (update_plugins ∷ [])

-- One pass of the loop over the versions: on the answer of `migrate`, and with what follows it.
unfoldable pub migrated : String → Bool → ℕ → Option ℕ → Attempt → Attempt
migrated id paused version none rest =
    ended false id paused false (migrate version (suc version) ∷ [])
migrated id paused version (some reached) rest =
    if reached == suc version
    then after (migrate version (suc version)) rest
    else ended false id paused false (migrate version (suc version) ∷ [])

-- The loop, with the number of versions to go.
unfoldable pub migrate_all : UpgradeAdapter → String → Bool → ℕ → ℕ → Attempt
unfolding update migrated
migrate_all a id paused version zero = update a id paused
migrate_all a id paused version (suc n) =
    migrated id paused version (a.migrate version (suc version))
      (migrate_all a id paused (suc version) n)

-- The pause, on the hook's answer: what follows without it and after it.
unfoldable pub pausing : String → Option Bool → Attempt → Attempt → Attempt
pausing id none off on = off
pausing id (some false) off on = ended false id false false (pause_in_flight ∷ [])
pausing id (some true) off on = after pause_in_flight on

unfoldable pub pause : UpgradeAdapter → String → UpgradeRequest → Attempt
unfolding migrate_all pausing
pause a id r =
    pausing id a.pause_in_flight
      (migrate_all a id false r.current_version (r.target_version - r.current_version))
      (migrate_all a id true r.current_version (r.target_version - r.current_version))

unfoldable pub attempt : UpgradeAdapter → UpgradeRequest → Attempt
unfolding pause
attempt a r = elim a.snapshot [
  | none ↦ record {
    calls = snapshot ∷ [];
    completed = false;
    snapshot_id = none;
    paused = false;
    resume_attempted = false;
  }
  | some id ↦ after snapshot (pause a id r)
]

abbrev pub failed : String → Result UpgradeResult
failed message = err (recovery_error message)

-- The second half of `catch`: the resumption of the tasks.
unfoldable pub resume_tasks : UpgradeAdapter → Attempt → List Call × Result UpgradeResult
resume_tasks a t =
    if t.paused && not t.resume_attempted
    then elim a.resume_after_upgrade [
      | none ↦ ([], failed "Upgrade failed and was rolled back to the pre-upgrade snapshot.")
      | some true ↦ (
        resume_after_upgrade ∷ [],
        failed "Upgrade failed and was rolled back to the pre-upgrade snapshot.",
      )
      | some false ↦ (
        resume_after_upgrade ∷ [],
        failed "Upgrade rollback succeeded but task resumption failed.",
      )
    ]
    else ([], failed "Upgrade failed and was rolled back to the pre-upgrade snapshot.")

unfoldable pub recover : UpgradeAdapter → Attempt → List Call × Result UpgradeResult
unfolding resume_tasks
recover a t = elim t.snapshot_id [
  | none ↦ resume_tasks a t
  | some id ↦
      if a.rollback id
      then (rollback id ∷ (resume_tasks a t).0, (resume_tasks a t).1)
      else (rollback id ∷ [], failed "Upgrade and rollback both failed.")
]

-- The two hooks are given together or not at all.
abbrev pub same_hooks : UpgradeAdapter → Bool
same_hooks a =
    if is_some a.pause_in_flight
    then is_some a.resume_after_upgrade
    else not (is_some a.resume_after_upgrade)

unfoldable pub conclude :
    UpgradeAdapter → UpgradeRequest → Attempt → List Call × Result UpgradeResult
unfolding recover
conclude a r t =
    if t.completed
    then (t.calls, ok (record { version = r.target_version }))
    else (t.calls ++ (recover a t).0, (recover a t).1)

unfoldable pub upgrade : UpgradeAdapter → UpgradeRequest → List Call × Result UpgradeResult
unfolding attempt conclude
upgrade a r =
    if ltb r.target_version r.current_version
    then ([], failed "Downgrade is not supported by the forward-only migration chain.")
    else if r.target_version == r.current_version
    then ([], ok (record { version = r.current_version }))
    else if same_hooks a
    then conclude a r (attempt a r)
    else ([], failed "Upgrade pause and resume hooks must be configured together.")

-- ===== src/TaskManager/Restore.antt =====
-- `restore` of services/runtime/src/task-manager.ts: what a restart reads back.
use nova_test.Common.Map
use nova_test.Common.{
  ℕ, ◌≡◌, refl, ◌≢◌, String, List, [], ◌∷◌, Option, none, some, arith, text_dec, Option-cases, inl,
  inr, All, ◌⊎◌,
}
use mathlib.Core.Logic.{ite}
use nova_test.TaskManager.{
  TaskManager, TaskRecord, TaskState, TaskState-discrete, executing, verifying, unverified, restore,
  restore_into, recovered,
}
use nova_test.TaskManager.Invariant.{IsGood, IsValid, recovered-IsGood, set-IsValid}

-- The state of a task after a restart: what was under way is unverified.
pub data Resumes : TaskState → TaskState → Type 0 where
  interrupted : {s t : TaskState} → (s ≡ executing) ⊎ (s ≡ verifying) → t ≡ unverified → Resumes s t
  untouched : {s t : TaskState} → s ≢ executing → s ≢ verifying → t ≡ s → Resumes s t

module _ {Step : Type 0} where
  -- The last of the persisted records that has the identifier.
  pub last_with : List (TaskRecord Step) → String → Option (TaskRecord Step)
  last_with [] id = none
  last_with (r ∷ rs) id = elim (last_with rs id) [
    | some r' ↦ some r'
    | none ↦ ite (text_dec r.task_id id) (some r) none
  ]

  get-restore_into :
      (tasks : Map.Map (TaskRecord Step)) (rs : List (TaskRecord Step)) (id : String)
      → Map.get (restore_into tasks rs) id
        ≡ elim (last_with rs id) [ some r ↦ some (recovered r) | none ↦ Map.get tasks id ]
  unfolding restore_into last_with
  get-restore_into tasks [] id = refl
  get-restore_into tasks (r ∷ rs) id = ground (
    arith,
    get-restore_into (Map.set tasks r.task_id (recovered r)) rs id,
    Map.get-set tasks r.task_id (recovered r) id,
  )

  -- What is read for a persisted record: all of it but its state.
  pub data IsReadAs : Option (TaskRecord Step) → Option (TaskRecord Step) → Type 0 where
    unknown : {old new : Option (TaskRecord Step)} → old ≡ none → new ≡ none → IsReadAs old new
    known :
        {old new : Option (TaskRecord Step)} (o : TaskRecord Step) (state : TaskState)
        → old ≡ some o
        → new ≡ some (record o { state = state })
        → Resumes o.state state
        → IsReadAs old new

  recovered-Resumes : (r : TaskRecord Step) → Resumes r.state (recovered r).state
  unfolding recovered
  recovered-Resumes r = elim (TaskState-discrete r.state executing) [
    | yes p ↦ interrupted (inl p) (ground arith)
    | no n ↦ elim (TaskState-discrete r.state verifying) [
      | yes q ↦ interrupted (inr q) (ground arith)
      | no k ↦ untouched n k (ground arith)
    ]
  ]

  -- After `restore`, what is read under an identifier is the last persisted record that has it, with
  -- every field as it was but for the state, which is Unverified if it was Executing or Verifying and
  -- otherwise unchanged; other identifiers are unknown, whatever the manager held before.
  pub get-restore :
      (m : TaskManager Step) (rs : List (TaskRecord Step)) (id : String)
      → IsReadAs (last_with rs id) (Map.get (restore m rs).tasks id)
  unfolding restore Map.get recovered
  get-restore m rs id = elim (Option-cases (last_with rs id)) [
    | inl e ↦ unknown e (ground (arith, get-restore_into [] rs id))
    | inr (o, e) ↦
        known o (recovered o).state e (ground (arith, get-restore_into [] rs id))
          (recovered-Resumes o)
  ]

  restore_into-IsValid :
      (max : ℕ) (tasks : Map.Map (TaskRecord Step)) (rs : List (TaskRecord Step))
      → IsValid (record { tasks = tasks; max_retries = max })
      → All (λ r. IsGood max r.task_id r) rs
      → IsValid (record { tasks = restore_into tasks rs; max_retries = max })
  unfolding restore_into
  restore_into-IsValid max tasks [] v g = v
  restore_into-IsValid max tasks (r ∷ rs) v g =
      restore_into-IsValid max (Map.set tasks r.task_id (recovered r)) rs
        (set-IsValid (record { tasks = tasks; max_retries = max }) r.task_id (recovered r) v
          (recovered-IsGood max r.task_id r g.0))
        g.1

  -- Good persisted records restore to a valid manager.
  pub restore-IsValid :
      (m : TaskManager Step) (rs : List (TaskRecord Step))
      → All (λ r. IsGood m.max_retries r.task_id r) rs
      → IsValid (restore m rs)
  unfolding restore
  restore-IsValid m rs g =
      restore_into-IsValid m.max_retries [] rs (record { distinct = tt; good = tt }) g

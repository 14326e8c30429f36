-- ===== src/TaskManager/Histories.antt =====
-- Histories of calls of services/runtime/src/task-manager.ts: terminal tasks and the retry budget.
-- In a history the tasks are not replaced by `restore`.
use nova_test.Common.Map
use nova_test.Common.{
  ℕ, ◌≡◌, refl, ◌≢◌, ◌⊎◌, String, List, [], ◌∷◌, Option, none, some, arith, text_dec, Option-cases,
  inl, inr, ◌+◌, ◌≤◌, Bool, false, if◌then◌else◌, ◌∙◌, includes, not, ◌&&◌,
}
use nova_test.Shared.{ok}
use nova_test.TaskManager.{
  TaskManager, TaskRecord, TaskState, Reason, transition, transitions, TaskState-discrete,
  completed, cancelled, retrying, is_retrying,
}
use nova_test.TaskManager.Calls.{Call, step, run}
use nova_test.TaskManager.Diagram.{Arrow, includes_of_Arrow, transition-ok_iff}
use nova_test.TaskManager.Invariant.{IsGood, IsValid, run-IsValid}
use nova_test.TaskManager.Outcome.{subject, Change, born, moved, kept, step-Outcome, step_frame}

abbrev pub IsDone : TaskState → Type 0
IsDone s = (s ≡ completed) ⊎ (s ≡ cancelled)

IsDone-no-Arrow : {s t : TaskState} → Arrow s t → ¬ IsDone s
unfolding includes transitions TaskState-discrete
IsDone-no-Arrow {s} {t} a d = ground (arith, includes_of_Arrow a)

retrying-Arrow : {s t : TaskState} → Arrow s t → s ≡ retrying → t ≢ retrying
unfolding includes transitions TaskState-discrete
retrying-Arrow {s} {t} a d = ground (arith, includes_of_Arrow a)

module _ {Step : Type 0} where
  Change-done :
      (m : TaskManager Step) (old : Option (TaskRecord Step)) (o r : TaskRecord Step)
      → Change m old r
      → old ≡ some o
      → IsDone o.state
      → r.state ≡ o.state
  Change-done m old o r (born e _ _) p d = cc
  Change-done m old o r (moved o' e a _ _) p d =
      absurd (IsDone-no-Arrow a (let q : o' ≡ o = ground arith in rw q d))
  Change-done m old o r (kept o' e s _) p d = ground arith

  step_done :
      (m : TaskManager Step) (c : Call Step) (id : String) (o : TaskRecord Step)
      → Map.get m.tasks id ≡ some o
      → IsDone o.state
      → (r : TaskRecord Step) × (Map.get (step m c).tasks id ≡ some r) × (r.state ≡ o.state)
  step_done m c id o e d = elim (text_dec (subject c) id) [
    | no n ↦ (o, step_frame m c id n ∙ e, refl)
    | yes p ↦ elim (step-Outcome m c) [
      | inl q ↦ (o, rw q e, refl)
      | inr (r, q, change) ↦ (
        r,
        rw (q, ← p) (Map.get-set_self m.tasks (subject c) r),
        Change-done m (Map.get m.tasks (subject c)) o r change (rw p e) d,
      )
    ]
  ]

  -- A task that is Completed or Cancelled stays in that state whatever calls of `create`,
  -- `transition`, `assignOwner` and `appendStepHistory` are made, and every later transition of it is
  -- refused. This does not hold of `restore`, which replaces all tasks.
  pub run_done :
      (m : TaskManager Step) (cs : List (Call Step)) (id : String) (o : TaskRecord Step)
      → Map.get m.tasks id ≡ some o
      → IsDone o.state
      → (r : TaskRecord Step) × (Map.get (run m cs).tasks id ≡ some r)
        × (r.state ≡ o.state)
        × ((target : TaskState) (reason : Option Reason) (now : String)
            → (r' : TaskRecord Step) → (transition (run m cs) id target reason now).1 ≢ ok r')
  unfolding run
  run_done m [] id o e d = (
    o,
    e,
    refl,
    λ target reason now r' h.
        let (c, a) = (transition-ok_iff m id target reason now).0 (r', h) in
        let q : c ≡ o = ground (arith, a.found) in IsDone-no-Arrow a.arrow (rw q d),
  )
  run_done m (c ∷ cs) id o e d =
      let (o', e', s) = step_done m c id o e d in
      let (r, f, t, refused) = run_done (step m c) cs id o' e' (rw s d) in (r, f, t ∙ s, refused)

  abbrev pub retries_of : Option (TaskRecord Step) → ℕ
  retries_of none = 0
  retries_of (some r) = r.retry_count

  abbrev pub is_retrying_at : Option (TaskRecord Step) → Bool
  is_retrying_at none = false
  is_retrying_at (some r) = is_retrying r.state

  -- 1 if the call takes the task into Retrying
  entered : TaskManager Step → Call Step → String → ℕ
  entered m c id =
      if not (is_retrying_at (Map.get m.tasks id)) && is_retrying_at (Map.get (step m c).tasks id)
      then 1
      else 0

  -- How often the task enters Retrying in a history.
  pub entries : TaskManager Step → List (Call Step) → String → ℕ
  entries m [] id = 0
  entries m (c ∷ cs) id = entered m c id + entries (step m c) cs id

  entered-Change :
      (m : TaskManager Step) (old : Option (TaskRecord Step)) (r : TaskRecord Step)
      → Change m old r
      → (if not (is_retrying_at old) && is_retrying r.state then 1 else 0) + retries_of old
        ≡ r.retry_count
  entered-Change m old r (born e s n) = ground arith
  entered-Change m old r (moved o e a more same) = ground (arith, retrying-Arrow a)
  entered-Change m old r (kept o e s n) = ground arith

  entered-retries :
      (m : TaskManager Step) (c : Call Step) (id : String)
      → entered m c id + retries_of (Map.get m.tasks id) ≡ retries_of (Map.get (step m c).tasks id)
  unfolding entered
  entered-retries m c id = elim (text_dec (subject c) id) [
    | no n ↦ rw (step_frame m c id n) (ground arith)
    | yes p ↦ elim (step-Outcome m c) [
      | inl q ↦ rw q (ground arith)
      | inr (r, q, change) ↦
          rw (q, ← p, Map.get-set_self m.tasks (subject c) r)
            (entered-Change m (Map.get m.tasks (subject c)) r change)
    ]
  ]

  entries-retries :
      (m : TaskManager Step) (cs : List (Call Step)) (id : String)
      → entries m cs id + retries_of (Map.get m.tasks id) ≡ retries_of (Map.get (run m cs).tasks id)
  unfolding entries run
  entries-retries m [] id = omega arith
  entries-retries m (c ∷ cs) id =
      omega (arith, entered-retries m c id, entries-retries (step m c) cs id)

  step-max_retries : (m : TaskManager Step) (c : Call Step) → (step m c).max_retries ≡ m.max_retries
  step-max_retries m c = elim (step-Outcome m c) [ inl q ↦ rw q | inr (r, q, _) ↦ rw q ]

  run-max_retries :
      (m : TaskManager Step) (cs : List (Call Step)) → (run m cs).max_retries ≡ m.max_retries
  unfolding run
  run-max_retries m [] = refl
  run-max_retries m (c ∷ cs) = run-max_retries (step m c) cs ∙ step-max_retries m c

  retries_of-le :
      (m : TaskManager Step) (id : String)
      → IsValid m
      → retries_of (Map.get m.tasks id) ≤ m.max_retries
  retries_of-le m id v = elim (Option-cases (Map.get m.tasks id)) [
    | inl e ↦ rw e (omega arith)
    | inr (r, e) ↦ rw e (Map.get-All (IsGood m.max_retries) m.tasks id r v.good e).budget
  ]

  -- In any history of calls of `create`, `transition`, `assignOwner` and `appendStepHistory` on a valid
  -- manager, a task enters Retrying exactly as often as its retry count grows, and its entries and the
  -- retries that it had before stay within the budget together. A `restore`, which replaces all tasks,
  -- ends the history.
  pub entries_bounded :
      (m : TaskManager Step) (cs : List (Call Step)) (id : String)
      → IsValid m
      → (entries m cs id + retries_of (Map.get m.tasks id)
          ≡ retries_of (Map.get (run m cs).tasks id))
        × (entries m cs id + retries_of (Map.get m.tasks id) ≤ m.max_retries)
  entries_bounded m cs id v = (
    entries-retries m cs id,
    omega (
      arith,
      entries-retries m cs id,
      retries_of-le (run m cs) id (run-IsValid m cs v),
      run-max_retries m cs,
    ),
  )

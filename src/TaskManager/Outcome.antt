-- ===== src/TaskManager/Outcome.antt =====
-- What a call on one task does to the others, in
-- services/runtime/src/task-manager.ts.
use nova_test.Common.Map
use nova_test.Common.{
  ◌≡◌, refl, ◌≢◌, ◌⊎◌, String, [], ◌∷◌, Option, none, some, arith, or_else, text_dec, Option-cases,
  Bool-cases, inl, inr, ◌+◌, ◌<◌, ◌&&◌, ◌++◌,
}
use nova_test.TaskManager.{
  TaskManager, TaskRecord, TaskState, TaskInput, Reason, create, transition, assign_owner,
  append_step_history, refusal, next_record, fresh_record, is_waiting_user, differs, created,
  retrying,
}
use nova_test.TaskManager.Diagram.{Arrow, Arrow-of_includes, refusal-none_inv}
use nova_test.TaskManager.Calls.{Call, step}

module _ {Step : Type 0} where
  -- The task that a call is about.
  unfoldable pub subject : Call Step → String
  subject (Call.create input uuid uuid' now) = or_else input.task_id uuid
  subject (Call.transition id target reason now) = id
  subject (Call.assign_owner id device now) = id
  subject (Call.append_step_history id s now) = id

  abbrev pub put : TaskManager Step → String → TaskRecord Step → TaskManager Step
  put m id r = record m { tasks = Map.set m.tasks id r }

  -- What a call does to the record under its identifier.
  pub data Change (m : TaskManager Step) (old : Option (TaskRecord Step)) (r : TaskRecord Step)
      : Type 0 where
    born : old ≡ none → r.state ≡ created → r.retry_count ≡ 0 → Change m old r
    moved :
        (o : TaskRecord Step)
        → old ≡ some o
        → Arrow o.state r.state
        → (r.state ≡ retrying
            → (r.retry_count ≡ o.retry_count + 1) × (o.retry_count < m.max_retries))
        → (r.state ≢ retrying → r.retry_count ≡ o.retry_count)
        → Change m old r
    kept :
        (o : TaskRecord Step)
        → old ≡ some o
        → r.state ≡ o.state
        → r.retry_count ≡ o.retry_count
        → Change m old r

  -- A call changes nothing, or stores one record under its task's identifier.
  abbrev pub Outcome : TaskManager Step → Call Step → Type 0
  Outcome m c =
      (step m c ≡ m)
      ⊎ ((r : TaskRecord Step) × (step m c ≡ put m (subject c) r)
          × Change m (Map.get m.tasks (subject c)) r)

  create-Outcome :
      (m : TaskManager Step) (input : TaskInput) (uuid uuid' now : String)
      → Outcome m (Call.create input uuid uuid' now)
  unfolding step subject create fresh_record
  create-Outcome m input uuid uuid' now =
      let id = or_else input.task_id uuid in
      elim (Option-cases (Map.get m.tasks id)) [
        | inl e ↦ inr (
          fresh_record input id (or_else input.correlation_id uuid') now,
          ground arith,
          born e refl refl,
        )
        | inr (o, e) ↦ inl (ground arith)
      ]

  transition-Change :
      (m : TaskManager Step) (id : String) (target : TaskState) (reason : Option Reason)
      (now : String) (o : TaskRecord Step)
      → Map.get m.tasks id ≡ some o
      → refusal m.max_retries id o target reason ≡ none
      → Change m (Map.get m.tasks id) (next_record o target reason now)
  unfolding next_record
  transition-Change m id target reason now o e f =
      let (i, _, g) = refusal-none_inv m.max_retries id o target reason f in
      moved o e (Arrow-of_includes o.state target i) (ground arith) (ground arith)

  transition-Outcome :
      (m : TaskManager Step) (id : String) (target : TaskState) (reason : Option Reason)
      (now : String)
      → Outcome m (Call.transition id target reason now)
  unfolding step subject transition
  transition-Outcome m id target reason now = elim (Option-cases (Map.get m.tasks id)) [
    | inl e ↦ inl (ground arith)
    | inr (o, e) ↦ elim (Option-cases (refusal m.max_retries id o target reason)) [
      | inr (x, f) ↦ inl (ground arith)
      | inl f ↦ inr (
        next_record o target reason now,
        ground arith,
        transition-Change m id target reason now o e f,
      )
    ]
  ]

  assign_owner-Outcome :
      (m : TaskManager Step) (id device now : String) → Outcome m (Call.assign_owner id device now)
  unfolding step subject assign_owner
  assign_owner-Outcome m id device now = elim (Option-cases (Map.get m.tasks id)) [
    | inl e ↦ inl (ground arith)
    | inr (o, e) ↦
        let r : TaskRecord Step = record o { owner_device_id = some device; updated_at = now } in
        elim (text_dec device "") [
          | yes p ↦ inl (ground arith)
          | no p ↦ elim (Bool-cases (is_waiting_user o.state && differs o.owner_device_id device)) [
            | inl t ↦ inl (ground arith)
            | inr f ↦ inr (r, ground arith, kept o e refl refl)
          ]
        ]
  ]

  append_step_history-Outcome :
      (m : TaskManager Step) (id : String) (s : Step) (now : String)
      → Outcome m (Call.append_step_history id s now)
  unfolding step subject append_step_history
  append_step_history-Outcome m id s now = elim (Option-cases (Map.get m.tasks id)) [
    | inl e ↦ inl (ground arith)
    | inr (o, e) ↦ inr (
      record o { step_history = o.step_history ++ s ∷ []; updated_at = now },
      ground arith,
      kept o e refl refl,
    )
  ]

  pub step-Outcome : (m : TaskManager Step) (c : Call Step) → Outcome m c
  step-Outcome m (Call.create input uuid uuid' now) = create-Outcome m input uuid uuid' now
  step-Outcome m (Call.transition id target reason now) = transition-Outcome m id target reason now
  step-Outcome m (Call.assign_owner id device now) = assign_owner-Outcome m id device now
  step-Outcome m (Call.append_step_history id s now) = append_step_history-Outcome m id s now

  -- A call leaves the record of every task but its own as it was.
  pub step_frame :
      (m : TaskManager Step) (c : Call Step) (j : String)
      → subject c ≢ j
      → Map.get (step m c).tasks j ≡ Map.get m.tasks j
  step_frame m c j h = elim (step-Outcome m c) [
    | inl e ↦ rw e
    | inr (r, e, _) ↦ rw e (Map.get-set_ne m.tasks (subject c) r j h)
  ]

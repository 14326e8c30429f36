-- ===== src/TaskManager/Invariant.antt =====
-- What holds of every task record, and that the operations of
-- services/runtime/src/task-manager.ts keep it.
use nova_test.Common.Map
use nova_test.Common.{
  ℕ, ◌≤◌, ◌≡◌, String, List, [], ◌∷◌, Option, none, some, arith, Distinct, is_some, Bool-cases,
  Option-cases, inl, inr, or_else,
}
use nova_test.TaskManager.{
  TaskManager, TaskRecord, TaskInput, TaskState, Reason, create, transition, assign_owner,
  append_step_history, refusal, next_record, recovered, fresh_record, is_waiting_user, is_stopped,
  new,
}
use nova_test.TaskManager.Calls.{Call, step, run}

module _ {Step : Type 0} where
  -- A record stands under its own identifier, has not been retried more often than the budget
  -- allows, has a blocking reason exactly while it waits for the user, and an end reason exactly
  -- while it is cancelled or failed.
  pub record IsGood (max : ℕ) (k : String) (r : TaskRecord Step) : Type 0 where
    pub named : k ≡ r.task_id
    pub budget : r.retry_count ≤ max
    pub waiting : is_some r.waiting_user_reason ≡ is_waiting_user r.state
    pub stopped : is_some r.reason ≡ is_stopped r.state

  pub record IsValid (m : TaskManager Step) : Type 0 where
    pub distinct : Distinct (Map.keys m.tasks)
    pub good : Map.All (IsGood m.max_retries) m.tasks

  fresh_record-IsGood :
      (max : ℕ) (input : TaskInput) (id correlation now : String)
      → IsGood max id (fresh_record input id correlation now)
  unfolding fresh_record
  fresh_record-IsGood max input id correlation now = ground arith

  next_record-IsGood :
      (max : ℕ) (k id : String) (r : TaskRecord Step) (target : TaskState) (reason : Option Reason)
      (now : String)
      → IsGood max k r
      → refusal max id r target reason ≡ none
      → IsGood max k (next_record r target reason now)
  unfolding refusal next_record
  next_record-IsGood max k id r target reason now h e = ground arith

  pub recovered-IsGood :
      (max : ℕ) (k : String) (r : TaskRecord Step) → IsGood max k r → IsGood max k (recovered r)
  unfolding recovered
  recovered-IsGood max k r h = ground arith

  pub set-IsValid :
      (m : TaskManager Step) (k : String) (r : TaskRecord Step)
      → IsValid m
      → IsGood m.max_retries k r
      → IsValid (record m { tasks = Map.set m.tasks k r })
  set-IsValid m k r v g = record {
    distinct = Map.set-Distinct m.tasks k r v.distinct;
    good = Map.set-All (IsGood m.max_retries) m.tasks k r v.good g;
  }

  create-IsValid :
      (m : TaskManager Step) (input : TaskInput) (uuid uuid' now : String)
      → IsValid m
      → IsValid (create m input uuid uuid' now).0
  unfolding create
  create-IsValid m input uuid uuid' now v =
      let id = or_else input.task_id uuid in
      elim (Bool-cases (Map.has m.tasks id)) [
        | inl old ↦ rw old v
        | inr new ↦ rw new (set-IsValid m id _ v (fresh_record-IsGood m.max_retries input id _ now))
      ]

  IsGood-at :
      (m : TaskManager Step) (id : String) {r : TaskRecord Step}
      → IsValid m
      → Map.get m.tasks id ≡ some r
      → IsGood m.max_retries id r
  IsGood-at m id {r} v e = Map.get-All (IsGood m.max_retries) m.tasks id r v.good e

  transition-IsValid :
      (m : TaskManager Step) (id : String) (target : TaskState) (reason : Option Reason)
      (now : String)
      → IsValid m
      → IsValid (transition m id target reason now).0
  unfolding transition
  transition-IsValid m id target reason now v = elim (Option-cases (Map.get m.tasks id)) [
    | inl e ↦ rw (e, transition) v
    | inr (r, e) ↦ elim (Option-cases (refusal m.max_retries id r target reason)) [
      | inl f ↦
          rw (e, transition)
            (rw (f, transition)
              (set-IsValid m id _ v (
                next_record-IsGood m.max_retries id id r target reason now (IsGood-at m id v e) f)))
      | inr (x, f) ↦ rw (e, transition) (rw (f, transition) v)
    ]
  ]

  assign_owner-IsValid :
      (m : TaskManager Step) (id device now : String)
      → IsValid m
      → IsValid (assign_owner m id device now).0
  unfolding assign_owner
  assign_owner-IsValid m id device now v = elim (Option-cases (Map.get m.tasks id)) [
    | inl e ↦ rw (e, assign_owner) v
    | inr (r, e) ↦
        let next : TaskRecord Step = record r { owner_device_id = some device; updated_at = now } in
        let good : IsGood m.max_retries id next = ground (arith, IsGood-at m id v e) in
        ground (arith, set-IsValid m id next v good)
  ]

  append_step_history-IsValid :
      (m : TaskManager Step) (id : String) (s : Step) (now : String)
      → IsValid m
      → IsValid (append_step_history m id s now).0
  unfolding append_step_history
  append_step_history-IsValid m id s now v = elim (Option-cases (Map.get m.tasks id)) [
    | inl e ↦ rw (e, append_step_history) v
    | inr (r, e) ↦
        rw (e, append_step_history) (set-IsValid m id _ v (ground (arith, IsGood-at m id v e)))
  ]

  step-IsValid : (m : TaskManager Step) (c : Call Step) → IsValid m → IsValid (step m c)
  unfolding step
  step-IsValid m (Call.create input uuid uuid' now) v = create-IsValid m input uuid uuid' now v
  step-IsValid m (Call.transition id target reason now) v =
      transition-IsValid m id target reason now v
  step-IsValid m (Call.assign_owner id device now) v = assign_owner-IsValid m id device now v
  step-IsValid m (Call.append_step_history id s now) v = append_step_history-IsValid m id s now v

  -- Whatever calls are made on a valid manager, it stays valid.
  pub run-IsValid : (m : TaskManager Step) (cs : List (Call Step)) → IsValid m → IsValid (run m cs)
  unfolding run
  run-IsValid m [] v = v
  run-IsValid m (c ∷ cs) v = run-IsValid (step m c) cs (step-IsValid m c v)

  pub new-IsValid : (max : Option ℕ) → IsValid (new {Step = Step} max)
  unfolding new
  new-IsValid max = record { distinct = tt; good = tt }

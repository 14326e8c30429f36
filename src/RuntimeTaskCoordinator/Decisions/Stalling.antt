-- ===== src/RuntimeTaskCoordinator/Decisions/Stalling.antt =====
-- What becomes of a task that the user has confirmed, in
-- services/runtime/src/runtime-task-coordinator.ts.
use nova_test.Common.Map
use nova_test.Common.{
  ◌≡◌, refl, Bool, true, false, String, none, some, inl, inr, arith, ◌⊎◌, includes, ◌∙◌, Bool-cases,
}
use nova_test.Shared.{ErrorInfo, ok, err}
use nova_test.TaskManager
use nova_test.TaskManager.{
  TaskManager, TaskRecord, TaskState, TaskState-discrete, transitions, Reason, resumed, executing,
  planning, retrying, not_found, refusal, illegal_transition,
}
use nova_test.RuntimeTaskCoordinator.{Task, Services, Coordinator, Answer, answered, transition}
use nova_test.RuntimeTaskCoordinator.Execution.{execute}
use nova_test.RuntimeTaskCoordinator.Execution.Stages.{and_then-ok, transition-state}
use nova_test.RuntimeTaskCoordinator.Decisions.{
  retry, resume_paused, confirm_waiting_user, deny_waiting_user, is_paused, is_waiting_user,
  resolve_waiting, not_in_state, is_permission,
}

includes_planning : includes TaskState-discrete (transitions executing) planning ≡ false
unfolding includes TaskState-discrete transitions
includes_planning = refl

includes_retrying : includes TaskState-discrete (transitions executing) retrying ≡ false
unfolding includes TaskState-discrete transitions
includes_retrying = refl

executing_closed :
    (state target : TaskState)
    → state ≡ executing
    → (target ≡ planning) ⊎ (target ≡ retrying)
    → includes TaskState-discrete (transitions state) target ≡ false
executing_closed state target h (inl k) = rw (h) (rw (k) includes_planning)
executing_closed state target h (inr k) = rw (h) (rw (k) includes_retrying)

module _ {P V : Type 0} where
  -- The answer is an error, and no task has changed.
  abbrev pub IsRefused : Coordinator P V → Coordinator P V × Answer (Task P V) → Type 0
  IsRefused c x = (e : ErrorInfo) × (x ≡ (c, answered (err e)))

  transition-IsRefused :
      (s : Services P V) (c : Coordinator P V) (id : String) (target : TaskState) (t : Task P V)
      → Map.get c.tasks.tasks id ≡ some t
      → t.state ≡ executing
      → (target ≡ planning) ⊎ (target ≡ retrying)
      → IsRefused c (transition s c id target none)
  unfolding transition TaskManager.transition refusal
  transition-IsRefused s c id target t e h k =
      let q = executing_closed t.state target h k in
      (illegal_transition id t.state target, ground arith)

  execute-IsRefused :
      (s : Services P V) (c : Coordinator P V) (id : String) (t : Task P V)
      → Map.get c.tasks.tasks id ≡ some t
      → t.state ≡ executing
      → IsRefused c (execute s c id)
  unfolding execute TaskManager.get
  execute-IsRefused s c id t e h =
      let (x, q) = transition-IsRefused s c id planning t e h (inl refl) in (x, ground arith)

  retry-IsRefused :
      (s : Services P V) (c : Coordinator P V) (id : String) (b : Bool) (t : Task P V)
      → Map.get c.tasks.tasks id ≡ some t
      → t.state ≡ executing
      → IsRefused c (retry s c id b)
  unfolding retry
  retry-IsRefused s c id false t e h = (_, refl)
  retry-IsRefused s c id true t e h =
      let (x, q) = transition-IsRefused s c id retrying t e h (inr refl) in (x, ground arith)

  resume_paused-IsRefused :
      (s : Services P V) (c : Coordinator P V) (id : String) (b : Bool) (t : Task P V)
      → Map.get c.tasks.tasks id ≡ some t
      → t.state ≡ executing
      → IsRefused c (resume_paused s c id b)
  unfolding resume_paused TaskManager.get
  resume_paused-IsRefused s c id false t e h = (_, refl)
  resume_paused-IsRefused s c id true t e h =
      let q : is_paused t.state ≡ false = ground arith in
      (not_in_state "Only paused tasks can be resumed." id t.state, ground arith)

  resolve_waiting-IsRefused :
      (s : Services P V) (c : Coordinator P V) (id message : String) (target : TaskState)
      → (reason : Reason) (t : Task P V) → Map.get c.tasks.tasks id ≡ some t
      → t.state ≡ executing
      → IsRefused c (resolve_waiting s c id message target reason)
  unfolding resolve_waiting TaskManager.get
  resolve_waiting-IsRefused s c id message target reason t e h =
      let q : is_waiting_user t.state ≡ false = ground arith in
      (not_in_state message id t.state, ground arith)

  confirm-IsRefused :
      (s : Services P V) (c : Coordinator P V) (id : String) (b : Bool) (t : Task P V)
      → Map.get c.tasks.tasks id ≡ some t
      → t.state ≡ executing
      → IsRefused c (confirm_waiting_user s c id b)
  unfolding confirm_waiting_user
  confirm-IsRefused s c id false t e h = (_, refl)
  confirm-IsRefused s c id true t e h = resolve_waiting-IsRefused s c id _ _ _ t e h

  deny-IsRefused :
      (s : Services P V) (c : Coordinator P V) (id : String) (b : Bool) (t : Task P V)
      → Map.get c.tasks.tasks id ≡ some t
      → t.state ≡ executing
      → IsRefused c (deny_waiting_user s c id b)
  unfolding deny_waiting_user
  deny-IsRefused s c id false t e h = (_, refl)
  deny-IsRefused s c id true t e h = resolve_waiting-IsRefused s c id _ _ _ t e h

  -- Every operation that could run the task or resolve it is refused.
  abbrev pub IsStalled : Services P V → Coordinator P V → String → Bool → Type 0
  IsStalled s c id confirmed =
      IsRefused c (execute s c id)
      × IsRefused c (retry s c id confirmed)
      × IsRefused c (resume_paused s c id confirmed)
      × IsRefused c (confirm_waiting_user s c id confirmed)
      × IsRefused c (deny_waiting_user s c id confirmed)

  executing-IsStalled :
      (s : Services P V) (c : Coordinator P V) (id : String) (b : Bool) (t : Task P V)
      → Map.get c.tasks.tasks id ≡ some t
      → t.state ≡ executing
      → IsStalled s c id b
  executing-IsStalled s c id b t e h = (
    execute-IsRefused s c id t e h,
    retry-IsRefused s c id b t e h,
    resume_paused-IsRefused s c id b t e h,
    confirm-IsRefused s c id b t e h,
    deny-IsRefused s c id b t e h,
  )

  confirm-state :
      (s : Services P V) (c after : Coordinator P V) (id : String) (b : Bool) (t : Task P V)
      → confirm_waiting_user s c id b ≡ (after, answered (ok t))
      → t.state ≡ executing
  unfolding confirm_waiting_user resolve_waiting
  confirm-state s c after id false t e = absurd (ground arith)
  confirm-state s c after id true t e =
      let (x, u, y, z) = and_then-ok (c, answered (TaskManager.get c.tasks id)) _ after t e in
      elim (Bool-cases (is_waiting_user u.state)) [
        | inr q ↦ absurd (ground arith)
        | inl q ↦ elim (Bool-cases (is_permission u.waiting_user_reason)) [
          | inr k ↦ absurd (ground arith)
          | inl k ↦ transition-state s x after id executing (some resumed) t (ground arith)
        ]
      ]

  -- A confirmation that succeeds answers with the task in the state Executing; and as long as the task
  -- has the state that the confirmation gave it, every operation that could run it or resolve it is
  -- refused and changes nothing.
  pub executing_stalls :
      (s : Services P V) (c after : Coordinator P V) (id : String) (t : Task P V)
      → confirm_waiting_user s c id true ≡ (after, answered (ok t))
      → (t.state ≡ executing)
        × ((later : Coordinator P V) (u : Task P V) (confirmed : Bool)
            → Map.get later.tasks.tasks id ≡ some u
            → u.state ≡ t.state
            → IsStalled s later id confirmed)
  executing_stalls s c after id t e =
      let h = confirm-state s c after id true t e in
      (h, λ later u b f g. executing-IsStalled s later id b u f (g ∙ h))

-- ===== src/TaskManager/Diagram.antt =====
-- The state diagram of docs/03-runtime/task-manager.md, and the transitions that
-- services/runtime/src/task-manager.ts accepts.
use nova_test.Common.Map
use nova_test.Common.{
  ℕ, ◌<◌, ◌≡◌, refl, ◌↔◌, String, Option, none, some, arith, is_some, true, Option-cases, inl, inr,
  includes,
}
use nova_test.Shared.{ok}
use nova_test.TaskManager.{
  TaskManager, TaskRecord, TaskState, TaskState-discrete, Reason, next_record,
  clarification_requested, transition, transitions, refusal, blocker, created, planning,
  waiting_resources, executing, verifying, completed, unverified, failed, retrying, paused,
  waiting_user, cancelled,
}

-- The arrows of the diagram.
pub data Arrow : TaskState → TaskState → Type 0 where
  created_planning : Arrow created planning
  planning_resources : Arrow planning waiting_resources
  resources_executing : Arrow waiting_resources executing
  planning_executing : Arrow planning executing
  executing_verifying : Arrow executing verifying
  verifying_completed : Arrow verifying completed
  verifying_unverified : Arrow verifying unverified
  verifying_failed : Arrow verifying failed
  executing_failed : Arrow executing failed
  planning_failed : Arrow planning failed
  unverified_retrying : Arrow unverified retrying
  failed_retrying : Arrow failed retrying
  retrying_planning : Arrow retrying planning
  created_paused : Arrow created paused
  planning_paused : Arrow planning paused
  resources_paused : Arrow waiting_resources paused
  executing_paused : Arrow executing paused
  paused_user : Arrow paused waiting_user
  paused_planning : Arrow paused planning
  paused_executing : Arrow paused executing
  planning_user : Arrow planning waiting_user
  user_planning : Arrow waiting_user planning
  user_executing : Arrow waiting_user executing
  user_cancelled : Arrow waiting_user cancelled
  created_cancelled : Arrow created cancelled
  planning_cancelled : Arrow planning cancelled
  resources_cancelled : Arrow waiting_resources cancelled
  executing_cancelled : Arrow executing cancelled

pub includes_of_Arrow :
    {s t : TaskState} → Arrow s t → includes TaskState-discrete (transitions s) t ≡ true
unfolding includes transitions TaskState-discrete
includes_of_Arrow created_planning = refl
includes_of_Arrow _ = refl

pub Arrow-of_includes :
    (s t : TaskState) → includes TaskState-discrete (transitions s) t ≡ true → Arrow s t
unfolding includes transitions TaskState-discrete
Arrow-of_includes created planning h = created_planning
Arrow-of_includes created paused h = created_paused
Arrow-of_includes created cancelled h = created_cancelled
Arrow-of_includes planning waiting_resources h = planning_resources
Arrow-of_includes planning executing h = planning_executing
Arrow-of_includes planning paused h = planning_paused
Arrow-of_includes planning waiting_user h = planning_user
Arrow-of_includes planning failed h = planning_failed
Arrow-of_includes planning cancelled h = planning_cancelled
Arrow-of_includes waiting_resources executing h = resources_executing
Arrow-of_includes waiting_resources paused h = resources_paused
Arrow-of_includes waiting_resources cancelled h = resources_cancelled
Arrow-of_includes executing verifying h = executing_verifying
Arrow-of_includes executing failed h = executing_failed
Arrow-of_includes executing paused h = executing_paused
Arrow-of_includes executing cancelled h = executing_cancelled
Arrow-of_includes verifying completed h = verifying_completed
Arrow-of_includes verifying unverified h = verifying_unverified
Arrow-of_includes verifying failed h = verifying_failed
Arrow-of_includes unverified retrying h = unverified_retrying
Arrow-of_includes failed retrying h = failed_retrying
Arrow-of_includes retrying planning h = retrying_planning
Arrow-of_includes paused waiting_user h = paused_user
Arrow-of_includes paused planning h = paused_planning
Arrow-of_includes paused executing h = paused_executing
Arrow-of_includes waiting_user planning h = user_planning
Arrow-of_includes waiting_user executing h = user_executing
Arrow-of_includes waiting_user cancelled h = user_cancelled
Arrow-of_includes _ _ h = cc

module _ {Step : Type 0} where
  -- The task exists, the diagram has the arrow, a wait for the user names its blocker, and a retry
  -- is within the budget.
  pub record IsAllowed (m : TaskManager Step) (id : String) (target : TaskState)
      (reason : Option Reason) (c : TaskRecord Step) : Type 0 where
    pub found : Map.get m.tasks id ≡ some c
    pub arrow : Arrow c.state target
    pub blocked : target ≡ waiting_user → is_some (blocker reason) ≡ true
    pub budget : target ≡ retrying → c.retry_count < m.max_retries

  refusal-none :
      (max : ℕ) (id : String) (c : TaskRecord Step) (target : TaskState) (reason : Option Reason)
      → includes TaskState-discrete (transitions c.state) target ≡ true
      → (target ≡ waiting_user → is_some (blocker reason) ≡ true)
      → (target ≡ retrying → c.retry_count < max)
      → refusal max id c target reason ≡ none
  unfolding refusal
  refusal-none max id c target reason h b r = ground arith

  pub refusal-none_inv :
      (max : ℕ) (id : String) (c : TaskRecord Step) (target : TaskState) (reason : Option Reason)
      → refusal max id c target reason ≡ none
      → (includes TaskState-discrete (transitions c.state) target ≡ true)
        × (target ≡ waiting_user → is_some (blocker reason) ≡ true)
        × (target ≡ retrying → c.retry_count < max)
  unfolding refusal
  refusal-none_inv max id c target reason h = ground arith

  refusal_of_IsAllowed :
      (m : TaskManager Step) (id : String) (target : TaskState) (reason : Option Reason)
      (c : TaskRecord Step)
      → IsAllowed m id target reason c
      → refusal m.max_retries id c target reason ≡ none
  refusal_of_IsAllowed m id target reason c a =
      refusal-none m.max_retries id c target reason (includes_of_Arrow a.arrow) a.blocked a.budget

  accepted :
      (m : TaskManager Step) (id : String) (target : TaskState) (reason : Option Reason)
      (now : String) (c : TaskRecord Step)
      → IsAllowed m id target reason c
      → (r : TaskRecord Step) × ((transition m id target reason now).1 ≡ ok r)
  unfolding transition
  accepted m id target reason now c a = (
    next_record c target reason now,
    rw (a.found, transition) (rw (refusal_of_IsAllowed m id target reason c a, transition)),
  )

  allowed :
      (m : TaskManager Step) (id : String) (target : TaskState) (reason : Option Reason)
      (now : String) (r : TaskRecord Step)
      → (transition m id target reason now).1 ≡ ok r
      → (c : TaskRecord Step) × IsAllowed m id target reason c
  unfolding transition
  allowed m id target reason now r h = elim (Option-cases (Map.get m.tasks id)) [
    | inl e ↦ absurd (ground arith)
    | inr (c, e) ↦
        let f : refusal m.max_retries id c target reason ≡ none = ground arith in
        let (i, b, g) = refusal-none_inv m.max_retries id c target reason f in
        (
          c,
          record { found = e; arrow = Arrow-of_includes c.state target i; blocked = b; budget = g },
        )
  ]

  -- `transition` succeeds exactly when the task exists, the documented diagram has an arrow from its
  -- state to the target, a move to WaitingUser names a blocking reason, and a move to Retrying is
  -- within the retry budget.
  pub transition-ok_iff :
      (m : TaskManager Step) (id : String) (target : TaskState) (reason : Option Reason)
      (now : String)
      → ((r : TaskRecord Step) × ((transition m id target reason now).1 ≡ ok r))
        ↔ ((c : TaskRecord Step) × IsAllowed m id target reason c)
  transition-ok_iff m id target reason now =
      (λ p. allowed m id target reason now p.0 p.1, λ p. accepted m id target reason now p.0 p.1)

  -- A task that waits for a clarification can be sent straight to Executing, with any reason.
  clarification_skips_planning :
      (m : TaskManager Step) (id : String) (c : TaskRecord Step) (reason : Option Reason)
      (now : String)
      → Map.get m.tasks id ≡ some c
      → c.state ≡ waiting_user
      → c.waiting_user_reason ≡ some clarification_requested
      → (r : TaskRecord Step) × ((transition m id executing reason now).1 ≡ ok r)
        × (r.state ≡ executing)
  unfolding transition refusal next_record
  clarification_skips_planning m id c reason now e s w =
      (next_record c executing reason now, ground arith, refl)

-- ===== src/Orchestration/Planner.antt =====
-- `Planner` of services/runtime/src/orchestration.ts: a goal becomes the steps of a task. The check
-- of an identifier by the schema library (`z.string().uuid()`) is the parameter `is_uuid`; what the
-- model planner answers to a goal is the field `llm_planner`; if it rejects, so does the plan.
use nova_test.Common.Map
use nova_test.Common.Map.{Map}
use nova_test.Common.{
  ◌≡◌, refl, ◌≢◌, inl, inr, Bool, true, false, ◌&&◌, List, [], ◌∷◌, map, String, Option, none, some,
  arith, every, All, ltb, text_dec, if◌then◌else◌, Bool-cases, Option-cases,
}
use mathlib.Core.Logic.{ite}
use mathlib.Core.Path.{subst}
use nova_test.Shared.{Result, ok, err, nova_ai001, nova_tl002}
use nova_test.Orchestration.{
  ExecutionStep, ConfirmationStatus, not_required, pending, approved, denied, failure_of,
}

-- How a promise settles.
pub data Settled (A : Type 0) : Type 0 where
  resolved : A → Settled A
  rejected : String → Settled A

module _ (P V : Type 0) (is_uuid : String → Bool) where
  pub record PlannerDependencies : Type 0 where
    pub deterministic : Map (ExecutionStep P V)
    pub llm_planner : Option (String → Settled (List (ExecutionStep P V)))

  pub record PlanInput : Type 0 where
    pub task_id : String
    pub goal : String

  -- `z.string().min(1)`
  abbrev pub is_named : String → Bool
  is_named s = ite (text_dec s "") false true

  -- `executionStepSchema` on a step of the declared type.
  unfoldable pub is_step : ExecutionStep P V → Bool
  is_step s =
      is_named s.step_id
      && is_named s.task_id
      && is_uuid s.correlation_id
      && is_named s.capability_id
      && is_named s.resolved_tool_id
      && is_named s.action_id
      && ltb 0 s.timeout_ms

  unfoldable pub normalized : String → ExecutionStep P V → ExecutionStep P V
  normalized task s = record s { task_id = task; confirmation_status = not_required }

  abbrev pub unapproved : ConfirmationStatus → ConfirmationStatus
  unapproved approved = pending
  unapproved c = c

  unfoldable pub proposed : String → ExecutionStep P V → ExecutionStep P V
  proposed task s = record s {
    task_id = task;
    confirmation_status = unapproved s.confirmation_status;
  }

  -- From what the model planner answers.
  unfoldable pub check_candidates :
      PlanInput → Settled (List (ExecutionStep P V)) → Settled (Result (List (ExecutionStep P V)))
  unfolding is_step proposed
  check_candidates input (rejected message) = rejected message
  check_candidates input (resolved candidates) =
      let steps = map (proposed input.task_id) candidates in
      if every is_step steps
      then resolved (ok steps)
      else resolved
          (err (failure_of nova_tl002 "Model-generated plan failed contract validation." false))

  unfoldable pub plan_with_model :
      Option (String → Settled (List (ExecutionStep P V)))
      → PlanInput
      → Settled (Result (List (ExecutionStep P V)))
  unfolding check_candidates
  plan_with_model none input = resolved (
      err (
        failure_of nova_ai001
          "No deterministic resolution exists and no model planner is available." false))
  plan_with_model (some planner) input = check_candidates input (planner input.goal)

  unfoldable pub plan :
      PlannerDependencies → PlanInput → Settled (Result (List (ExecutionStep P V)))
  unfolding plan_with_model is_step normalized
  plan d input = elim (Map.get d.deterministic input.goal) [
    | some s ↦
        if is_step (normalized input.task_id s)
        then resolved (ok (normalized input.task_id s ∷ []))
        else resolved
            (err (failure_of nova_tl002 "Deterministic step failed contract validation." false))
    | none ↦ plan_with_model d.llm_planner input
  ]

  -- A planned step: of the task, valid, and not approved.
  pub record IsProposed (input : PlanInput) (s : ExecutionStep P V) : Type 0 where
    pub task : s.task_id ≡ input.task_id
    pub valid : is_step s ≡ true
    pub unconfirmed : s.confirmation_status ≢ approved

  unapproved-not_approved : (c : ConfirmationStatus) → unapproved c ≢ approved
  unapproved-not_approved not_required h = cc
  unapproved-not_approved pending h = cc
  unapproved-not_approved approved h = cc
  unapproved-not_approved denied h = cc

  All-IsProposed :
      (input : PlanInput) (steps : List (ExecutionStep P V))
      → every is_step (map (proposed input.task_id) steps) ≡ true
      → All (IsProposed input) (map (proposed input.task_id) steps)
  unfolding proposed
  All-IsProposed input [] h = tt
  All-IsProposed input (s ∷ steps) h = (
    record {
      task = refl;
      valid = ground arith;
      unconfirmed = unapproved-not_approved s.confirmation_status;
    },
    All-IsProposed input steps (ground arith),
  )

  only_step :
      (input : PlanInput) (s : ExecutionStep P V) (steps : List (ExecutionStep P V))
      → is_step (normalized input.task_id s) ≡ true
      → normalized input.task_id s ∷ [] ≡ steps
      → All (IsProposed input) steps
  unfolding normalized
  only_step input s steps h e =
      subst (All (IsProposed input)) e
        (record { task = refl; valid = h; unconfirmed = λ c. cc }, tt)

  check_candidates-IsProposed :
      (input : PlanInput) (o : Settled (List (ExecutionStep P V)))
      → (steps : List (ExecutionStep P V)) → check_candidates input o ≡ resolved (ok steps)
      → All (IsProposed input) steps
  unfolding check_candidates
  check_candidates-IsProposed input (rejected m) steps h = absurd (ground arith)
  check_candidates-IsProposed input (resolved cs) steps h =
      elim (Bool-cases (every is_step (map (proposed input.task_id) cs))) [
        | inr bad ↦ absurd (ground arith)
        | inl good ↦ subst (All (IsProposed input)) (ground arith) (All-IsProposed input cs good)
      ]

  -- Every step of a plan belongs to the task that was planned, satisfies the schema of steps, and
  -- is not approved, whatever the table and the model say.
  pub plan-IsProposed :
      (d : PlannerDependencies) (input : PlanInput) (steps : List (ExecutionStep P V))
      → plan d input ≡ resolved (ok steps)
      → All (IsProposed input) steps
  unfolding plan plan_with_model normalized
  plan-IsProposed d input steps h = elim (Option-cases (Map.get d.deterministic input.goal)) [
    | inr (s, e) ↦ elim (Bool-cases (is_step (normalized input.task_id s))) [
      | inr bad ↦ absurd (ground arith)
      | inl good ↦ only_step input s steps good (ground arith)
    ]
    | inl e ↦ elim (Option-cases d.llm_planner) [
      | inl e' ↦ absurd (ground arith)
      | inr (planner, e') ↦
          check_candidates-IsProposed input (planner input.goal) steps (ground arith)
    ]
  ]

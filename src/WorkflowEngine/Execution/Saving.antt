-- ===== src/WorkflowEngine/Execution/Saving.antt =====
-- The checkpoints of services/runtime/src/workflow-engine.ts over runs and resumptions.
use mathlib.Core.Path.{subst}
use nova_test.Common.{
  ℕ, zero, suc, ◌+◌, ◌≡◌, sym, List, [], ◌∷◌, String, Option, none, some, ◌||◌, leb, ltb, add,
  contains, inl, inr, arith, Option-cases, Bool-cases,
}
use nova_test.Common.Map
use nova_test.Shared.{Result, ok, err, Result-cases}
use nova_test.WorkflowEngine.{Context, WorkflowDefinition, NodeKind}
use nova_test.WorkflowEngine.Validation.{validate}
use nova_test.WorkflowEngine.Checkpoints.{WorkflowEngine, is_valid, latest_checkpoint_id}
use nova_test.WorkflowEngine.Checkpoints.Currency.{AreSingle, persist_checkpoint-AreSingle}
use nova_test.WorkflowEngine.Platform.{Platform, find_node, turn}
use nova_test.WorkflowEngine.Turns.{
  WorkflowResult, Progress, Turn, stuck, returned, went_on, Acted, act, proceed, leave, enter,
  take_turn,
}
use nova_test.WorkflowEngine.Execution.Runs.{Turn-cases}
use nova_test.WorkflowEngine.Execution.{
  Returned, loop, first_checkpoint, start_at, execute_from, run_for, resume_for,
}

-- A call of the engine, the start of a workflow or the resumption at a checkpoint, that is followed
-- for at most so many turns of its loop: until it answers, or until it is abandoned.
pub data Call (P V C : Type 0) : Type 0 where
  running : ℕ → Platform P V C → WorkflowDefinition P V C → Context C → Call P V C
  resuming : ℕ → Platform P V C → String → Call P V C

module _ {P V C : Type 0} where
  -- The engine that a turn leaves.
  abbrev LeavesSingle : Turn P V C → Type 0
  LeavesSingle (stuck m) = AreSingle m
  LeavesSingle (returned m r) = AreSingle m
  LeavesSingle (went_on s) = AreSingle s.engine

  abbrev ReturnsSingle : Returned P V C → Type 0
  ReturnsSingle (m, r) = AreSingle m

  abbrev stopped : WorkflowEngine P V C → Option (Result WorkflowResult) → Returned P V C
  stopped m r = (m, r)

  module _ (p : Platform P V C) (d : WorkflowDefinition P V C) where
    proceed-LeavesSingle :
        (kind : NodeKind P V C) (s : Progress P V C)
        → AreSingle s.engine
        → LeavesSingle (proceed d kind s)
    proceed-LeavesSingle kind s h = ground arith

    leave-LeavesSingle :
        (s : Progress P V C) (n : String) (kind : NodeKind P V C) (a : Acted C)
        → AreSingle s.engine
        → LeavesSingle (leave p d s n kind a)
    unfolding leave
    leave-LeavesSingle s n kind none h = h
    leave-LeavesSingle s n kind (some (err e)) h = h
    leave-LeavesSingle s n kind (some (ok (done, context))) h =
        elim (Bool-cases
          (ltb (p.started_at + p.workflow_timeout_ms) (p.now_after (turn s.steps)))) [
            | inl q ↦ rw (q) h
            | inr q ↦ rw (q) (
                proceed-LeavesSingle kind _ (
                  persist_checkpoint-AreSingle p.number_text
                    (p.iso_now s.engine.checkpoint_sequence) s.engine d.workflow_id (add done n)
                    context h))
          ]

    enter-LeavesSingle :
        (s : Progress P V C) (n : String) → AreSingle s.engine → LeavesSingle (enter p d s n)
    unfolding enter
    enter-LeavesSingle s n h = elim (Option-cases (find_node d.nodes n)) [
      | inl q ↦ ground arith
      | inr (node, q) ↦ elim (Bool-cases (contains s.completed node.id)) [
        | inl c ↦ ground arith
        | inr c ↦
            let g : enter p d s n ≡ leave p d s node.id node.kind (act p d s node.id node.kind) =
              ground arith in
            subst LeavesSingle (sym g)
              (leave-LeavesSingle s node.id node.kind (act p d s node.id node.kind) h)
      ]
    ]

    take_turn-LeavesSingle :
        (s : Progress P V C) → AreSingle s.engine → LeavesSingle (take_turn p d s)
    unfolding take_turn
    take_turn-LeavesSingle s h = elim (Option-cases s.current) [
      | inl q ↦ ground arith
      | inr (n, q) ↦
          elim (Bool-cases (
            ltb (p.started_at + p.workflow_timeout_ms) (p.now_before (turn s.steps))
            || leb p.max_steps s.steps)) [
              | inl b ↦ ground arith
              | inr b ↦
                  let g : take_turn p d s ≡ enter p d s n = ground arith in
                  subst LeavesSingle (sym g) (enter-LeavesSingle s n h)
            ]
    ]

    loop-ReturnsSingle :
        (fuel : ℕ) (s : Progress P V C) → AreSingle s.engine → ReturnsSingle (loop fuel p d s)
    unfolding loop
    loop-ReturnsSingle zero s h = h
    loop-ReturnsSingle (suc fuel) s h =
        let t = take_turn-LeavesSingle s h in
        elim (Turn-cases (take_turn p d s)) [
          | inl (m, q) ↦
              let g : loop (suc fuel) p d s ≡ stopped m none = ground arith in
              subst ReturnsSingle (sym g) (subst LeavesSingle q t)
          | inr (inl (m, r, q)) ↦
              let g : loop (suc fuel) p d s ≡ stopped m (some r) = ground arith in
              subst ReturnsSingle (sym g) (subst LeavesSingle q t)
          | inr (inr (next, q)) ↦
              let g : loop (suc fuel) p d s ≡ loop fuel p d next = ground arith in
              subst ReturnsSingle (sym g) (loop-ReturnsSingle fuel next (subst LeavesSingle q t))
        ]

  first_checkpoint-AreSingle :
      (p : Platform P V C) (m : WorkflowEngine P V C) (w : String) (completed : List String)
      → (context : Context C) → AreSingle m
      → AreSingle (first_checkpoint p m w completed context).0
  first_checkpoint-AreSingle p m w completed context h =
      elim (Option-cases (latest_checkpoint_id m w)) [
        | inl q ↦
            rw (q, first_checkpoint)
              (persist_checkpoint-AreSingle p.number_text (p.iso_now m.checkpoint_sequence) m w
                completed context h)
        | inr (k, q) ↦ rw (q, first_checkpoint) h
      ]

  start_at-ReturnsSingle :
      (turns : ℕ) (p : Platform P V C) (m : WorkflowEngine P V C) (d : WorkflowDefinition P V C)
      → (completed : List String) (context : Context C) (o : Option String) → AreSingle m
      → ReturnsSingle (start_at turns p m d completed context o)
  unfolding start_at
  start_at-ReturnsSingle turns p m d completed context none h = h
  start_at-ReturnsSingle turns p m d completed context (some n) h =
      loop-ReturnsSingle p d turns _
        (first_checkpoint-AreSingle p m d.workflow_id completed context h)

  abbrev pub answer_to : Call P V C → WorkflowEngine P V C → Returned P V C
  answer_to (running turns p d input) m = run_for turns p m d input
  answer_to (resuming turns p checkpoint_id) m = resume_for turns p m checkpoint_id

  answer_to-ReturnsSingle :
      (c : Call P V C) (m : WorkflowEngine P V C) → AreSingle m → ReturnsSingle (answer_to c m)
  unfolding run_for resume_for execute_from
  answer_to-ReturnsSingle (running turns p d input) m h = elim (Result-cases (validate d)) [
    | inl (u, q) ↦
        let started = record m { workflows = Map.set m.workflows d.workflow_id d } in
        let g : answer_to (running turns p d input) m ≡ execute_from turns p started d [] input =
          ground arith in
        subst ReturnsSingle (sym g)
          (start_at-ReturnsSingle turns p started d [] input (some d.start_node_id) h)
    | inr (e, q) ↦ ground arith
  ]
  answer_to-ReturnsSingle (resuming turns p k) m h = elim (Option-cases (Map.get m.checkpoints k)) [
    | inl q ↦ ground arith
    | inr (c, q) ↦ elim (Bool-cases (is_valid c.state)) [
      | inr v ↦ ground arith
      | inl v ↦ elim (Option-cases (Map.get m.workflows c.workflow_id)) [
        | inl w ↦ ground arith
        | inr (d, w) ↦
            let g : resume_for turns p m k
                ≡ execute_from turns p m d c.completed_node_ids c.context =
              ground arith in
            subst ReturnsSingle (sym g)
              (start_at-ReturnsSingle turns p m d c.completed_node_ids c.context _ h)
      ]
    ]
  ]

  -- The engine after calls, one after the other.
  unfoldable pub after_calls : List (Call P V C) → WorkflowEngine P V C → WorkflowEngine P V C
  after_calls [] m = m
  after_calls (c ∷ cs) m = after_calls cs (answer_to c m).0

  -- After calls of `run` and `resume` one after the other, each followed for any number of turns, so
  -- that it has answered or has been abandoned on the way, each checkpoint stands under its
  -- identifier and no workflow has two valid ones.
  pub after_calls-AreSingle :
      (cs : List (Call P V C)) (m : WorkflowEngine P V C)
      → AreSingle m
      → AreSingle (after_calls cs m)
  unfolding after_calls
  after_calls-AreSingle [] m h = h
  after_calls-AreSingle (c ∷ cs) m h =
      after_calls-AreSingle cs (answer_to c m).0 (answer_to-ReturnsSingle c m h)

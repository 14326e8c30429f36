-- ===== src/RuntimeTaskCoordinator/Execution/Stages.antt =====
-- The states and outcomes that the stages of `execute` in
-- services/runtime/src/runtime-task-coordinator.ts lead to.
use nova_test.Common.Map
use nova_test.Common.{
  ℕ, ◌≡◌, ◌∙◌, refl, ap, sym, false, List, [], ◌∷◌, String, Option, none, any, All, inl, inr, arith,
  Option-cases, Bool-cases,
}
use nova_test.Shared.{Result, ok, err}
use nova_test.TaskManager
use nova_test.TaskManager.{
  TaskManager, TaskRecord, TaskState, Reason, planning, executing, verifying, completed, failed,
  next_record, refusal,
}
use nova_test.Orchestration.{
  ExecutionStep, ExecutionResult, VerificationVerdict, VerificationOutcome,
}
use nova_test.Orchestration.Verifier.{verify}
use nova_test.RuntimeTaskCoordinator.{
  HistoryEntry, CheckpointStatus, Task, Tasks, Services, Coordinator, Answer, answered, thrown,
  and_then, called, persist, publish, deliver, transition, append_step_history,
}
use nova_test.RuntimeTaskCoordinator.Execution.{
  Judged, is_failed, is_unverified, fail, outcome_of, record_verdicts,
}

moved_state :
    {Step : Type 0} (m : TaskManager Step) (id : String) (target : TaskState)
    (reason : Option Reason)
    → (now : String) (r : TaskRecord Step)
    → (TaskManager.transition m id target reason now).1 ≡ ok r
    → r.state ≡ target
unfolding TaskManager.transition next_record
moved_state m id target reason now r e = elim (Option-cases (Map.get m.tasks id)) [
  | inl g ↦ absurd (ground arith)
  | inr (t, g) ↦ elim (Option-cases (refusal m.max_retries id t target reason)) [
    | inr (x, h) ↦ absurd (ground arith)
    | inl h ↦
        let q : next_record t target reason now ≡ r = ground arith in ap (λ y. y.state) (sym q)
  ]
]

moved_same :
    {Step : Type 0} (m : TaskManager Step) (id : String) (target : TaskState)
    (reason : Option Reason)
    → (now : String) (t r : TaskRecord Step) → TaskManager.get m id ≡ ok t
    → (TaskManager.transition m id target reason now).1 ≡ ok r
    → (r.task_id ≡ t.task_id) × (r.goal ≡ t.goal)
unfolding TaskManager.transition TaskManager.get next_record
moved_same m id target reason now t r g e = elim (Option-cases (Map.get m.tasks id)) [
  | inl n ↦ absurd (ground arith)
  | inr (u, n) ↦ elim (Option-cases (refusal m.max_retries id u target reason)) [
    | inr (x, h) ↦ absurd (ground arith)
    | inl h ↦
        let p : u ≡ t = ground arith in
        let q : next_record u target reason now ≡ r = ground arith in
        (
          ap (λ y. y.task_id) (sym q) ∙ ap (λ y. y.task_id) p,
          ap (λ y. y.goal) (sym q) ∙ ap (λ y. y.goal) p,
        )
  ]
]

module _ {P V : Type 0} where
  pub and_then-ok :
      {A B : Type 0} (x : Coordinator P V × Answer A)
      → (f : Coordinator P V → A → Coordinator P V × Answer B) → (c : Coordinator P V) (b : B)
      → and_then x f ≡ (c, answered (ok b))
      → (d : Coordinator P V) × (a : A) × (x ≡ (d, answered (ok a)))
        × (f d a ≡ (c, answered (ok b)))
  and_then-ok (d, thrown m) f c b e = absurd (ground arith)
  and_then-ok (d, answered (err m)) f c b e = absurd (ground arith)
  and_then-ok (d, answered (ok a)) f c b e = (d, a, refl, e)

  abbrev pub done : {A : Type 0} → Coordinator P V → A → Coordinator P V × Answer A
  done c a = (c, answered (ok a))

  done-inj : {A : Type 0} (c d : Coordinator P V) (a b : A) → done c a ≡ done d b → a ≡ b
  done-inj c d a b e = ground arith

  called-ok :
      (c d : Coordinator P V) (q : Tasks P V × Result (Task P V)) (t : Task P V)
      → called c q ≡ done d t
      → q.1 ≡ ok t
  called-ok c d (m, ok a) t e = ap ok (done-inj (record c { tasks = m }) d a t e)
  called-ok c d (m, err x) t e = absurd (ground arith)

  deliver-same :
      (s : Services P V) (status : CheckpointStatus) (c d : Coordinator P V) (task r : Task P V)
      → deliver s status c task ≡ (d, answered (ok r))
      → task ≡ r
  unfolding deliver
  deliver-same s status c d task r e =
      let (x, u, y, z) = and_then-ok (persist s c task status) _ d r e in
      let (x2, u2, y2, z2) = and_then-ok (publish s x task) _ d r z in done-inj x2 d task r z2

  pub transition-state :
      (s : Services P V) (c d : Coordinator P V) (id : String) (target : TaskState)
      → (reason : Option Reason) (r : Task P V)
      → transition s c id target reason ≡ (d, answered (ok r))
      → r.state ≡ target
  unfolding transition
  transition-state s c d id target reason r e =
      let (x, t, y, z) =
        and_then-ok (called c (TaskManager.transition c.tasks id target reason (s.now c.awaits))) _
          d r e in
      let q = deliver-same s _ x d t r z in
      ap (λ u. u.state) (sym q)
      ∙ moved_state c.tasks id target reason (s.now c.awaits) t (called-ok c x _ t y)

  -- A transition keeps the identifier and the goal of the task.
  pub transition-same :
      (s : Services P V) (c d : Coordinator P V) (id : String) (target : TaskState)
      → (reason : Option Reason) (t r : Task P V) → TaskManager.get c.tasks id ≡ ok t
      → transition s c id target reason ≡ (d, answered (ok r))
      → (r.task_id ≡ t.task_id) × (r.goal ≡ t.goal)
  unfolding transition
  transition-same s c d id target reason t r g e =
      let (x, u, y, z) =
        and_then-ok (called c (TaskManager.transition c.tasks id target reason (s.now c.awaits))) _
          d r e in
      let q = deliver-same s _ x d u r z in
      let (a, b) =
        moved_same c.tasks id target reason (s.now c.awaits) t u g (called-ok c x _ u y) in
      (ap (λ v. v.task_id) (sym q) ∙ a, ap (λ v. v.goal) (sym q) ∙ b)

  pub fail-state :
      (s : Services P V) (c d : Coordinator P V) (id : String) (h : HistoryEntry P V) (r : Task P V)
      → fail s c id h ≡ (d, answered (ok r))
      → r.state ≡ failed
  unfolding fail
  fail-state s c d id h r e =
      let (x, t, y, z) = and_then-ok (append_step_history s c id h) _ d r e in
      transition-state s x d id failed none r z

  pub record_verdicts-state :
      (s : Services P V) (c d : Coordinator P V) (id : String) (o : TaskState)
      → (js : List (Judged P V)) (r : Task P V) → record_verdicts s c id o js ≡ (d, answered (ok r))
      → r.state ≡ o
  unfolding record_verdicts
  record_verdicts-state s c d id o [] r e = transition-state s c d id o none r e
  record_verdicts-state s c d id o ((step, result, v) ∷ js) r e =
      let (x, t, y, z) = and_then-ok (append_step_history s c id _) _ d r e in
      record_verdicts-state s x d id o js r z

  abbrev pub AllVerified : List (Judged P V) → Type 0
  AllVerified = All (λ j. j.2.outcome ≡ VerificationOutcome.verified)

  none_failed :
      (js : List (Judged P V))
      → any (λ j. is_failed j.2.outcome) js ≡ false
      → any (λ j. is_unverified j.2.outcome) js ≡ false
      → AllVerified js
  none_failed [] e f = tt
  none_failed (j ∷ js) e f = (ground arith, none_failed js (ground arith) (ground arith))

  pub outcome_of-completed : (js : List (Judged P V)) → outcome_of js ≡ completed → AllVerified js
  unfolding outcome_of
  outcome_of-completed js e = elim (Bool-cases (any (λ j. is_failed j.2.outcome) js)) [
    | inl q ↦ absurd (ground arith)
    | inr q ↦ elim (Bool-cases (any (λ j. is_unverified j.2.outcome) js)) [
      | inl u ↦ absurd (ground arith)
      | inr u ↦ none_failed js q u
    ]
  ]

  -- The step has been executed, and the verdict on its result is that it is verified.
  abbrev pub IsVerified : Services P V → ExecutionStep P V → Type 0
  IsVerified s step =
      (i : ℕ) × (result : ExecutionResult P V) × (v : VerificationVerdict) × (s.execute i step
        ≡ ok result)
      × (verify P V step result ≡ ok v)
      × (v.outcome ≡ VerificationOutcome.verified)

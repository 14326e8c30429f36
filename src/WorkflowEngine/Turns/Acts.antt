-- ===== src/WorkflowEngine/Turns/Acts.antt =====
-- What a node of services/runtime/src/workflow-engine.ts has completed when it has acted.
use mathlib.Core.Path.{subst}
use nova_test.Common.{
  ℕ, ◌≡◌, ◌≢◌, refl, true, false, List, [], ◌∷◌, String, Option, none, some, add, contains, In,
  arith, AllIn, add-AllIn, All, Bool, Bool-cases, inl, inr, if◌then◌else◌,
}
use nova_test.Shared.{ErrorInfo, ErrorDetailValue, Result, ok, err}
use nova_test.Orchestration.{ExecutionStep, ExecutionResult}
use nova_test.WorkflowEngine.{
  Context, WorkflowDefinition, WorkflowNode, WorkflowEdge, NodeKind, task, choice, parallel_split,
  join, human_approval, rollback, end_node,
}
use nova_test.WorkflowEngine.Graphs.{Reach, HasCycle, Reach-step, Reach-trans}
use nova_test.WorkflowEngine.Validation.{adjacency}
use nova_test.WorkflowEngine.Pending.{outgoing}
use nova_test.WorkflowEngine.Pending.Order.{outgoing-adjacency}
use nova_test.WorkflowEngine.Platform.{Occasion, turn, Platform, is_verified, find_node}
use nova_test.WorkflowEngine.Branches.{execute_branches}
use nova_test.WorkflowEngine.Branches.Walks.{
  HasVerified, IsAllIn, execute_branches-IsAllIn, execute_branches-none,
}
use nova_test.WorkflowEngine.Turns.{
  Progress, Acted, add_all, add_results, first_failure, task_answer, joined, merged, after_task,
  checkpoint_node, decided, compensated, act,
}

add_all-AllIn :
    (Q : String → Type 0) (xs ys : List String) → AllIn Q xs → AllIn Q ys → AllIn Q (add_all xs ys)
unfolding contains
add_all-AllIn Q xs [] h k = h
add_all-AllIn Q xs (y ∷ ys) h k =
    add_all-AllIn Q (add xs y) ys (add-AllIn Q xs y h (k y (ground arith)))
      (λ z c. k z (ground arith))

add_results-AllIn :
    (Q : String → Type 0) (xs : List String) (rs : List (Result (List String)))
    → AllIn Q xs
    → All (IsAllIn Q) rs
    → AllIn Q (add_results xs rs)
add_results-AllIn Q xs [] h k = h
add_results-AllIn Q xs (ok ys ∷ rs) h k =
    add_results-AllIn Q (add_all xs ys) rs (add_all-AllIn Q xs ys h k.0) k.1
add_results-AllIn Q xs (err e ∷ rs) h k = add_results-AllIn Q xs rs h k.1

module _ {P V C : Type 0} (p : Platform P V C) (d : WorkflowDefinition P V C) where
  -- The node can be reached from the start, and has been verified if it is a task.
  abbrev pub IsDone : String → Type 0
  IsDone n = Reach (adjacency d.edges) d.start_node_id n × HasVerified p d n

  abbrev pub KindIsVerified : NodeKind P V C → Type 0
  KindIsVerified kind =
      (step : ExecutionStep P V)
      → kind ≡ task step
      → (o : Occasion) × (result : ExecutionResult P V) × (p.execute o step ≡ some (ok result))
        × (is_verified (p.verify step result) ≡ true)

  abbrev pub IsSound : Progress P V C → Type 0
  IsSound s =
      AllIn IsDone s.completed
      × ((n : String)
          → s.current ≡ some n
          → (contains s.completed n ≡ false) × Reach (adjacency d.edges) d.start_node_id n)

  -- The node makes a call that does not come back: a compensation that does not resolve, or a choice
  -- that throws.
  pub data Halts (kind : NodeKind P V C) (i : ℕ) (completed : List String) (context : Context C)
      : Type 0 where
    uncompensated :
        (compensate : ℕ → List String → Context C → Bool)
        → kind ≡ rollback
        → p.compensate ≡ some compensate
        → compensate i completed context ≡ false
        → Halts kind i completed context
    undecided :
        (choose : Context C → Option String)
        → kind ≡ choice choose
        → choose context ≡ none
        → Halts kind i completed context

  -- A node that keeps a run of the workflow from giving an answer: it can be reached, and halts after
  -- nodes that are done.
  pub record Unresolved : Type 0 where
    pub node : WorkflowNode P V C
    pub i : ℕ
    pub completed : List String
    pub context : Context C
    pub found : find_node d.nodes node.id ≡ some node
    pub reached : Reach (adjacency d.edges) d.start_node_id node.id
    pub done : AllIn IsDone completed
    pub halts : Halts node.kind i completed context

  abbrev pub ActedIsSound : String → Acted C → Type 0
  ActedIsSound n none = Unresolved
  ActedIsSound n (some (err e)) = Unit {0}
  ActedIsSound n (some (ok (done, context))) = AllIn IsDone done × IsDone n

  task_answer-none :
      (step : ExecutionStep P V) (e : List (String × ErrorDetailValue))
      → (a : Option (Result (ExecutionResult P V))) → task_answer p step e a ≡ none
      → (result : ExecutionResult P V) × (a ≡ some (ok result))
        × (is_verified (p.verify step result) ≡ true)
  task_answer-none step e none q = absurd (ground arith)
  task_answer-none step e (some (err x)) q = absurd (ground arith)
  task_answer-none step e (some (ok r)) q = (r, refl, ground arith)

  after_task-ActedIsSound :
      (completed : List String) (context : Context C) (n : String) (a : Option ErrorInfo)
      → AllIn IsDone completed
      → (a ≡ none → IsDone n)
      → ActedIsSound n (after_task completed context a)
  after_task-ActedIsSound completed context n none h g = (h, g refl)
  after_task-ActedIsSound completed context n (some e) h g = tt

  merged-ActedIsSound :
      (completed : List String) (context : Context C) (n : String)
      → (xs : List (Result (List String))) (f : Option ErrorInfo) → AllIn IsDone completed
      → All (IsAllIn IsDone) xs
      → IsDone n
      → ActedIsSound n (merged completed context xs f)
  merged-ActedIsSound completed context n xs none h g k =
      (add_results-AllIn IsDone completed xs h g, k)
  merged-ActedIsSound completed context n xs (some e) h g k = tt

  joined-ActedIsSound :
      (i : ℕ) (completed : List String) (context : Context C) (n : String)
      → (rs : Option (List (Result (List String)))) → rs ≢ none
      → ((xs : List (Result (List String))) → rs ≡ some xs → All (IsAllIn IsDone) xs)
      → AllIn IsDone completed
      → IsDone n
      → ActedIsSound n (joined p i completed context rs)
  joined-ActedIsSound i completed context n none f g h k = absurd (f refl)
  joined-ActedIsSound i completed context n (some xs) f g h k =
      merged-ActedIsSound completed context n xs (first_failure (p.settling i xs)) h (g xs refl) k

  decided-ActedIsSound :
      (completed : List String) (context : Context C) (n : String) (o : Option String)
      → AllIn IsDone completed
      → IsDone n
      → (o ≡ none → Unresolved)
      → ActedIsSound n (decided completed context n o)
  decided-ActedIsSound completed context n none h k u = u refl
  decided-ActedIsSound completed context n (some w) h k u = (h, k)

  rollback-ActedIsSound :
      (i : ℕ) (completed : List String) (context : Context C) (n : String)
      → (o : Option (ℕ → List String → Context C → Bool)) → p.compensate ≡ o
      → AllIn IsDone completed
      → IsDone n
      → (Halts rollback i completed context → Unresolved)
      → ActedIsSound n
          (if compensated o i completed context then some (ok (completed, context)) else none)
  rollback-ActedIsSound i completed context n none e h k u = (h, k)
  rollback-ActedIsSound i completed context n (some f) e h k u =
      elim (Bool-cases (f i completed context)) [
        | inl q ↦ rw (q) (h, k)
        | inr q ↦ rw (q) (u (uncompensated f refl e q))
      ]

  module _ (acyclic : ¬ HasCycle (adjacency d.edges) d.start_node_id) where
    no_cycle_from :
        (n : String)
        → Reach (adjacency d.edges) d.start_node_id n
        → ¬ HasCycle (adjacency d.edges) n
    no_cycle_from n r c = let (u, q, w) = c in acyclic (u, Reach-trans (adjacency d.edges) r q, w)

    split-ActedIsSound :
        (s : Progress P V C) (n : String)
        → AllIn IsDone s.completed
        → IsDone n
        → ActedIsSound n (
            joined p s.steps
              (add s.completed n)
              s.context
              (execute_branches p d s.steps 0 (outgoing d.edges n)))
    split-ActedIsSound s n h k =
        let reach : (e : WorkflowEdge)
            → In e (outgoing d.edges n)
            → Reach (adjacency d.edges) d.start_node_id e.to =
          λ e i. Reach-step (adjacency d.edges) k.0 (outgoing-adjacency d.edges n e i) in
        joined-ActedIsSound s.steps (add s.completed n) s.context n
          (execute_branches p d s.steps 0 (outgoing d.edges n))
          (execute_branches-none p d s.steps 0 (outgoing d.edges n)
            (λ e i. no_cycle_from e.to (reach e i)))
          (λ xs.
            execute_branches-IsAllIn p d IsDone (Reach (adjacency d.edges) d.start_node_id)
              (λ m r c v. ((r, v), λ t i. Reach-step (adjacency d.edges) r i)) s.steps 0
              (outgoing d.edges n) xs reach)
          (add-AllIn IsDone s.completed n h k) k

    pub act-ActedIsSound :
        (s : Progress P V C) (n : String) (kind : NodeKind P V C)
        → AllIn IsDone s.completed
        → Reach (adjacency d.edges) d.start_node_id n
        → (KindIsVerified kind → HasVerified p d n)
        → (Halts kind s.steps s.completed s.context → Unresolved)
        → ActedIsSound n (act p d s n kind)
    unfolding act
    act-ActedIsSound s n (task step) h r v u =
        let e = checkpoint_node s.checkpoint n in
        let a = p.execute (turn s.steps) step in
        after_task-ActedIsSound s.completed s.context n (task_answer p step e a) h (λ q.
          let (x, y, z) = task_answer-none step e a q in
          (
            r,
            v (λ other k.
                let w : step ≡ other = ground arith in
                subst
                  (λ st.
                    (o : Occasion) × (result : ExecutionResult P V) × (p.execute o st
                      ≡ some (ok result))
                    × (is_verified (p.verify st result) ≡ true))
                  w (turn s.steps, x, y, z)),
          ))
    act-ActedIsSound s n (choice f) h r v u =
        decided-ActedIsSound s.completed s.context n (f s.context) h
          (r, v (λ step k. absurd (ground arith))) (λ e. u (undecided f refl e))
    act-ActedIsSound s n human_approval h r v u = (h, (r, v (λ step k. absurd (ground arith))))
    act-ActedIsSound s n parallel_split h r v u =
        split-ActedIsSound s n h (r, v (λ step k. absurd (ground arith)))
    act-ActedIsSound s n join h r v u = (h, (r, v (λ step k. absurd (ground arith))))
    act-ActedIsSound s n rollback h r v u =
        rollback-ActedIsSound s.steps s.completed s.context n p.compensate refl h
          (r, v (λ step k. absurd (ground arith))) u
    act-ActedIsSound s n end_node h r v u = (h, (r, v (λ step k. absurd (ground arith))))

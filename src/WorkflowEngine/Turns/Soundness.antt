-- ===== src/WorkflowEngine/Turns/Soundness.antt =====
-- What a turn of the loop of services/runtime/src/workflow-engine.ts keeps.
use mathlib.Core.Path.{subst}
use nova_test.Common.{
  ℕ, suc, ◌+◌, ◌<◌, ◌≡◌, ◌∙◌, ap, refl, sym, true, false, [], ◌∷◌, String, none, some, ◌||◌, leb,
  length, add, contains, inl, inr, arith, ltb, Option-cases, Bool-cases, AllIn, add-AllIn,
  contains-add,
}
use nova_test.Shared.{nova_wfl001, Result, ok, err, text}
use nova_test.WorkflowEngine.{WorkflowDefinition, WorkflowNode, workflow_error}
use nova_test.WorkflowEngine.Graphs.{Reach, HasCycle, Reach-step}
use nova_test.WorkflowEngine.Validation.{adjacency}
use nova_test.WorkflowEngine.Pending.Order.{next_pending-some}
use nova_test.WorkflowEngine.Platform.{turn, Platform, failed, find_node}
use nova_test.WorkflowEngine.Branches.Walks.{find_node-id, HasVerified}
use nova_test.WorkflowEngine.Turns.{
  WorkflowResult, Progress, Turn, stuck, returned, went_on, Acted, act, is_end, proceed, leave,
  enter, take_turn,
}
use nova_test.WorkflowEngine.Turns.Acts.{
  Unresolved, IsDone, KindIsVerified, IsSound, ActedIsSound, act-ActedIsSound,
}

module _ {P V C : Type 0} (p : Platform P V C) (d : WorkflowDefinition P V C) where
  -- The result of a loop, if it completes.
  abbrev pub ResultIsSound : Result WorkflowResult → Type 0
  ResultIsSound (ok r) =
      AllIn (IsDone p d) r.completed_node_ids
      × ((node : WorkflowNode P V C) × (find_node d.nodes node.id ≡ some node)
          × (is_end node.kind ≡ true)
          × (contains r.completed_node_ids node.id ≡ true))
  ResultIsSound (err e) = Unit {0}

  abbrev pub TurnIsSound : ℕ → Turn P V C → Type 0
  TurnIsSound steps (stuck m) = Unresolved p d
  TurnIsSound steps (returned m r) = ResultIsSound r
  TurnIsSound steps (went_on s) = IsSound p d s × (s.steps ≡ suc steps) × (steps < p.max_steps)

  proceed-TurnIsSound :
      (s : Progress P V C) (node : WorkflowNode P V C) (steps : ℕ)
      → find_node d.nodes node.id ≡ some node
      → contains s.completed node.id ≡ true
      → IsSound p d s
      → s.steps ≡ suc steps
      → steps < p.max_steps
      → TurnIsSound steps (proceed d node.kind s)
  proceed-TurnIsSound s node steps f c h e l = elim (Bool-cases (is_end node.kind)) [
    | inl q ↦
        let r : WorkflowResult = record {
          workflow_id = d.workflow_id;
          completed_node_ids = s.completed;
          checkpoint_id = s.checkpoint;
        } in
        let g : proceed d node.kind s ≡ returned s.engine (ok r) = ground arith in
        subst (TurnIsSound steps) (sym g) (h.0, (node, f, q, c))
    | inr q ↦ elim (Option-cases s.current) [
      | inr (n, w) ↦
          let g : proceed d node.kind s ≡ went_on s = ground arith in
          subst (TurnIsSound steps) (sym g) (h, e, l)
      | inl w ↦ elim (Bool-cases (ltb (length s.completed) (length d.nodes))) [
        | inl t ↦
            let x =
              failed "Workflow execution reached a deadlock."
                (("checkpointId", text s.checkpoint) ∷ []) in
            let g : proceed d node.kind s ≡ returned s.engine (err x) = ground arith in
            subst (TurnIsSound steps) (sym g) tt
        | inr t ↦
            let g : proceed d node.kind s ≡ went_on s = ground arith in
            subst (TurnIsSound steps) (sym g) (h, e, l)
      ]
    ]
  ]

  leave-TurnIsSound :
      (s : Progress P V C) (node : WorkflowNode P V C) (a : Acted C)
      → find_node d.nodes node.id ≡ some node
      → s.steps < p.max_steps
      → ActedIsSound p d node.id a
      → TurnIsSound s.steps (leave p d s node.id node.kind a)
  unfolding leave
  leave-TurnIsSound s node none f l h = h
  leave-TurnIsSound s node (some (err e)) f l h = tt
  leave-TurnIsSound s node (some (ok (done, context))) f l h =
      elim (Bool-cases (ltb (p.started_at + p.workflow_timeout_ms) (p.now_after (turn s.steps)))) [
        | inl q ↦ rw (q) tt
        | inr q ↦
            let c : contains (add done node.id) node.id ≡ true =
              ground (arith, contains-add done node.id node.id) in
            let all = add-AllIn (IsDone p d) done node.id h.0 h.1 in
            rw (q) (
              proceed-TurnIsSound _ node s.steps f c
                (
                  all,
                  λ n e.
                      let (x, (b, y, i)) =
                        next_pending-some d.edges (add done node.id) node.id context n c e in
                      (x, Reach-step (adjacency d.edges) (all b y).0 i),
                )
                refl l)
      ]

  HasVerified-kind :
      (node : WorkflowNode P V C)
      → find_node d.nodes node.id ≡ some node
      → KindIsVerified p d node.kind
      → HasVerified p d node.id
  HasVerified-kind node f h other g step k =
      let w : node ≡ other = ground arith in h step (ap (λ y. y.kind) w ∙ k)

  module _ (acyclic : ¬ HasCycle (adjacency d.edges) d.start_node_id) where
    enter-TurnIsSound :
        (s : Progress P V C) (n : String)
        → IsSound p d s
        → s.current ≡ some n
        → s.steps < p.max_steps
        → TurnIsSound s.steps (enter p d s n)
    unfolding enter
    enter-TurnIsSound s n h e l = elim (Option-cases (find_node d.nodes n)) [
      | inl q ↦
          let x =
            workflow_error nova_wfl001 "Workflow node disappeared during execution."
              (("nodeId", text n) ∷ []) in
          let g : enter p d s n ≡ returned s.engine (err x) = ground arith in
          subst (TurnIsSound s.steps) (sym g) tt
      | inr (node, q) ↦
          let (i, c) = find_node-id d.nodes n node q in
          let f : find_node d.nodes node.id ≡ some node =
            subst (λ x. find_node d.nodes x ≡ some node) (sym i) q in
          let (x, r) = h.1 n e in
          let y : contains s.completed node.id ≡ false =
            subst (λ z. contains s.completed z ≡ false) (sym i) x in
          let g : enter p d s n ≡ leave p d s node.id node.kind (act p d s node.id node.kind) =
            ground arith in
          subst (TurnIsSound s.steps) (sym g) (
            leave-TurnIsSound s node (act p d s node.id node.kind) f l (
              act-ActedIsSound p d acyclic s node.id node.kind h.0
                (subst (Reach (adjacency d.edges) d.start_node_id) (sym i) r)
                (HasVerified-kind node f)
                (λ w. record {
                  node = node;
                  i = s.steps;
                  completed = s.completed;
                  context = s.context;
                  found = f;
                  reached = subst (Reach (adjacency d.edges) d.start_node_id) (sym i) r;
                  done = h.0;
                  halts = w;
                })))
    ]

    pub take_turn-TurnIsSound :
        (s : Progress P V C) → IsSound p d s → TurnIsSound s.steps (take_turn p d s)
    unfolding take_turn
    take_turn-TurnIsSound s h = elim (Option-cases s.current) [
      | inl e ↦ rw (e) tt
      | inr (n, e) ↦
          elim (Bool-cases (
            ltb (p.started_at + p.workflow_timeout_ms) (p.now_before (turn s.steps))
            || leb p.max_steps s.steps)) [
              | inl q ↦ rw (e) (rw (q) tt)
              | inr q ↦ rw (e) (rw (q) (enter-TurnIsSound s n h e (ground arith)))
            ]
    ]

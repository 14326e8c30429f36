-- ===== src/WorkflowEngine/Branches/Walks.antt =====
-- The nodes that a branch of services/runtime/src/workflow-engine.ts completes, and that it ends.
use mathlib.Core.Path.{subst}
use nova_test.Common.{
  free, free-lt, free-nil, ℕ, zero, suc, ◌+◌, ◌<◌, ◌≡◌, ◌≢◌, ◌∙◌, ap, refl, sym, true, false, List,
  [], ◌∷◌, map, String, Option, none, some, length, add, contains, In, inl, inr, arith,
  Option-cases, Bool-cases, text_dec, AllIn, add-AllIn, keep, All,
}
use nova_test.Shared.{Result, ok, err, Result-cases}
use nova_test.Orchestration.{ExecutionStep, ExecutionResult}
use nova_test.WorkflowEngine.{WorkflowDefinition, WorkflowNode, WorkflowEdge, NodeKind, task}
use nova_test.WorkflowEngine.Pending.{outgoing}
use nova_test.WorkflowEngine.Graphs.{HasCycle, here, via, IsPath, IsPath-next}
use nova_test.WorkflowEngine.Validation.{adjacency, node_ids}
use nova_test.WorkflowEngine.Platform.{Occasion, in_branch, Platform, is_verified, find_node}
use nova_test.WorkflowEngine.Branches.{
  branch_answer, branch_kind, branch_pass, first_target, is_join, execute_branch, execute_branches,
}

first_target-In :
    (es : List WorkflowEdge) (n t : String)
    → first_target (outgoing es n) ≡ some t
    → In t (adjacency es n)
unfolding adjacency outgoing keep
first_target-In [] n t e = cc
first_target-In (x ∷ es) n t e = elim (text_dec x.from n) [
  | yes p ↦
      let q : adjacency (x ∷ es) n ≡ x.to ∷ adjacency es n = ground arith in
      subst (In t) (sym q) (inl (ground arith))
  | no p ↦
      let q : adjacency (x ∷ es) n ≡ adjacency es n = ground arith in
      subst (In t) (sym q) (first_target-In es n t (ground arith))
]

-- What holds of the nodes of a branch, if it succeeds.
abbrev pub IsAllIn : (String → Type 0) → Result (List String) → Type 0
IsAllIn Q (ok ns) = AllIn Q ns
IsAllIn Q (err e) = Unit {0}

module _ {P V C : Type 0} where
  pub find_node-id :
      (ns : List (WorkflowNode P V C)) (n : String) (node : WorkflowNode P V C)
      → find_node ns n ≡ some node
      → (node.id ≡ n) × (contains (map (λ x. x.id) ns) n ≡ true)
  unfolding contains
  find_node-id [] n node e = cc
  find_node-id (x ∷ ns) n node e = elim (text_dec x.id n) [
    | yes p ↦ let q : x ≡ node = ground arith in (subst (λ y. y.id ≡ n) q p, ground arith)
    | no p ↦ let (a, b) = find_node-id ns n node (ground arith) in (a, ground arith)
  ]

  -- The step of the node with the identifier, if it is a task, has given a result that was verified.
  abbrev pub HasVerified : Platform P V C → WorkflowDefinition P V C → String → Type 0
  HasVerified p d n =
      (node : WorkflowNode P V C)
      → find_node d.nodes n ≡ some node
      → (step : ExecutionStep P V) → node.kind ≡ task step
      → (o : Occasion) × (result : ExecutionResult P V) × (p.execute o step ≡ some (ok result))
        × (is_verified (p.verify step result) ≡ true)

  branch_answer-ok :
      (p : Platform P V C) (o : Occasion) (n : String) (step : ExecutionStep P V)
      → (a : Option (Result (ExecutionResult P V))) → (m : String)
      → branch_answer p o n step a ≡ ok m
      → (m ≡ n)
        × (result : ExecutionResult P V) × (a ≡ some (ok result))
        × (is_verified (p.verify step result) ≡ true)
  unfolding branch_answer
  branch_answer-ok p o n step none m e = cc
  branch_answer-ok p o n step (some (err x)) m e = absurd (ground arith)
  branch_answer-ok p o n step (some (ok r)) m e = (ground arith, r, refl, ground arith)

  branch_kind-ok :
      (p : Platform P V C) (o : Occasion) (n : String) (kind : NodeKind P V C) (m : String)
      → branch_kind p o n kind ≡ ok m
      → (m ≡ n)
        × ((step : ExecutionStep P V)
            → kind ≡ task step
            → (result : ExecutionResult P V) × (p.execute o step ≡ some (ok result))
              × (is_verified (p.verify step result) ≡ true))
  branch_kind-ok p o n (task s) m e =
      let (a, r, x, v) = branch_answer-ok p o n s (p.execute o s) m e in
      (
        a,
        λ step k.
            let q : s ≡ step = ground arith in
            subst
              (λ z.
                (result : ExecutionResult P V) × (p.execute o z ≡ some (ok result))
                × (is_verified (p.verify z result) ≡ true))
              q (r, x, v),
      )
  branch_kind-ok p o n _ m e = absurd (ground arith)

  -- A pass completes the node it is for, which has been verified.
  branch_pass-ok :
      (p : Platform P V C) (d : WorkflowDefinition P V C) (o : Occasion) (n m : String)
      → branch_pass p d o n ≡ ok m
      → (m ≡ n) × (contains (node_ids d) n ≡ true) × HasVerified p d n
  unfolding branch_pass
  branch_pass-ok p d o n m e = elim (Option-cases (find_node d.nodes n)) [
    | inl q ↦ absurd (ground arith)
    | inr (node, q) ↦
        let (a, b) = find_node-id d.nodes n node q in
        let k : branch_kind p o node.id node.kind ≡ ok m = ground arith in
        let (x, v) = branch_kind-ok p o node.id node.kind m k in
        (
          x ∙ a,
          b,
          λ other r step t.
              let w : node ≡ other = ground arith in
              let (result, x1, x2) = v step (ap (λ y. y.kind) w ∙ t) in (o, result, x1, x2),
        )
  ]

  module _ (p : Platform P V C) (d : WorkflowDefinition P V C) (Q R : String → Type 0)
      (h : (n : String)
        → R n
        → contains (node_ids d) n ≡ true
        → HasVerified p d n
        → Q n × ((t : String) → In t (adjacency d.edges n) → R t)) where
    execute_branch-AllIn :
        (fuel i b k : ℕ) (done : List String) (current : Option String) (out : List String)
        → AllIn Q done
        → ((n : String) → current ≡ some n → R n)
        → execute_branch fuel p d i b k done current ≡ some (ok out)
        → AllIn Q out
    unfolding execute_branch
    execute_branch-AllIn zero i b k done current out a r e = cc
    execute_branch-AllIn (suc fuel) i b k done none out a r e =
        let q : done ≡ out = ground arith in subst (AllIn Q) q a
    execute_branch-AllIn (suc fuel) i b k done (some n) out a r e =
        elim (Bool-cases (is_join d n)) [
          | inl j ↦ let q : done ≡ out = ground arith in subst (AllIn Q) q a
          | inr j ↦ elim (Result-cases (branch_pass p d (in_branch i b k) n)) [
            | inr (x, f) ↦ absurd (ground arith)
            | inl (m, f) ↦
                let (t, c, v) = branch_pass-ok p d (in_branch i b k) n m f in
                let (g, w) = h n (r n refl) c v in
                execute_branch-AllIn fuel i b (suc k) (add done m)
                  (first_target (outgoing d.edges m)) out (add-AllIn Q done m a (subst Q (sym t) g))
                  (λ u z.
                    w u (subst (λ y. In u (adjacency d.edges y)) t (first_target-In d.edges m u z)))
                  (ground arith)
          ]
        ]

    branch-IsAllIn :
        (i b : ℕ) (n : String) (r : Result (List String))
        → R n
        → execute_branch (length d.nodes + 2) p d i b 0 [] (some n) ≡ some r
        → IsAllIn Q r
    unfolding contains
    branch-IsAllIn i b n (ok ns) h e =
        execute_branch-AllIn (length d.nodes + 2) i b 0 [] (some n) ns (λ x c. cc)
          (λ m q. let w : n ≡ m = ground arith in subst R w h) e
    branch-IsAllIn i b n (err x) h e = tt

    pub execute_branches-IsAllIn :
        (i b : ℕ) (es : List WorkflowEdge) (rs : List (Result (List String)))
        → ((e : WorkflowEdge) → In e es → R e.to)
        → execute_branches p d i b es ≡ some rs
        → All (IsAllIn Q) rs
    unfolding execute_branches
    execute_branches-IsAllIn i b [] rs r e =
        let q : [] ≡ rs = ground arith in subst (All (IsAllIn Q)) q tt
    execute_branches-IsAllIn i b (x ∷ es) rs r e =
        elim (Option-cases (execute_branch (length d.nodes + 2) p d i b 0 [] (some x.to))) [
          | inl f ↦ absurd (ground arith)
          | inr (y, f) ↦ elim (Option-cases (execute_branches p d i (suc b) es)) [
            | inl g ↦ absurd (ground arith)
            | inr (ys, g) ↦
                let q : y ∷ ys ≡ rs = ground arith in
                subst (All (IsAllIn Q)) q (
                  branch-IsAllIn i b x.to y (r x (inl refl)) f,
                  execute_branches-IsAllIn i (suc b) es ys (λ z j. r z (inr j)) g,
                )
          ]
        ]

  execute_branch-none :
      (p : Platform P V C) (d : WorkflowDefinition P V C)
      → (fuel i b k : ℕ) (done : List String) (current : Option String) (path : List String)
      → ((n : String)
          → current ≡ some n
          → IsPath (adjacency d.edges) path n × (¬ HasCycle (adjacency d.edges) n))
      → free (node_ids d) path + 1 < fuel
      → execute_branch fuel p d i b k done current ≢ none
  unfolding execute_branch
  execute_branch-none p d zero i b k done current path h l e = ground arith
  execute_branch-none p d (suc fuel) i b k done none path h l e = cc
  execute_branch-none p d (suc fuel) i b k done (some n) path h l e =
      elim (Bool-cases (is_join d n)) [
        | inl j ↦ ground arith
        | inr j ↦ elim (Result-cases (branch_pass p d (in_branch i b k) n)) [
          | inr (x, f) ↦ ground arith
          | inl (m, f) ↦
              let (t, c, v) = branch_pass-ok p d (in_branch i b k) n m f in
              let (a, y) = h n refl in
              let fresh : contains path n ≡ false = elim (Bool-cases (contains path n)) [
                | inl z ↦ absurd (y (n, here, a n z))
                | inr z ↦ z
              ] in
              execute_branch-none p d fuel i b (suc k) (add done m)
                (first_target (outgoing d.edges m)) (n ∷ path)
                (λ u z.
                  let w =
                    subst (λ y. In u (adjacency d.edges y)) t (first_target-In d.edges m u z) in
                  (
                    IsPath-next (adjacency d.edges) path n u a w,
                    λ q. let (x, r, o) = q in y (x, via w r, o),
                  ))
                (omega (arith, free-lt (node_ids d) path n c fresh)) (ground arith)
        ]
      ]

  length-node_ids : (ns : List (WorkflowNode P V C)) → length (map (λ n. n.id) ns) ≡ length ns
  length-node_ids [] = refl
  length-node_ids (n ∷ ns) = omega (arith, length-node_ids ns)

  -- The branches of a split at a node that reaches no cycle all end within their fuel.
  pub execute_branches-none :
      (p : Platform P V C) (d : WorkflowDefinition P V C) (i b : ℕ) (es : List WorkflowEdge)
      → ((e : WorkflowEdge) → In e es → ¬ HasCycle (adjacency d.edges) e.to)
      → execute_branches p d i b es ≢ none
  unfolding execute_branches contains
  execute_branches-none p d i b [] h e = cc
  execute_branches-none p d i b (x ∷ es) h e = ground (
    arith,
    execute_branches-none p d i (suc b) es (λ z j. h z (inr j)),
    execute_branch-none p d (length d.nodes + 2) i b 0 [] (some x.to) []
        (λ n q. (
          λ m c. cc,
          λ y.
              let w : n ≡ x.to = ground arith in
              h x (inl refl) (subst (HasCycle (adjacency d.edges)) w y),
        ))
        (omega (arith, length-node_ids d.nodes, free-nil (node_ids d))),
  )

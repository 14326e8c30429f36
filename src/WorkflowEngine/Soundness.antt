-- ===== src/WorkflowEngine/Soundness.antt =====
-- What the definitions are that `validate` of services/runtime/src/workflow-engine.ts accepts.
use mathlib.Core.Path.{subst}
use nova_test.Common.{
  ◌+◌, ◌≡◌, ◌≢◌, refl, true, false, List, [], ◌∷◌, map, String, none, length, All, In, ◌↔◌, inl,
  inr, contains, text_dec, is_empty, arith, Option-cases,
}
use nova_test.Shared.{ok}
use nova_test.WorkflowEngine.{WorkflowDefinition, WorkflowNode, WorkflowEdge}
use nova_test.WorkflowEngine.Graphs.{
  Visit, clean, cycle, exhausted, visit, HasCycle, visit-clean_iff,
}
use nova_test.WorkflowEngine.Validation.{
  adjacency, node_ids, ids_error, edges_error, is_join_kind, joins_error, graph_result, validate,
}

-- The identifiers are neither empty nor among those seen, nor twice there.
abbrev pub AreFresh : List String → List String → Type 0
AreFresh seen [] = Unit {0}
AreFresh seen (n ∷ ns) = (n ≢ "") × (contains seen n ≡ false) × AreFresh (n ∷ seen) ns

abbrev pub IsKnown : List String → WorkflowEdge → Type 0
IsKnown ids e = (contains ids e.from ≡ true) × (contains ids e.to ≡ true)

edges_error-none_iff :
    (ids : List String) (es : List WorkflowEdge)
    → (edges_error ids es ≡ none) ↔ All (IsKnown ids) es
unfolding edges_error
edges_error-none_iff ids [] = (λ e. tt, λ h. refl)
edges_error-none_iff ids (e ∷ es) =
    let (f, g) = edges_error-none_iff ids es in (λ q. ground (arith, f), λ h. ground (arith, g h.1))

adjacency-contains :
    (ids : List String) (es : List WorkflowEdge)
    → All (IsKnown ids) es
    → (a m : String) → In m (adjacency es a)
    → contains ids m ≡ true
unfolding adjacency
adjacency-contains ids [] h a m i = absurd i
adjacency-contains ids (e ∷ es) h a m i = elim (text_dec e.from a) [
  | yes p ↦
      let q : adjacency (e ∷ es) a ≡ e.to ∷ adjacency es a = ground arith in
      elim (subst (In m) q i) [ inl r ↦ rw (r) h.0.1 | inr j ↦ adjacency-contains ids es h.1 a m j ]
  | no p ↦
      let q : adjacency (e ∷ es) a ≡ adjacency es a = ground arith in
      adjacency-contains ids es h.1 a m (subst (In m) q i)
]

module _ {P V C : Type 0} where
  ids_error-none_iff :
      (seen : List String) (ns : List (WorkflowNode P V C))
      → (ids_error seen ns ≡ none) ↔ AreFresh seen (map (λ n. n.id) ns)
  unfolding ids_error
  ids_error-none_iff seen [] = (λ e. tt, λ h. refl)
  ids_error-none_iff seen (n ∷ ns) =
      let (f, g) = ids_error-none_iff (n.id ∷ seen) ns in
      (λ q. ground (arith, f), λ h. ground (arith, g))

  -- A join has an edge from it.
  abbrev pub HasExit : List WorkflowEdge → WorkflowNode P V C → Type 0
  HasExit es n = is_join_kind n.kind ≡ true → adjacency es n.id ≢ []

  joins_error-none_iff :
      (es : List WorkflowEdge) (ns : List (WorkflowNode P V C))
      → (joins_error es ns ≡ none) ↔ All (HasExit es) ns
  unfolding joins_error
  joins_error-none_iff es [] = (λ e. tt, λ h. refl)
  joins_error-none_iff es (n ∷ ns) =
      let (f, g) = joins_error-none_iff es ns in
      (λ q. ground (arith, f), λ h. ground (arith, g h.1))

  graph_result-ok_iff :
      (d : WorkflowDefinition P V C) (v : Visit)
      → (graph_result d v ≡ ok tt)
        ↔ (((out : List String) × (v ≡ clean out)) × All (HasExit d.edges) d.nodes)
  unfolding graph_result
  graph_result-ok_iff d (clean out) =
      let (f, g) = joins_error-none_iff d.edges d.nodes in
      (λ q. ((out, refl), f (ground arith)), λ h. ground (arith, g h.1))
  graph_result-ok_iff d cycle = (λ q. absurd (ground arith), λ h. absurd (ground arith))
  graph_result-ok_iff d exhausted = (λ q. absurd (ground arith), λ h. absurd (ground arith))

  -- A workflow that can be run: it has nodes, whose identifiers are not empty and differ, its edges
  -- and its start are among them, no cycle can be reached from the start, and each join has an
  -- edge from it.
  abbrev pub IsWorkflow : WorkflowDefinition P V C → Type 0
  IsWorkflow d =
      (d.nodes ≢ [])
      × (d.workflow_id ≢ "")
      × AreFresh [] (node_ids d)
      × (contains (node_ids d) d.start_node_id ≡ true)
      × All (IsKnown (node_ids d)) d.edges
      × (¬ HasCycle (adjacency d.edges) d.start_node_id)
      × All (HasExit d.edges) d.nodes

  -- `validate` accepts a definition exactly if it is a workflow.
  pub validate-ok_iff : (d : WorkflowDefinition P V C) → (validate d ≡ ok tt) ↔ IsWorkflow d
  unfolding validate
  validate-ok_iff d =
      let (a, b) = ids_error-none_iff [] d.nodes in
      let (f, g) = edges_error-none_iff (node_ids d) d.edges in
      let v = visit (adjacency d.edges) (length (node_ids d) + 1) [] [] d.start_node_id in
      let (i, j) = graph_result-ok_iff d v in
      (
        λ q. elim (Option-cases (ids_error [] d.nodes)) [
          | inr (x, e) ↦ absurd (ground arith)
          | inl e ↦ elim (Option-cases (edges_error (node_ids d) d.edges)) [
            | inr (x, e2) ↦ absurd (ground arith)
            | inl e2 ↦
                let c : contains (node_ids d) d.start_node_id ≡ true = ground arith in
                let r : graph_result d v ≡ ok tt = ground arith in
                let cl =
                  visit-clean_iff (adjacency d.edges) (node_ids d)
                    (adjacency-contains (node_ids d) d.edges (f e2)) d.start_node_id c in
                (ground arith, ground arith, a e, c, f e2, cl.0 (i r).0, (i r).1)
          ]
        ],
        λ h.
            let (h0, h1, h2, h3, h4, h5, h6) = h in
            let cl =
              visit-clean_iff (adjacency d.edges) (node_ids d)
                (adjacency-contains (node_ids d) d.edges h4) d.start_node_id h3 in
            let r : graph_result d v ≡ ok tt = j (cl.1 h5, h6) in
            let e : ids_error [] d.nodes ≡ none = b h2 in
            let e2 : edges_error (node_ids d) d.edges ≡ none = g h4 in
            let l : is_empty d.nodes ≡ false = ground arith in ground arith,
      )

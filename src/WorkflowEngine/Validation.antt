-- ===== src/WorkflowEngine/Validation.antt =====
-- `validate` of services/runtime/src/workflow-engine.ts. `adjacency` stands for the map of this name,
-- whose list for a node holds the targets of the edges from it, in their order.
use nova_test.Common.{
  ◌+◌, true, false, Bool, List, [], ◌∷◌, map, String, Option, none, some, length, contains,
  if◌then◌else◌, same, is_empty, ◌&&◌, ◌||◌,
}
use nova_test.Shared.{ErrorInfo, Result, ok, err, text, nova_wfl001}
use nova_test.WorkflowEngine.{
  WorkflowDefinition, WorkflowNode, WorkflowEdge, NodeKind, join, workflow_error,
}
use nova_test.WorkflowEngine.Graphs.{Visit, clean, visit}

unfoldable pub adjacency : List WorkflowEdge → String → List String
adjacency [] n = []
adjacency (e ∷ es) n = let rest = adjacency es n in if same e.from n then e.to ∷ rest else rest

unfoldable pub edges_error : List String → List WorkflowEdge → Option ErrorInfo
edges_error ids [] = none
edges_error ids (e ∷ es) =
    let rest = edges_error ids es in
    if contains ids e.from && contains ids e.to
    then rest
    else some (
        workflow_error nova_wfl001 "Workflow edge references an unknown node."
          (("from", text e.from) ∷ ("to", text e.to) ∷ []))

abbrev pub settled : Option ErrorInfo → Result (Unit {0})
settled none = ok tt
settled (some e) = err e

module _ {P V C : Type 0} where
  abbrev pub node_ids : WorkflowDefinition P V C → List String
  node_ids d = map (λ n. n.id) d.nodes

  -- The nodes follow those with the identifiers `seen`.
  unfoldable pub ids_error : List String → List (WorkflowNode P V C) → Option ErrorInfo
  ids_error seen [] = none
  ids_error seen (n ∷ ns) =
      let rest = ids_error (n.id ∷ seen) ns in
      if same n.id ""
      then some
          (workflow_error nova_wfl001 "Workflow node identifiers must be non-empty and unique." [])
      else if contains seen n.id
      then some
          (workflow_error nova_wfl001 "Workflow node identifiers must be non-empty and unique." [])
      else rest

  abbrev pub is_join_kind : NodeKind P V C → Bool
  is_join_kind join = true
  is_join_kind _ = false

  unfoldable pub joins_error : List WorkflowEdge → List (WorkflowNode P V C) → Option ErrorInfo
  joins_error es [] = none
  joins_error es (n ∷ ns) =
      let rest = joins_error es ns in
      if is_join_kind n.kind && is_empty (adjacency es n.id)
      then some (
          workflow_error nova_wfl001 "Join node must have an outgoing edge."
            (("nodeId", text n.id) ∷ []))
      else rest

  -- The fuel is enough for the search to answer: `visit-clean_iff`.
  unfoldable pub graph_result : WorkflowDefinition P V C → Visit → Result (Unit {0})
  graph_result d (clean out) = settled (joins_error d.edges d.nodes)
  graph_result d _ = err (workflow_error nova_wfl001 "Workflow graph contains a cycle." [])

  unfoldable pub validate : WorkflowDefinition P V C → Result (Unit {0})
  unfolding graph_result
  validate d =
      if is_empty d.nodes || same d.workflow_id ""
      then err (
          workflow_error nova_wfl001 "Workflow definition must contain an identifier and nodes." [])
      else elim (ids_error [] d.nodes) [
        | some e ↦ err e
        | none ↦
            if contains (node_ids d) d.start_node_id
            then elim (edges_error (node_ids d) d.edges) [
              | some e ↦ err e
              | none ↦
                  graph_result d
                    (visit (adjacency d.edges) (length (node_ids d) + 1) [] [] d.start_node_id)
            ]
            else err (
                workflow_error nova_wfl001 "Workflow start node does not exist."
                  (("nodeId", text d.start_node_id) ∷ []))
      ]

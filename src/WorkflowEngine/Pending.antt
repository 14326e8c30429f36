-- ===== src/WorkflowEngine/Pending.antt =====
-- `nextPendingNode` and `outgoing` of services/runtime/src/workflow-engine.ts: which node comes next.
pub mod Order
use nova_test.Common.Map
use nova_test.Common.{
  Bool, true, false, not, List, [], ◌∷◌, map, String, Option, none, some, ◌⊕◌, keep, same, ◌&&◌,
  ◌||◌, if◌then◌else◌, contains,
}
use nova_test.WorkflowEngine.{Context, ContextValue, flag, word, WorkflowEdge}

abbrev pub first_pending : List String → List String → Option String
first_pending completed [] = none
first_pending completed (n ∷ ns) =
    if contains completed n then first_pending completed ns else some n

unfoldable pub incoming_done : List WorkflowEdge → List String → String → Bool
incoming_done [] completed n = true
incoming_done (e ∷ es) completed n =
    if same e.to n && not (contains completed e.from) then false else incoming_done es completed n

-- The loop over `rest`, some of the edges `es`.
unfoldable pub first_ready : List WorkflowEdge → List String → List WorkflowEdge → Option String
unfolding incoming_done
first_ready es completed [] = none
first_ready es completed (e ∷ rest) =
    if not (contains completed e.from) || contains completed e.to
    then first_ready es completed rest
    else if incoming_done es completed e.to
    then some e.to
    else first_ready es completed rest

unfoldable pub outgoing : List WorkflowEdge → String → List WorkflowEdge
outgoing es n = keep (λ e. same e.from n) es

abbrev pub meets : Option String → Option String → Bool
meets none actual = true
meets (some condition) none = false
meets (some condition) (some actual) = same condition actual

module _ {C : Type 0} where
  abbrev pub answer_of : Option (ContextValue C) → Option (ContextValue C) → Option String
  answer_of (some (flag true)) decision = some "approved"
  answer_of (some (flag false)) decision = some "denied"
  answer_of _ (some (word s)) = some s
  answer_of _ _ = none

  -- What the condition of an edge from the node is compared with.
  unfoldable pub answer : Context C → String → Option String
  answer context n =
      answer_of (Map.get context ("approval:" ⊕ n)) (Map.get context ("decision:" ⊕ n))

  unfoldable pub candidates : List WorkflowEdge → Context C → String → List String
  unfolding outgoing answer
  candidates es context n =
      map (λ e. e.to) (keep (λ e. meets e.condition (answer context n)) (outgoing es n))

  -- The identifiers of a validated definition, the only ones to be run, are not empty.
  unfoldable pub next_pending : List WorkflowEdge → List String → String → Context C → Option String
  unfolding candidates first_ready
  next_pending es completed n context = elim (first_pending completed (candidates es context n)) [
    | some m ↦ some m
    | none ↦ first_ready es completed es
  ]

-- ===== src/WorkflowEngine/Checkpoints.antt =====
-- The checkpoints of `WorkflowEngine` in services/runtime/src/workflow-engine.ts: `latestCheckpointId`,
-- `persistCheckpoint`, `getCheckpoints` and `checkpointSummaries`. The text of a number, the time and
-- `localeCompare` are arguments.
pub mod Currency
use Prim.Native.Nat.{Ordering}
use nova_test.Common.Map
use nova_test.Common.Map.{Map}
use nova_test.Common.Sort.{sort}
use nova_test.Common.{
  ℕ, suc, ◌+◌, Bool, true, false, List, [], ◌∷◌, ◌++◌, map, String, Option, none, some, ◌⊕◌, keep,
  same, ◌&&◌, if◌then◌else◌, length, take,
}
use nova_test.WorkflowEngine.{Context, WorkflowDefinition}

pub data CheckpointState : Type 0 where
  created valid superseded : CheckpointState

pub record WorkflowCheckpoint (C : Type 0) : Type 0 where
  pub checkpoint_id : String
  pub workflow_id : String
  pub state : CheckpointState
  pub completed_node_ids : List String
  pub context : Context C
  pub created_at : String

pub record WorkflowCheckpointSummary : Type 0 where
  pub checkpoint_id : String
  pub workflow_id : String
  pub state : CheckpointState
  pub completed_node_count : ℕ
  pub created_at : String

-- A stored workflow is its definition: the context beside it is never read.
pub record WorkflowEngine (P V C : Type 0) : Type 0 where
  pub checkpoints : Map (WorkflowCheckpoint C)
  pub workflows : Map (WorkflowDefinition P V C)
  pub checkpoint_sequence : ℕ

abbrev pub is_valid : CheckpointState → Bool
is_valid valid = true
is_valid _ = false

abbrev pub stays_first : Ordering × Ordering → Bool
stays_first (Ordering.lt, o) = true
stays_first (Ordering.gt, o) = false
stays_first (Ordering.eq, Ordering.gt) = false
stays_first (Ordering.eq, o) = true

module _ {C : Type 0} where
  abbrev pub is_current : String → WorkflowCheckpoint C → Bool
  is_current workflow_id c = same c.workflow_id workflow_id && is_valid c.state

  unfoldable pub latest_in : String → List (WorkflowCheckpoint C) → Option String
  latest_in workflow_id [] = none
  latest_in workflow_id (c ∷ cs) = elim (latest_in workflow_id cs) [
    | some k ↦ some k
    | none ↦ if is_current workflow_id c then some c.checkpoint_id else none
  ]

  abbrev pub checkpoint_le :
      (String → String → Ordering) → WorkflowCheckpoint C → WorkflowCheckpoint C → Bool
  checkpoint_le locale_compare a b =
      stays_first
        (locale_compare a.created_at b.created_at, locale_compare a.checkpoint_id b.checkpoint_id)

  abbrev pub summary : WorkflowCheckpoint C → WorkflowCheckpointSummary
  summary c = record {
    checkpoint_id = c.checkpoint_id;
    workflow_id = c.workflow_id;
    state = c.state;
    completed_node_count = length c.completed_node_ids;
    created_at = c.created_at;
  }

  -- The latest checkpoint of the workflow is superseded.
  unfoldable pub supersede : Map (WorkflowCheckpoint C) → Option String → Map (WorkflowCheckpoint C)
  supersede m none = m
  supersede m (some previous) = elim (Map.get m previous) [
    | none ↦ m
    | some old ↦ Map.set m previous (record old { state = superseded })
  ]

module _ {P V C : Type 0} where
  unfoldable pub get_checkpoints : WorkflowEngine P V C → String → List (WorkflowCheckpoint C)
  get_checkpoints m workflow_id =
      keep (λ c. same c.workflow_id workflow_id) (Map.values m.checkpoints)

  unfoldable pub checkpoint_summaries :
      (String → String → Ordering) → WorkflowEngine P V C → String → List WorkflowCheckpointSummary
  unfolding get_checkpoints
  checkpoint_summaries locale_compare m workflow_id =
      map summary (take 128 (sort (checkpoint_le locale_compare) (get_checkpoints m workflow_id)))

  unfoldable pub latest_checkpoint_id : WorkflowEngine P V C → String → Option String
  unfolding latest_in
  latest_checkpoint_id m workflow_id = latest_in workflow_id (Map.values m.checkpoints)

  unfoldable pub fresh_checkpoint :
      (ℕ → String)
      → String
      → WorkflowEngine P V C
      → String
      → List String
      → Context C
      → WorkflowCheckpoint C
  fresh_checkpoint number_text now m workflow_id completed context = record {
    checkpoint_id = workflow_id ⊕ ":checkpoint:" ⊕ number_text (suc m.checkpoint_sequence);
    workflow_id = workflow_id;
    state = valid;
    completed_node_ids = completed;
    context = context;
    created_at = now;
  }

  unfoldable pub persist_checkpoint :
      (ℕ → String)
      → String
      → WorkflowEngine P V C
      → String
      → List String
      → Context C
      → WorkflowEngine P V C × String
  unfolding latest_checkpoint_id supersede fresh_checkpoint
  persist_checkpoint number_text now m workflow_id completed context =
      let c = fresh_checkpoint number_text now m workflow_id completed context in
      let old = supersede m.checkpoints (latest_checkpoint_id m workflow_id) in
      (
        record {
          checkpoints = Map.set old c.checkpoint_id c;
          workflows = m.workflows;
          checkpoint_sequence = suc m.checkpoint_sequence;
        },
        c.checkpoint_id,
      )

-- ===== src/Lib.antt =====
-- Nova: the task runtime of a desktop agent platform. This library models parts of
-- services/runtime/src and packages/shared/src as functions on explicit state, and proves what they
-- keep.
--
-- - Shared: packages/shared/src/contracts.ts (error codes, error values, results) and, in
--   Shared.Lifecycle, packages/shared/src/service-lifecycle.ts.
-- - TaskManager: services/runtime/src/task-manager.ts. The manager is its map of records and its
--   retry budget. `create`, `get`, `list`, `restore`, `transition`, `assign_owner` and
--   `append_step_history` are the methods of these names; `refusal` holds the guards of
--   `transition` and `next_record` the record that it stores.
-- - TaskScheduler: services/runtime/src/task-scheduler.ts. The scheduler is its queue, the set of
--   running tasks, the sequence counter and whether a drain promise is pending. `enqueue`,
--   `dispatch`, `cancel`, `fill_slots` and `next_index` are the methods; `finish` is the
--   `finally` of `run`. The tasks that an operation hands to the dispatcher stand beside the new
--   state.
-- - ResourceManager: services/runtime/src/resource-manager.ts. The manager is the map of its
--   locks, its queue and its maximal duration. `acquire`, `release`, `holder`, `list_held_locks`
--   and `expire_locks` are the methods; `lock_all`, `drop_locks`, `grant_queued` and
--   `expire_into` are their loops.
-- - Orchestration: services/runtime/src/orchestration.ts, in one module per class: Planner,
--   Permission, Executor and Verifier. A plan is rejected if the model planner is. The executor
--   uses ResourceManager. `execute` is `begin`, up to the call of the action, and `finish`, from
--   the end of the action on; between the two the rest of the runtime may use the locks.
-- - UpgradeManager: services/runtime/src/upgrade-manager.ts. The adapter is its answers;
--   `attempt` is the `try` block of `upgrade` and `recover` its `catch`, and each lists the calls
--   it makes.
-- - CrossDeviceSync: services/runtime/src/cross-device-sync.ts. The manager is its checkpoint,
--   its records, the pending changes and the applied identifiers. The names
--   that objects inherit are in `is_inherited`. `sync`, `apply_local`, `flush` and `apply` are the methods; `sync`
--   starts when the pull has settled.
-- - DevicePairing: services/runtime/src/device-pairing.ts. The manager is its offers and its
--   trusted devices. `create_offer`, `complete_pairing`, `get`, `list_trusted` and `unpair` are
--   the methods; `objection` holds the guards of `completePairing` once the offer is found.
-- - ResourceArbitration: services/runtime/src/resource-arbitration.ts. `acquire` and `release`
--   are the methods of ResourceArbitrator, `set_online`, `submit` and `reconnect` those of
--   OfflineActionQueue.
-- - SessionContinuity, IncidentLifecycle and SystemLifecycle:
--   services/runtime/src/session-continuity.ts, incident-lifecycle.ts and system-lifecycle.ts,
--   with a definition for each method, of its name.
-- - RuntimeTaskCoordinator: services/runtime/src/runtime-task-coordinator.ts, over TaskManager,
--   Planner and Verifier. Execution is `execute` and Decisions the four decisions of the user. An
--   answer is a result, or what a failed publication throws or the model planner rejects with.
-- - WorkflowEngine: services/runtime/src/workflow-engine.ts. Validation is `validate`, with its
--   depth-first search in Graphs; Checkpoints holds the checkpoints, Pending is
--   `nextPendingNode`, Branches is `executeBranch`, Turns a turn of the loop of `executeFrom` and
--   Execution the loop, `run` and `resume`; `run_for` and `resume_for` follow them for a number
--   of turns. The steps, the verifier, the approvals, the compensations and the clocks answer as
--   a Platform says. A compensation that does not resolve and a choice that throws leave a run
--   without an answer.
-- - JobScheduler: services/runtime/src/job-scheduler.ts. Intervals is `parseInterval`, Cron the
--   parser and the search of cron expressions, Occurrences the times of a job, Registry the
--   methods that do not run jobs and Running `runDue` and `runJob`. Times beyond the range of
--   `Date` are left out. The store is what was saved last.
-- - DistributedScheduler: services/runtime/src/distributed-scheduler.ts. `assign` and `score` are
--   the methods; `select` is the choice among the peers that can take the task.
-- - McpProgressState: services/runtime/src/mcp-progress-state.ts. `apply`, `get`, `clear_server`
--   and `clear` are the methods.
--
-- Conventions. A JavaScript `Map` with text keys is an association list in insertion order
-- (Common.Map), a `Set` of texts a list of texts (Common.Lists). A method that mutates its object
-- returns the new object beside its result. Clocks, random identifiers and what a dispatcher does
-- are arguments. Times are natural numbers of milliseconds. `structuredClone`, spreads and other
-- copies are the identity, since values here are never mutated. Log lines are left out.
--
-- Fuel. The search of `WorkflowEngine.Graphs.visit` has one unit more than there are nodes, a
-- branch two more, and the loop of `executeFrom` one more than the maximal number of steps: each
-- visit or pass is at another node, and each turn of a run adds a step. For `resume`,
-- `resume_for` follows the loop for any number of turns. `JobScheduler.Running.run_job` has two
-- units more than there are jobs, since a job that is being visited ends the recursion.
-- `TaskScheduler.fill` has the length of the queue as fuel: each pass takes one entry out.
-- `UpgradeManager.migrate_all` recurs on the number of versions to go. All other loops recur on
-- the list that they run through.
--
-- Not modelled: the file store of the job scheduler, the MCP client but for its progress,
-- plugins and providers, the HTTP and socket interfaces and the composition of the runtime; the
-- desktop shell, the browser extension, the observers and the persistence layer, which are
-- mostly wiring, input and output.
pub mod Common
pub mod Shared
pub mod TaskManager
pub mod TaskScheduler
pub mod ResourceManager
pub mod Orchestration
pub mod UpgradeManager
pub mod CrossDeviceSync
pub mod DevicePairing
pub mod ResourceArbitration
pub mod SessionContinuity
pub mod IncidentLifecycle
pub mod SystemLifecycle
pub mod RuntimeTaskCoordinator
pub mod WorkflowEngine
pub mod JobScheduler
pub mod DistributedScheduler
pub mod McpProgressState

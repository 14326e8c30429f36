-- ===== src/JobScheduler/Running.antt =====
-- `runDue` and `runJob` of services/runtime/src/job-scheduler.ts. A job ends as the platform says, and
-- while it runs, calls of `cancel` may come in; other calls do not. Only one `runDue` is under way:
-- a second call gets the promise of the first.
pub mod Totality
pub mod Effects
pub mod Once
pub mod Cancelling
use nova_test.Common.Map
use nova_test.Common.Map.{Map}
use nova_test.Common.Sort.{sort}
use nova_test.Common.{
  ℕ, zero, suc, ◌+◌, Bool, true, false, List, [], ◌∷◌, ◌++◌, String, Option, none, some, same, leb,
  contains, add, remove, keep, length, if◌then◌else◌, ◌&&◌, ◌||◌, or_else,
}
use nova_test.JobScheduler.{
  JobDefinition, JobState, JobPriority, low, normal, JobStatus, scheduled, running, failed,
  cancelled,
}
use nova_test.JobScheduler.Occurrences.{Parsing, next_occurrence, next_state_after_success}
use nova_test.JobScheduler.Registry.{
  JobScheduler, persist, is_scheduled, is_due, set_status, cancel, fail_job,
}

-- `clock` is read at a tick. Of the runner that is called at an index, `succeeds` says whether it
-- resolves, and `cancels` which jobs are cancelled meanwhile.
pub record Platform : Type 0 where
  pub parsing : Parsing
  pub clock : ℕ → ℕ
  pub succeeds : ℕ → Bool
  pub cancels : ℕ → List String

-- The scheduler, the identifiers of `completed`, the ticks of the clock and the runners called.
pub record Pass : Type 0 where
  pub scheduler : JobScheduler
  pub completed : List String
  pub ticks : ℕ
  pub calls : List String

abbrev pub with_scheduler : Pass → JobScheduler → Pass
with_scheduler w m = record w { scheduler = m }

abbrev pub fail_in : Pass → String → String → Pass
fail_in w job_id message = with_scheduler w (fail_job w.scheduler job_id message)

abbrev pub cancel_all : JobScheduler → List String → JobScheduler
cancel_all m [] = m
cancel_all m (c ∷ cs) = cancel_all (cancel m c).0 cs

-- Up to the call of the runner, and the calls of `cancel` meanwhile.
unfoldable pub run_runner : Platform → Pass → String → JobState → Pass
unfolding cancel
run_runner p w job_id current =
    let started = persist (
      set_status
        (record w.scheduler {
          running = Map.set w.scheduler.running job_id false;
          groups = add w.scheduler.groups current.definition.concurrency_group;
        })
        job_id current running) in
    record w {
      scheduler = cancel_all started (p.cancels (length w.calls));
      calls = w.calls ++ job_id ∷ [];
    }

abbrev pub is_cancelled : JobStatus → Bool
is_cancelled cancelled = true
is_cancelled _ = false

-- The job after its run, once its state has been computed, which may throw an error.
abbrev pub rescheduled : Pass → String → JobState → Option ℕ → Pass × Bool
rescheduled w job_id latest none = (fail_in w job_id "Job runner failed.", false)
rescheduled w job_id latest (some t) = (
  with_scheduler w (
      persist (record w.scheduler {
        jobs =
            Map.set w.scheduler.jobs job_id (record latest { status = scheduled; next_run_at = t });
      })),
  false,
)

abbrev pub succeeded : Pass → String → Option JobState → Pass × Bool
succeeded w job_id none = (fail_in w job_id "Job runner failed.", false)
succeeded w job_id (some next) = (
  record w {
    scheduler = persist (record w.scheduler { jobs = Map.set w.scheduler.jobs job_id next });
    completed = add w.completed job_id;
  },
  true,
)

-- After the runner has resolved.
unfoldable pub settle_job : Platform → Pass → String → Option JobState → Pass × Bool
unfolding next_occurrence next_state_after_success
settle_job p w job_id none = (w, false)
settle_job p w job_id (some latest) =
    let after = record w { ticks = suc w.ticks } in
    if or_else (Map.get w.scheduler.running job_id) false || is_cancelled latest.status
    then rescheduled after job_id latest
        (next_occurrence p.parsing latest.definition (p.clock w.ticks))
    else succeeded after job_id (next_state_after_success p.parsing latest (p.clock w.ticks))

-- The `finally` of `runJob`.
abbrev pub finally : String → String → Pass × Bool → Pass × Bool
finally job_id group (w, b) = (
  with_scheduler w (record w.scheduler {
    running = Map.delete w.scheduler.running job_id;
    groups = remove w.scheduler.groups group;
  }),
  b,
)

-- From the second look at the job on, when its dependencies are done.
unfoldable pub perform : Platform → Pass → String → Pass × Bool
unfolding run_runner settle_job
perform p w job_id = elim (Map.get w.scheduler.jobs job_id) [
  | none ↦ (w, false)
  | some current ↦
      if is_scheduled current.status
      then (if contains w.scheduler.groups current.definition.concurrency_group
          then (w, false)
          else let ran = run_runner p w job_id current in
            finally job_id current.definition.concurrency_group (
              if p.succeeds (length w.calls)
              then settle_job p ran job_id (Map.get ran.scheduler.jobs job_id)
              else (fail_in ran job_id "Job runner failed.", false)))
      else (w, false)
]

abbrev pub did_not_complete : JobStatus → Bool
did_not_complete failed = true
did_not_complete cancelled = true
did_not_complete _ = false

-- The loop over the dependencies, with the run of one of them: an error message or none. Without
-- fuel there is no answer.
unfoldable pub run_dependencies :
    (Pass → String → Option (Pass × Bool))
    → Platform
    → Pass
    → List String
    → Option (Pass × Option String)
run_dependencies call p w [] = some (w, none)
run_dependencies call p w (d ∷ ds) = elim (Map.get w.scheduler.jobs d) [
  | none ↦ some (w, some "A required job dependency is not registered.")
  | some dependency ↦ elim (did_not_complete dependency.status) [
    | true ↦ some (w, some "A required job dependency did not complete.")
    | false ↦ elim (is_scheduled dependency.status) [
      | false ↦ run_dependencies call p w ds
      | true ↦
          let looked = record w { ticks = suc w.ticks } in
          elim (leb dependency.next_run_at (p.clock w.ticks)) [
            | false ↦ run_dependencies call p looked ds
            | true ↦ elim (call looked d) [
              | none ↦ none
              | some (after, true) ↦ run_dependencies call p after ds
              | some (after, false) ↦
                  some (after, some "A required job dependency did not complete.")
            ]
          ]
    ]
  ]
]

abbrev pub after_dependencies :
    Platform → String → Option (Pass × Option String) → Option (Pass × Bool)
after_dependencies p job_id none = none
after_dependencies p job_id (some (w, none)) = some (perform p w job_id)
after_dependencies p job_id (some (w, some message)) = some (fail_in w job_id message, false)

-- `visiting` holds the jobs whose dependencies are being run.
unfoldable pub run_job : ℕ → Platform → List String → Pass → String → Option (Pass × Bool)
unfolding run_dependencies perform
run_job zero p visiting w job_id = none
run_job (suc fuel) p visiting w job_id =
    if contains w.completed job_id then some (w, true) else elim (Map.get w.scheduler.jobs job_id) [
      | none ↦ some (w, false)
      | some state ↦
          if is_scheduled state.status
          then (if contains visiting job_id
              then some (fail_in w job_id "Job dependency cycle detected.", false)
              else after_dependencies p job_id (
                  run_dependencies (run_job fuel p (job_id ∷ visiting)) p w
                    state.definition.dependencies))
          else some (w, false)
    ]

abbrev pub priority_le : JobPriority → JobPriority → ℕ → ℕ → Bool
priority_le normal low a b = true
priority_le low normal a b = false
priority_le _ _ a b = leb a b

abbrev pub runs_before : JobState → JobState → Bool
runs_before a b =
    priority_le a.definition.priority b.definition.priority a.next_run_at b.next_run_at

abbrev pub executed_with : String → Bool → List String → List String
executed_with job_id true executed = executed ++ job_id ∷ []
executed_with job_id false executed = executed

-- The loop over the due jobs.
unfoldable pub run_all : Platform → Pass → List String → List JobState → Option (Pass × List String)
unfolding run_job
run_all p w executed [] = some (w, executed)
run_all p w executed (s ∷ ss) =
    elim (run_job (length w.scheduler.jobs + 2) p [] w s.definition.job_id) [
      | none ↦ none
      | some (after, ran) ↦ run_all p after (executed_with s.definition.job_id ran executed) ss
    ]

-- The clock is read once, at `now`, for the list of the due jobs.
unfoldable pub run_due : Platform → ℕ → JobScheduler → Option (Pass × List String)
unfolding run_all
run_due p now m =
    run_all p (record { scheduler = m; completed = []; ticks = 0; calls = [] }) []
      (sort runs_before (keep (is_due now) (Map.values m.jobs)))

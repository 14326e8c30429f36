-- ===== src/JobScheduler/Registry.antt =====
-- The jobs of `JobScheduler` in services/runtime/src/job-scheduler.ts, and all methods but those that
-- run jobs. The store is what was saved last. Where the source throws an error, there is no result.
use nova_test.Common.Map
use nova_test.Common.Map.{Map}
use nova_test.Common.Sort.{sort, text_le}
use nova_test.Common.{
  ℕ, Bool, true, false, List, [], ◌∷◌, String, Option, none, some, leb, contains, take,
  if◌then◌else◌, is_some, ◌&&◌,
}
use nova_test.Shared.{Result, ok, err}
use nova_test.JobScheduler.{
  JobDefinition, JobState, JobStatus, scheduled, cancelled, failed, job_error,
}
use nova_test.JobScheduler.Occurrences.{
  Parsing, initial_occurrence, next_occurrence, validate_definition,
}

-- `running` holds, for each job that runs, whether its signal is aborted. The jobs keep what they
-- run in the platform: see Running.
pub record JobScheduler : Type 0 where
  pub jobs : Map JobState
  pub running : Map Bool
  pub groups : List String
  pub saved : List JobState

abbrev pub persist : JobScheduler → JobScheduler
persist m = record m { saved = Map.values m.jobs }

abbrev pub is_scheduled : JobStatus → Bool
is_scheduled scheduled = true
is_scheduled _ = false

abbrev pub registered :
    JobScheduler → JobDefinition → Option ℕ → Option (JobScheduler × Result JobState)
registered m d none = none
registered m d (some next) =
    let state : JobState = record {
      definition = d;
      last_run_at = none;
      next_run_at = next;
      status = scheduled;
      last_error = none;
    } in
    some (persist (record m { jobs = Map.set m.jobs d.job_id state }), ok state)

-- The cron expression is validated at `real_now`, and the job starts at `now`.
unfoldable pub register :
    Parsing → JobScheduler → JobDefinition → ℕ → ℕ → Option (JobScheduler × Result JobState)
unfolding validate_definition initial_occurrence
register p m d real_now now = elim (validate_definition p d real_now) [
  | err e ↦ some (m, err e)
  | ok _ ↦
      if is_some (Map.get m.jobs d.job_id)
      then some (m, err (job_error "A job with this identifier is already registered."))
      else if contains d.dependencies d.job_id
      then some (m, err (job_error "A job cannot depend on itself."))
      else registered m d (initial_occurrence p d now)
]

-- The loop over the persisted states.
unfoldable pub load_states : Parsing → ℕ → Map JobState → List JobState → Map JobState × Bool
load_states p real_now jobs [] = (jobs, true)
load_states p real_now jobs (s ∷ ss) =
    let rest = load_states p real_now (Map.set jobs s.definition.job_id s) ss in
    elim (validate_definition p s.definition real_now) [
      | err e ↦ (jobs, false)
      | ok _ ↦ if is_some (Map.get jobs s.definition.job_id) then (jobs, false) else rest
    ]

abbrev pub is_due : ℕ → JobState → Bool
is_due now s = is_scheduled s.status && leb s.next_run_at now

abbrev pub is_skipped : Option Bool → Bool
is_skipped (some true) = true
is_skipped _ = false

-- The loop that moves missed occurrences on.
unfoldable pub skip_missed : Parsing → ℕ → Map JobState → List JobState → Option (Map JobState)
skip_missed p now jobs [] = some jobs
skip_missed p now jobs (s ∷ ss) =
    if is_skipped s.definition.skip_missed_occurrences && is_due now s
    then elim (next_occurrence p s.definition now) [
      | none ↦ none
      | some t ↦
          skip_missed p now (Map.set jobs s.definition.job_id (record s { next_run_at = t })) ss
    ]
    else skip_missed p now jobs ss

abbrev pub moved : JobScheduler → Option (Map JobState) → Option (JobScheduler × Result (Unit {0}))
moved m none = none
moved m (some jobs) = some (persist (record m { jobs = jobs }), ok tt)

unfoldable pub loaded :
    Parsing → JobScheduler → ℕ → Map JobState × Bool → Option (JobScheduler × Result (Unit {0}))
unfolding skip_missed
loaded p m now (jobs, false) = some (
  record m { jobs = jobs },
  err (job_error "Persisted job state contains an invalid or duplicate job."),
)
loaded p m now (jobs, true) = moved m (skip_missed p now jobs (Map.values jobs))

-- `start` up to the call of `runDue`, with what the store loads.
unfoldable pub start :
    Parsing
    → JobScheduler
    → Option (List JobState)
    → ℕ
    → ℕ
    → Option (JobScheduler × Result (Unit {0}))
unfolding load_states loaded
start p m none real_now now = some (m, err (job_error "Persisted job state could not be loaded."))
start p m (some states) real_now now = loaded p m now (load_states p real_now [] states)

unfoldable pub get : JobScheduler → String → Result JobState
get m job_id = elim (Map.get m.jobs job_id) [
  | none ↦ err (job_error "Job is not registered.")
  | some s ↦ ok s
]

-- `locale_le` is the order of `localeCompare`.
unfoldable pub list_states : (String → String → Bool) → JobScheduler → List JobState
list_states locale_le m =
    take 256 (sort (λ a b. locale_le a.definition.job_id b.definition.job_id) (Map.values m.jobs))

abbrev pub set_status : JobScheduler → String → JobState → JobStatus → JobScheduler
set_status m job_id s status = record m {
  jobs = Map.set m.jobs job_id (record s { status = status });
}

abbrev pub abort : JobScheduler → String → JobScheduler
abort m job_id = record m { running = Map.set m.running job_id true }

unfoldable pub cancel : JobScheduler → String → JobScheduler × Result (Unit {0})
cancel m job_id = elim (Map.get m.jobs job_id) [
  | none ↦ (m, err (job_error "Job is not registered."))
  | some s ↦
      if is_some (Map.get m.running job_id)
      then (persist (set_status (abort m job_id) job_id s cancelled), ok tt)
      else if is_scheduled s.status
      then (persist (set_status m job_id s cancelled), ok tt)
      else (m, err (job_error "Only a scheduled or running job can be cancelled."))
]

unfoldable pub active_groups : JobScheduler → List String
active_groups m = sort text_le m.groups

unfoldable pub fail_job : JobScheduler → String → String → JobScheduler
fail_job m job_id message = elim (Map.get m.jobs job_id) [
  | none ↦ m
  | some s ↦ persist (record m {
    jobs = Map.set m.jobs job_id (record s { status = failed; last_error = some message });
  })
]

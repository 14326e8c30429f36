-- ===== src/JobScheduler/Occurrences.antt =====
-- When a job of services/runtime/src/job-scheduler.ts runs: `validateDefinition`, `nextOccurrence`,
-- `initialOccurrence` and `nextStateAfterSuccess`. A text that cannot be parsed gives `none` where the
-- source throws an error or, for a date, has NaN. Times are those of a `Date`: what is before 1970 or
-- after 8.64e15 ms, where `toISOString` throws a RangeError, is not modelled.
use nova_test.Common.{ℕ, ◌+◌, List, String, Option, none, some, any, same, if◌then◌else◌, is_some}
use nova_test.Shared.{Result, ok, err}
use nova_test.JobScheduler.{
  JobDefinition, JobState, JobType, recurring, cron, delayed, scheduled, completed, job_error,
}
use nova_test.JobScheduler.Intervals.{parse_interval}
use nova_test.JobScheduler.Cron.{UtcDate, next_cron_occurrence}

-- The functions of the platform on texts and dates.
pub record Parsing : Type 0 where
  pub trim : String → String
  pub natural_of : String → Option ℕ
  pub fields : String → List String
  pub calendar : ℕ → UtcDate
  pub date_parse : String → Option ℕ

abbrev pub later : ℕ → Option ℕ → Option ℕ
later from_ms none = none
later from_ms (some interval) = some (from_ms + interval)

abbrev pub occurrence_of : Parsing → JobType → String → ℕ → Option ℕ
occurrence_of p recurring schedule from_ms = later from_ms (parse_interval p.trim schedule)
occurrence_of p delayed schedule from_ms = p.date_parse schedule
occurrence_of p cron schedule from_ms =
    next_cron_occurrence p.natural_of p.fields p.calendar schedule from_ms

unfoldable pub next_occurrence : Parsing → JobDefinition → ℕ → Option ℕ
next_occurrence p d from_ms = occurrence_of p d.type d.schedule from_ms

abbrev pub initial_of : JobType → ℕ → Option ℕ → Option ℕ
initial_of recurring from_ms next = some from_ms
initial_of _ from_ms next = next

unfoldable pub initial_occurrence : Parsing → JobDefinition → ℕ → Option ℕ
unfolding next_occurrence
initial_occurrence p d from_ms = initial_of d.type from_ms (next_occurrence p d from_ms)

abbrev pub finished : JobType → JobState → ℕ → Option ℕ → Option JobState
finished delayed s now next =
    some (record s { last_run_at = some now; status = completed; next_run_at = now })
finished _ s now none = none
finished _ s now (some t) = some (record {
  definition = s.definition;
  last_run_at = some now;
  next_run_at = t;
  status = scheduled;
  last_error = none;
})

unfoldable pub next_state_after_success : Parsing → JobState → ℕ → Option JobState
unfolding next_occurrence
next_state_after_success p s now =
    finished s.definition.type s now (next_occurrence p s.definition now)

abbrev pub schedule_error : JobType → String
schedule_error recurring = "Recurring job interval is invalid."
schedule_error cron = "Cron schedule is invalid."
schedule_error delayed = "Delayed job datetime is invalid."

-- The type is one of the three. `now` is used for a cron expression.
unfoldable pub validate_definition : Parsing → JobDefinition → ℕ → Result (Unit {0})
unfolding next_occurrence
validate_definition p d now =
    if same (p.trim d.job_id) ""
    then err (job_error "Job identifier is required.")
    else if any (λ dependency. same (p.trim dependency) "") d.dependencies
    then err (job_error "Job dependency identifiers are required.")
    else if same (p.trim d.concurrency_group) ""
    then err (job_error "Job concurrency group is required.")
    else if is_some (next_occurrence p d now)
    then ok tt
    else err (job_error (schedule_error d.type))

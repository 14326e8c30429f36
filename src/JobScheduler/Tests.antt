-- ===== src/JobScheduler/Tests.antt =====
-- Runs of services/runtime/src/job-scheduler.ts, and its theorems at concrete jobs.
use Prim.Native.Nat.{◌%◌}
use nova_test.Common.Map
use nova_test.Common.Sort.{sort}
use nova_test.Common.{
  ℕ, ◌*◌, ◌/◌, ◌≡◌, refl, true, List, [], ◌∷◌, String, Option, none, some, contains, add, remove,
  inl, keep, text_dec, same, if◌then◌else◌, Distinct, arith,
}
use nova_test.JobScheduler.{JobDefinition, JobState, delayed, normal, scheduled}
use nova_test.JobScheduler.Intervals.{
  codes, match_interval, multiplier, digits, minutes, parse_interval, parse_interval-numeral,
}
use nova_test.JobScheduler.Cron.{
  UtcDate, CronFields, split, number_or, bounds_of, parse_parts, parse_cron_field, parse_cron,
  matches, search_minute, next_cron_occurrence,
}
use nova_test.JobScheduler.Cron.Matching.{IsNext, next_cron_occurrence-IsFirst, star_never}
use nova_test.JobScheduler.Occurrences.{
  Parsing, next_occurrence, initial_occurrence, next_state_after_success, validate_definition,
}
use nova_test.JobScheduler.Registry.{JobScheduler, register, cancel, fail_job}
use nova_test.JobScheduler.Running.{
  Platform, Pass, run_runner, settle_job, perform, run_dependencies, run_job, run_all, run_due,
}
use nova_test.JobScheduler.Running.Once.{run_due-Distinct}
use nova_test.JobScheduler.Running.Cancelling.{cancelled_delayed_returns}

program : Unit {0}
unfolding text_dec contains add remove keep sort Map.get Map.set Map.delete codes match_interval
    multiplier digits parse_interval split number_or bounds_of parse_parts parse_cron_field
    parse_cron matches search_minute next_cron_occurrence next_occurrence initial_occurrence
    next_state_after_success validate_definition register cancel fail_job run_runner settle_job
    perform run_dependencies run_job run_all run_due
program = tt

abbrev plain : String → String
plain s = s

quarter : parse_interval plain "15m" ≡ some 900000
unfolding program
quarter = refl

no_amount : parse_interval plain "m" ≡ none
unfolding program
no_amount = refl

parse_interval-numeral_example : parse_interval plain "15m" ≡ some (15 * 60000)
unfolding program
parse_interval-numeral_example =
    parse_interval-numeral plain "15m" 15 109 60000 minutes refl (omega arith) (omega arith)

abbrev natural : String → Option ℕ
natural s =
    if same s "1"
    then some 1
    else if same s "5"
    then some 5
    else if same s "7"
    then some 7
    else none

abbrev calendar : ℕ → UtcDate
calendar t = record {
  minutes = t / 60000 % 60;
  hours = t / 3600000 % 24;
  date = 1;
  month = 1;
  day = 4;
}

weekdays : parse_cron_field natural "1-5,7" ≡ some (1 ∷ 2 ∷ 3 ∷ 4 ∷ 5 ∷ 7 ∷ [])
unfolding program
weekdays = refl

abbrev early : String → List String
early s = "5" ∷ "1" ∷ "1" ∷ "1" ∷ "1-5" ∷ []

abbrev early_fields : CronFields
early_fields = record {
  minute = 5 ∷ [];
  hour = 1 ∷ [];
  day = 1 ∷ [];
  month = 1 ∷ [];
  weekday = 1 ∷ 2 ∷ 3 ∷ 4 ∷ 5 ∷ [];
}

next_early : next_cron_occurrence natural early calendar "5 1 1 1 1-5" 3600000 ≡ some 3900000
unfolding program
next_early = refl

next_cron_occurrence-IsFirst_example :
    IsNext calendar early_fields 0 (next_cron_occurrence natural early calendar "5 1 1 1 1-5" 0)
unfolding program
next_cron_occurrence-IsFirst_example =
    next_cron_occurrence-IsFirst natural early calendar "5 1 1 1 1-5" 0 early_fields refl

abbrev stars : String → List String
stars s = "*" ∷ "*" ∷ "*" ∷ "*" ∷ "*" ∷ []

star_never_example : next_cron_occurrence natural stars calendar "* * * * *" 0 ≡ none
star_never_example =
    star_never natural stars calendar "* * * * *" "*" "*" "*" "*" "*" 0 refl (inl refl)
      (λ t. (omega arith, omega arith))

abbrev parsing : Parsing
parsing = record {
  trim = plain;
  natural_of = natural;
  fields = early;
  calendar = calendar;
  date_parse = λ s. some 50;
}

abbrev job : String → List String → JobDefinition
job id dependencies = record {
  job_id = id;
  type = delayed;
  schedule = "1970-01-01T00:00:00.050Z";
  dependencies = dependencies;
  priority = normal;
  concurrency_group = "g";
  idempotent = true;
  skip_missed_occurrences = none;
}

abbrev at : JobDefinition → JobState
at d = record {
  definition = d;
  last_run_at = none;
  next_run_at = 50;
  status = scheduled;
  last_error = none;
}

-- The second job depends on the first.
abbrev scheduler : JobScheduler
scheduler = record {
  jobs = ("b", at (job "b" ("a" ∷ []))) ∷ ("a", at (job "a" [])) ∷ [];
  running = [];
  groups = [];
  saved = [];
}

abbrev quiet : Platform
quiet = record { parsing = parsing; clock = λ n. 60; succeeds = λ n. true; cancels = λ n. [] }

abbrev nothing_run : Pass
nothing_run = record { scheduler = scheduler; completed = []; ticks = 0; calls = [] }

abbrev pass_of : Option (Pass × List String) → Pass
pass_of none = nothing_run
pass_of (some (w, ids)) = w

abbrev executed_of : Option (Pass × List String) → List String
executed_of none = []
executed_of (some (w, ids)) = ids

dependency_first : (pass_of (run_due quiet 60 scheduler)).calls ≡ "a" ∷ "b" ∷ []
unfolding program
dependency_first = refl

run_due-Distinct_example : Distinct (pass_of (run_due quiet 60 scheduler)).calls
unfolding program
run_due-Distinct_example =
    run_due-Distinct quiet 60 scheduler (pass_of (run_due quiet 60 scheduler))
      (executed_of (run_due quiet 60 scheduler)) (λ i. refl) refl

abbrev cancelling : Platform
cancelling = record quiet { cancels = λ n. "a" ∷ [] }

cancelled_delayed_returns_example :
    Map.get (perform cancelling nothing_run "a").0.scheduler.jobs "a"
    ≡ some (record (at (job "a" [])) { status = scheduled; next_run_at = 50 })
unfolding program
cancelled_delayed_returns_example =
    cancelled_delayed_returns cancelling nothing_run "a" (at (job "a" [])) 50 refl refl refl refl
      refl refl refl

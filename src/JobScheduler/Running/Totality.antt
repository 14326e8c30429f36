-- ===== src/JobScheduler/Running/Totality.antt =====
-- That `runDue` of services/runtime/src/job-scheduler.ts ends, whatever cycles the dependencies have.
use nova_test.Common.Map
use nova_test.Common.{◌≡◌, Bool, List, String, Option, some}
use nova_test.JobScheduler.Registry.{JobScheduler}
use nova_test.JobScheduler.Running.{Pass}

abbrev job_ids : Pass → List String
job_ids w = Map.keys w.scheduler.jobs

-- The run of a job gives an answer and keeps the identifiers.
Answers : Pass → Option (Pass × Bool) → Type 0
Answers w o = (after : Pass) × (b : Bool) × (o ≡ some (after, b)) × (job_ids after ≡ job_ids w)

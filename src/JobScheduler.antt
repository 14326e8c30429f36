-- ===== src/JobScheduler.antt =====
-- services/runtime/src/job-scheduler.ts: jobs that run at intervals, at the minutes of a cron
-- expression or once. Times are milliseconds since the epoch, also where the source keeps ISO texts.
pub mod Intervals
pub mod Cron
pub mod Occurrences
pub mod Registry
pub mod Running
mod Tests
use nova_test.Common.Map.{Map}
use nova_test.Common.{ℕ, Bool, false, List, [], String, Option}
use nova_test.Shared.{ErrorInfo, nova_tl004}

pub data JobType : Type 0 where
  recurring cron delayed : JobType

pub data JobPriority : Type 0 where
  low normal : JobPriority

pub data JobStatus : Type 0 where
  scheduled running completed failed cancelled : JobStatus

pub record JobDefinition : Type 0 where
  pub job_id : String
  pub type : JobType
  pub schedule : String
  pub dependencies : List String
  pub priority : JobPriority
  pub concurrency_group : String
  pub idempotent : Bool
  pub skip_missed_occurrences : Option Bool

pub record JobState : Type 0 where
  pub definition : JobDefinition
  pub last_run_at : Option ℕ
  pub next_run_at : ℕ
  pub status : JobStatus
  pub last_error : Option String

abbrev pub job_error : String → ErrorInfo
job_error message = record { code = nova_tl004; message = message; retryable = false; details = [] }

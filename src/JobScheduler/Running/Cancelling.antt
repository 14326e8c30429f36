-- ===== src/JobScheduler/Running/Cancelling.antt =====
-- What services/runtime/src/job-scheduler.ts makes of a job that is cancelled while it runs.
use mathlib.Core.Path.{subst}
use nova_test.Common.Map
use nova_test.Common.{
  ℕ, suc, ◌≡◌, sym, true, false, [], ◌∷◌, String, some, length, contains, arith, is_some,
}
use nova_test.JobScheduler.{JobState, running, scheduled, cancelled, delayed}
use nova_test.JobScheduler.Occurrences.{next_occurrence}
use nova_test.JobScheduler.Registry.{JobScheduler, cancel}
use nova_test.JobScheduler.Running.{
  Platform, Pass, run_runner, settle_job, perform, rescheduled, finally,
}

cancel_running :
    (m : JobScheduler) (j : String) (s : JobState)
    → Map.get m.jobs j ≡ some s
    → Map.get m.running j ≡ some false
    → (Map.get (cancel m j).0.jobs j ≡ some (record s { status = cancelled }))
      × (Map.get (cancel m j).0.running j ≡ some true)
unfolding cancel
cancel_running m j s e r =
    let q : is_some (Map.get m.running j) ≡ true = ground arith in
    rw (e, cancel) (rw (q) (Map.get-set_self m.jobs j _, Map.get-set_self m.running j true))

run_runner-cancelled :
    (p : Platform) (w : Pass) (j : String) (s : JobState)
    → p.cancels (length w.calls) ≡ j ∷ []
    → (Map.get (run_runner p w j s).scheduler.jobs j ≡ some (record s { status = cancelled }))
      × (Map.get (run_runner p w j s).scheduler.running j ≡ some true)
unfolding run_runner
run_runner-cancelled p w j s q =
    rw (q, run_runner)
      (cancel_running _ j (record s { status = running }) (Map.get-set_self w.scheduler.jobs j _)
        (Map.get-set_self w.scheduler.running j false))

-- A delayed job that is cancelled while it runs is scheduled again at its own date.
pub cancelled_delayed_returns :
    (p : Platform) (w : Pass) (j : String) (s : JobState) (date : ℕ)
    → Map.get w.scheduler.jobs j ≡ some s
    → s.status ≡ scheduled
    → s.definition.type ≡ delayed
    → p.parsing.date_parse s.definition.schedule ≡ some date
    → contains w.scheduler.groups s.definition.concurrency_group ≡ false
    → p.cancels (length w.calls) ≡ j ∷ []
    → p.succeeds (length w.calls) ≡ true
    → Map.get (perform p w j).0.scheduler.jobs j
      ≡ some (record s { status = scheduled; next_run_at = date })
unfolding perform settle_job next_occurrence
cancelled_delayed_returns p w j s date e t k f g q b =
    let (x, y) = run_runner-cancelled p w j s q in
    let ran = run_runner p w j s in
    let after : Pass = record ran { ticks = suc ran.ticks } in
    let over : JobState = record s { status = cancelled } in
    let r : perform p w j
        ≡ finally j s.definition.concurrency_group (rescheduled after j over (some date)) =
      ground arith in
    subst
      (λ z.
        Map.get z.0.scheduler.jobs j ≡ some (record s { status = scheduled; next_run_at = date }))
      (sym r) (Map.get-set_self ran.scheduler.jobs j _)

-- ===== src/JobScheduler/Running/Effects.antt =====
-- What a job changes that `runJob` of services/runtime/src/job-scheduler.ts performs.
use mathlib.Core.Path.{subst}
use nova_test.Common.Map
use nova_test.Common.{
  ℕ, suc, ◌≡◌, ◌≢◌, ◌⊎◌, ◌∙◌, refl, sym, Bool, true, false, not, [], ◌∷◌, ◌++◌, String, Option,
  none, some, length, contains, inl, inr, arith, Option-cases, Bool-cases, or_else, ◌||◌,
  contains-add, if◌then◌else◌,
}
use nova_test.JobScheduler.{JobState, running}
use nova_test.JobScheduler.Occurrences.{next_state_after_success}
use nova_test.JobScheduler.Registry.{fail_job, is_scheduled}
use nova_test.JobScheduler.Running.{
  Platform, Pass, fail_in, run_runner, is_cancelled, settle_job, perform, succeeded, finally,
}

abbrev status_open : Option JobState → Bool
status_open none = false
status_open (some s) = is_scheduled s.status

abbrev is_open : Pass → String → Bool
is_open w j = status_open (Map.get w.scheduler.jobs j)

-- The job will not run again in this pass.
abbrev pub is_done : Pass → String → Bool
is_done w j = if contains w.completed j then true else not (is_open w j)

-- Elsewhere than at the job, nothing has changed.
abbrev Elsewhere : Pass → Pass → String → Type 0
Elsewhere w after j =
    (k : String)
    → j ≢ k
    → (contains after.completed k ≡ contains w.completed k)
      × (Map.get after.scheduler.jobs k ≡ Map.get w.scheduler.jobs k)

pub fail_in-Elsewhere : (w : Pass) (j message : String) → Elsewhere w (fail_in w j message) j
unfolding fail_job
fail_in-Elsewhere w j message k n = elim (Option-cases (Map.get w.scheduler.jobs j)) [
  | inl e ↦ ground arith
  | inr (s, e) ↦ rw (e, fail_job) (refl, Map.get-set_ne w.scheduler.jobs j _ k n)
]

pub fail_in-closed : (w : Pass) (j message : String) → is_open (fail_in w j message) j ≡ false
unfolding fail_job
fail_in-closed w j message = elim (Option-cases (Map.get w.scheduler.jobs j)) [
  | inl e ↦ ground arith
  | inr (s, e) ↦ rw (e, fail_job) (rw (Map.get-set_self w.scheduler.jobs j _) refl)
]

-- A step that at most runs the job: either nothing has changed, or its runner has been called.
abbrev HasRun : Pass → Pass → String → Type 0
HasRun w after j =
    (after.calls ≡ w.calls ++ j ∷ []) × (is_done after j ≡ true) × Elsewhere w after j

failed-HasRun :
    (w before : Pass) (j message : String)
    → w.calls ≡ before.calls ++ j ∷ []
    → Elsewhere before w j
    → HasRun before (fail_in w j message) j
failed-HasRun w before j message e h = (
  e,
  ground (arith, fail_in-closed w j message),
  λ k n. let (a, b) = fail_in-Elsewhere w j message k n in let (c, d) = h k n in (a ∙ c, b ∙ d),
)

succeeded-HasRun :
    (w before : Pass) (j : String) (o : Option JobState)
    → w.calls ≡ before.calls ++ j ∷ []
    → Elsewhere before w j
    → HasRun before (succeeded w j o).0 j
succeeded-HasRun w before j none e h = failed-HasRun w before j "Job runner failed." e h
succeeded-HasRun w before j (some s) e h = (
  e,
  ground (arith, contains-add w.completed j j),
  λ k n.
      let (c, d) = h k n in
      (ground (arith, contains-add w.completed j k), Map.get-set_ne w.scheduler.jobs j s k n ∙ d),
)

-- No calls of `cancel` come in.
abbrev pub IsQuiet : Platform → Type 0
IsQuiet p = (i : ℕ) → p.cancels i ≡ []

run_runner-quiet :
    (p : Platform) (w : Pass) (j : String) (s : JobState)
    → IsQuiet p
    → (Elsewhere w (run_runner p w j s) j)
      × (Map.get (run_runner p w j s).scheduler.jobs j ≡ some (record s { status = running }))
      × (Map.get (run_runner p w j s).scheduler.running j ≡ some false)
unfolding run_runner
run_runner-quiet p w j s q =
    rw (q (length w.calls), run_runner)
      (
        (λ k n. (refl, Map.get-set_ne w.scheduler.jobs j _ k n)),
        Map.get-set_self w.scheduler.jobs j _,
        Map.get-set_self w.scheduler.running j _,
      )

settle_job-HasRun :
    (p : Platform) (w before : Pass) (j : String) (s : JobState)
    → w.calls ≡ before.calls ++ j ∷ []
    → Elsewhere before w j
    → Map.get w.scheduler.running j ≡ some false
    → s.status ≡ running
    → HasRun before (settle_job p w j (some s)).0 j
unfolding settle_job
settle_job-HasRun p w before j s e h r t =
    let q : (or_else (Map.get w.scheduler.running j) false || is_cancelled s.status) ≡ false =
      ground arith in
    let after : Pass = record w { ticks = suc w.ticks } in
    let g : settle_job p w j (some s)
        ≡ succeeded after j (next_state_after_success p.parsing s (p.clock w.ticks)) =
      ground arith in
    subst (λ x. HasRun before x.0 j) (sym g)
      (succeeded-HasRun after before j (next_state_after_success p.parsing s (p.clock w.ticks)) e h)

run_runner-calls :
    (p : Platform) (w : Pass) (j : String) (s : JobState)
    → (run_runner p w j s).calls ≡ w.calls ++ j ∷ []
unfolding run_runner
run_runner-calls p w j s = refl

finally-HasRun :
    (w : Pass) (j group : String) (x : Pass × Bool)
    → HasRun w x.0 j
    → HasRun w (finally j group x).0 j
finally-HasRun w j group (a, b) h = h

-- What the run of a job does, when no calls come in: nothing, or it calls the runner.
pub perform-HasRun :
    (p : Platform) (w : Pass) (j : String)
    → IsQuiet p
    → ((perform p w j).0 ≡ w) ⊎ ((is_open w j ≡ true) × HasRun w (perform p w j).0 j)
unfolding perform
perform-HasRun p w j q = elim (Option-cases (Map.get w.scheduler.jobs j)) [
  | inl e ↦ inl (ground arith)
  | inr (s, e) ↦ elim (Bool-cases (is_scheduled s.status)) [
    | inr t ↦ inl (ground arith)
    | inl t ↦ elim (Bool-cases (contains w.scheduler.groups s.definition.concurrency_group)) [
      | inl g ↦ inl (ground arith)
      | inr g ↦
          let (a, b, c) = run_runner-quiet p w j s q in
          let ran = run_runner p w j s in
          let group = s.definition.concurrency_group in
          let live : JobState = record s { status = running } in
          let calls = run_runner-calls p w j s in
          inr (
            ground arith,
            elim (Bool-cases (p.succeeds (length w.calls))) [
              | inl k ↦
                  let f : perform p w j ≡ finally j group (settle_job p ran j (some live)) =
                    ground arith in
                  subst (λ x. HasRun w x.0 j) (sym f)
                    (finally-HasRun w j group (settle_job p ran j (some live))
                      (settle_job-HasRun p ran w j live calls a c refl))
              | inr k ↦
                  let f : perform p w j
                      ≡ finally j group (fail_in ran j "Job runner failed.", false) =
                    ground arith in
                  subst (λ x. HasRun w x.0 j) (sym f)
                    (finally-HasRun w j group (fail_in ran j "Job runner failed.", false)
                      (failed-HasRun ran w j "Job runner failed." calls a))
            ],
          )
    ]
  ]
]

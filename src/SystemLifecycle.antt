-- ===== src/SystemLifecycle.antt =====
-- services/runtime/src/system-lifecycle.ts: the steps that start and stop the system. A step has a
-- name of any type `N` and what its `run` answers.
use nova_test.Common.{◌≡◌, ap, ◌∙◌, List, [], ◌∷◌, ◌++◌, append_one, sym, inl, inr, arith}
use mathlib.Core.List.{append-nil}
use mathlib.Core.Path.{subst}
use nova_test.Shared.{Result-cases, ErrorInfo, Result, ok, err}

pub data Done : Type 0 where
  done : Done

module _ (N : Type 0) where
  pub record LifecycleStep : Type 0 where
    pub name : N
    pub run : Result Done

  pub record SystemLifecycle : Type 0 where
    pub startup_steps : List LifecycleStep
    pub shutdown_steps : List LifecycleStep
    pub startup_entries : List N
    pub shutdown_entries : List N

  unfoldable pub new : List LifecycleStep → List LifecycleStep → SystemLifecycle
  new startup shutdown = record {
    startup_steps = startup;
    shutdown_steps = shutdown;
    startup_entries = [];
    shutdown_entries = [];
  }

  -- `runSteps`: the log afterwards beside the result.
  unfoldable pub run_steps : List LifecycleStep → List N → List N × Result Done
  run_steps [] log = (log, ok done)
  run_steps (s ∷ rest) log = elim s.run [
    | err e ↦ (log, err e)
    | ok _ ↦ run_steps rest (log ++ s.name ∷ [])
  ]

  unfoldable pub start : SystemLifecycle → SystemLifecycle × Result Done
  unfolding run_steps
  start l =
      let r = run_steps l.startup_steps l.startup_entries in
      (record l { startup_entries = r.0 }, r.1)

  unfoldable pub stop : SystemLifecycle → SystemLifecycle × Result Done
  unfolding run_steps
  stop l =
      let r = run_steps l.shutdown_steps l.shutdown_entries in
      (record l { shutdown_entries = r.0 }, r.1)

  unfoldable pub startup_log : SystemLifecycle → List N
  startup_log l = l.startup_entries

  unfoldable pub shutdown_log : SystemLifecycle → List N
  shutdown_log l = l.shutdown_entries

  -- What the log grows by, and where the steps stop: each step before has succeeded, and the first
  -- that fails ends the run with its error.
  pub data Runs : List LifecycleStep → List N → Result Done → Type 0 where
    finished : Runs [] [] (ok done)
    stopped :
        (s : LifecycleStep) (rest : List LifecycleStep) (e : ErrorInfo)
        → s.run ≡ err e
        → Runs (s ∷ rest) [] (err e)
    passed :
        (s : LifecycleStep) (rest : List LifecycleStep) (log : List N) (r : Result Done) (d : Done)
        → s.run ≡ ok d
        → Runs rest log r
        → Runs (s ∷ rest) (s.name ∷ log) r

  -- A run of steps appends to the log the names of the steps before the first that fails, in their
  -- order, and answers with the error of that step, if there is one.
  pub run_steps-Runs :
      (steps : List LifecycleStep) (log : List N)
      → (more : List N) × ((run_steps steps log).0 ≡ log ++ more)
        × Runs steps more (run_steps steps log).1
  unfolding run_steps
  run_steps-Runs [] log = ([], sym (append-nil log), finished)
  run_steps-Runs (s ∷ rest) log = elim (Result-cases s.run) [
    | inr (e, f) ↦
        let g : (log, err e) ≡ run_steps (s ∷ rest) log = ground arith in
        (
          [],
          sym (ap (λ a. a.0) g) ∙ sym (append-nil log),
          subst (λ a. Runs (s ∷ rest) [] a.1) g (stopped s rest e f),
        )
    | inl (d, f) ↦
        let (more, grown, runs) = run_steps-Runs rest (log ++ s.name ∷ []) in
        let g : run_steps rest (log ++ s.name ∷ []) ≡ run_steps (s ∷ rest) log = ground arith in
        (
          s.name ∷ more,
          sym (ap (λ a. a.0) g) ∙ grown ∙ append_one log s.name more,
          subst (λ a. Runs (s ∷ rest) (s.name ∷ more) a.1) g (passed s rest more _ d f runs),
        )
  ]

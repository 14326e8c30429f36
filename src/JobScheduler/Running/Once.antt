-- ===== src/JobScheduler/Running/Once.antt =====
-- How often `runDue` of services/runtime/src/job-scheduler.ts calls the runner of a job.
use mathlib.Core.Path.{subst}
use nova_test.Common.Map
use nova_test.Common.Sort.{sort}
use nova_test.Common.{
  ℕ, zero, suc, ◌+◌, ◌≡◌, ◌≢◌, ◌∙◌, refl, ap, sym, Bool, true, false, List, [], ◌∷◌, ◌++◌, String,
  Option, some, length, contains, inl, inr, arith, Option-cases, Bool-cases, leb, Distinct,
  append-Distinct, contains-append, text_dec, keep,
}
use nova_test.JobScheduler.{JobState}
use nova_test.JobScheduler.Registry.{JobScheduler, is_scheduled, is_due}
use nova_test.JobScheduler.Running.{
  Platform, Pass, fail_in, perform, did_not_complete, run_dependencies, run_job, run_all, run_due,
  executed_with, runs_before,
}
use nova_test.JobScheduler.Running.Effects.{
  is_done, fail_in-Elsewhere, fail_in-closed, IsQuiet, perform-HasRun,
}

-- No job has been called twice, and those called will not run again.
abbrev IsOnce : Pass → Type 0
IsOnce w = Distinct w.calls × ((k : String) → contains w.calls k ≡ true → is_done w k ≡ true)

-- The jobs on the path have neither been called nor completed.
abbrev Spares : List String → Pass → Pass → Type 0
Spares path w after =
    (k : String)
    → contains path k ≡ true
    → (contains after.calls k ≡ contains w.calls k)
      × (contains after.completed k ≡ contains w.completed k)

-- The job is changed, but not called.
fail_in-IsOnce : (w : Pass) (j message : String) → IsOnce w → IsOnce (fail_in w j message)
fail_in-IsOnce w j message (d, h) = (
  d,
  λ k c. elim (text_dec j k) [
    | yes e ↦
        subst (λ x. is_done (fail_in w j message) x ≡ true) e
          (ground (arith, fail_in-closed w j message))
    | no n ↦
        let (a, b) = fail_in-Elsewhere w j message k n in
        let f : is_done (fail_in w j message) k ≡ is_done w k = ground arith in f ∙ h k c
  ],
)

calls-other :
    (w after : Pass) (j k : String)
    → after.calls ≡ w.calls ++ j ∷ []
    → j ≢ k
    → contains after.calls k ≡ contains w.calls k
unfolding contains
calls-other w after j k e n = rw (e) (ground (arith, contains-append w.calls (j ∷ []) k))

Spares-trans :
    (path : List String) (a b c : Pass) → Spares path a b → Spares path b c → Spares path a c
Spares-trans path a b c h g k i = let (x, y) = h k i in let (u, v) = g k i in (u ∙ x, v ∙ y)

Spares-tail :
    (j : String) (path : List String) (a b : Pass) → Spares (j ∷ path) a b → Spares path a b
unfolding contains
Spares-tail j path a b h k i = h k (ground arith)

perform-IsOnce :
    (p : Platform) (w : Pass) (j : String) (path : List String)
    → IsQuiet p
    → IsOnce w
    → contains w.completed j ≡ false
    → contains path j ≡ false
    → IsOnce (perform p w j).0 × Spares path w (perform p w j).0
perform-IsOnce p w j path q (d, h) c v = elim (perform-HasRun p w j q) [
  | inl e ↦ subst (λ x. IsOnce x × Spares path w x) (sym e) ((d, h), λ k i. (refl, refl))
  | inr (o, (e, f, g)) ↦
      let fresh : contains w.calls j ≡ false = elim (Bool-cases (contains w.calls j)) [
        | inr z ↦ z
        | inl z ↦ absurd (ground (arith, h j z))
      ] in
      (
        (
          subst Distinct (sym e) (append-Distinct w.calls j fresh d),
          λ k i. elim (text_dec j k) [
            | yes z ↦ subst (λ x. is_done (perform p w j).0 x ≡ true) z f
            | no n ↦
                let (a, b) = g k n in
                let y : is_done (perform p w j).0 k ≡ is_done w k = ground arith in
                y ∙ h k (sym (calls-other w (perform p w j).0 j k e n) ∙ i)
          ],
        ),
        λ k i.
            let n : j ≢ k =
              λ z. absurd (ground (arith, subst (λ x. contains path x ≡ true) (sym z) i)) in
            (calls-other w (perform p w j).0 j k e n, (g k n).0),
      )
]

-- What a call leaves, if it answers.
abbrev KeepsOnce : List String → Pass → Option (Pass × Bool) → Type 0
KeepsOnce path w o =
    (after : Pass) (b : Bool) → o ≡ some (after, b) → IsOnce after × Spares path w after

run_dependencies-IsOnce :
    (call : Pass → String → Option (Pass × Bool)) (p : Platform) (path : List String)
    → ((w : Pass) (d : String) → IsOnce w → KeepsOnce path w (call w d))
    → (w : Pass) (ds : List String) (after : Pass) (x : Option String) → IsOnce w
    → run_dependencies call p w ds ≡ some (after, x)
    → IsOnce after × Spares path w after
unfolding run_dependencies
run_dependencies-IsOnce call p path f w [] after x h e =
    let q : w ≡ after = ground arith in
    subst (λ y. IsOnce y × Spares path w y) q (h, λ k i. (refl, refl))
run_dependencies-IsOnce call p path f w (d ∷ ds) after x h e =
    elim (Option-cases (Map.get w.scheduler.jobs d)) [
      | inl g ↦
          let q : w ≡ after = ground arith in
          subst (λ y. IsOnce y × Spares path w y) q (h, λ k i. (refl, refl))
      | inr (s, g) ↦ elim (Bool-cases (did_not_complete s.status)) [
        | inl u ↦
            let q : w ≡ after = ground arith in
            subst (λ y. IsOnce y × Spares path w y) q (h, λ k i. (refl, refl))
        | inr u ↦ elim (Bool-cases (is_scheduled s.status)) [
          | inr t ↦ run_dependencies-IsOnce call p path f w ds after x h (ground arith)
          | inl t ↦
              let looked : Pass = record w { ticks = suc w.ticks } in
              elim (Bool-cases (leb s.next_run_at (p.clock w.ticks))) [
                | inr l ↦ run_dependencies-IsOnce call p path f looked ds after x h (ground arith)
                | inl l ↦ elim (Option-cases (call looked d)) [
                  | inl c ↦ absurd (ground arith)
                  | inr (r, c) ↦
                      let (next, b) = r in
                      let (m, k) = f looked d h next b c in
                      elim (Bool-cases b) [
                        | inl z ↦
                            let (a, y) =
                              run_dependencies-IsOnce call p path f next ds after x m
                                (ground arith) in
                            (a, Spares-trans path w next after k y)
                        | inr z ↦
                            let q : next ≡ after = ground arith in
                            subst (λ y. IsOnce y × Spares path w y) q (m, k)
                      ]
                ]
              ]
        ]
      ]
    ]

run_job-KeepsOnce :
    (p : Platform)
    → IsQuiet p
    → (fuel : ℕ) (visiting : List String) (w : Pass) (j : String) → IsOnce w
    → KeepsOnce visiting w (run_job fuel p visiting w j)
unfolding run_job contains
run_job-KeepsOnce p q zero visiting w j h after b e = absurd (ground arith)
run_job-KeepsOnce p q (suc fuel) visiting w j h after b e =
    let still : (w ≡ after) → IsOnce after × Spares visiting w after =
      λ z. subst (λ y. IsOnce y × Spares visiting w y) z (h, λ k i. (refl, refl)) in
    elim (Bool-cases (contains w.completed j)) [
      | inl c ↦ still (ground arith)
      | inr c ↦ elim (Option-cases (Map.get w.scheduler.jobs j)) [
        | inl g ↦ still (ground arith)
        | inr (s, g) ↦ elim (Bool-cases (is_scheduled s.status)) [
          | inr t ↦ still (ground arith)
          | inl t ↦ elim (Bool-cases (contains visiting j)) [
            | inl v ↦
                let z : fail_in w j "Job dependency cycle detected." ≡ after = ground arith in
                subst (λ y. IsOnce y × Spares visiting w y) z
                  (fail_in-IsOnce w j "Job dependency cycle detected." h, λ k i. (refl, refl))
            | inr v ↦
                let deps =
                  run_dependencies (run_job fuel p (j ∷ visiting)) p w s.definition.dependencies in
                elim (Option-cases deps) [
                  | inl z ↦ absurd (ground arith)
                  | inr (r, z) ↦
                      let (a, x) = r in
                      let (m, k) =
                        run_dependencies-IsOnce (run_job fuel p (j ∷ visiting)) p (j ∷ visiting)
                          (λ w2 d i. run_job-KeepsOnce p q fuel (j ∷ visiting) w2 d i) w
                          s.definition.dependencies a x h z in
                      let own : contains (j ∷ visiting) j ≡ true = ground arith in
                      let path = Spares-tail j visiting w a k in
                      elim (Option-cases x) [
                        | inl y ↦
                            let u : perform p a j ≡ (after, b) = ground arith in
                            let (f, i) = perform-IsOnce p a j visiting q m ((k j own).1 ∙ c) v in
                            subst (λ y. IsOnce y × Spares visiting w y) (ap (λ y. y.0) u)
                              (f, Spares-trans visiting w a (perform p a j).0 path i)
                        | inr (message, y) ↦
                            let u : fail_in a j message ≡ after = ground arith in
                            subst (λ y. IsOnce y × Spares visiting w y) u
                              (fail_in-IsOnce a j message m, path)
                      ]
                ]
          ]
        ]
      ]
    ]

run_all-Distinct :
    (p : Platform)
    → IsQuiet p
    → (w : Pass) (executed : List String) (ss : List JobState) (after : Pass) (ids : List String)
    → IsOnce w
    → run_all p w executed ss ≡ some (after, ids)
    → Distinct after.calls
unfolding run_all
run_all-Distinct p q w executed [] after ids h e =
    let z : w ≡ after = ground arith in subst (λ y. Distinct y.calls) z h.0
run_all-Distinct p q w executed (s ∷ ss) after ids h e =
    let o = run_job (length w.scheduler.jobs + 2) p [] w s.definition.job_id in
    elim (Option-cases o) [
      | inl z ↦ absurd (ground arith)
      | inr (r, z) ↦
          let (a, b) = r in
          let (m, k) =
            run_job-KeepsOnce p q (length w.scheduler.jobs + 2) [] w s.definition.job_id h a b z in
          run_all-Distinct p q a (executed_with s.definition.job_id b executed) ss after ids m
            (ground arith)
    ]

-- If no job is cancelled meanwhile, a pass over the due jobs calls the runner of no job twice, even if
-- others depend on it.
pub run_due-Distinct :
    (p : Platform) (now : ℕ) (m : JobScheduler) (after : Pass) (executed : List String)
    → IsQuiet p
    → run_due p now m ≡ some (after, executed)
    → Distinct after.calls
unfolding run_due contains
run_due-Distinct p now m after executed q e =
    run_all-Distinct p q (record { scheduler = m; completed = []; ticks = 0; calls = [] }) []
      (sort runs_before (keep (is_due now) (Map.values m.jobs))) after executed
      (tt, λ k c. absurd (ground arith)) e

-- ===== src/UpgradeManager/Recovery.antt =====
-- What an upgrade of services/runtime/src/upgrade-manager.ts calls, in success and in failure.
use nova_test.Common.{
  ◌-◌, ◌<◌, ◌≡◌, refl, ◌∙◌, ap, inl, inr, Bool, true, false, [], ◌∷◌, ◌++◌, String, none, some,
  arith, In, In-append_left, In-append_right, Bool-cases, Option-cases,
}
use mathlib.Core.Path.{subst, sym}
use nova_test.UpgradeManager.Attempts.{attempt-IsAttempt, calls_of, steps, when, is_paused}
use nova_test.Shared.{ErrorInfo, ok, err}
use nova_test.UpgradeManager.{
  UpgradeRequest, UpgradeAdapter, UpgradeResult, snapshot, resume_after_upgrade, rollback, Attempt,
  attempt, resume_tasks, recover, same_hooks, conclude, upgrade,
}

-- The hooks are paired and there are versions to go.
pub record IsUpgrade (a : UpgradeAdapter) (r : UpgradeRequest) : Type 0 where
  pub forward : r.current_version < r.target_version
  pub hooks : same_hooks a ≡ true

upgrade-conclude :
    (a : UpgradeAdapter) (r : UpgradeRequest)
    → IsUpgrade a r
    → upgrade a r ≡ conclude a r (attempt a r)
unfolding upgrade
upgrade-conclude a r h = ground (arith, h.forward, h.hooks)

conclude-completed :
    (a : UpgradeAdapter) (r : UpgradeRequest) (t : Attempt) (v : UpgradeResult)
    → (conclude a r t).1 ≡ ok v
    → (t.completed ≡ true) × (v.version ≡ r.target_version) × ((conclude a r t).0 ≡ t.calls)
unfolding conclude recover resume_tasks
conclude-completed a r t v h = ground arith

unsaved :
    (a : UpgradeAdapter) (r : UpgradeRequest) → a.snapshot ≡ none → (attempt a r).completed ≡ false
unfolding attempt
unsaved a r h = ground arith

-- A successful upgrade reaches the target version by exactly these calls: the snapshot, the pause
-- if there is one, each migration in order, the plugins, the verification and the resumption if
-- there is one. It never rolls back.
pub upgrade-calls :
    (a : UpgradeAdapter) (r : UpgradeRequest) (v : UpgradeResult)
    → IsUpgrade a r
    → (upgrade a r).1 ≡ ok v
    → (v.version ≡ r.target_version) × ((upgrade a r).0 ≡ snapshot ∷ calls_of a r a.pause_in_flight)
upgrade-calls a r v h e =
    let same = upgrade-conclude a r h in
    let (c, target, calls) =
      conclude-completed a r (attempt a r) v (sym (ap (λ u. u.1) same) ∙ e) in
    elim (Option-cases a.snapshot) [
      | inl n ↦ absurd (ground (arith, unsaved a r n))
      | inr (id, s) ↦ (target, ap (λ u. u.0) same ∙ calls ∙ (attempt-IsAttempt a r id s).whole c)
    ]

conclude-broken :
    (a : UpgradeAdapter) (r : UpgradeRequest) (t : Attempt) (e : ErrorInfo)
    → (conclude a r t).1 ≡ err e
    → (conclude a r t).0 ≡ t.calls ++ (recover a t).0
unfolding conclude
conclude-broken a r t e h = ground arith

recover-rollback :
    (a : UpgradeAdapter) (t : Attempt) (id : String)
    → t.snapshot_id ≡ some id
    → In (rollback id) (recover a t).0
unfolding recover
recover-rollback a t id h = elim (Bool-cases (a.rollback id)) [
  | inl f ↦
      let e : rollback id ∷ (resume_tasks a t).0 ≡ (recover a t).0 = ground arith in
      subst (In (rollback id)) e (inl refl)
  | inr f ↦
      let e : rollback id ∷ [] ≡ (recover a t).0 = ground arith in
      subst (In (rollback id)) e (inl refl)
]

-- An upgrade that fails after its snapshot rolls back to that snapshot.
pub upgrade-rolls_back :
    (a : UpgradeAdapter) (r : UpgradeRequest) (e : ErrorInfo) (id : String)
    → IsUpgrade a r
    → a.snapshot ≡ some id
    → (upgrade a r).1 ≡ err e
    → In (rollback id) (upgrade a r).0
upgrade-rolls_back a r e id h s f =
    let same = upgrade-conclude a r h in
    let t = attempt a r in
    let broken = conclude-broken a r t e (sym (ap (λ u. u.1) same) ∙ f) in
    subst (In (rollback id)) (sym (ap (λ u. u.0) same ∙ broken)) (
      In-append_right (rollback id) t.calls (recover a t).0
        (recover-rollback a t id (attempt-IsAttempt a r id s).saved))

recover-resume :
    (a : UpgradeAdapter) (t : Attempt) (id : String) (b : Bool)
    → t.snapshot_id ≡ some id
    → t.paused ≡ true
    → t.resume_attempted ≡ false
    → a.resume_after_upgrade ≡ some b
    → a.rollback id ≡ true
    → In resume_after_upgrade (recover a t).0
unfolding recover resume_tasks
recover-resume a t id b h p n f g =
    let e : rollback id ∷ resume_after_upgrade ∷ [] ≡ (recover a t).0 = elim (Bool-cases b) [
      | inl _ ↦ ground arith
      | inr _ ↦ ground arith
    ] in
    subst (In resume_after_upgrade) e (inr (inl refl))

paired_hook :
    (a : UpgradeAdapter)
    → same_hooks a ≡ true
    → a.pause_in_flight ≡ some true
    → (b : Bool) × (a.resume_after_upgrade ≡ some b)
paired_hook a h p = elim (Option-cases a.resume_after_upgrade) [
  | inl e ↦ absurd (ground arith)
  | inr found ↦ found
]

resumed-In :
    (a : UpgradeAdapter) (r : UpgradeRequest) (b : Bool)
    → a.pause_in_flight ≡ some true
    → a.resume_after_upgrade ≡ some b
    → In resume_after_upgrade (calls_of a r a.pause_in_flight)
resumed-In a r b p e =
    subst (λ o. In resume_after_upgrade (calls_of a r o)) (sym p)
      (inr (
        In-append_right resume_after_upgrade
          (steps r.current_version (r.target_version - r.current_version)) _
          (inr (
            inr (
              subst (λ o. In resume_after_upgrade (when o resume_after_upgrade)) (sym e)
                (inl refl))))))

conclude-resumes :
    (a : UpgradeAdapter) (r : UpgradeRequest) (t : Attempt) (id : String) (b : Bool)
    → t.snapshot_id ≡ some id
    → t.paused ≡ true
    → a.resume_after_upgrade ≡ some b
    → a.rollback id ≡ true
    → (t.resume_attempted ≡ true → In resume_after_upgrade t.calls)
    → (t.completed ≡ true → In resume_after_upgrade t.calls)
    → In resume_after_upgrade (conclude a r t).0
unfolding conclude
conclude-resumes a r t id b s p hook back tried whole = elim (Bool-cases t.completed) [
  | inl c ↦
      let e : t.calls ≡ (conclude a r t).0 = ground arith in
      subst (In resume_after_upgrade) e (whole c)
  | inr c ↦
      let e : t.calls ++ (recover a t).0 ≡ (conclude a r t).0 = ground arith in
      subst (In resume_after_upgrade) e (elim (Bool-cases t.resume_attempted) [
        | inl d ↦ In-append_left resume_after_upgrade t.calls (recover a t).0 (tried d)
        | inr d ↦
            In-append_right resume_after_upgrade t.calls (recover a t).0
              (recover-resume a t id b s p d hook back)
      ])
]

-- Whatever the outcome of an upgrade that saved its snapshot and paused the tasks, it calls the hook
-- that resumes them, unless the rollback fails.
pub upgrade-resumes :
    (a : UpgradeAdapter) (r : UpgradeRequest) (id : String)
    → IsUpgrade a r
    → a.snapshot ≡ some id
    → a.pause_in_flight ≡ some true
    → a.rollback id ≡ true
    → In resume_after_upgrade (upgrade a r).0
upgrade-resumes a r id h s p back =
    let (b, hook) = paired_hook a h.hooks p in
    let same = ap (λ u. u.0) (upgrade-conclude a r h) in
    let t = attempt-IsAttempt a r id s in
    subst (In resume_after_upgrade) (sym same) (
      conclude-resumes a r (attempt a r) id b t.saved (t.pauses ∙ ap is_paused p) hook back
        t.resumes
        (λ c. subst (In resume_after_upgrade) (sym (t.whole c)) (inr (resumed-In a r b p hook))))

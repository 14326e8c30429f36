-- ===== src/UpgradeManager/Attempts.antt =====
-- The `try` block of services/runtime/src/upgrade-manager.ts: the calls of each stage.
use nova_test.Common.{
  ℕ, zero, suc, ◌-◌, ◌≡◌, refl, ap, inl, inr, Bool, true, false, List, [], ◌∷◌, ◌++◌, String,
  Option, none, some, arith, ◌==◌, In, Bool-cases,
}
use mathlib.Core.Path.{subst}
use nova_test.UpgradeManager.{
  UpgradeRequest, UpgradeAdapter, Call, snapshot, pause_in_flight, update_plugins, verify,
  resume_after_upgrade, migrate, Attempt, ended, after, resume, resumed, checked, check, update,
  migrate_all, migrated, pause, pausing, attempt,
}

-- The calls of a successful chain of migrations.
abbrev pub steps : ℕ → ℕ → List Call
steps version zero = []
steps version (suc n) = migrate version (suc version) ∷ steps (suc version) n

abbrev pub when : Option Bool → Call → List Call
when none c = []
when (some _) c = c ∷ []

-- What every attempt after the snapshot has.
pub record IsAttempt (a : UpgradeAdapter) (id : String) (paused : Bool) (done : List Call)
    (t : Attempt) : Type 0 where
  pub saved : t.snapshot_id ≡ some id
  pub pauses : t.paused ≡ paused
  pub resumes : t.resume_attempted ≡ true → In resume_after_upgrade t.calls
  pub whole : t.completed ≡ true → t.calls ≡ done

abbrev pub resumption : UpgradeAdapter → Bool → List Call
resumption a false = []
resumption a true = when a.resume_after_upgrade resume_after_upgrade

resumed-IsAttempt :
    (a : UpgradeAdapter) (id : String) (o : Option Bool)
    → IsAttempt a id true (when o resume_after_upgrade) (resumed id o)
unfolding resumed
resumed-IsAttempt a id none = record {
  saved = refl;
  pauses = refl;
  resumes = λ h. cc;
  whole = λ h. refl;
}
resumed-IsAttempt a id (some b) = record {
  saved = refl;
  pauses = refl;
  resumes = λ h. inl refl;
  whole = λ h. refl;
}

resume-IsAttempt :
    (a : UpgradeAdapter) (id : String) (p : Bool)
    → IsAttempt a id p (resumption a p) (resume a id p)
unfolding resume
resume-IsAttempt a id false = record {
  saved = refl;
  pauses = refl;
  resumes = λ h. cc;
  whole = λ h. refl;
}
resume-IsAttempt a id true = resumed-IsAttempt a id a.resume_after_upgrade

after-IsAttempt :
    (a : UpgradeAdapter) (id : String) (p : Bool) (c : Call) (done : List Call) (t : Attempt)
    → IsAttempt a id p done t
    → IsAttempt a id p (c ∷ done) (after c t)
after-IsAttempt a id p c done t h = record {
  saved = h.saved;
  pauses = h.pauses;
  resumes = λ e. inr (h.resumes e);
  whole = λ e. ap (λ cs. c ∷ cs) (h.whole e);
}

broken-IsAttempt :
    (a : UpgradeAdapter) (id : String) (p : Bool) (done calls : List Call)
    → IsAttempt a id p done (ended false id p false calls)
broken-IsAttempt a id p done calls = record {
  saved = refl;
  pauses = refl;
  resumes = λ e. cc;
  whole = λ e. cc;
}

checked-IsAttempt :
    (a : UpgradeAdapter) (id : String) (p : Bool) (o : Option Bool) (done : List Call)
    (rest : Attempt)
    → IsAttempt a id p done rest
    → IsAttempt a id p (verify ∷ done) (checked id p o rest)
unfolding checked
checked-IsAttempt a id p none done rest h = broken-IsAttempt a id p _ _
checked-IsAttempt a id p (some true) done rest h = after-IsAttempt a id p verify done rest h
checked-IsAttempt a id p (some false) done rest h = broken-IsAttempt a id p _ _

check-IsAttempt :
    (a : UpgradeAdapter) (id : String) (p : Bool)
    → IsAttempt a id p (verify ∷ resumption a p) (check a id p)
unfolding check
check-IsAttempt a id p = checked-IsAttempt a id p a.verify _ _ (resume-IsAttempt a id p)

update-IsAttempt :
    (a : UpgradeAdapter) (id : String) (p : Bool)
    → IsAttempt a id p (update_plugins ∷ verify ∷ resumption a p) (update a id p)
unfolding update
update-IsAttempt a id p = elim (Bool-cases a.update_plugins) [
  | inl e ↦ simp e (after-IsAttempt a id p update_plugins _ _ (check-IsAttempt a id p))
  | inr e ↦ simp e (broken-IsAttempt a id p _ _)
]

migrated-IsAttempt :
    (a : UpgradeAdapter) (id : String) (p : Bool) (version : ℕ) (o : Option ℕ) (done : List Call)
    (rest : Attempt)
    → IsAttempt a id p done rest
    → IsAttempt a id p (migrate version (suc version) ∷ done) (migrated id p version o rest)
unfolding migrated
migrated-IsAttempt a id p version none done rest h = broken-IsAttempt a id p _ _
migrated-IsAttempt a id p version (some reached) done rest h =
    elim (Bool-cases (reached == suc version)) [
      | inl f ↦ rw f (after-IsAttempt a id p (migrate version (suc version)) done rest h)
      | inr f ↦ rw f (broken-IsAttempt a id p _ _)
    ]

migrate_all-IsAttempt :
    (a : UpgradeAdapter) (id : String) (p : Bool) (version n : ℕ)
    → IsAttempt a id p
        (steps version n ++ update_plugins ∷ verify ∷ resumption a p)
        (migrate_all a id p version n)
unfolding migrate_all
migrate_all-IsAttempt a id p version zero = update-IsAttempt a id p
migrate_all-IsAttempt a id p version (suc n) =
    migrated-IsAttempt a id p version (a.migrate version (suc version)) _ _
      (migrate_all-IsAttempt a id p (suc version) n)

-- The calls of a successful upgrade after the snapshot.
abbrev pub calls_from : UpgradeAdapter → UpgradeRequest → Bool → List Call
calls_from a r paused =
    steps r.current_version (r.target_version - r.current_version)
    ++ update_plugins ∷ verify ∷ resumption a paused

abbrev pub calls_of : UpgradeAdapter → UpgradeRequest → Option Bool → List Call
calls_of a r none = calls_from a r false
calls_of a r (some _) = pause_in_flight ∷ calls_from a r true

abbrev pub is_paused : Option Bool → Bool
is_paused (some true) = true
is_paused _ = false

pausing-IsAttempt :
    (a : UpgradeAdapter) (r : UpgradeRequest) (id : String) (o : Option Bool) (off on : Attempt)
    → IsAttempt a id false (calls_from a r false) off
    → IsAttempt a id true (calls_from a r true) on
    → IsAttempt a id (is_paused o) (calls_of a r o) (pausing id o off on)
unfolding pausing
pausing-IsAttempt a r id none off on f g = f
pausing-IsAttempt a r id (some false) off on f g = broken-IsAttempt a id false _ _
pausing-IsAttempt a r id (some true) off on f g = after-IsAttempt a id true pause_in_flight _ on g

pause-IsAttempt :
    (a : UpgradeAdapter) (r : UpgradeRequest) (id : String)
    → IsAttempt a id (is_paused a.pause_in_flight) (calls_of a r a.pause_in_flight) (pause a id r)
unfolding pause
pause-IsAttempt a r id =
    let n = r.target_version - r.current_version in
    pausing-IsAttempt a r id a.pause_in_flight _ _
      (migrate_all-IsAttempt a id false r.current_version n)
      (migrate_all-IsAttempt a id true r.current_version n)

pub attempt-IsAttempt :
    (a : UpgradeAdapter) (r : UpgradeRequest) (id : String)
    → a.snapshot ≡ some id
    → IsAttempt a id
        (is_paused a.pause_in_flight)
        (snapshot ∷ calls_of a r a.pause_in_flight)
        (attempt a r)
unfolding attempt
attempt-IsAttempt a r id e =
    let h =
      after-IsAttempt a id (is_paused a.pause_in_flight) snapshot _ _ (pause-IsAttempt a r id) in
    subst (IsAttempt a id (is_paused a.pause_in_flight) (snapshot ∷ calls_of a r a.pause_in_flight))
      (ground (arith, e)) h

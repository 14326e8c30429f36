-- ===== src/UpgradeManager/Tests.antt =====
-- Runs of services/runtime/src/upgrade-manager.ts, and its theorems at concrete adapters.
use nova_test.Common.{◌≡◌, refl, [], ◌∷◌, some, true, false, In, arith}
use nova_test.UpgradeManager.{
  UpgradeRequest, UpgradeAdapter, snapshot, pause_in_flight, update_plugins, verify,
  resume_after_upgrade, migrate, rollback, upgrade, recovery_error, UpgradeResult,
}
use nova_test.UpgradeManager.Attempts.{calls_of}
use nova_test.UpgradeManager.Recovery.{upgrade-calls, upgrade-rolls_back}

program : Unit {0}
unfolding upgrade
program = tt

abbrev request : UpgradeRequest
request = record { current_version = 2; target_version = 4 }

abbrev reached : UpgradeResult
reached = record { version = 4 }

abbrev healthy : UpgradeAdapter
healthy = record {
  snapshot = some "before";
  pause_in_flight = some true;
  migrate = λ _ w. some w;
  update_plugins = true;
  verify = some true;
  resume_after_upgrade = some true;
  rollback = λ _. true;
}

abbrev broken : UpgradeAdapter
broken = record healthy { verify = some false }

whole_run :
    (upgrade healthy request).0
    ≡ snapshot
      ∷ pause_in_flight
      ∷ migrate 2 3
      ∷ migrate 3 4
      ∷ update_plugins
      ∷ verify
      ∷ resume_after_upgrade
      ∷ []
unfolding program
whole_run = refl

broken_run :
    (upgrade broken request).0
    ≡ snapshot
      ∷ pause_in_flight
      ∷ migrate 2 3
      ∷ migrate 3 4
      ∷ update_plugins
      ∷ verify
      ∷ rollback "before"
      ∷ resume_after_upgrade
      ∷ []
unfolding program
broken_run = refl

-- When the rollback fails too, the paused tasks are not resumed.
stranded_run :
    (upgrade (record broken { rollback = λ _. false }) request).0
    ≡ snapshot
      ∷ pause_in_flight
      ∷ migrate 2 3
      ∷ migrate 3 4
      ∷ update_plugins
      ∷ verify
      ∷ rollback "before"
      ∷ []
unfolding program
stranded_run = refl

upgrade-calls_example :
    (reached.version ≡ request.target_version)
    × ((upgrade healthy request).0 ≡ snapshot ∷ calls_of healthy request (some true))
unfolding program
upgrade-calls_example =
    upgrade-calls healthy request reached (record { forward = omega arith; hooks = refl }) refl

upgrade-rolls_back_example : In (rollback "before") (upgrade broken request).0
unfolding program
upgrade-rolls_back_example =
    upgrade-rolls_back broken request
      (recovery_error "Upgrade failed and was rolled back to the pre-upgrade snapshot.") "before"
      (record { forward = omega arith; hooks = refl }) refl refl

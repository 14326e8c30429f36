-- ===== src/Shared/Tests.antt =====
-- A run of packages/shared/src/service-lifecycle.ts at concrete states.
use nova_test.Common.{[], ◌∷◌, ◌≡◌, refl}
use nova_test.Shared.Lifecycle.{failed, restarting, initializing, healthy, transition, run}

restart : run failed (restarting ∷ initializing ∷ healthy ∷ []) ≡ healthy
unfolding run transition
restart = refl

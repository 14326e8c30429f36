-- ===== src/Shared.antt =====
-- packages/shared/src/contracts.ts: error codes, error values and results.
pub mod Lifecycle
mod Tests
use nova_test.Common.{ℕ, ◌≡◌, refl, ◌⊎◌, inl, inr, Bool, List, String}

pub data StableErrorCode : Type 0 where
  nova_ai001 nova_ai002 nova_cfg001 nova_evt001 nova_evt002 nova_mem001 nova_mem002 nova_mem003
        nova_net001 nova_plg001 nova_plg002 nova_plg003 nova_plg004 nova_plg005 nova_plg006
        nova_sec001 nova_sec002 nova_sec004 nova_sec005 nova_tl001 nova_tl002 nova_tl003 nova_tl004
        nova_tl005 nova_wfl001 nova_wfl002 nova_tsk004 :
      StableErrorCode

-- Of the numbers, those that are natural: the code puts no other into an error.
pub data ErrorDetailValue : Type 0 where
  text : String → ErrorDetailValue
  number : ℕ → ErrorDetailValue
  flag : Bool → ErrorDetailValue
  texts : List String → ErrorDetailValue

-- An error with no `details` has the empty list.
pub record ErrorInfo : Type 0 where
  pub code : StableErrorCode
  pub message : String
  pub retryable : Bool
  pub details : List (String × ErrorDetailValue)

pub data Result {ℓ} (A : Type ℓ) : Type ℓ where
  ok : A → Result A
  err : ErrorInfo → Result A

pub Result-cases {ℓ} :
    {A : Type ℓ} (r : Result A) → ((a : A) × (r ≡ ok a)) ⊎ ((e : ErrorInfo) × (r ≡ err e))
Result-cases (ok a) = inl (a, refl)
Result-cases (err e) = inr (e, refl)

-- ===== src/CrossDeviceSync/Replicas.antt =====
-- Histories of a replica of services/runtime/src/cross-device-sync.ts. `flush` changes no record.

use nova_test.Common.Sort.{sort}
use nova_test.Common.{◌≡◌, List, [], ◌∷◌, String, Option, All}
use nova_test.Shared.{Result}
use nova_test.CrossDeviceSync.{
  SyncChange, SyncManager, SyncResult, Parsed, change, Pulled, sync, sync_changes, change_le,
  apply_local,
}
use nova_test.CrossDeviceSync.Pulling.{Outcome, refused, pulled, sync-Outcome, read_envelopes-All}
use nova_test.CrossDeviceSync.Winners.{
  IsObject, IsReplica, apply-IsReplica, apply_all-IsReplica, sort-All,
}

module _ (V : Type 0) where
  pub data Call : Type 0 where
    local : SyncChange V → Call
    pull : Option (Pulled V) → Call

  unfoldable pub step : (String → Parsed V) → List String → SyncManager V → Call → SyncManager V
  step parse granted m (local c) = apply_local V m c
  step parse granted m (pull answer) = (sync V parse granted m answer).0

  unfoldable pub run : (String → Parsed V) → List String → SyncManager V → List Call → SyncManager V
  unfolding step
  run parse granted m [] = m
  run parse granted m (c ∷ cs) = run parse granted (step parse granted m c) cs

  abbrev pub IsLocalObject : Call → Type 0
  IsLocalObject (local c) = IsObject V c
  IsLocalObject (pull answer) = Unit {0}

  Outcome-IsReplica :
      (parse : String → Parsed V) (granted : List String) (m : SyncManager V)
      (a : SyncManager V × Result SyncResult)
      → ((e : String) (c : SyncChange V) → parse e ≡ change c → IsObject V c)
      → Outcome V parse granted m a
      → IsReplica V m
      → IsReplica V a.0
  unfolding sync_changes
  Outcome-IsReplica parse granted m _ o (refused e) h = h
  Outcome-IsReplica parse granted m _ o (pulled es next cs f g) h =
      apply_all-IsReplica V m (sort (change_le V) cs)
        (sort-All V (change_le V) (IsObject V) cs
          (read_envelopes-All V parse granted (IsObject V) es cs (λ e c p _. o e c p) f))
        h

  step-IsReplica :
      (parse : String → Parsed V) (granted : List String) (m : SyncManager V) (c : Call)
      → ((e : String) (c : SyncChange V) → parse e ≡ change c → IsObject V c)
      → IsLocalObject c
      → IsReplica V m
      → IsReplica V (step parse granted m c)
  unfolding step apply_local
  step-IsReplica parse granted m (local c) o l h = apply-IsReplica V m.records c l h
  step-IsReplica parse granted m (pull answer) o l h =
      Outcome-IsReplica parse granted m _ o (sync-Outcome V parse granted m answer) h

  -- Last writer wins: after every history of local changes and pulls, each field of each entity has
  -- the value of one of the changes with the greatest clock among those in the entity's history that
  -- name the field, and no value if none names it. A field with a name that objects inherit, such as
  -- `constructor`, never has a value.
  pub run-IsReplica :
      (parse : String → Parsed V) (granted : List String) (m : SyncManager V) (cs : List Call)
      → ((e : String) (c : SyncChange V) → parse e ≡ change c → IsObject V c)
      → All IsLocalObject cs
      → IsReplica V m
      → IsReplica V (run parse granted m cs)
  unfolding run
  run-IsReplica parse granted m [] o l h = h
  run-IsReplica parse granted m (c ∷ cs) o l h =
      run-IsReplica parse granted (step parse granted m c) cs o l.1
        (step-IsReplica parse granted m c o l.0 h)

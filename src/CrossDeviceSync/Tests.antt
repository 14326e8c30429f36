-- ===== src/CrossDeviceSync/Tests.antt =====
-- Runs of services/runtime/src/cross-device-sync.ts, and its theorems at concrete changes.
use nova_test.Common.Map
use nova_test.Common.Map.{Map}
use nova_test.Common.Sort.{sort}
use nova_test.Common.{
  ℕ, ◌≡◌, ◌≢◌, refl, arith, List, [], ◌∷◌, String, some, none, true, contains, add, text_dec, ap,
}
use mathlib.Core.Path.{subst}
use nova_test.Shared.{ok}
use nova_test.CrossDeviceSync.{
  SyncChange, SyncManager, SyncResult, Pulled, Parsed, change, natural, configuration, new, sync,
  merge, apply_fields, apply_field, is_inherited, safe_natural, apply_local, apply_all, apply,
  flush, history,
}
use nova_test.CrossDeviceSync.Winners.{IsObject, IsReplica}
use nova_test.CrossDeviceSync.Replicas
use nova_test.CrossDeviceSync.Replicas.{run-IsReplica}
use nova_test.CrossDeviceSync.Pushing.{Flushed, flush-Flushed}
use nova_test.CrossDeviceSync.Ties.{field_of, replicas_diverge}

program : Unit {0}
unfolding text_dec contains add sort Map.get Map.set Map.delete sync safe_natural apply_local
    apply_all flush history
program = tt

abbrev red : SyncChange ℕ
red = record {
  change_id = "c1";
  entity_id = "settings";
  category = configuration;
  logical_clock = 4;
  partition = "home";
  fields = ("colour", 1) ∷ ("size", 10) ∷ [];
}

abbrev blue : SyncChange ℕ
blue = record red { change_id = "c2"; fields = ("colour", 2) ∷ [] }

-- A field with an inherited name is not stored.
constructor_skipped :
    field_of ℕ
      (apply ℕ [] (record red { fields = ("constructor", 3) ∷ [] }))
      "settings"
      "constructor"
    ≡ none
unfolding Map.get Map.set text_dec is_inherited contains apply merge apply_fields apply_field
    field_of
constructor_skipped = refl

abbrev parse : String → Parsed ℕ
parse e = change red

abbrev granted : List String
granted = "home" ∷ []

abbrev answer : Pulled ℕ
answer = record { next_clock = natural 9; envelopes = "x" ∷ "y" ∷ [] }

abbrev result : SyncResult
result = record { checkpoint = 9; applied_change_ids = "c1" ∷ [] }

first_pull : (sync ℕ parse granted (new ℕ) (some answer)).1 ≡ ok result
unfolding program
first_pull = refl

red-IsObject : IsObject ℕ red
unfolding contains text_dec
red-IsObject = (refl, (refl, tt))

blue-IsObject : IsObject ℕ blue
unfolding contains text_dec
blue-IsObject = (refl, tt)

parsed-IsObject : (e : String) (c : SyncChange ℕ) → parse e ≡ change c → IsObject ℕ c
parsed-IsObject e c h =
    subst (IsObject ℕ) (ap (λ p. elim p [ change d ↦ d | _ ↦ red ]) h) red-IsObject

abbrev calls : List (Replicas.Call ℕ)
calls = Replicas.Call.local blue ∷ Replicas.Call.pull (some answer) ∷ []

run-IsReplica_example : IsReplica ℕ (Replicas.run ℕ parse granted (new ℕ) calls)
run-IsReplica_example =
    run-IsReplica ℕ parse granted (new ℕ) calls parsed-IsObject (blue-IsObject, (tt, tt)) tt

abbrev pending : SyncManager ℕ
pending = record (new ℕ) { pending = ("c1", red) ∷ ("c2", blue) ∷ [] }

flush-Flushed_example :
    Flushed ℕ pending
      (apply_local ℕ pending (record blue { change_id = "c3" }))
      (flush ℕ
        (λ c. c.change_id)
        (some (λ _. true))
        (λ m. apply_local ℕ m (record blue { change_id = "c3" }))
        pending)
      ("c1" ∷ "c2" ∷ [])
unfolding program
flush-Flushed_example =
    flush-Flushed ℕ (λ c. c.change_id) (λ _. true)
      (λ m. apply_local ℕ m (record blue { change_id = "c3" })) pending red (blue ∷ [])
      ("c1" ∷ "c2" ∷ []) refl refl

replicas_diverge_example :
    (field_of ℕ (apply ℕ (apply ℕ [] red) blue) "settings" "colour" ≡ some 2)
    × (field_of ℕ (apply ℕ (apply ℕ [] blue) red) "settings" "colour" ≡ some 1)
    × (field_of ℕ (apply ℕ (apply ℕ [] red) blue) "settings" "colour"
        ≢ field_of ℕ (apply ℕ (apply ℕ [] blue) red) "settings" "colour")
unfolding Map.get text_dec is_inherited contains
replicas_diverge_example =
    replicas_diverge ℕ red blue "colour" 1 2 refl (omega arith) red-IsObject blue-IsObject refl refl
      refl refl

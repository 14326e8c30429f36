-- ===== src/CrossDeviceSync/Pushing.antt =====
-- `flush` of services/runtime/src/cross-device-sync.ts: what stays to be pushed.
use nova_test.Common.Map
use nova_test.Common.Map.{Map}
use nova_test.Common.{
  ◌≡◌, refl, sym, ap, ◌∙◌, inl, inr, Bool, List, [], ◌∷◌, String, none, some, arith, if◌then◌else◌,
  contains, Bool-cases, map,
}
use nova_test.Shared.{Result, ok}
use nova_test.CrossDeviceSync.{SyncChange, SyncManager, flush, drop_pending, ids}

module _ (V : Type 0) where
  drop_pending-get :
      (pending : Map (SyncChange V)) (cs : List (SyncChange V)) (i : String)
      → Map.get (drop_pending V pending cs) i
        ≡ (if contains (ids V cs) i then none else Map.get pending i)
  unfolding drop_pending contains
  drop_pending-get pending [] i = refl
  drop_pending-get pending (c ∷ cs) i = ground (
    arith,
    drop_pending-get (Map.delete pending c.change_id) cs i,
    Map.get-delete pending c.change_id i,
  )

  -- What a successful flush leaves: what is pending when the push ends less the identifiers that it
  -- reports, which are those pending at its start.
  pub record Flushed (m later : SyncManager V) (a : SyncManager V × Result (List String))
      (pushed : List String) : Type 0 where
    pub reported : pushed ≡ ids V (Map.values m.pending)
    pub pending :
        (i : String)
        → Map.get a.0.pending i ≡ (if contains pushed i then none else Map.get later.pending i)
    pub records : a.0.records ≡ later.records

  -- A successful flush of pending changes reports all that were pending at its start, takes exactly
  -- those identifiers out of what is pending at its end, and changes no record.
  pub flush-Flushed :
      (encode : SyncChange V → String) (send : List String → Bool)
      (meanwhile : SyncManager V → SyncManager V) (m : SyncManager V) (c : SyncChange V)
      (cs : List (SyncChange V)) (pushed : List String)
      → Map.values m.pending ≡ c ∷ cs
      → (flush V encode (some send) meanwhile m).1 ≡ ok pushed
      → Flushed m (meanwhile m) (flush V encode (some send) meanwhile m) pushed
  unfolding flush
  flush-Flushed encode send meanwhile m c cs pushed e h =
      elim (Bool-cases (send (map encode (c ∷ cs)))) [
        | inr bad ↦ absurd (ground arith)
        | inl sent ↦
            let done : flush V encode (some send) meanwhile m ≡ (
              record (meanwhile m) { pending = drop_pending V (meanwhile m).pending (c ∷ cs) },
              ok (ids V (c ∷ cs)),
            ) =
              ground arith in
            let same : ids V (c ∷ cs) ≡ pushed = ground arith in
            record {
              reported = sym same ∙ ap (ids V) (sym e);
              pending = λ i.
                  ap (λ a. Map.get a.0.pending i) done
                  ∙ drop_pending-get (meanwhile m).pending (c ∷ cs) i
                  ∙ ap (λ l. if contains l i then none else Map.get (meanwhile m).pending i) same;
              records = ap (λ a. a.0.records) done;
            }
      ]

-- ===== src/CrossDeviceSync/Repeats.antt =====
-- A pull that is answered as before, in services/runtime/src/cross-device-sync.ts.

use nova_test.Common.Sort.{sort}
use nova_test.Common.{
  ℕ, ◌≡◌, refl, sym, ap, ◌∙◌, inl, inr, true, false, List, [], ◌∷◌, ◌++◌, String, some, arith, ltb,
  contains, add, contains-add, All, Bool-cases, Option-cases,
}
use mathlib.Core.Path.{subst}
use nova_test.Shared.{Result-cases, ok, err}
use nova_test.CrossDeviceSync.{
  SyncChange, SyncManager, SyncResult, Parsed, Pulled, sync, sync_from, sync_changes,
  read_envelopes, change_le, safe_natural, apply, apply_all,
}

module _ (V : Type 0) where
  abbrev IsKnown : SyncManager V → SyncChange V → Type 0
  IsKnown m c = contains m.applied c.change_id ≡ true

  apply_all-contains :
      (m : SyncManager V) (cs : List (SyncChange V)) (i : String)
      → contains m.applied i ≡ true
      → contains (apply_all V m cs).0.applied i ≡ true
  unfolding apply_all
  apply_all-contains m [] i h = h
  apply_all-contains m (c ∷ cs) i h = elim (Bool-cases (contains m.applied c.change_id)) [
    | inl old ↦ rw old (apply_all-contains m cs i h)
    | inr new ↦ rw new (
        apply_all-contains
          (record m {
            records = apply V m.records c;
            applied = add m.applied c.change_id;
            applied_order = m.applied_order ++ c.change_id ∷ [];
          })
          cs i (ground (arith, contains-add m.applied c.change_id i)))
  ]

  apply_all-IsKnown :
      (m : SyncManager V) (cs : List (SyncChange V)) → All (IsKnown (apply_all V m cs).0) cs
  unfolding apply_all
  apply_all-IsKnown m [] = tt
  apply_all-IsKnown m (c ∷ cs) = elim (Bool-cases (contains m.applied c.change_id)) [
    | inl old ↦
        let e : (apply_all V m cs).0 ≡ (apply_all V m (c ∷ cs)).0 = ground arith in
        subst (λ n. All (IsKnown n) (c ∷ cs)) e
          (apply_all-contains m cs c.change_id old, apply_all-IsKnown m cs)
    | inr new ↦
        let n : SyncManager V = record m {
          records = apply V m.records c;
          applied = add m.applied c.change_id;
          applied_order = m.applied_order ++ c.change_id ∷ [];
        } in
        let e : (apply_all V n cs).0 ≡ (apply_all V m (c ∷ cs)).0 = ground arith in
        subst (λ n. All (IsKnown n) (c ∷ cs)) e
          (
            apply_all-contains n cs c.change_id
                (ground (arith, contains-add m.applied c.change_id c.change_id)),
            apply_all-IsKnown n cs,
          )
  ]

  apply_all-known :
      (m : SyncManager V) (cs : List (SyncChange V))
      → All (IsKnown m) cs
      → apply_all V m cs ≡ (m, [])
  unfolding apply_all
  apply_all-known m [] h = refl
  apply_all-known m (c ∷ cs) h = rw (h.0) (apply_all-known m cs h.1)

  repeated :
      (m : SyncManager V) (next : ℕ) (cs : List (SyncChange V))
      → sync_changes V (sync_changes V m next cs).0 next cs
        ≡ ((sync_changes V m next cs).0, ok (record { checkpoint = next; applied_change_ids = [] }))
  unfolding sync_changes
  repeated m next cs =
      let sorted = sort (change_le V) cs in
      let n : SyncManager V = record ((apply_all V m sorted).0) { checkpoint = next } in
      ap
        (λ a. (
          record (a.0) { checkpoint = next },
          ok (record { checkpoint = next; applied_change_ids = a.1 }),
        ))
        (apply_all-known n sorted (apply_all-IsKnown m sorted))

  accepted :
      (parse : String → Parsed V) (granted : List String) (m : SyncManager V) (p : Pulled V)
      (next : ℕ) (cs : List (SyncChange V))
      → safe_natural p.next_clock ≡ some next
      → ltb next m.checkpoint ≡ false
      → read_envelopes V parse granted p.envelopes ≡ ok cs
      → sync V parse granted m (some p) ≡ sync_changes V m next cs
  unfolding sync sync_from
  accepted parse granted m p next cs e f g = ground arith

  checkpoint-sync :
      (m : SyncManager V) (next : ℕ) (cs : List (SyncChange V))
      → (sync_changes V m next cs).0.checkpoint ≡ next
  unfolding sync_changes
  checkpoint-sync m next cs = refl

  result-sync :
      (m : SyncManager V) (next : ℕ) (cs : List (SyncChange V)) (r : SyncResult)
      → (sync_changes V m next cs).1 ≡ ok r
      → next ≡ r.checkpoint
  unfolding sync_changes
  result-sync m next cs r h = ap (λ o. elim o [ ok q ↦ q.checkpoint | err _ ↦ next ]) h

  again :
      (parse : String → Parsed V) (granted : List String) (m : SyncManager V) (p : Pulled V)
      (next : ℕ) (cs : List (SyncChange V)) (r : SyncResult)
      → safe_natural p.next_clock ≡ some next
      → ltb next m.checkpoint ≡ false
      → read_envelopes V parse granted p.envelopes ≡ ok cs
      → (sync V parse granted m (some p)).1 ≡ ok r
      → sync V parse granted (sync V parse granted m (some p)).0 (some p) ≡ (
        (sync V parse granted m (some p)).0,
        ok (record { checkpoint = r.checkpoint; applied_change_ids = [] }),
      )
  again parse granted m p next cs r e on g h =
      let once = accepted parse granted m p next cs e on g in
      let reached = result-sync m next cs r (sym (ap (λ a. a.1) once) ∙ h) in
      let twice =
        accepted parse granted (sync_changes V m next cs).0 p next cs e
          (ground (arith, checkpoint-sync m next cs)) g in
      ap (λ a. sync V parse granted a.0 (some p)) once
      ∙ twice
      ∙ repeated m next cs
      ∙ ap
          (λ n.
            ((sync_changes V m next cs).0, ok (record { checkpoint = n; applied_change_ids = [] })))
          reached
      ∙ ap (λ a. (a.0, ok (record { checkpoint = r.checkpoint; applied_change_ids = [] })))
          (sym once)

  -- A pull that is answered as the successful pull before it applies nothing: it leaves the replica
  -- as it is and reports no change.
  pub sync_again :
      (parse : String → Parsed V) (granted : List String) (m : SyncManager V) (p : Pulled V)
      (r : SyncResult)
      → (sync V parse granted m (some p)).1 ≡ ok r
      → sync V parse granted (sync V parse granted m (some p)).0 (some p) ≡ (
        (sync V parse granted m (some p)).0,
        ok (record { checkpoint = r.checkpoint; applied_change_ids = [] }),
      )
  unfolding sync sync_from
  sync_again parse granted m p r h = elim (Option-cases (safe_natural p.next_clock)) [
    | inl e ↦ absurd (ground arith)
    | inr (next, e) ↦ elim (Bool-cases (ltb next m.checkpoint)) [
      | inl back ↦ absurd (ground arith)
      | inr on ↦ elim (Result-cases (read_envelopes V parse granted p.envelopes)) [
        | inr (x, g) ↦ absurd (ground arith)
        | inl (cs, g) ↦ again parse granted m p next cs r e on g h
      ]
    ]
  ]

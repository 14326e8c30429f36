-- ===== src/CrossDeviceSync/Pulling.antt =====
-- `sync` of services/runtime/src/cross-device-sync.ts: which changes a pull applies.

use nova_test.Common.Sort.{sort}
use nova_test.Common.{
  ℕ, ◌≤◌, ◌≡◌, refl, sym, ap, ◌∙◌, ◌⊎◌, inl, inr, true, false, List, [], ◌∷◌, ◌++◌, String, Option,
  none, some, arith, ltb, All, All-mono, add, Distinct, contains, Bool-cases, Option-cases,
  contains-add, append-Distinct, append_one,
}
use mathlib.Core.Path.{subst}
use mathlib.Core.List.{append-nil}
use nova_test.Shared.{Result-cases, Result, ok, err, ErrorInfo}
use nova_test.CrossDeviceSync.{
  SyncChange, SyncManager, SyncResult, Parsed, unreadable, invalid, change, Pulled, sync, sync_from,
  sync_changes, read_envelopes, change_le, safe_natural, apply, apply_all,
}

module _ (V : Type 0) where
  Parsed-cases :
      (p : Parsed V) → (p ≡ unreadable) ⊎ ((p ≡ invalid) ⊎ ((c : SyncChange V) × (p ≡ change c)))
  Parsed-cases unreadable = inl refl
  Parsed-cases invalid = inr (inl refl)
  Parsed-cases (change c) = inr (inr (c, refl))

  -- A pull is refused and changes nothing, or it applies the changes that were read.
  pub data Outcome (parse : String → Parsed V) (granted : List String) (m : SyncManager V)
      : SyncManager V × Result SyncResult → Type 0 where
    refused : (e : ErrorInfo) → Outcome parse granted m (m, err e)
    pulled :
        (envelopes : List String) (next : ℕ) (cs : List (SyncChange V))
        → read_envelopes V parse granted envelopes ≡ ok cs
        → m.checkpoint ≤ next
        → Outcome parse granted m (sync_changes V m next cs)

  sync_from-Outcome :
      (parse : String → Parsed V) (granted : List String) (m : SyncManager V)
      (envelopes : List String) (next : ℕ) (r : Result (List (SyncChange V)))
      → read_envelopes V parse granted envelopes ≡ r
      → m.checkpoint ≤ next
      → Outcome parse granted m (sync_from V m next r)
  unfolding sync_from
  sync_from-Outcome parse granted m es next (ok cs) e h = pulled es next cs e h
  sync_from-Outcome parse granted m es next (err x) e h = refused x

  -- Whatever the transport answers, `sync` either changes nothing and gives an error, or reads every
  -- envelope, applies the changes of the granted partitions and moves the checkpoint forward.
  pub sync-Outcome :
      (parse : String → Parsed V) (granted : List String) (m : SyncManager V)
      (answer : Option (Pulled V))
      → Outcome parse granted m (sync V parse granted m answer)
  unfolding sync
  sync-Outcome parse granted m none = refused _
  sync-Outcome parse granted m (some p) = elim (Option-cases (safe_natural p.next_clock)) [
    | inl e ↦ rw (sync, e) (refused _)
    | inr (next, e) ↦ elim (Bool-cases (ltb next m.checkpoint)) [
      | inl back ↦ rw (sync, e, back) (refused _)
      | inr on ↦
          rw (sync, e, on)
            (sync_from-Outcome parse granted m p.envelopes next
              (read_envelopes V parse granted p.envelopes) refl (ground arith))
    ]
  ]

  -- The changes read: of a granted partition and from an envelope.
  pub read_envelopes-All :
      (parse : String → Parsed V) (granted : List String) (P : SyncChange V → Type 0)
      (envelopes : List String) (cs : List (SyncChange V))
      → ((e : String) (c : SyncChange V)
          → parse e ≡ change c
          → contains granted c.partition ≡ true
          → P c)
      → read_envelopes V parse granted envelopes ≡ ok cs
      → All P cs
  unfolding read_envelopes
  read_envelopes-All parse granted P [] cs p h =
      let e : [] ≡ cs = ground arith in subst (All P) e tt
  read_envelopes-All parse granted P (x ∷ es) cs p h = elim (Parsed-cases (parse x)) [
    | inl r ↦ absurd (ground arith)
    | inr (inl r) ↦ absurd (ground arith)
    | inr (inr (c, r)) ↦ elim (Result-cases (read_envelopes V parse granted es)) [
      | inr (x', t) ↦ absurd (ground arith)
      | inl (ds, t) ↦
          let rest = read_envelopes-All parse granted P es ds p t in
          elim (Bool-cases (contains granted c.partition)) [
            | inl g ↦ let e : c ∷ ds ≡ cs = ground arith in subst (All P) e (p x c r g, rest)
            | inr g ↦ let e : ds ≡ cs = ground arith in subst (All P) e rest
          ]
    ]
  ]

  -- The identifiers of the applied changes: each once, in the set and in the order of application.
  pub record IsCounted (m : SyncManager V) : Type 0 where
    pub same : m.applied_order ≡ m.applied
    pub once : Distinct m.applied

  -- What a pass over changes does to the identifiers: those it reports are new, distinct, and added
  -- at the end.
  pub record Counts (m : SyncManager V) (a : SyncManager V × List String) : Type 0 where
    pub order : a.0.applied_order ≡ m.applied_order ++ a.1
    pub counted : IsCounted a.0
    pub fresh : All (λ i. contains m.applied i ≡ false) a.1

  grow :
      (ids : List String) (c : SyncChange V)
      → contains ids c.change_id ≡ false
      → add ids c.change_id ≡ ids ++ c.change_id ∷ []
  unfolding add
  grow ids c h = ground arith

  count-step :
      (m : SyncManager V) (c : SyncChange V) (a : SyncManager V × List String)
      → contains m.applied c.change_id ≡ false
      → Counts
          (record m {
            records = apply V m.records c;
            applied = add m.applied c.change_id;
            applied_order = m.applied_order ++ c.change_id ∷ [];
          })
          a
      → Counts m (a.0, c.change_id ∷ a.1)
  count-step m c a new h = record {
    order = h.order ∙ append_one m.applied_order c.change_id a.1;
    counted = h.counted;
    fresh = (
      new,
      All-mono (λ i. contains (add m.applied c.change_id) i ≡ false) _
          (λ i e. ground (arith, contains-add m.applied c.change_id i)) a.1 h.fresh,
    );
  }

  pub apply_all-Counts :
      (m : SyncManager V) (cs : List (SyncChange V)) → IsCounted m → Counts m (apply_all V m cs)
  unfolding apply_all
  apply_all-Counts m [] h = record {
    order = sym (append-nil m.applied_order);
    counted = h;
    fresh = tt;
  }
  apply_all-Counts m (c ∷ cs) h = elim (Bool-cases (contains m.applied c.change_id)) [
    | inl old ↦ rw old (apply_all-Counts m cs h)
    | inr new ↦
        let n : SyncManager V = record m {
          records = apply V m.records c;
          applied = add m.applied c.change_id;
          applied_order = m.applied_order ++ c.change_id ∷ [];
        } in
        let grown : add m.applied c.change_id ≡ m.applied ++ c.change_id ∷ [] =
          grow m.applied c new in
        let counted : IsCounted n = record {
          same = ap (λ l. l ++ c.change_id ∷ []) h.same ∙ sym grown;
          once = subst Distinct (sym grown) (append-Distinct m.applied c.change_id new h.once);
        } in
        rw new (count-step m c (apply_all V n cs) new (apply_all-Counts n cs counted))
  ]

  Outcome-Counts :
      (parse : String → Parsed V) (granted : List String) (m : SyncManager V)
      (a : SyncManager V × Result SyncResult) (r : SyncResult)
      → Outcome parse granted m a
      → IsCounted m
      → a.1 ≡ ok r
      → Counts m (a.0, r.applied_change_ids)
  unfolding sync_changes
  Outcome-Counts parse granted m _ r (refused e) h f = absurd (ground arith)
  Outcome-Counts parse granted m _ r (pulled es next cs f g) h e =
      let counts = apply_all-Counts m (sort (change_le V) cs) h in
      let same : (apply_all V m (sort (change_le V) cs)).1 ≡ r.applied_change_ids =
        ap (λ o. elim o [ ok q ↦ q.applied_change_ids | err _ ↦ [] ]) e in
      subst
        (λ l.
          Counts m (record ((apply_all V m (sort (change_le V) cs)).0) { checkpoint = next }, l))
        same
        (record {
          order = counts.order;
          counted = record { same = counts.counted.same; once = counts.counted.once };
          fresh = counts.fresh;
        })

  -- A pull applies no change twice: the identifiers that it reports were not applied before, are
  -- distinct, and go to the end of the order of application.
  pub sync-Counts :
      (parse : String → Parsed V) (granted : List String) (m : SyncManager V)
      (answer : Option (Pulled V)) (r : SyncResult)
      → IsCounted m
      → (sync V parse granted m answer).1 ≡ ok r
      → Counts m ((sync V parse granted m answer).0, r.applied_change_ids)
  sync-Counts parse granted m answer r h e =
      Outcome-Counts parse granted m _ r (sync-Outcome parse granted m answer) h e

-- ===== src/CrossDeviceSync/Ties.antt =====
-- Changes with equal clocks, and changes that come back, in
-- services/runtime/src/cross-device-sync.ts.
use nova_test.Common.Map
use nova_test.Common.Map.{Map}
use nova_test.Common.{
  ℕ, ◌≡◌, refl, sym, ap, ◌∙◌, inl, inr, ◌≢◌, true, false, [], ◌∷◌, ◌++◌, String, Option, none, some,
  arith, or_else, leb, contains, Option-cases,
}
use nova_test.CrossDeviceSync.{
  SyncChange, LocalRecord, SyncManager, is_inherited, apply, merge, blank, history, apply_local,
  apply_all,
}
use nova_test.CrossDeviceSync.Merging.{fields-present, wins}
use nova_test.CrossDeviceSync.Winners.{IsObject, merge-history}

module _ (V : Type 0) where
  unfoldable pub field_of : Map (LocalRecord V) → String → String → Option V
  field_of records entity f = elim (Map.get records entity) [
    | none ↦ none
    | some r ↦ Map.get r.fields f
  ]

  tied : (a b : ℕ) → a ≡ b → leb a b ≡ true
  tied a b h = ground arith

  merge-present :
      (r : LocalRecord V) (c : SyncChange V) (f : String) (v : V)
      → is_inherited f ≡ false
      → IsObject V c
      → Map.get c.fields f ≡ some v
      → wins V (Map.get r.field_clocks f) c.logical_clock ≡ true
      → (Map.get (merge V r c).fields f ≡ some v)
        × (Map.get (merge V r c).field_clocks f ≡ some c.logical_clock)
  unfolding merge
  merge-present r c f v own o e w =
      let (a, b) =
        fields-present V c.logical_clock (record r { history = r.history ++ c ∷ [] }) c.fields f v
          own o e in
      (ground arith, ground arith)

  field_of-apply :
      (records : Map (LocalRecord V)) (c : SyncChange V) (f : String)
      → field_of (apply V records c) c.entity_id f
        ≡ Map.get (merge V (or_else (Map.get records c.entity_id) (blank V)) c).fields f
  unfolding apply field_of
  field_of-apply records c f = ground (
    arith,
    Map.get-set_self records c.entity_id
        (merge V (or_else (Map.get records c.entity_id) (blank V)) c),
  )

  record-apply :
      (c : SyncChange V)
      → or_else (Map.get (apply V [] c) c.entity_id) (blank V) ≡ merge V (blank V) c
  unfolding apply Map.get Map.set
  record-apply c = ground arith

  last_applied :
      (a b : SyncChange V) (f : String) (v w : V)
      → is_inherited f ≡ false
      → IsObject V a
      → IsObject V b
      → a.entity_id ≡ b.entity_id
      → a.logical_clock ≡ b.logical_clock
      → Map.get a.fields f ≡ some v
      → Map.get b.fields f ≡ some w
      → field_of (apply V (apply V [] a) b) b.entity_id f ≡ some w
  unfolding Map.get
  last_applied a b f v w own oa ob e k fa fb =
      let first = merge-present (blank V) a f v own oa fa refl in
      let known : or_else (Map.get (apply V [] a) b.entity_id) (blank V) ≡ merge V (blank V) a =
        ap (λ x. or_else (Map.get (apply V [] a) x) (blank V)) (sym e) ∙ record-apply a in
      let second =
        merge-present (merge V (blank V) a) b f w own ob fb
          (ap (λ o. wins V o b.logical_clock) first.1 ∙ tied a.logical_clock b.logical_clock k) in
      field_of-apply (apply V [] a) b f ∙ ap (λ r. Map.get (merge V r b).fields f) known ∙ second.0

  -- Two replicas that apply the same two changes, which give a field different values and have equal
  -- clocks, in different orders keep different values: each has that of the change it applied last. The
  -- name of the field is not one that objects inherit.
  pub replicas_diverge :
      (a b : SyncChange V) (f : String) (v w : V)
      → is_inherited f ≡ false
      → v ≢ w
      → IsObject V a
      → IsObject V b
      → a.entity_id ≡ b.entity_id
      → a.logical_clock ≡ b.logical_clock
      → Map.get a.fields f ≡ some v
      → Map.get b.fields f ≡ some w
      → (field_of (apply V (apply V [] a) b) b.entity_id f ≡ some w)
        × (field_of (apply V (apply V [] b) a) a.entity_id f ≡ some v)
        × (field_of (apply V (apply V [] a) b) b.entity_id f
            ≢ field_of (apply V (apply V [] b) a) a.entity_id f)
  replicas_diverge a b f v w own n oa ob e k fa fb =
      let x = last_applied a b f v w own oa ob e k fa fb in
      let y = last_applied b a f w v own ob oa (sym e) (sym k) fb fa in
      (x, y, λ z. let q : some w ≡ some v = sym x ∙ z ∙ y in absurd (ground arith))

  history-apply :
      (m n : SyncManager V) (c : SyncChange V)
      → n.records ≡ apply V m.records c
      → history V n c.entity_id ≡ history V m c.entity_id ++ c ∷ []
  unfolding apply history
  history-apply m n c e = elim (Option-cases (Map.get m.records c.entity_id)) [
    | inl f ↦ ground (
      arith,
      merge-history V (blank V) c,
      Map.get-set_self m.records c.entity_id (merge V (blank V) c),
    )
    | inr (r, f) ↦
        ground (arith, merge-history V r c, Map.get-set_self m.records c.entity_id (merge V r c))
  ]

  -- A local change that comes back in a pull is applied again, so that the history of its entity has
  -- it twice more than before.
  pub echo_applied_twice :
      (m : SyncManager V) (c : SyncChange V)
      → contains m.applied c.change_id ≡ false
      → history V (apply_all V (apply_local V m c) (c ∷ [])).0 c.entity_id
        ≡ (history V m c.entity_id ++ c ∷ []) ++ c ∷ []
  unfolding apply_all apply_local
  echo_applied_twice m c h =
      let back : (apply_all V (apply_local V m c) (c ∷ [])).0.records
          ≡ apply V (apply_local V m c).records c =
        ground arith in
      history-apply (apply_local V m c) (apply_all V (apply_local V m c) (c ∷ [])).0 c back
      ∙ ap (λ l. l ++ c ∷ []) (history-apply m (apply_local V m c) c refl)

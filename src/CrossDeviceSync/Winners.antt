-- ===== src/CrossDeviceSync/Winners.antt =====
-- Last-writer-wins for the replicas of services/runtime/src/cross-device-sync.ts: every field of an
-- entity has the value of a latest change that names it.
use nova_test.Common.Map
use nova_test.Common.Map.{Map}
use nova_test.Common.Sort.{sort, insert}
use mathlib.Core.Path.{subst}
use nova_test.Common.{
  add, ℕ, ◌≤◌, ◌≡◌, refl, sym, ◌⊎◌, inl, inr, Bool, true, false, ◌∙◌, List, [], ◌∷◌, ◌++◌, String,
  Option, none, some, arith, leb, if◌then◌else◌, All, All-append, All-mono, In, In-append_left,
  In-append_right, Distinct, contains, Bool-cases, Option-cases, or_else,
}
use nova_test.CrossDeviceSync.{
  SyncChange, LocalRecord, SyncManager, is_inherited, apply_fields, apply_field, merge, apply,
  apply_all, blank,
}
use nova_test.CrossDeviceSync.Merging.{wins, fields-absent, fields-present, fields-inherited}

module _ (V : Type 0) where
  -- The keys of an object are distinct.
  abbrev pub IsObject : SyncChange V → Type 0
  IsObject c = Distinct (Map.keys c.fields)

  insert-All :
      (le : SyncChange V → SyncChange V → Bool) (P : SyncChange V → Type 0) (c : SyncChange V)
      (cs : List (SyncChange V))
      → P c
      → All P cs
      → All P (insert le c cs)
  unfolding insert
  insert-All le P c [] p h = (p, tt)
  insert-All le P c (d ∷ cs) p h = elim (Bool-cases (le c d)) [
    | inl e ↦ rw e (p, h)
    | inr e ↦ rw e (h.0, insert-All le P c cs p h.1)
  ]

  -- The clock and the value of a field after a history: of one of its latest changes, or none.
  abbrev pub IsWinner : List (SyncChange V) → String → Option ℕ → Option V → Type 0
  IsWinner history f none value = (value ≡ none) × All (λ c. Map.get c.fields f ≡ none) history
  IsWinner history f (some clock) value =
      ((c : SyncChange V) × (v : V) × In c history
        × (c.logical_clock ≡ clock)
        × (Map.get c.fields f ≡ some v)
        × (value ≡ some v))
      × All (λ c. (Map.get c.fields f ≡ none) ⊎ (c.logical_clock ≤ clock)) history

  abbrev pub IsMerged : LocalRecord V → Type 0
  IsMerged r =
      ((f : String)
        → is_inherited f ≡ false
        → IsWinner r.history f (Map.get r.field_clocks f) (Map.get r.fields f))
      × ((f : String) → is_inherited f ≡ true → Map.get r.fields f ≡ none)

  IsWinner-silent :
      (history : List (SyncChange V)) (c : SyncChange V) (f : String) (clock : Option ℕ)
      (value : Option V)
      → Map.get c.fields f ≡ none
      → IsWinner history f clock value
      → IsWinner (history ++ c ∷ []) f clock value
  IsWinner-silent history c f none value e h =
      (h.0, All-append (λ x. Map.get x.fields f ≡ none) history (c ∷ []) h.1 (e, tt))
  IsWinner-silent history c f (some k) value e ((d, v, i, t1, t2, t3), h) = (
    (d, v, In-append_left d history (c ∷ []) i, t1, t2, t3),
    All-append (λ x. (Map.get x.fields f ≡ none) ⊎ (x.logical_clock ≤ k)) history (c ∷ []) h
        (inl e, tt),
  )

  IsWinner-newer :
      (history : List (SyncChange V)) (c : SyncChange V) (f : String) (clock : Option ℕ)
      (value : Option V) (v : V)
      → Map.get c.fields f ≡ some v
      → IsWinner history f clock value
      → IsWinner
          (history ++ c ∷ [])
          f
          (if wins V clock c.logical_clock then some c.logical_clock else clock)
          (if wins V clock c.logical_clock then some v else value)
  IsWinner-newer history c f none value v e h = (
    (c, v, In-append_right c history (c ∷ []) (inl refl), refl, e, refl),
    All-append (λ x. (Map.get x.fields f ≡ none) ⊎ (x.logical_clock ≤ c.logical_clock)) history
        (c ∷ []) (All-mono _ _ (λ x n. inl n) history h.1) (inr (omega arith), tt),
  )
  IsWinner-newer history c f (some k) value v e ((d, w, i, t1, t2, t3), h) =
      elim (Bool-cases (leb k c.logical_clock)) [
        | inl le ↦ rw le (
          (c, v, In-append_right c history (c ∷ []) (inl refl), refl, e, refl),
          All-append (λ x. (Map.get x.fields f ≡ none) ⊎ (x.logical_clock ≤ c.logical_clock))
              history (c ∷ [])
              (All-mono (λ x. (Map.get x.fields f ≡ none) ⊎ (x.logical_clock ≤ k)) _
                (λ x o. elim o [ inl n ↦ inl n | inr p ↦ inr (ground arith) ]) history h)
              (inr (omega arith), tt),
        )
        | inr gt ↦ rw gt (
          (d, w, In-append_left d history (c ∷ []) i, t1, t2, t3),
          All-append (λ x. (Map.get x.fields f ≡ none) ⊎ (x.logical_clock ≤ k)) history (c ∷ []) h
              (inr (ground arith), tt),
        )
      ]

  apply_fields-history :
      (clock : ℕ) (r : LocalRecord V) (fs : Map V) → (apply_fields V clock r fs).history ≡ r.history
  unfolding apply_fields apply_field
  apply_fields-history clock r [] = refl
  apply_fields-history clock r ((f, v) ∷ fs) =
      ground (arith, apply_fields-history clock (apply_field V clock r f v) fs)

  merge-IsMerged :
      (r : LocalRecord V) (c : SyncChange V) → IsObject c → IsMerged r → IsMerged (merge V r c)
  unfolding merge
  merge-IsMerged r c o h =
      let q : LocalRecord V = record r { history = r.history ++ c ∷ [] } in
      let past = apply_fields-history c.logical_clock q c.fields in
      (
        λ f own. elim (Option-cases (Map.get c.fields f)) [
          | inl e ↦
              let (a, b) = fields-absent V c.logical_clock q c.fields f e in
              rw (past, a, b) (IsWinner-silent r.history c f _ _ e (h.0 f own))
          | inr (v, e) ↦
              let (a, b) = fields-present V c.logical_clock q c.fields f v own o e in
              rw (past, a, b) (IsWinner-newer r.history c f _ _ v e (h.0 f own))
        ],
        λ f i. fields-inherited V c.logical_clock q c.fields f i ∙ h.1 f i,
      )

  -- Every record has the changes of its entity, and of each field the value of a latest one, except
  -- that a field with a name that objects inherit has no value.
  abbrev pub IsReplica : SyncManager V → Type 0
  IsReplica m = Map.All (λ e r. All (λ c. c.entity_id ≡ e) r.history × IsMerged r) m.records

  blank-IsMerged : IsMerged (blank V)
  unfolding Map.get
  blank-IsMerged = (λ f own. (refl, tt), λ f i. refl)

  pub merge-history :
      (r : LocalRecord V) (c : SyncChange V) → (merge V r c).history ≡ r.history ++ c ∷ []
  unfolding merge
  merge-history r c =
      apply_fields-history c.logical_clock (record r { history = r.history ++ c ∷ [] }) c.fields

  pub apply-IsReplica :
      (records : Map (LocalRecord V)) (c : SyncChange V)
      → IsObject c
      → Map.All (λ e r. All (λ c. c.entity_id ≡ e) r.history × IsMerged r) records
      → Map.All (λ e r. All (λ c. c.entity_id ≡ e) r.history × IsMerged r) (apply V records c)
  unfolding apply
  apply-IsReplica records c o h =
      let P : String → LocalRecord V → Type 0 =
        λ e r. All (λ c. c.entity_id ≡ e) r.history × IsMerged r in
      let old : P c.entity_id (or_else (Map.get records c.entity_id) (blank V)) =
        elim (Option-cases (Map.get records c.entity_id)) [
          | inl e ↦ rw e (tt, blank-IsMerged)
          | inr (r, e) ↦ rw e (Map.get-All P records c.entity_id r h e)
        ] in
      let r = or_else (Map.get records c.entity_id) (blank V) in
      Map.set-All P records c.entity_id (merge V r c) h (
        subst (All (λ x. x.entity_id ≡ c.entity_id)) (sym (merge-history r c))
            (All-append (λ x. x.entity_id ≡ c.entity_id) r.history (c ∷ []) old.0 (refl, tt)),
        merge-IsMerged r c o old.1,
      )

  pub apply_all-IsReplica :
      (m : SyncManager V) (cs : List (SyncChange V))
      → All IsObject cs
      → IsReplica m
      → IsReplica (apply_all V m cs).0
  unfolding apply_all
  apply_all-IsReplica m [] o h = h
  apply_all-IsReplica m (c ∷ cs) o h = elim (Bool-cases (contains m.applied c.change_id)) [
    | inl old ↦ rw old (apply_all-IsReplica m cs o.1 h)
    | inr new ↦ rw new (
        apply_all-IsReplica
          (record m {
            records = apply V m.records c;
            applied = add m.applied c.change_id;
            applied_order = m.applied_order ++ c.change_id ∷ [];
          })
          cs o.1 (apply-IsReplica m.records c o.0 h))
  ]

  pub sort-All :
      (le : SyncChange V → SyncChange V → Bool) (P : SyncChange V → Type 0)
      (cs : List (SyncChange V))
      → All P cs
      → All P (sort le cs)
  unfolding sort
  sort-All le P [] h = tt
  sort-All le P (c ∷ cs) h = insert-All le P c (sort le cs) h.0 (sort-All le P cs h.1)

-- ===== src/CrossDeviceSync/Merging.antt =====
-- Which value each field has after the changes of services/runtime/src/cross-device-sync.ts.
use nova_test.Common.Map
use nova_test.Common.Map.{Map}
use nova_test.Common.{
  ℕ, ◌≡◌, refl, ◌∙◌, ◌≢◌, inl, inr, Bool, true, false, Bool-cases, ap, [], ◌∷◌, String, Option,
  none, some, arith, leb, if◌then◌else◌, Distinct, Option-cases, text_dec,
}
use nova_test.CrossDeviceSync.{LocalRecord, is_inherited, apply_field, apply_fields}

module _ (V : Type 0) where
  -- The value of a field wins over the recorded one.
  abbrev pub wins : Option ℕ → ℕ → Bool
  wins none clock = true
  wins (some current) clock = leb current clock

  field_self :
      (clock : ℕ) (r : LocalRecord V) (field : String) (value : V)
      → is_inherited field ≡ false
      → (Map.get (apply_field V clock r field value).fields field ≡ (
          if wins (Map.get r.field_clocks field) clock then some value else Map.get r.fields field))
        × (Map.get (apply_field V clock r field value).field_clocks field ≡ (
            if wins (Map.get r.field_clocks field) clock
            then some clock
            else Map.get r.field_clocks field))
  unfolding apply_field
  field_self clock r field value own = elim (Option-cases (Map.get r.field_clocks field)) [
    | inl e ↦ (
      ground (arith, Map.get-set_self r.fields field value),
      ground (arith, Map.get-set_self r.field_clocks field clock),
    )
    | inr (k, e) ↦ (
      ground (arith, Map.get-set_self r.fields field value),
      ground (arith, Map.get-set_self r.field_clocks field clock),
    )
  ]

  field_other :
      (clock : ℕ) (r : LocalRecord V) (field : String) (value : V) (f : String)
      → field ≢ f
      → (Map.get (apply_field V clock r field value).fields f ≡ Map.get r.fields f)
        × (Map.get (apply_field V clock r field value).field_clocks f ≡ Map.get r.field_clocks f)
  unfolding apply_field
  field_other clock r field value f n = elim (Bool-cases (is_inherited field)) [
    | inl i ↦ rw (i, apply_field) (refl, refl)
    | inr i ↦ elim (Option-cases (Map.get r.field_clocks field)) [
      | inl e ↦ (
        ground (arith, Map.get-set_ne r.fields field value f n),
        ground (arith, Map.get-set_ne r.field_clocks field clock f n),
      )
      | inr (k, e) ↦ (
        ground (arith, Map.get-set_ne r.fields field value f n),
        ground (arith, Map.get-set_ne r.field_clocks field clock f n),
      )
    ]
  ]

  apply_field-inherited :
      (clock : ℕ) (r : LocalRecord V) (x : String) (v : V)
      → is_inherited x ≡ true
      → apply_field V clock r x v ≡ r
  unfolding apply_field
  apply_field-inherited clock r x v i = rw (i, apply_field) refl

  -- A field with an inherited name is never stored.
  pub fields-inherited :
      (clock : ℕ) (r : LocalRecord V) (fs : Map V) (f : String)
      → is_inherited f ≡ true
      → Map.get (apply_fields V clock r fs).fields f ≡ Map.get r.fields f
  unfolding apply_fields apply_field
  fields-inherited clock r [] f h = refl
  fields-inherited clock r ((x, v) ∷ fs) f h =
      let rest = fields-inherited clock (apply_field V clock r x v) fs f h in
      elim (text_dec x f) [
        | yes p ↦
            let i : is_inherited x ≡ true = ap is_inherited p ∙ h in
            rest ∙ ap (λ q. Map.get q.fields f) (apply_field-inherited clock r x v i)
        | no n ↦ rest ∙ (field_other clock r x v f n).0
      ]

  pub fields-absent :
      (clock : ℕ) (r : LocalRecord V) (fs : Map V) (f : String)
      → Map.get fs f ≡ none
      → (Map.get (apply_fields V clock r fs).fields f ≡ Map.get r.fields f)
        × (Map.get (apply_fields V clock r fs).field_clocks f ≡ Map.get r.field_clocks f)
  unfolding apply_fields Map.get
  fields-absent clock r [] f h = (refl, refl)
  fields-absent clock r ((x, v) ∷ fs) f h = elim (text_dec x f) [
    | yes p ↦ absurd (ground arith)
    | no n ↦
        let (a, b) = fields-absent clock (apply_field V clock r x v) fs f (ground arith) in
        let (c, d) = field_other clock r x v f n in (a ∙ c, b ∙ d)
  ]

  pub fields-present :
      (clock : ℕ) (r : LocalRecord V) (fs : Map V) (f : String) (v : V)
      → is_inherited f ≡ false
      → Distinct (Map.keys fs)
      → Map.get fs f ≡ some v
      → (Map.get (apply_fields V clock r fs).fields f
          ≡ (if wins (Map.get r.field_clocks f) clock then some v else Map.get r.fields f))
        × (Map.get (apply_fields V clock r fs).field_clocks f ≡ (
            if wins (Map.get r.field_clocks f) clock then some clock else Map.get r.field_clocks f))
  unfolding apply_fields Map.get
  fields-present clock r [] f v own d h = cc
  fields-present clock r ((x, w) ∷ fs) f v own d h = elim (text_dec x f) [
    | no n ↦
        let (a, b) =
          fields-present clock (apply_field V clock r x w) fs f v own d.1 (ground arith) in
        let (c, e) = field_other clock r x w f n in (ground arith, ground arith)
    | yes p ↦
        let (a, b) =
          fields-absent clock (apply_field V clock r x w) fs x (Map.get-absent fs x d.0) in
        let (c, e) = field_self clock r x w (ap is_inherited p ∙ own) in
        (ground arith, ground arith)
  ]

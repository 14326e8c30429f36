-- ===== src/WorkflowEngine/Checkpoints/Currency.antt =====
-- The checkpoints that services/runtime/src/workflow-engine.ts keeps valid.
use mathlib.Core.Path.{subst}
use nova_test.Common.Map
use nova_test.Common.Map.{Map}
use nova_test.Common.{
  ℕ, ◌+◌, ◌≤◌, ◌≡◌, refl, true, List, [], ◌∷◌, String, none, some, if◌then◌else◌, arith, contains,
  Distinct, text_dec, Option-cases, inl, inr, ◌≢◌,
}
use nova_test.WorkflowEngine.Checkpoints.{
  WorkflowCheckpoint, WorkflowEngine, superseded, is_current, latest_in, supersede,
  fresh_checkpoint, persist_checkpoint, latest_checkpoint_id,
}
use nova_test.WorkflowEngine.{Context}

module _ {C : Type 0} where
  abbrev pub tally : String → WorkflowCheckpoint C → ℕ
  tally w c = if is_current w c then 1 else 0

  -- How many valid checkpoints the workflow has.
  unfoldable pub count : String → Map (WorkflowCheckpoint C) → ℕ
  count w [] = 0
  count w ((k, c) ∷ m) = tally w c + count w m

  -- Each checkpoint stands under its identifier.
  abbrev pub AreKeyed : Map (WorkflowCheckpoint C) → Type 0
  AreKeyed m = Map.All (λ k c. k ≡ c.checkpoint_id) m

  tally-le : (w : String) (c : WorkflowCheckpoint C) → tally w c ≤ 1
  tally-le w c = ground arith

  count-set-le :
      (w k : String) (v : WorkflowCheckpoint C) (m : Map (WorkflowCheckpoint C))
      → count w (Map.set m k v) ≤ count w m + tally w v
  unfolding count Map.set
  count-set-le w k v [] = omega arith
  count-set-le w k v ((j, c) ∷ m) = ground (arith, count-set-le w k v m)

  count-set_held :
      (w k : String) (v c : WorkflowCheckpoint C) (m : Map (WorkflowCheckpoint C))
      → Map.get m k ≡ some c
      → count w (Map.set m k v) + tally w c ≡ count w m + tally w v
  unfolding count Map.set Map.get
  count-set_held w k v c [] e = cc
  count-set_held w k v c ((j, x) ∷ m) e = ground (arith, count-set_held w k v c m)

  latest_in-none :
      (w : String) (m : Map (WorkflowCheckpoint C))
      → latest_in w (Map.values m) ≡ none
      → count w m ≡ 0
  unfolding latest_in count
  latest_in-none w [] e = refl
  latest_in-none w ((k, c) ∷ m) e = ground (arith, latest_in-none w m)

  get-keys :
      (k : String) (m : Map (WorkflowCheckpoint C)) (c : WorkflowCheckpoint C)
      → Map.get m k ≡ some c
      → contains (Map.keys m) k ≡ true
  get-keys k m c e = ground (arith, Map.contains-keys m k)

  latest_in-some :
      (w k : String) (m : Map (WorkflowCheckpoint C))
      → AreKeyed m
      → Distinct (Map.keys m)
      → latest_in w (Map.values m) ≡ some k
      → (c : WorkflowCheckpoint C) × (Map.get m k ≡ some c) × (is_current w c ≡ true)
  unfolding latest_in Map.get
  latest_in-some w k [] h d e = cc
  latest_in-some w k ((j, x) ∷ m) h d e = elim (Option-cases (latest_in w (Map.values m))) [
    | inl p ↦ (x, ground arith, ground arith)
    | inr (i, p) ↦
        let (c, g, t) = latest_in-some w k m h.1 d.1 (ground arith) in
        (c, ground (arith, get-keys k m c g), t)
  ]

  -- The map of checkpoints holds each under its identifier, and for no workflow two valid ones.
  abbrev pub IsSingle : Map (WorkflowCheckpoint C) → Type 0
  IsSingle m = AreKeyed m × Distinct (Map.keys m) × ((w : String) → count w m ≤ 1)

  supersede-IsSingle :
      (w : String) (m : Map (WorkflowCheckpoint C))
      → IsSingle m
      → IsSingle (supersede m (latest_in w (Map.values m)))
        × (count w (supersede m (latest_in w (Map.values m))) ≡ 0)
  unfolding supersede
  supersede-IsSingle w m (h, d, n) = elim (Option-cases (latest_in w (Map.values m))) [
    | inl p ↦ rw (p, supersede) ((h, d, n), latest_in-none w m p)
    | inr (k, p) ↦
        let (c, g, t) = latest_in-some w k m h d p in
        let v = record c { state = superseded } in
        rw (p, supersede)
          (rw (g) (
            (
              Map.set-All (λ k' c'. k' ≡ c'.checkpoint_id) m k v h
                  (Map.get-All (λ k' c'. k' ≡ c'.checkpoint_id) m k c h g),
              Map.set-Distinct m k v d,
              λ u. ground (arith, count-set_held u k v c m g, n u),
            ),
            ground (arith, count-set_held w k v c m g, n w),
          ))
  ]

module _ {P V C : Type 0} where
  abbrev pub AreSingle : WorkflowEngine P V C → Type 0
  AreSingle m = IsSingle m.checkpoints

  -- A new checkpoint supersedes the last valid one of its workflow.
  pub persist_checkpoint-AreSingle :
      (number_text : ℕ → String) (now : String) (m : WorkflowEngine P V C) (workflow_id : String)
      (completed : List String) (context : Context C)
      → AreSingle m
      → AreSingle (persist_checkpoint number_text now m workflow_id completed context).0
  unfolding persist_checkpoint latest_checkpoint_id
  persist_checkpoint-AreSingle number_text now m w completed context h =
      let ((a, d, n), z) = supersede-IsSingle w m.checkpoints h in
      let c = fresh_checkpoint number_text now m w completed context in
      let other : (u : String) → w ≢ u → tally u c ≡ 0 = λ u e. ground arith in
      let old = supersede m.checkpoints (latest_in w (Map.values m.checkpoints)) in
      (
        Map.set-All (λ k c'. k ≡ c'.checkpoint_id) old c.checkpoint_id c a refl,
        Map.set-Distinct old c.checkpoint_id c d,
        λ u. elim (text_dec w u) [
          | yes e ↦
              subst (λ x. count x (Map.set old c.checkpoint_id c) ≤ 1) e
                (omega (arith, count-set-le w c.checkpoint_id c old, z, tally-le w c))
          | no e ↦ ground (arith, count-set-le u c.checkpoint_id c old, n u, other u e)
        ],
      )

-- ===== src/TaskScheduler/Selection.antt =====
-- `nextIndex` of services/runtime/src/task-scheduler.ts: which queued task is started next.
use mathlib.Core.List.{append-nil, append_assoc}
use native.Mathlib.Nat.{le-div_iff_mul-le, mul-div-le}
use native.Mathlib.Decide.{dec_lt}
use nova_test.Common.{
  ℕ, suc, ◌+◌, ◌-◌, ◌*◌, ◌/◌, ◌≤◌, ◌<◌, ◌≡◌, refl, sym, ◌∙◌, ap, ◌⊎◌, inl, inr, true, false, List,
  [], ◌∷◌, ◌++◌, Option, none, some, length, All, get_elem?, arith, if◌then◌else◌, Bool-cases,
  All-append, All-mono, get_elem?-append_length, length-append, ◌≢◌, get_elem?-All,
}
use nova_test.TaskScheduler.{
  TaskScheduler, QueueEntry, priority_rank, score, beats, next_from, next_index,
}

-- `b` is to be started before `e`: it scores more, or as much and was queued no later.
abbrev pub Dominates : TaskScheduler → ℕ → QueueEntry → QueueEntry → Type 0
Dominates s now b e =
    (score s now e < score s now b) ⊎ ((score s now e ≡ score s now b) × (b.sequence ≤ e.sequence))

module _ (s : TaskScheduler) (now : ℕ) where
  Dominates-trans :
      (a b c : QueueEntry) → Dominates s now a b → Dominates s now b c → Dominates s now a c
  Dominates-trans a b c h k = ground arith

  -- The best index and score are those of an entry that dominates all of `pre`.
  abbrev IsBest : List QueueEntry → ℕ → Option ℕ → Type 0
  IsBest pre best_index best_score =
      (b : QueueEntry) × (get_elem? s.queue best_index ≡ some b)
      × (best_score ≡ some (score s now b))
      × All (Dominates s now b) pre

  abbrev IsBestOrFirst : List QueueEntry → ℕ → Option ℕ → Type 0
  IsBestOrFirst pre best_index best_score =
      ((pre ≡ []) × (best_score ≡ none)) ⊎ IsBest pre best_index best_score

  loses :
      (b e : QueueEntry)
      → beats (score s now e) e (some (score s now b)) (some b) ≡ false
      → Dominates s now b e
  unfolding beats
  loses b e h = ground arith

  wins :
      (b e : QueueEntry)
      → beats (score s now e) e (some (score s now b)) (some b) ≡ true
      → Dominates s now e b
  unfolding beats
  wins b e h = ground arith

  pass-IsBest :
      (pre : List QueueEntry) (e : QueueEntry) (best_index : ℕ) (best_score : Option ℕ)
      → get_elem? s.queue (length pre) ≡ some e
      → IsBestOrFirst pre best_index best_score
      → let won = beats (score s now e) e best_score (get_elem? s.queue best_index) in
        IsBest
          (pre ++ e ∷ [])
          (if won then length pre else best_index)
          (if won then some (score s now e) else best_score)
  unfolding beats
  pass-IsBest pre e bi bs here (inl (p, q)) =
      rw (q, p, beats) (e, rw p at here, refl, (inr (refl, omega arith), tt))
  pass-IsBest pre e bi bs here (inr (b, f, g, all)) =
      elim (Bool-cases (beats (score s now e) e (some (score s now b)) (some b))) [
        | inl won ↦
            rw (g, f, won)
              (
                e,
                here,
                refl,
                All-append (Dominates s now e) pre (e ∷ [])
                    (All-mono (Dominates s now b) (Dominates s now e)
                      (λ x. Dominates-trans e b x (wins b e won)) pre all)
                    (inr (refl, omega arith), tt),
              )
        | inr lost ↦
            rw (g, f, lost)
              (b, f, refl, All-append (Dominates s now b) pre (e ∷ []) all (loses b e lost, tt))
      ]

  next_from-IsBest :
      (pre es : List QueueEntry) (best_index : ℕ) (best_score : Option ℕ)
      → s.queue ≡ pre ++ es
      → pre ++ es ≢ []
      → IsBestOrFirst pre best_index best_score
      → (b : QueueEntry) × (get_elem? s.queue
            (next_from s now es (length pre) best_index best_score)
          ≡ some b)
        × All (Dominates s now b) (pre ++ es)
  unfolding next_from
  next_from-IsBest pre [] bi bs q h (inl (p, _)) = absurd (h (ap (λ l. l ++ []) p))
  next_from-IsBest pre [] bi bs q h (inr (b, f, g, all)) = (b, f, rw append-nil all)
  next_from-IsBest pre (e ∷ es) bi bs q h best =
      let here : get_elem? s.queue (length pre) ≡ some e =
        rw q (get_elem?-append_length pre e es) in
      let best' = pass-IsBest pre e bi bs here best in
      let split : pre ++ e ∷ es ≡ (pre ++ e ∷ []) ++ es = sym (append_assoc pre (e ∷ []) es) in
      let len : length (pre ++ e ∷ []) ≡ suc (length pre) =
        omega (arith, length-append pre (e ∷ [])) in
      let (b, found, all) =
        next_from-IsBest (pre ++ e ∷ []) es _ _ (q ∙ split) (λ z. h (split ∙ z)) (inr best') in
      (b, rw len at found, rw split all)

  -- On a non-empty queue `nextIndex` gives the index of an entry whose score no other exceeds, and
  -- whose sequence number is the least of those with its score.
  pub next_index-Dominates :
      s.queue ≢ []
      → (b : QueueEntry) × (get_elem? s.queue (next_index s now) ≡ some b)
        × All (Dominates s now b) s.queue
  unfolding next_index
  next_index-Dominates h = next_from-IsBest [] s.queue 0 none refl h (inl (refl, refl))

  div-add_threshold : (a b t : ℕ) → 0 < t → b + 3 * t ≤ a → b / t + 3 ≤ a / t
  div-add_threshold a b t p h = (le-div_iff_mul-le p).1 (grind (arith, mul-div-le b t))

  age_gap : (n b e t : ℕ) → e + 3 * t ≤ b → b ≤ n → (n - b) + 3 * t ≤ n - e
  age_gap n b e t h k = omega arith

  overtaken :
      (b e : QueueEntry)
      → 0 < s.options.starvation_threshold_ms
      → e.enqueued_at + 3 * s.options.starvation_threshold_ms ≤ b.enqueued_at
      → b.enqueued_at ≤ now
      → score s now b < score s now e
  unfolding score
  overtaken b e p h past =
      let gap = age_gap now b.enqueued_at e.enqueued_at s.options.starvation_threshold_ms h past in
      let d = div-add_threshold _ _ s.options.starvation_threshold_ms p gap in
      let r : priority_rank b.priority ≤ 2 = ground arith in omega (arith, d, r)

  none_of_nil : (xs : List QueueEntry) (j : ℕ) (e : QueueEntry) → get_elem? xs j ≡ some e → xs ≢ []
  unfolding get_elem?
  none_of_nil [] j e h q = cc
  none_of_nil (x ∷ xs) j e h q = cc

  -- The entry that `nextIndex` takes was queued less than three starvation thresholds after any
  -- other entry that waits, whatever their priorities.
  pub next_index_fair :
      (b e : QueueEntry) (j : ℕ)
      → 0 < s.options.starvation_threshold_ms
      → get_elem? s.queue (next_index s now) ≡ some b
      → get_elem? s.queue j ≡ some e
      → b.enqueued_at ≤ now
      → b.enqueued_at < e.enqueued_at + 3 * s.options.starvation_threshold_ms
  next_index_fair b e j p fb fe past =
      let (b', found, all) = next_index-Dominates (none_of_nil s.queue j e fe) in
      let dom = get_elem?-All (Dominates s now b') s.queue j e all fe in
      let same : b' ≡ b = ground arith in
      elim (dec_lt b.enqueued_at (e.enqueued_at + 3 * s.options.starvation_threshold_ms)) [
        | yes h ↦ h
        | no h ↦ absurd (ground (arith, overtaken b e p (omega arith) past))
      ]

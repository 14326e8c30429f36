-- ===== src/TaskScheduler/Filling.antt =====
-- `fillSlots` of services/runtime/src/task-scheduler.ts: its fuel is enough, and what it starts.
use mathlib.Core.List.{append-nil, append_assoc}
use mathlib.Core.Logic.{ite}
use nova_test.Common.{
  text_dec, ℕ, zero, suc, ◌≤◌, ◌<◌, ◌≡◌, refl, sym, ◌∙◌, ap, ◌⊎◌, inl, inr, true, false, List, [],
  ◌∷◌, ◌++◌, String, some, length, get_elem?, arith, if◌then◌else◌, Bool-cases, contains, erase_idx,
  ◌&&◌, ltb, ◌≢◌, length-erase_idx, get_elem?-All,
}
use nova_test.TaskScheduler.{TaskScheduler, QueueEntry, start, fill, fill_slots, next_index}
use nova_test.TaskScheduler.Selection.{next_index-Dominates}
use nova_test.TaskScheduler.Invariant.{IsSound, start-IsSound, ids, add-new}

-- No slot is free while a task waits.
abbrev pub IsSaturated : TaskScheduler → Type 0
IsSaturated s = (s.options.max_concurrent ≤ length s.running) ⊎ (s.queue ≡ [])

-- What `fill` promises of the state after it and of the tasks that it starts.
pub record Fills (s : TaskScheduler) (r : TaskScheduler × List String) : Type 0 where
  pub sound : IsSound r.0
  pub saturated : IsSaturated r.0
  pub started : r.0.running ≡ s.running ++ r.1
  pub moved :
      (x : String)
      → contains (ids s.queue) x ≡ (if contains r.1 x then true else contains (ids r.0.queue) x)
  pub options : r.0.options ≡ s.options
  pub draining : r.0.draining ≡ s.draining

stays : (s : TaskScheduler) → IsSound s → IsSaturated s → Fills s (s, [])
unfolding contains
stays s v h = record {
  sound = v;
  saturated = h;
  started = sym (append-nil s.running);
  moved = λ x. refl;
  options = refl;
  draining = refl;
}

nonempty : (xs : List QueueEntry) → 0 < length xs → xs ≢ []
nonempty [] h p = absurd (omega arith)
nonempty (x ∷ xs) h p = cc

contains-ids-split :
    (es : List QueueEntry) (i : ℕ) (e : QueueEntry) (x : String)
    → get_elem? es i ≡ some e
    → contains (ids es) x ≡ ite (text_dec e.task_id x) true (contains (ids (erase_idx es i)) x)
unfolding get_elem? erase_idx contains
contains-ids-split [] i e x h = cc
contains-ids-split (f ∷ es) zero e x h = ground arith
contains-ids-split (f ∷ es) (suc i) e x h = ground (arith, contains-ids-split es i e x h)

Fills-start :
    (s : TaskScheduler) (i : ℕ) (e : QueueEntry) (r : TaskScheduler × List String)
    → IsSound s
    → get_elem? s.queue i ≡ some e
    → Fills (start s i e) r
    → Fills s (r.0, e.task_id ∷ r.1)
unfolding start contains
Fills-start s i e r v found f =
    let idle : contains s.running e.task_id ≡ false =
      get_elem?-All (λ g. contains s.running g.task_id ≡ false) s.queue i e v.apart found in
    record {
      sound = f.sound;
      saturated = f.saturated;
      started =
          f.started
          ∙ ap (λ l. l ++ r.1) (add-new s.running e.task_id idle)
          ∙ append_assoc s.running (e.task_id ∷ []) r.1;
      moved = λ x. ground (arith, contains-ids-split s.queue i e x found, f.moved x);
      options = f.options;
      draining = f.draining;
    }

fill-Fills :
    (fuel : ℕ) (clock : ℕ → ℕ) (s : TaskScheduler)
    → IsSound s
    → length s.queue ≤ fuel
    → Fills s (fill fuel clock s)
unfolding fill
fill-Fills zero clock s v h = stays s v (ground arith)
fill-Fills (suc fuel) clock s v h =
    elim (Bool-cases (ltb (length s.running) s.options.max_concurrent && ltb 0 (length s.queue))) [
      | inr full ↦ rw full (stays s v (ground arith))
      | inl room ↦
          let (e, found, _) = next_index-Dominates s (clock 0) (nonempty s.queue (ground arith)) in
          let i = next_index s (clock 0) in
          let started = start-IsSound s i e v found (ground arith) in
          rw (room, found)
            (Fills-start s i e _ v found (
              fill-Fills fuel (λ j. clock (suc j)) (start s i e) started
                (omega (arith, length-erase_idx s.queue i e found))))
    ]

-- The loop ends by its own test: the tasks that it starts take the slots in order and leave the
-- queue, the rest stays queued, and then no slot is free while a task waits.
pub fill_slots-Fills :
    (s : TaskScheduler) (clock : ℕ → ℕ) → IsSound s → Fills s (fill_slots s clock)
unfolding fill_slots
fill_slots-Fills s clock v = fill-Fills (length s.queue) clock s v (omega arith)

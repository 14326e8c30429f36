-- ===== src/TaskScheduler/Reachable.antt =====
-- The states that services/runtime/src/task-scheduler.ts can reach.
use nova_test.Common.{
  ℕ, ◌<◌, ◌≡◌, refl, ◌∙◌, inl, inr, Bool, true, false, List, [], ◌∷◌, String, some, length, arith,
  Bool-cases, contains, erase_idx, find_index, Option-cases, remove, contains-append,
}
use nova_test.TaskScheduler.{
  TaskScheduler, TaskSchedulerOptions, QueueEntry, Priority, new, enqueue, is_entry_of, fill_slots,
  is_idle, finish_if_idle, dispatch, cancel, finish,
}
use nova_test.TaskScheduler.Invariant.{
  IsSound, IsSettled, new-IsSettled, enqueue-IsSound, erase-IsSound, remove-IsSound, ids, any-ids,
  ids-append,
}
use nova_test.TaskScheduler.Filling.{IsSaturated, fill_slots-Fills}

IsSound-draining : (s : TaskScheduler) (d : Bool) → IsSound s → IsSound (record s { draining = d })
IsSound-draining s d v = record {
  slots = v.slots;
  bounded = v.bounded;
  running_distinct = v.running_distinct;
  queue_distinct = v.queue_distinct;
  apart = v.apart;
  rising = v.rising;
  fresh = v.fresh;
}

-- After the slots are filled with the drain pending, the drain ends exactly if nothing runs.
finish_if_idle-IsSettled :
    (s : TaskScheduler)
    → IsSound s
    → IsSaturated s
    → s.draining ≡ true
    → IsSettled (finish_if_idle s)
unfolding finish_if_idle
finish_if_idle-IsSettled s v h d = elim (Bool-cases (is_idle s)) [
  | inl idle ↦
      rw idle (record { sound = IsSound-draining s false v; drain = ground (arith, v.slots) })
  | inr busy ↦ rw busy (record { sound = v; drain = ground (arith, v.slots) })
]

dispatch-IsSettled :
    (s : TaskScheduler) (clock : ℕ → ℕ) → IsSettled s → IsSettled (dispatch s clock).0
unfolding dispatch
dispatch-IsSettled s clock v = elim (Bool-cases s.draining) [
  | inl d ↦ simp d v
  | inr d ↦
      let s' : TaskScheduler = record s { draining = true } in
      let f = fill_slots-Fills s' clock (IsSound-draining s true v.sound) in
      simp d (finish_if_idle-IsSettled (fill_slots s' clock).0 f.sound f.saturated f.draining)
]

contains-length : (ys : List String) (x : String) → contains ys x ≡ true → 0 < length ys
unfolding contains
contains-length [] x h = cc
contains-length (y ∷ ys) x h = omega arith

finish-IsSettled :
    (s : TaskScheduler) (id : String) (clock : ℕ → ℕ)
    → contains s.running id ≡ true
    → IsSettled s
    → IsSettled (finish s id clock).0
unfolding finish
finish-IsSettled s id clock h v =
    let s' : TaskScheduler = record s { running = remove s.running id } in
    let f = fill_slots-Fills s' clock (remove-IsSound s id v.sound) in
    let pending : s.draining ≡ true = ground (arith, v.drain, contains-length s.running id h) in
    finish_if_idle-IsSettled (fill_slots s' clock).0 f.sound f.saturated (f.draining ∙ pending)

cancel-IsSettled : (s : TaskScheduler) (id : String) → IsSettled s → IsSettled (cancel s id).0
unfolding cancel finish_if_idle
cancel-IsSettled s id v = elim (Option-cases (find_index (is_entry_of id) s.queue)) [
  | inl e ↦ rw (e, cancel) v
  | inr (i, e) ↦
      let s' : TaskScheduler = record s { queue = erase_idx s.queue i } in
      let sound = erase-IsSound s i v.sound in
      elim (Bool-cases (is_idle s')) [
        | inl idle ↦
            rw (e, cancel)
              (rw (idle, finish_if_idle)
                (record {
                  sound = IsSound-draining s' false sound;
                  drain = ground (arith, v.drain);
                }))
        | inr busy ↦
            rw (e, cancel) (rw (busy, finish_if_idle) (record { sound = sound; drain = v.drain }))
      ]
]

enqueue-IsSettled :
    (s : TaskScheduler) (id : String) (p : Priority) (at : ℕ)
    → IsSettled s
    → IsSettled (enqueue s id p at)
unfolding enqueue
enqueue-IsSettled s id p at v = record {
  sound = enqueue-IsSound s id p at v.sound;
  drain = ground (arith, v.drain);
}

-- One operation, or the end of a running task.
pub data Step : TaskScheduler → TaskScheduler → Type 0 where
  enqueues : {s : TaskScheduler} (id : String) (p : Priority) (at : ℕ) → Step s (enqueue s id p at)
  dispatches : {s : TaskScheduler} (clock : ℕ → ℕ) → Step s (dispatch s clock).0
  cancels : {s : TaskScheduler} (id : String) → Step s (cancel s id).0
  finishes :
      {s : TaskScheduler} (id : String) (clock : ℕ → ℕ)
      → contains s.running id ≡ true
      → Step s (finish s id clock).0

pub data Reach (s : TaskScheduler) : TaskScheduler → Type 0 where
  here : Reach s s
  next : {t u : TaskScheduler} → Reach s t → Step t u → Reach s u

Step-IsSettled : {s t : TaskScheduler} → Step s t → IsSettled s → IsSettled t
Step-IsSettled (enqueues {s} id p at) v = enqueue-IsSettled s id p at v
Step-IsSettled (dispatches {s} clock) v = dispatch-IsSettled s clock v
Step-IsSettled (cancels {s} id) v = cancel-IsSettled s id v
Step-IsSettled (finishes {s} id clock h) v = finish-IsSettled s id clock h v

Reach-IsSettled : {s t : TaskScheduler} → Reach s t → IsSettled s → IsSettled t
Reach-IsSettled here v = v
Reach-IsSettled (next r st) v = Step-IsSettled st (Reach-IsSettled r v)

-- In every reachable state no more tasks run than there are slots, no task is queued or running
-- twice, or both, the queue is in the order of arrival, and a drain is pending exactly while a task
-- runs.
pub new-Reach-IsSettled :
    (o : TaskSchedulerOptions) (s t : TaskScheduler) → new o ≡ some s → Reach s t → IsSettled t
new-Reach-IsSettled o s t h r = Reach-IsSettled r (new-IsSettled o s h)

finish_if_idle-IsSaturated : (s : TaskScheduler) → IsSaturated s → IsSaturated (finish_if_idle s)
unfolding finish_if_idle
finish_if_idle-IsSaturated s h = elim (Bool-cases (is_idle s)) [
  | inl idle ↦ rw idle h
  | inr busy ↦ rw busy h
]

dispatch_filled :
    (s : TaskScheduler) (clock : ℕ → ℕ)
    → s.draining ≡ false
    → dispatch s clock ≡ (
      finish_if_idle (fill_slots (record s { draining = true }) clock).0,
      (fill_slots (record s { draining = true }) clock).1,
    )
unfolding dispatch
dispatch_filled s clock d = simp d

-- After a dispatch with no drain pending, and after every end of a task, no slot is free while a
-- task waits.
pub saturates :
    (s : TaskScheduler) (id : String) (clock : ℕ → ℕ)
    → IsSound s
    → (s.draining ≡ false → IsSaturated (dispatch s clock).0) × IsSaturated (finish s id clock).0
unfolding finish
saturates s id clock v = (
  λ d. rw (dispatch_filled s clock d) (
      finish_if_idle-IsSaturated _
        (fill_slots-Fills (record s { draining = true }) clock
          (IsSound-draining s true v)).saturated),
  finish_if_idle-IsSaturated _
      (fill_slots-Fills (record s { running = remove s.running id }) clock
        (remove-IsSound s id v)).saturated,
)

dispatch_pending :
    (s : TaskScheduler) (clock : ℕ → ℕ) → s.draining ≡ true → dispatch s clock ≡ (s, [])
unfolding dispatch
dispatch_pending s clock d = simp d

enqueue_new :
    (s : TaskScheduler) (id : String) (p : Priority) (at : ℕ)
    → contains s.running id ≡ false
    → contains (ids s.queue) id ≡ false
    → ((enqueue s id p at).draining ≡ s.draining)
      × ((enqueue s id p at).running ≡ s.running)
      × (contains (ids (enqueue s id p at).queue) id ≡ true)
unfolding enqueue contains
enqueue_new s id p at idle absent =
    let e : QueueEntry = record {
      task_id = id;
      priority = p;
      sequence = s.sequence;
      enqueued_at = at;
    } in
    ground
      (arith, any-ids id s.queue, ids-append s.queue e, contains-append (ids s.queue) (id ∷ []) id)

-- A task that is submitted while a drain is pending is not started, even where a slot is free: the
-- new task stays queued.
pub dispatch_stalls :
    (s : TaskScheduler) (id : String) (p : Priority) (at : ℕ) (clock : ℕ → ℕ)
    → IsSettled s
    → 0 < length s.running
    → length s.running < s.options.max_concurrent
    → contains s.running id ≡ false
    → contains (ids s.queue) id ≡ false
    → ((dispatch (enqueue s id p at) clock).1 ≡ [])
      × (contains (ids (dispatch (enqueue s id p at) clock).0.queue) id ≡ true)
      × (length (dispatch (enqueue s id p at) clock).0.running < s.options.max_concurrent)
dispatch_stalls s id p at clock v busy room idle absent =
    let pending : s.draining ≡ true = ground (arith, v.drain) in
    let (d, r, q) = enqueue_new s id p at idle absent in
    rw (dispatch_pending (enqueue s id p at) clock (d ∙ pending)) (refl, q, rw r room)

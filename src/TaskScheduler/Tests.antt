-- ===== src/TaskScheduler/Tests.antt =====
-- Runs of services/runtime/src/task-scheduler.ts, and its theorems at concrete queues.
use nova_test.Common.{
  ◌+◌, ◌*◌, ◌<◌, ◌≡◌, refl, true, false, [], ◌∷◌, some, arith, text_dec, length, contains, add,
  remove, All, get_elem?, erase_idx, find_index,
}
use nova_test.TaskScheduler.{
  TaskScheduler, TaskSchedulerOptions, QueueEntry, interactive, default, background, new, enqueue,
  score, beats, next_from, next_index, fill_slots, finish_if_idle, dispatch, cancel, finish,
}
use nova_test.TaskScheduler.Invariant.{IsSound, IsSettled, ids}
use nova_test.TaskScheduler.Selection.{Dominates, next_index-Dominates, next_index_fair}
use nova_test.TaskScheduler.Reachable.{
  here, next, enqueues, dispatches, new-Reach-IsSettled, dispatch_stalls,
}

program : Unit {0}
unfolding text_dec contains add remove get_elem? erase_idx find_index new enqueue score beats
    next_from next_index fill_slots finish_if_idle dispatch cancel finish
program = tt

abbrev options : TaskSchedulerOptions
options = record { max_concurrent = 2; starvation_threshold_ms = 60000 }

abbrev initial : TaskScheduler
initial = record { options = options; queue = []; running = []; sequence = 0; draining = false }

abbrev old_entry : QueueEntry
old_entry = record { task_id = "old"; priority = background; sequence = 0; enqueued_at = 0 }

abbrev new_entry : QueueEntry
new_entry = record { task_id = "new"; priority = interactive; sequence = 1; enqueued_at = 120000 }

abbrev waiting : TaskScheduler
waiting = record initial { queue = old_entry ∷ new_entry ∷ []; sequence = 2 }

enqueued : enqueue (enqueue initial "old" background 0) "new" interactive 120000 ≡ waiting
unfolding program
enqueued = refl

-- Work that is old enough goes before newer interactive work.
aged_first : (dispatch waiting (λ _. 120000)).1 ≡ "old" ∷ "new" ∷ []
unfolding program
aged_first = refl

interactive_first : (dispatch waiting (λ _. 1)).1 ≡ "new" ∷ "old" ∷ []
unfolding program
interactive_first = refl

waiting-IsSound : IsSound waiting
unfolding program
waiting-IsSound = record {
  slots = omega arith;
  bounded = omega arith;
  running_distinct = tt;
  queue_distinct = (refl, (refl, tt));
  apart = (refl, (refl, tt));
  rising = ((omega arith, tt), (tt, tt));
  fresh = (omega arith, (omega arith, tt));
}

abbrev busy : TaskScheduler
busy = record initial { running = "one" ∷ []; draining = true }

busy-IsSettled : IsSettled busy
unfolding program
busy-IsSettled = record {
  sound = record {
    slots = omega arith;
    bounded = omega arith;
    running_distinct = (refl, tt);
    queue_distinct = tt;
    apart = tt;
    rising = tt;
    fresh = tt;
  };
  drain = refl;
}

next_index-Dominates_example :
    (b : QueueEntry) × (get_elem? waiting.queue (next_index waiting 120000) ≡ some b)
    × All (Dominates waiting 120000 b) waiting.queue
next_index-Dominates_example = next_index-Dominates waiting 120000 (λ e. cc)

next_index_fair_example : 0 < 120000 + 3 * 60000
unfolding program
next_index_fair_example =
    next_index_fair waiting 120000 old_entry new_entry 1 (omega arith) refl refl (omega arith)

new-Reach-IsSettled_example : IsSettled (dispatch (enqueue initial "a" default 5) (λ _. 6)).0
unfolding program
new-Reach-IsSettled_example =
    new-Reach-IsSettled options initial _ refl
      (next (next here (enqueues "a" default 5)) (dispatches (λ _. 6)))

dispatch_stalls_example :
    ((dispatch (enqueue busy "two" interactive 7) (λ _. 8)).1 ≡ [])
    × (contains (ids (dispatch (enqueue busy "two" interactive 7) (λ _. 8)).0.queue) "two" ≡ true)
    × (length (dispatch (enqueue busy "two" interactive 7) (λ _. 8)).0.running < 2)
unfolding program
dispatch_stalls_example =
    dispatch_stalls busy "two" interactive 7 (λ _. 8) busy-IsSettled (omega arith) (omega arith)
      refl refl

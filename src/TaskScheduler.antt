-- ===== src/TaskScheduler.antt =====
-- services/runtime/src/task-scheduler.ts: the queue of tasks and the slots that run them. Times are
-- whole milliseconds; `Date.now` is an argument, and one that gives a reading for each pass where
-- a loop reads it. Execution is asynchronous: what an operation gives beside the new state is the
-- list of tasks that it hands to `dispatcher.execute`, and `finish` is what runs when one ends.
pub mod Selection
pub mod Invariant
pub mod Filling
pub mod Reachable
mod Tests
use mathlib.Core.Logic.{ite}
use nova_test.Common.{
  ℕ, zero, suc, ◌+◌, ◌-◌, ◌/◌, Bool, true, false, ◌&&◌, ◌||◌, List, [], ◌∷◌, ◌++◌, String, Option,
  none, some, length, any, contains, add, remove, get_elem?, erase_idx, find_index, ltb, leb, ◌==◌,
  text_dec, if◌then◌else◌,
}

pub data Priority : Type 0 where
  interactive default background : Priority

pub record TaskSchedulerOptions : Type 0 where
  pub max_concurrent : ℕ
  pub starvation_threshold_ms : ℕ

pub record TaskSchedulerStatus : Type 0 where
  pub queued_count : ℕ
  pub active_count : ℕ
  pub max_concurrent : ℕ

pub record QueueEntry : Type 0 where
  pub task_id : String
  pub priority : Priority
  pub sequence : ℕ
  pub enqueued_at : ℕ

unfoldable pub priority_rank : Priority → ℕ
priority_rank background = 0
priority_rank default = 1
priority_rank interactive = 2

-- `draining`: a drain promise is pending.
pub record TaskScheduler : Type 0 where
  pub options : TaskSchedulerOptions
  pub queue : List QueueEntry
  pub running : List String
  pub sequence : ℕ
  pub draining : Bool

-- `constructor`; `none` is an error that it throws.
unfoldable pub new : TaskSchedulerOptions → Option TaskScheduler
new options =
    if ltb options.max_concurrent 1 || leb options.starvation_threshold_ms 0
    then none
    else some
        (record { options = options; queue = []; running = []; sequence = 0; draining = false })

abbrev pub is_entry_of : String → QueueEntry → Bool
is_entry_of id e = ite (text_dec e.task_id id) true false

unfoldable pub enqueue : TaskScheduler → String → Priority → ℕ → TaskScheduler
enqueue s id priority enqueued_at =
    if contains s.running id || any (is_entry_of id) s.queue then s else record s {
      queue =
          s.queue
          ++ record {
            task_id = id;
            priority = priority;
            sequence = s.sequence;
            enqueued_at = enqueued_at;
          }
            ∷ [];
      sequence = s.sequence + 1;
    }

-- `-` stops at 0, as `Math.max(0, now - entry.enqueuedAt)` does.
unfoldable pub score : TaskScheduler → ℕ → QueueEntry → ℕ
unfolding priority_rank
score s now e = priority_rank e.priority + (now - e.enqueued_at) / s.options.starvation_threshold_ms

-- The test of the loop; no best score is minus infinity.
unfoldable pub beats : ℕ → QueueEntry → Option ℕ → Option QueueEntry → Bool
beats sc e none best = true
beats sc e (some best_score) none = ltb best_score sc
beats sc e (some best_score) (some best) =
    ltb best_score sc || (sc == best_score && ltb e.sequence best.sequence)

-- The loop of `nextIndex`, over the entries from `index` on.
unfoldable pub next_from : TaskScheduler → ℕ → List QueueEntry → ℕ → ℕ → Option ℕ → ℕ
unfolding beats
next_from s now [] index best_index best_score = best_index
next_from s now (e ∷ rest) index best_index best_score =
    let wins = beats (score s now e) e best_score (get_elem? s.queue best_index) in
    next_from s now rest (suc index) (if wins then index else best_index)
      (if wins then some (score s now e) else best_score)

unfoldable pub next_index : TaskScheduler → ℕ → ℕ
unfolding next_from
next_index s now = next_from s now s.queue 0 0 none

-- The body of the loop of `fillSlots`.
unfoldable pub start : TaskScheduler → ℕ → QueueEntry → TaskScheduler
start s index e = record s { queue = erase_idx s.queue index; running = add s.running e.task_id }

-- `while` with fuel; `clock i` is the reading of the pass `i`. The tasks that are started stand in
-- order.
unfoldable pub fill : ℕ → (ℕ → ℕ) → TaskScheduler → TaskScheduler × List String
unfolding start
fill zero clock s = (s, [])
fill (suc fuel) clock s =
    let rest = λ (index : ℕ) (e : QueueEntry). fill fuel (λ i. clock (suc i)) (start s index e) in
    let index = next_index s (clock 0) in
    if ltb (length s.running) s.options.max_concurrent && ltb 0 (length s.queue)
    then elim (get_elem? s.queue index) [
      | none ↦ (s, [])
      | some e ↦ ((rest index e).0, e.task_id ∷ (rest index e).1)
    ]
    else (s, [])

unfoldable pub fill_slots : TaskScheduler → (ℕ → ℕ) → TaskScheduler × List String
unfolding fill
fill_slots s clock = fill (length s.queue) clock s

abbrev pub is_idle : TaskScheduler → Bool
is_idle s = length s.queue == 0 && length s.running == 0

-- `if (queue.length === 0 && running.size === 0) finishDrain()`
unfoldable pub finish_if_idle : TaskScheduler → TaskScheduler
finish_if_idle s = if is_idle s then record s { draining = false } else s

unfoldable pub dispatch : TaskScheduler → (ℕ → ℕ) → TaskScheduler × List String
unfolding fill_slots finish_if_idle
dispatch s clock =
    if s.draining
    then (s, [])
    else let (s', started) = fill_slots (record s { draining = true }) clock in
      (finish_if_idle s', started)

unfoldable pub cancel : TaskScheduler → String → TaskScheduler × Bool
unfolding finish_if_idle
cancel s id = elim (find_index (is_entry_of id) s.queue) [
  | none ↦ (s, false)
  | some index ↦ (finish_if_idle (record s { queue = erase_idx s.queue index }), true)
]

-- `finally` of `run`
unfoldable pub finish : TaskScheduler → String → (ℕ → ℕ) → TaskScheduler × List String
unfolding fill_slots finish_if_idle
finish s id clock =
    let (s', started) = fill_slots (record s { running = remove s.running id }) clock in
    (finish_if_idle s', started)

pub queued_count : TaskScheduler → ℕ
queued_count s = length s.queue

pub active_count : TaskScheduler → ℕ
active_count s = length s.running

pub status : TaskScheduler → TaskSchedulerStatus
status s = record {
  queued_count = length s.queue;
  active_count = length s.running;
  max_concurrent = s.options.max_concurrent;
}

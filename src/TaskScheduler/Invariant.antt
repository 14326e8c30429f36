-- ===== src/TaskScheduler/Invariant.antt =====
-- What holds of services/runtime/src/task-scheduler.ts between two operations.
use mathlib.Core.Logic.{if_neg}
use nova_test.Common.{
  ℕ, zero, suc, ◌+◌, ◌≤◌, ◌<◌, ◌≡◌, refl, ap, inl, inr, true, false, not, List, [], ◌∷◌, ◌++◌,
  String, some, length, All, get_elem?, arith, Bool-cases, All-append, All-mono, contains, add,
  remove, Distinct, erase_idx, any, ◌||◌, ◌==◌, map, text_dec, contains-add, contains-remove,
  append-Distinct, remove-Distinct, length-append, All-erase_idx, get_elem?-All, length-remove-le,
}
use nova_test.TaskScheduler.{
  TaskScheduler, TaskSchedulerOptions, QueueEntry, Priority, new, enqueue, is_entry_of, start,
}

abbrev pub ids : List QueueEntry → List String
ids = map (λ e. e.task_id)

-- Sequence numbers rise along the queue.
abbrev pub Rising : List QueueEntry → Type 0
Rising [] = Unit {0}
Rising (e ∷ es) = All (λ f. e.sequence < f.sequence) es × Rising es

-- The slots are not exceeded; no task is queued or running twice, or both; the queue is in the order
-- of arrival.
pub record IsSound (s : TaskScheduler) : Type 0 where
  pub slots : 0 < s.options.max_concurrent
  pub bounded : length s.running ≤ s.options.max_concurrent
  pub running_distinct : Distinct s.running
  pub queue_distinct : Distinct (ids s.queue)
  pub apart : All (λ e. contains s.running e.task_id ≡ false) s.queue
  pub rising : Rising s.queue
  pub fresh : All (λ e. e.sequence < s.sequence) s.queue

-- A drain is pending exactly while a task runs.
pub record IsSettled (s : TaskScheduler) : Type 0 where
  pub sound : IsSound s
  pub drain : s.draining ≡ not (length s.running == 0)

pub new-IsSettled : (o : TaskSchedulerOptions) (s : TaskScheduler) → new o ≡ some s → IsSettled s
unfolding new
new-IsSettled o s h = ground arith

Rising-append :
    (es : List QueueEntry) (e : QueueEntry)
    → Rising es
    → All (λ f. f.sequence < e.sequence) es
    → Rising (es ++ e ∷ [])
Rising-append [] e r h = (tt, tt)
Rising-append (f ∷ es) e r h = (
  All-append (λ g. f.sequence < g.sequence) es (e ∷ []) r.0 (h.0, tt),
  Rising-append es e r.1 h.1,
)

Rising-erase_idx : (es : List QueueEntry) (i : ℕ) → Rising es → Rising (erase_idx es i)
unfolding erase_idx
Rising-erase_idx [] i r = r
Rising-erase_idx (e ∷ es) zero r = r.1
Rising-erase_idx (e ∷ es) (suc i) r =
    (All-erase_idx (λ f. e.sequence < f.sequence) es i r.0, Rising-erase_idx es i r.1)

pub ids-append :
    (es : List QueueEntry) (e : QueueEntry) → ids (es ++ e ∷ []) ≡ ids es ++ e.task_id ∷ []
ids-append [] e = refl
ids-append (f ∷ es) e = ap (◌∷◌ f.task_id) (ids-append es e)

pub any-ids : (id : String) (es : List QueueEntry) → any (is_entry_of id) es ≡ contains (ids es) id
unfolding contains
any-ids id [] = refl
any-ids id (e ∷ es) = ground (arith, any-ids id es)

pub contains-ids-erase_idx :
    (es : List QueueEntry) (i : ℕ) (x : String)
    → contains (ids es) x ≡ false
    → contains (ids (erase_idx es i)) x ≡ false
unfolding erase_idx contains
contains-ids-erase_idx [] i x h = h
contains-ids-erase_idx (e ∷ es) zero x h = ground arith
contains-ids-erase_idx (e ∷ es) (suc i) x h = ground (arith, contains-ids-erase_idx es i x)

erase_idx-Distinct :
    (es : List QueueEntry) (i : ℕ) → Distinct (ids es) → Distinct (ids (erase_idx es i))
unfolding erase_idx
erase_idx-Distinct [] i d = d
erase_idx-Distinct (e ∷ es) zero d = d.1
erase_idx-Distinct (e ∷ es) (suc i) d =
    (contains-ids-erase_idx es i e.task_id d.0, erase_idx-Distinct es i d.1)

pub get_elem?-contains :
    (es : List QueueEntry) (i : ℕ) (e : QueueEntry)
    → get_elem? es i ≡ some e
    → contains (ids es) e.task_id ≡ true
unfolding get_elem? contains
get_elem?-contains [] i e h = cc
get_elem?-contains (f ∷ es) zero e h = ground arith
get_elem?-contains (f ∷ es) (suc i) e h = ground (arith, get_elem?-contains es i e h)

-- What is taken out of a queue without repetitions is not in the rest.
erased_absent :
    (es : List QueueEntry) (i : ℕ) (e : QueueEntry)
    → Distinct (ids es)
    → get_elem? es i ≡ some e
    → contains (ids (erase_idx es i)) e.task_id ≡ false
unfolding erase_idx get_elem? contains
erased_absent [] i e d h = refl
erased_absent (f ∷ es) zero e d h = ground arith
erased_absent (f ∷ es) (suc i) e d h = elim (text_dec f.task_id e.task_id) [
  | yes p ↦ absurd (ground (arith, get_elem?-contains es i e h, ap (contains (ids es)) p))
  | no n ↦ rw (if_neg _ n) (erased_absent es i e d.1 h)
]

apart-add :
    (running : List String) (x : String) (es : List QueueEntry)
    → contains (ids es) x ≡ false
    → All (λ e. contains running e.task_id ≡ false) es
    → All (λ e. contains (add running x) e.task_id ≡ false) es
unfolding contains
apart-add running x [] h a = tt
apart-add running x (e ∷ es) h a =
    (ground (arith, contains-add running x e.task_id), apart-add running x es (ground arith) a.1)

apart-remove :
    (running : List String) (x : String) (es : List QueueEntry)
    → All (λ e. contains running e.task_id ≡ false) es
    → All (λ e. contains (remove running x) e.task_id ≡ false) es
apart-remove running x [] a = tt
apart-remove running x (e ∷ es) a =
    (ground (arith, contains-remove running x e.task_id), apart-remove running x es a.1)

-- A task that is not running takes one more slot.
pub add-new : (ys : List String) (x : String) → contains ys x ≡ false → add ys x ≡ ys ++ x ∷ []
unfolding add
add-new ys x h = ground arith

pub enqueue-IsSound :
    (s : TaskScheduler) (id : String) (p : Priority) (at : ℕ)
    → IsSound s
    → IsSound (enqueue s id p at)
unfolding enqueue
enqueue-IsSound s id p at v =
    elim (Bool-cases (contains s.running id || any (is_entry_of id) s.queue)) [
      | inl old ↦ rw old v
      | inr new ↦
          let e : QueueEntry = record {
            task_id = id;
            priority = p;
            sequence = s.sequence;
            enqueued_at = at;
          } in
          let idle : contains s.running id ≡ false = ground arith in
          let absent : contains (ids s.queue) id ≡ false = ground (arith, any-ids id s.queue) in
          rw new (record {
            slots = v.slots;
            bounded = v.bounded;
            running_distinct = v.running_distinct;
            queue_distinct =
                rw (ids-append s.queue e)
                  (append-Distinct (ids s.queue) id absent v.queue_distinct);
            apart =
                All-append (λ f. contains s.running f.task_id ≡ false) s.queue (e ∷ []) v.apart
                  (idle, tt);
            rising = Rising-append s.queue e v.rising v.fresh;
            fresh =
                All-append (λ f. f.sequence < s.sequence + 1) s.queue (e ∷ [])
                  (All-mono (λ f. f.sequence < s.sequence) (λ f. f.sequence < s.sequence + 1)
                    (λ f h. omega arith) s.queue v.fresh)
                  (omega arith, tt);
          })
    ]

pub start-IsSound :
    (s : TaskScheduler) (i : ℕ) (e : QueueEntry)
    → IsSound s
    → get_elem? s.queue i ≡ some e
    → length s.running < s.options.max_concurrent
    → IsSound (start s i e)
unfolding start
start-IsSound s i e v found room =
    let idle : contains s.running e.task_id ≡ false =
      get_elem?-All (λ f. contains s.running f.task_id ≡ false) s.queue i e v.apart found in
    let grown = add-new s.running e.task_id idle in
    record {
      slots = v.slots;
      bounded = rw grown (omega (arith, length-append s.running (e.task_id ∷ [])));
      running_distinct = rw grown (append-Distinct s.running e.task_id idle v.running_distinct);
      queue_distinct = erase_idx-Distinct s.queue i v.queue_distinct;
      apart =
          apart-add s.running e.task_id (erase_idx s.queue i)
            (erased_absent s.queue i e v.queue_distinct found)
            (All-erase_idx (λ f. contains s.running f.task_id ≡ false) s.queue i v.apart);
      rising = Rising-erase_idx s.queue i v.rising;
      fresh = All-erase_idx (λ f. f.sequence < s.sequence) s.queue i v.fresh;
    }

pub erase-IsSound :
    (s : TaskScheduler) (i : ℕ) → IsSound s → IsSound (record s { queue = erase_idx s.queue i })
erase-IsSound s i v = record {
  slots = v.slots;
  bounded = v.bounded;
  running_distinct = v.running_distinct;
  queue_distinct = erase_idx-Distinct s.queue i v.queue_distinct;
  apart = All-erase_idx (λ f. contains s.running f.task_id ≡ false) s.queue i v.apart;
  rising = Rising-erase_idx s.queue i v.rising;
  fresh = All-erase_idx (λ f. f.sequence < s.sequence) s.queue i v.fresh;
}

pub remove-IsSound :
    (s : TaskScheduler) (id : String)
    → IsSound s
    → IsSound (record s { running = remove s.running id })
remove-IsSound s id v = record {
  slots = v.slots;
  bounded = omega (arith, v.bounded, length-remove-le s.running id);
  running_distinct = remove-Distinct s.running id v.running_distinct;
  queue_distinct = v.queue_distinct;
  apart = apart-remove s.running id s.queue v.apart;
  rising = v.rising;
  fresh = v.fresh;
}

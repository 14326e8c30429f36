-- ===== src/ResourceManager/Locks.antt =====
-- `acquire` of services/runtime/src/resource-manager.ts: all of a batch or nothing of it.
use nova_test.Common.Map
use nova_test.Common.Map.{Map}
use nova_test.Common.Sort.{contains-sort, text_le}
use nova_test.Common.{
  ℕ, suc, ◌≡◌, refl, ◌≢◌, ◌∙◌, inl, inr, Bool, true, false, List, [], ◌∷◌, String, some, arith, any,
  contains, ◌++◌, contains-add, text_dec, if◌then◌else◌, Option-cases, Bool-cases, add,
}
use mathlib.Core.Path.{fun_ext, subst}
use nova_test.ResourceManager.{
  ResourceManager, HeldLock, LockGrant, granted, queued, QueuedRequest, task_of, holder, is_foreign,
  held_elsewhere, lock_all, acquire, acquire_normalized, normalize, dedupe_into, is_request_of,
}

pub lock_all-holder :
    (held : Map HeldLock) (task : String) (rs : List String) (clock : ℕ → ℕ) (r : String)
    → task_of (Map.get (lock_all held task rs clock) r)
      ≡ (if contains rs r then some task else task_of (Map.get held r))
unfolding lock_all contains
lock_all-holder held task [] clock r = refl
lock_all-holder held task (x ∷ rs) clock r =
    let l : HeldLock = record { task_id = task; acquired_at = clock 0 } in
    ground (
      arith,
      lock_all-holder (Map.set held x l) task rs (λ i. clock (suc i)) r,
      Map.get-set held x l r,
    )

contains-dedupe_into :
    (seen rs : List String) (x : String)
    → contains (dedupe_into seen rs) x ≡ (if contains seen x then true else contains rs x)
unfolding dedupe_into contains
contains-dedupe_into seen [] x = ground arith
contains-dedupe_into seen (r ∷ rs) x =
    ground (arith, contains-dedupe_into (add seen r) rs x, contains-add seen r x)

pub contains-normalize : (rs : List String) (x : String) → contains (normalize rs) x ≡ contains rs x
unfolding normalize contains
contains-normalize rs x = contains-sort text_le (dedupe_into [] rs) x ∙ contains-dedupe_into [] rs x

held_elsewhere_at :
    (held : Map HeldLock) (task : String) (rs : List String) (r : String)
    → held_elsewhere held task rs ≡ false
    → contains rs r ≡ true
    → is_foreign task (Map.get held r) ≡ false
unfolding held_elsewhere contains
held_elsewhere_at held task [] r h c = cc
held_elsewhere_at held task (x ∷ rs) r h c = ground (arith, held_elsewhere_at held task rs r)

-- A wanted resource that another task holds.
abbrev pub Conflict : ResourceManager → String → (String → Bool) → Type 0
Conflict m task wanted =
    (r : String) × (u : String) × (wanted r ≡ true) × (holder m r ≡ some u) × (u ≢ task)

foreign_lock :
    (m : ResourceManager) (task : String) (rs : List String)
    → held_elsewhere m.held task rs ≡ true
    → Conflict m task (contains rs)
unfolding held_elsewhere contains holder
foreign_lock m task [] h = cc
foreign_lock m task (x ∷ rs) h = elim (Option-cases (Map.get m.held x)) [
  | inl e ↦
      let (r, u, c, f, n) = foreign_lock m task rs (ground arith) in (r, u, ground arith, f, n)
  | inr (l, e) ↦ elim (text_dec l.task_id task) [
    | no n ↦ (x, l.task_id, ground arith, ground arith, n)
    | yes p ↦
        let (r, u, c, f, n) = foreign_lock m task rs (ground arith) in (r, u, ground arith, f, n)
  ]
]

own_lock :
    (m : ResourceManager) (task : String) (rs : List String) (r u : String)
    → held_elsewhere m.held task rs ≡ false
    → contains rs r ≡ true
    → holder m r ≡ some u
    → u ≡ task
unfolding holder
own_lock m task rs r u free c f = ground (arith, held_elsewhere_at m.held task rs r free c)

-- The answer to a request for the wanted resources, and what it does to the locks: granted, it
-- takes all of them, none from another task, and no other; queued, some is held by another task,
-- no lock changes and the task has a request in the queue.
pub record Answers (m : ResourceManager) (task : String) (wanted : String → Bool)
    (a : ResourceManager × LockGrant) : Type 0 where
  pub grants :
      a.1.status ≡ granted
      → (r : String) → holder a.0 r ≡ (if wanted r then some task else holder m r)
  pub safe :
      a.1.status ≡ granted → (r u : String) → wanted r ≡ true → holder m r ≡ some u → u ≡ task
  pub waits :
      a.1.status ≡ queued
      → Conflict m task wanted
        × ((r : String) → holder a.0 r ≡ holder m r)
        × (any (is_request_of task) a.0.queued ≡ true)

any-append :
    (task : String) (qs : List QueuedRequest) (q : QueuedRequest)
    → is_request_of task q ≡ true
    → any (is_request_of task) (qs ++ q ∷ []) ≡ true
any-append task [] q h = ground arith
any-append task (p ∷ qs) q h = ground (arith, any-append task qs q h)

acquire_normalized-Answers :
    (m : ResourceManager) (task : String) (rs : List String) (clock : ℕ → ℕ)
    → Answers m task (contains rs) (acquire_normalized m task rs clock)
unfolding acquire_normalized contains
acquire_normalized-Answers m task [] clock = record {
  grants = λ _ r. refl;
  safe = λ _ r u c _. cc;
  waits = λ e. cc;
}
acquire_normalized-Answers m task (r ∷ rs) clock =
    elim (Bool-cases (held_elsewhere m.held task (r ∷ rs))) [
      | inr free ↦ rw free (record {
        grants = λ _ x. unfold holder in lock_all-holder m.held task (r ∷ rs) clock x;
        safe = λ _ x u c f. own_lock m task (r ∷ rs) x u free c f;
        waits = λ e. cc;
      })
      | inl busy ↦ elim (Bool-cases (any (is_request_of task) m.queued)) [
        | inl old ↦
            rw (busy, old)
              (record {
                grants = λ e. cc;
                safe = λ e. cc;
                waits = λ _. (foreign_lock m task (r ∷ rs) busy, λ x. refl, old);
              })
        | inr new ↦
            rw (busy, new)
              (record {
                grants = λ e. cc;
                safe = λ e. cc;
                waits = λ _. (
                  foreign_lock m task (r ∷ rs) busy,
                  λ x. unfold holder in refl,
                  any-append task m.queued (record { task_id = task; resources = r ∷ rs })
                      (ground arith),
                );
              })
      ]
    ]

-- `acquire` takes all resources of a request or none: granted, the task holds each of them, none was
-- taken from another task and no other lock changed; queued, another task holds one of them, no
-- lock changed and the task has a request in the queue.
pub acquire-Answers :
    (m : ResourceManager) (task : String) (resources : List String) (clock : ℕ → ℕ)
    → Answers m task (contains resources) (acquire m task resources clock)
unfolding acquire
acquire-Answers m task resources clock =
    subst (λ w. Answers m task w (acquire_normalized m task (normalize resources) clock))
      (fun_ext (contains-normalize resources))
      (acquire_normalized-Answers m task (normalize resources) clock)

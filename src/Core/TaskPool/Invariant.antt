-- ===== src/Core/TaskPool/Invariant.antt =====
-- What holds of the pool between two steps.
use personas_agentes.Common.{
  ℕ, zero, suc, ◌+◌, ◌≤◌, ◌<◌, ◌≡◌, refl, subst, ◌⊎◌, inl, inr, Bool, true, false, not, ◌||◌, List,
  [], ◌∷◌, ◌++◌, some, leb, str_eq, get_elem?, length, length-append, arith, Option-cases, eq_iff,
  Bool-cases,
}
use personas_agentes.Core.TaskPool.{
  Task, Pool, new_pool, is_critical, take_task, process_next, is_queued, place, enqueue, start,
  stop, remove_at, come_back, finish, Step, enqueues, starts, stops, finishes, step, run,
}

-- No id is queued twice, and the critical tasks come first.
abbrev pub DistinctIds : List Task → Type 0
DistinctIds [] = Unit
DistinctIds (t ∷ ts) = (is_queued t ts ≡ false) × DistinctIds ts

abbrev pub NoneCritical : List Task → Type 0
NoneCritical [] = Unit
NoneCritical (t ∷ ts) = (is_critical t.priority ≡ false) × NoneCritical ts

abbrev pub CriticalFirst : List Task → Type 0
CriticalFirst [] = Unit
CriticalFirst (t ∷ ts) = ((is_critical t.priority ≡ true) ⊎ NoneCritical ts) × CriticalFirst ts

pub record Inv (p : Pool) : Type 0 where
  pub counted : p.active_workers ≡ length p.in_flight
  pub bounded : p.active_workers ≤ p.max_concurrency
  pub distinct : DistinctIds p.queue
  pub critical_first : CriticalFirst p.queue
  pub busy : 0 < p.max_concurrency → p.is_running ≡ true → (p.queue ≡ []) ⊎ (0 < p.active_workers)

is_queued-place_last :
    (t u : Task) (ts : List Task)
    → is_queued u (ts ++ t ∷ []) ≡ (is_queued u ts || str_eq t.id u.id)
is_queued-place_last t u [] = ground arith
is_queued-place_last t u (x ∷ ts) = ground (arith, is_queued-place_last t u ts)

DistinctIds-place_last :
    (t : Task) (ts : List Task)
    → is_queued t ts ≡ false
    → DistinctIds ts
    → DistinctIds (ts ++ t ∷ [])
DistinctIds-place_last t [] h d = (refl, tt)
DistinctIds-place_last t (x ∷ ts) h d = ground (
  arith,
  is_queued-place_last t x ts,
  DistinctIds-place_last t ts,
  eq_iff x.id t.id,
  eq_iff t.id x.id,
)

NoneCritical-place_last :
    (t : Task) (ts : List Task)
    → is_critical t.priority ≡ false
    → NoneCritical ts
    → NoneCritical (ts ++ t ∷ [])
NoneCritical-place_last t [] h d = (h, tt)
NoneCritical-place_last t (x ∷ ts) h d = (d.0, NoneCritical-place_last t ts h d.1)

CriticalFirst-place_last :
    (t : Task) (ts : List Task)
    → is_critical t.priority ≡ false
    → CriticalFirst ts
    → CriticalFirst (ts ++ t ∷ [])
CriticalFirst-place_last t [] h d = (inr tt, tt)
CriticalFirst-place_last t (x ∷ ts) h d = (
  elim d.0 [ inl c ↦ inl c | inr n ↦ inr (NoneCritical-place_last t ts h n) ],
  CriticalFirst-place_last t ts h d.1,
)

-- What `processNext` is called on: all of the invariant but the last part.
record Ready (p : Pool) : Type 0 where
  counted : p.active_workers ≡ length p.in_flight
  bounded : p.active_workers ≤ p.max_concurrency
  distinct : DistinctIds p.queue
  critical_first : CriticalFirst p.queue

take_task-Inv :
    (p : Pool) (ts : List Task)
    → Ready p
    → p.queue ≡ ts
    → p.is_running ≡ true
    → p.active_workers < p.max_concurrency
    → Inv (take_task ts p)
unfolding take_task
take_task-Inv p [] r e on room = record {
  counted = r.counted;
  bounded = r.bounded;
  distinct = r.distinct;
  critical_first = r.critical_first;
  busy = λ h g. inl e;
}
take_task-Inv p (t ∷ ts) r e on room = record {
  counted = omega (arith, r.counted, length-append p.in_flight (t ∷ []));
  bounded = room;
  distinct = (subst DistinctIds e r.distinct).1;
  critical_first = (subst CriticalFirst e r.critical_first).1;
  busy = λ h g. inr (omega arith);
}

process_next-Inv : (p : Pool) → Ready p → Inv (process_next p)
unfolding process_next
process_next-Inv p r =
    elim (Bool-cases (not p.is_running || leb p.max_concurrency p.active_workers)) [
      | inl full ↦
          rw (full, process_next)
            (record {
              counted = r.counted;
              bounded = r.bounded;
              distinct = r.distinct;
              critical_first = r.critical_first;
              busy = λ h g. inr (ground arith);
            })
      | inr room ↦
          rw (room, process_next) (take_task-Inv p p.queue r refl (ground arith) (ground arith))
    ]

enqueue-Inv : (t : Task) (p : Pool) → Inv p → Inv (enqueue t p)
unfolding enqueue
enqueue-Inv t p i = elim (Bool-cases (is_queued t p.queue)) [
  | inl there ↦ rw (there, enqueue) i
  | inr new ↦
      rw (new, enqueue)
        (process_next-Inv (record p { queue = place t p.queue })
          (record {
            counted = i.counted;
            bounded = i.bounded;
            distinct = ground (arith, i.distinct, DistinctIds-place_last t p.queue new i.distinct);
            critical_first = ground (
              arith,
              i.critical_first,
              λ (h : is_critical t.priority ≡ false).
                  CriticalFirst-place_last t p.queue h i.critical_first,
            );
          }))
]

length-remove_at :
    (n : ℕ) (ts : List Task) {t : Task}
    → get_elem? ts n ≡ some t
    → length (remove_at n ts) + 1 ≡ length ts
length-remove_at n [] h = cc
length-remove_at zero (t ∷ ts) h = omega arith
length-remove_at (suc n) (t ∷ ts) h = omega (arith, length-remove_at n ts h)

finish-Inv : (n : ℕ) (b : Bool) (p : Pool) → Inv p → Inv (finish n b p)
unfolding finish
finish-Inv n b p i = elim (Option-cases (get_elem? p.in_flight n)) [
  | inl e ↦ rw (e, finish) i
  | inr (t, e) ↦
      rw (e, finish)
        (process_next-Inv (come_back n t b p) (record {
          counted = omega (arith, i.counted, length-remove_at n p.in_flight e);
          bounded = omega (arith, i.bounded);
          distinct = i.distinct;
          critical_first = i.critical_first;
        }))
]

-- Every step keeps the number of workers equal to the number of suspended tasks and within the
-- bound, the ids in the queue distinct, the critical tasks first, and, while the pool runs with a
-- positive bound, a worker active if a task is queued.
pub step-Inv : (p : Pool) (s : Step) → Inv p → Inv (step p s)
unfolding step start stop
step-Inv p (enqueues t) i = enqueue-Inv t p i
step-Inv p starts i =
    process_next-Inv (record p { is_running = true })
      (record {
        counted = i.counted;
        bounded = i.bounded;
        distinct = i.distinct;
        critical_first = i.critical_first;
      })
step-Inv p stops i = record {
  counted = i.counted;
  bounded = i.bounded;
  distinct = i.distinct;
  critical_first = i.critical_first;
  busy = λ h g. cc;
}
step-Inv p (finishes n b) i = finish-Inv n b p i

run-Inv : (p : Pool) (ss : List Step) → Inv p → Inv (run p ss)
unfolding run
run-Inv p [] i = i
run-Inv p (s ∷ ss) i = run-Inv (step p s) ss (step-Inv p s i)

new_pool-Inv : (n : ℕ) → Inv (new_pool n)
unfolding new_pool
new_pool-Inv n = record {
  counted = refl;
  bounded = omega arith;
  distinct = tt;
  critical_first = tt;
  busy = λ h g. inl refl;
}

-- After any steps of a new pool the number of workers is the number of suspended tasks and within
-- the bound, the ids in the queue are distinct, the critical tasks come first, and, while the pool
-- runs with a positive bound, a worker is active if a task is queued.
pub run-new_pool-Inv : (n : ℕ) (ss : List Step) → Inv (run (new_pool n) ss)
run-new_pool-Inv n ss = run-Inv (new_pool n) ss (new_pool-Inv n)

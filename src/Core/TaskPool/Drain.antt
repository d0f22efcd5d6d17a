-- ===== src/Core/TaskPool/Drain.antt =====
-- How the pool works its queue off, and on how many workers.
use personas_agentes.Common.{
  ℕ, suc, ◌+◌, ◌≤◌, ◌<◌, ◌≡◌, refl, sym, ap, append_assoc, ◌++◌, ◌∙◌, ◌⊎◌, inl, inr, Bool, true,
  List, [], ◌∷◌, map, some, get_elem?, length, length-append, arith, Option-cases,
}
use personas_agentes.Core.TaskPool.{
  Task, Pool, Outcome, take_task, process_next, start, remove_at, come_back, finish, starts, Step,
  finishes, step, run,
}
use personas_agentes.Core.TaskPool.Invariant.{Inv, step-Inv}

-- The tasks that are queued or suspended.
abbrev pub load : Pool → ℕ
load p = length p.queue + length p.in_flight

record Alike (p q : Pool) : Type 0 where
  same_load : load p ≡ load q
  same_bound : p.max_concurrency ≡ q.max_concurrency
  same_switch : p.is_running ≡ q.is_running
  same_outcomes : p.outcomes ≡ q.outcomes
  one_more : p.active_workers ≤ suc q.active_workers

take_task-Alike : (p : Pool) (ts : List Task) → p.queue ≡ ts → Alike (take_task ts p) p
unfolding take_task
take_task-Alike p [] e = record {
  same_load = refl;
  same_bound = refl;
  same_switch = refl;
  same_outcomes = refl;
  one_more = omega arith;
}
take_task-Alike p (t ∷ ts) e = record {
  same_load = omega (arith, length-append p.in_flight (t ∷ []), ap length e);
  same_bound = refl;
  same_switch = refl;
  same_outcomes = refl;
  one_more = omega arith;
}

process_next-Alike : (p : Pool) → Alike (process_next p) p
unfolding process_next
process_next-Alike p = ground (arith, take_task-Alike p p.queue refl)

-- The tasks in the order in which they come back when the first suspended one always does.
abbrev pub waiting_tasks : Pool → List Task
waiting_tasks p = p.in_flight ++ p.queue

take_task-waiting :
    (p : Pool) (ts : List Task) → p.queue ≡ ts → waiting_tasks (take_task ts p) ≡ waiting_tasks p
unfolding take_task
take_task-waiting p [] e = refl
take_task-waiting p (t ∷ ts) e =
    append_assoc p.in_flight (t ∷ []) ts ∙ ap (λ q. p.in_flight ++ q) (sym e)

process_next-waiting : (p : Pool) → waiting_tasks (process_next p) ≡ waiting_tasks p
unfolding process_next
process_next-waiting p = ground (arith, take_task-waiting p p.queue refl)

-- The events of the tasks, one result for each, before the events that were there.
abbrev pub emitted : List Task → List Bool → List Outcome → List Outcome
emitted [] bs os = os
emitted (t ∷ ts) [] os = os
emitted (t ∷ ts) (b ∷ bs) os = emitted ts bs (record { task_id = t.id; completed = b } ∷ os)

-- One step of `finish` on the first suspended task.
record Finished (b : Bool) (t : Task) (ts : List Task) (p q : Pool) : Type 0 where
  less : suc (load q) ≡ load p
  bound : q.max_concurrency ≡ p.max_concurrency
  switch : q.is_running ≡ p.is_running
  outcome : q.outcomes ≡ record { task_id = t.id; completed = b } ∷ p.outcomes
  left : waiting_tasks q ≡ ts ++ p.queue

length-pos : (n : ℕ) (ts : List Task) {t : Task} → get_elem? ts n ≡ some t → 0 < length ts
length-pos n [] h = cc
length-pos n (t ∷ ts) h = omega arith

finish-Finished :
    (b : Bool) (p : Pool) (t : Task) (ts : List Task)
    → p.in_flight ≡ t ∷ ts
    → Finished b t ts p (finish 0 b p)
unfolding finish
finish-Finished b p t ts e =
    let a = process_next-Alike (come_back 0 t b p) in
    rw (ap (λ l. get_elem? l 0) e, finish)
      (record {
        less = omega (arith, a.same_load, ap length e, ap (λ l. length (remove_at 0 l)) e);
        bound = a.same_bound;
        switch = a.same_switch;
        outcome = a.same_outcomes;
        left = process_next-waiting (come_back 0 t b p) ∙ ap (λ l. remove_at 0 l ++ p.queue) e;
      })

finish-le : (n : ℕ) (b : Bool) (p : Pool) → Inv p → (finish n b p).active_workers ≤ p.active_workers
unfolding finish
finish-le n b p i = elim (Option-cases (get_elem? p.in_flight n)) [
  | inl e ↦ rw (e, finish) (omega arith)
  | inr (t, e) ↦
      rw (e, finish)
        (omega
          (arith, i.counted, length-pos n p.in_flight e, process_next-Alike (come_back n t b p)))
]

-- The steps on which suspended tasks come back.
abbrev pub finishing : List (ℕ × Bool) → List Step
finishing = map λ f. finishes f.0 f.1

run-finishing-le :
    (p : Pool) (fs : List (ℕ × Bool))
    → Inv p
    → (run p (finishing fs)).active_workers ≤ p.active_workers
unfolding run step
run-finishing-le p [] i = omega arith
run-finishing-le p ((n, b) ∷ fs) i =
    omega
      (arith, finish-le n b p i, run-finishing-le (finish n b p) fs (step-Inv p (finishes n b) i))

-- A pool that is started while no task runs works off its whole queue on a single worker, whatever
-- its bound, until another task is enqueued or it is started again.
pub start_single_worker :
    (p : Pool) (fs : List (ℕ × Bool))
    → Inv p
    → p.active_workers ≡ 0
    → (run (start p) (finishing fs)).active_workers ≤ 1
unfolding start step
start_single_worker p fs i idle = omega (
  arith,
  run-finishing-le (start p) fs (step-Inv p starts i),
  process_next-Alike (record p { is_running = true }),
)

-- The first suspended task comes back, once for each of the results.
abbrev pub come_back_each : List Bool → List Step
come_back_each = map λ b. finishes 0 b

List-cases : (l : List Task) → (l ≡ []) ⊎ ((t : Task) × (ts : List Task) × (l ≡ t ∷ ts))
List-cases [] = inl refl
List-cases (t ∷ ts) = inr (t, ts, refl)

busy_in_flight :
    (p : Pool)
    → Inv p
    → p.is_running ≡ true
    → 0 < p.max_concurrency
    → 0 < load p
    → (t : Task) × (ts : List Task) × (p.in_flight ≡ t ∷ ts)
busy_in_flight p i on room some_load = elim (List-cases p.in_flight) [
  | inr found ↦ found
  | inl e ↦ absurd (elim (i.busy room on) [
    | inl empty ↦ omega (arith, ap length e, ap length empty)
    | inr active ↦ omega (arith, ap length e, i.counted)
  ])
]

emitted-none : (ts : List Task) (os : List Outcome) → emitted ts [] os ≡ os
emitted-none [] os = refl
emitted-none (t ∷ ts) os = refl

-- When in a running pool with a positive bound, whose counters agree with its tasks, the first
-- suspended task comes back again and again, with any results, as many times as there are tasks,
-- nothing is queued or suspended at the end, and each task, first those that were suspended, then
-- those that were queued, in their order, has emitted one event with its id and its own result.
pub run-drains :
    (p : Pool) (bs : List Bool)
    → Inv p
    → p.is_running ≡ true
    → 0 < p.max_concurrency
    → length bs ≡ load p
    → (load (run p (come_back_each bs)) ≡ 0)
      × ((run p (come_back_each bs)).outcomes ≡ emitted (waiting_tasks p) bs p.outcomes)
unfolding run step
run-drains p [] i on room e = (omega (arith, e), sym (emitted-none (waiting_tasks p) p.outcomes))
run-drains p (b ∷ bs) i on room e =
    let (t, ts, k) = busy_in_flight p i on room (omega (arith, e)) in
    let f = finish-Finished b p t ts k in
    let ih =
      run-drains (finish 0 b p) bs (step-Inv p (finishes 0 b) i) (f.switch ∙ on) (rw f.bound room)
        (omega (arith, f.less, e)) in
    (
      ih.0,
      ih.1
          ∙ ap (λ l. emitted l bs (finish 0 b p).outcomes) f.left
          ∙ ap (emitted (ts ++ p.queue) bs) f.outcome
          ∙ ap (λ l. emitted (l ++ p.queue) (b ∷ bs) p.outcomes) (sym k),
    )

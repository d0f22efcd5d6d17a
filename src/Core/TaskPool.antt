-- ===== src/Core/TaskPool.antt =====
-- src_local/core/task_worker_pool.ts: a queue of background tasks with a bound on those that run.
-- `processNext` runs without a break up to its `await`; what is suspended there is in `in_flight`, and
-- `finish i` is the step on which the i-th of these comes back, well or with an error. The work of
-- `executeTask` itself (an audit, a VACUUM, a pause) and the payloads are left out: they do not reach
-- the pool. `outcomes` lists the events that were emitted, the last one first.
pub mod Invariant
pub mod Drain
mod Examples
use personas_agentes.Common.{
  ℕ, zero, suc, ◌+◌, ◌-◌, String, Bool, true, false, not, ◌||◌, List, [], ◌∷◌, ◌++◌, Option, none,
  some, if◌then◌else◌, any, leb, str_eq, get_elem?,
}

pub data Priority : Type 0 where
  low normal high critical : Priority

pub record Task : Type 0 where
  pub id : String
  pub kind : String
  pub priority : Priority

pub record Outcome : Type 0 where
  pub task_id : String
  pub completed : Bool

pub record Pool : Type 0 where
  pub queue : List Task
  pub in_flight : List Task
  pub active_workers : ℕ
  pub max_concurrency : ℕ
  pub is_running : Bool
  pub outcomes : List Outcome

pub new_pool : ℕ → Pool
new_pool n = record {
  queue = [];
  in_flight = [];
  active_workers = 0;
  max_concurrency = n;
  is_running = false;
  outcomes = [];
}

abbrev pub is_critical : Priority → Bool
is_critical critical = true
is_critical _ = false

-- `processNext` up to its `await`.
pub take_task : List Task → Pool → Pool
take_task [] p = p
take_task (t ∷ ts) p = record p {
  queue = ts;
  in_flight = p.in_flight ++ t ∷ [];
  active_workers = suc p.active_workers;
}

pub process_next : Pool → Pool
process_next p =
    if not p.is_running || leb p.max_concurrency p.active_workers then p else take_task p.queue p

abbrev pub is_queued : Task → List Task → Bool
is_queued t = any (λ q. str_eq q.id t.id)

abbrev pub place : Task → List Task → List Task
place t ts = if is_critical t.priority then t ∷ ts else ts ++ t ∷ []

pub enqueue : Task → Pool → Pool
unfolding process_next take_task
enqueue t p = if is_queued t p.queue then p else process_next (record p { queue = place t p.queue })

pub start : Pool → Pool
unfolding process_next take_task
start p = process_next (record p { is_running = true })

pub stop : Pool → Pool
stop p = record p { is_running = false }

abbrev pub remove_at : ℕ → List Task → List Task
remove_at i [] = []
remove_at zero (t ∷ ts) = ts
remove_at (suc i) (t ∷ ts) = t ∷ remove_at i ts

-- The i-th suspended task `t` comes back: its event is emitted and its worker is free.
abbrev pub come_back : ℕ → Task → Bool → Pool → Pool
come_back i t completed p = record p {
  in_flight = remove_at i p.in_flight;
  active_workers = p.active_workers - 1;
  outcomes = record { task_id = t.id; completed = completed } ∷ p.outcomes;
}

-- The rest of `processNext` for the i-th suspended task, the `finally` block with its call included.
pub finish : ℕ → Bool → Pool → Pool
unfolding process_next take_task
finish i completed p = elim (get_elem? p.in_flight i) [
  | none ↦ p
  | some t ↦ process_next (come_back i t completed p)
]

pub data Step : Type 0 where
  enqueues : Task → Step
  starts stops : Step
  finishes : ℕ → Bool → Step

pub step : Pool → Step → Pool
step p (enqueues t) = enqueue t p
step p starts = start p
step p stops = stop p
step p (finishes i completed) = finish i completed p

pub run : Pool → List Step → Pool
run p [] = p
run p (s ∷ ss) = run (step p s) ss

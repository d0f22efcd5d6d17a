-- ===== src/Core/TaskPool/Examples.antt =====
-- A pool with a bound of four, and three tasks that are enqueued before it is started.
use personas_agentes.Common.{◌≡◌, ◌≤◌, refl, true, false, List, [], ◌∷◌, map, arith}
use personas_agentes.Core.TaskPool.{
  Task, Pool, Step, low, critical, enqueues, starts, new_pool, start, step, run, enqueue, finish,
  stop,
}
use personas_agentes.Core.TaskPool.Invariant.{Inv, step-Inv, run-new_pool-Inv}
use personas_agentes.Core.TaskPool.Drain.{
  load, finishing, start_single_worker, come_back_each, run-drains,
}

pool : Pool
unfolding run step start stop enqueue finish new_pool
pool = new_pool 4

abbrev audit : Task
audit = record { id = "a"; kind = "audit_file"; priority = low }

abbrev vacuum : Task
vacuum = record { id = "v"; kind = "vacuum_db"; priority = critical }

abbrev pause : Task
pause = record { id = "p"; kind = "wait"; priority = low }

abbrev three : List Step
three = enqueues audit ∷ enqueues pause ∷ enqueues vacuum ∷ enqueues audit ∷ []

queued_order : map (λ t. t.id) (run (new_pool 4) three).queue ≡ "v" ∷ "a" ∷ "p" ∷ []
unfolding pool
queued_order = refl

run-new_pool-Inv_example : Inv (run (new_pool 4) three)
run-new_pool-Inv_example = run-new_pool-Inv 4 three

step-Inv_pool_example : Inv (step (run (new_pool 4) three) starts)
step-Inv_pool_example = step-Inv (run (new_pool 4) three) starts (run-new_pool-Inv 4 three)

start_single_worker_holds :
    (run (start (run (new_pool 4) three)) (finishing ((0, true) ∷ (0, false) ∷ []))).active_workers
    ≤ 1
unfolding pool
start_single_worker_holds =
    start_single_worker (run (new_pool 4) three) ((0, true) ∷ (0, false) ∷ [])
      (run-new_pool-Inv 4 three) refl

abbrev started : Pool
started = step (run (new_pool 4) three) starts

run-drains_example :
    (load (run started (come_back_each (true ∷ false ∷ true ∷ []))) ≡ 0)
    × ((run started (come_back_each (true ∷ false ∷ true ∷ []))).outcomes
        ≡ record { task_id = "p"; completed = true }
          ∷ record { task_id = "a"; completed = false }
          ∷ record { task_id = "v"; completed = true }
          ∷ [])
unfolding pool
run-drains_example =
    run-drains started (true ∷ false ∷ true ∷ []) step-Inv_pool_example refl (omega arith) refl

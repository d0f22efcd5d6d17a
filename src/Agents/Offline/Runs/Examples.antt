-- ===== src/Agents/Offline/Runs/Examples.antt =====
-- A start that times out and the start after it, a switch of models, an idle engine.
use personas_agentes.Common.{
  ℕ, zero, suc, ◌≡◌, refl, List, [], ◌∷◌, none, some, true, arith, contains, nat_eq,
}
use personas_agentes.Maintenance.Budget.{turbo}
use personas_agentes.Agents.Offline.{
  Env, ok, not_ok, thrown, done, new_engine, ensure_server_running, adjust_linger_window, choose,
  start_server, check_memory_safety, spawn_server, resume, force_purge, on_purge_timer,
  schedule_purge, touch_activity,
}
use personas_agentes.Agents.Offline.Runs.{
  System, Step, call, answer, fire, purge, schedule, step, run,
}
use personas_agentes.Agents.Offline.Runs.Timers.{Inv, run-new_engine-Inv}
use personas_agentes.Agents.Offline.Runs.Leaks.{Restarts, restart-runs}
use personas_agentes.Agents.Offline.Runs.Returning.{drive, Returned, ensure_server_running-Returned}

abbrev machine : Env
machine = record { model_path = λ name. some name; free_memory = 8000000000; spawns = true }

abbrev idle : System
idle = record { engine = new_engine "a.gguf" true turbo; calls = [] }

abbrev times : {A : Type 0} → ℕ → A → List A
times zero a = []
times (suc n) a = a ∷ times n a

-- A start whose 40 health checks all fail.
abbrev timed_out : List Step
timed_out = call none machine ∷ times 40 (answer 0 thrown machine)

run-new_engine-Inv_example : Inv (run timed_out idle).engine
run-new_engine-Inv_example = run-new_engine-Inv "a.gguf" true turbo timed_out

timed_out-Restarts : Restarts none machine 0 "a.gguf" (run timed_out idle).engine
unfolding run step new_engine adjust_linger_window ensure_server_running choose start_server
    check_memory_safety spawn_server resume
timed_out-Restarts = record {
  no_model = refl;
  holds = refl;
  available = refl;
  found = refl;
  fits = refl;
  can_spawn = refl;
}

restart-runs_example :
    contains (run (call none machine ∷ (purge ∷ [])) (run timed_out idle)).engine.running 0 ≡ true
restart-runs_example =
    restart-runs none machine 0 "a.gguf" (run timed_out idle) (purge ∷ [])
      (run-new_engine-Inv "a.gguf" true turbo timed_out) timed_out-Restarts

ensure_server_running-Returned_example : Returned "a.gguf" (
    drive
      (times 41 (not_ok, machine))
      (ensure_server_running none machine (new_engine "a.gguf" true turbo)))
unfolding new_engine adjust_linger_window
ensure_server_running-Returned_example =
    ensure_server_running-Returned none machine (new_engine "a.gguf" true turbo)
      (times 41 (not_ok, machine)) (omega arith)

warms_up :
    (run (call none machine ∷ answer 0 thrown machine ∷ answer 0 ok machine ∷ []) idle).calls
    ≡ done true ∷ []
unfolding run step new_engine adjust_linger_window ensure_server_running choose start_server
    check_memory_safety spawn_server resume
warms_up = refl

purges_when_idle :
    (run (call none machine ∷ answer 0 ok machine ∷ schedule 5 ∷ fire 1 ∷ []) idle).engine.running
    ≡ []
unfolding run step new_engine adjust_linger_window ensure_server_running choose start_server
    check_memory_safety spawn_server resume schedule_purge touch_activity on_purge_timer force_purge
purges_when_idle = refl

-- ===== src/Agents/Offline/Runs/Preserving.antt =====
-- What the parts of the engine keep, every interleaving keeps.
use personas_agentes.Common.{
  false, if◌then◌else◌, ℕ, zero, suc, inl, inr, String, Bool, not, ◌&&◌, true, false, List, [], ◌∷◌,
  Option, if◌then◌else◌, get_elem?, Bool-cases, Option-cases,
}
use personas_agentes.Maintenance.Budget.{AdaptiveMode}
use personas_agentes.Agents.Offline.{
  is_same_model, is_other_model, waits_for_socket, probes, Engine, Env, Health, ok, not_ok, thrown,
  Call, waits_for_socket, probes, loads, done, or_model, is_big, required_mb, is_memory_low,
  warm_up, adjust_linger_window, touch_activity, schedule_purge, force_purge, on_purge_timer,
  check_memory_safety, spawn_server, start_server, choose, ensure_server_running, resume,
}
use personas_agentes.Agents.Offline.Runs.{
  System, Step, call, answer, fire, purge, fall_back, touch, schedule, adjust, step, run,
}

-- A property of the engine that each of its parts keeps.
pub record Kept (P : Engine → Type 0) : Type 0 where
  pub purges : (e : Engine) → P e → P (force_purge e)
  pub spawns :
      (target : String) (big : Bool) (env : Env) (e : Engine)
      → P e
      → P (spawn_server target big env e).1
  pub warms : (target : String) (big : Bool) (e : Engine) → P e → P (warm_up target big e)
  pub touches : (now : ℕ) (e : Engine) → P e → P (touch_activity now e)
  pub schedules : (now : ℕ) (e : Engine) → P e → P (schedule_purge now e)
  pub fires : (t : ℕ) (e : Engine) → P e → P (on_purge_timer t e)
  pub falls_back : (e : Engine) → P e → P (record e { is_warm = true })
  pub adjusts : (mode : AdaptiveMode) (e : Engine) → P e → P (adjust_linger_window mode e)

module _ (P : Engine → Type 0) (k : Kept P) where
  branch-Kept : (b : Bool) (x y : Call × Engine) → P x.1 → P y.1 → P (if b then x else y).1
  branch-Kept true x y hx hy = hx
  branch-Kept false x y hx hy = hy

  start_server-Kept :
      (target path : String) (env : Env) (e : Engine) → P e → P (start_server target path env e).1
  unfolding start_server check_memory_safety
  start_server-Kept target path env e h =
      elim (Bool-cases (is_memory_low (required_mb (is_big path)) env)) [
        | inl low ↦ rw low (k.purges e h)
        | inr fits ↦ rw fits (k.spawns target (is_big path) env e h)
      ]

  choose-Kept :
      (target path : String) (env : Env) (e : Engine) → P e → P (choose target path env e).1
  unfolding choose
  choose-Kept target path env e h =
      let start = start_server target path env e in
      let same =
        if e.is_warm && is_same_model target e.current_loaded_model
        then (probes target path, e)
        else start in
      let other =
        if e.is_warm && is_other_model target e.current_loaded_model
        then (waits_for_socket target path, force_purge e)
        else same in
      branch-Kept (not e.llama_server_available) (done false, e) other h
        (branch-Kept (e.is_warm && is_other_model target e.current_loaded_model)
          (waits_for_socket target path, force_purge e) same (k.purges e h)
          (branch-Kept (e.is_warm && is_same_model target e.current_loaded_model)
            (probes target path, e) start h (start_server-Kept target path env e h)))

  pub ensure_server_running-Kept :
      (target : Option String) (env : Env) (e : Engine)
      → P e
      → P (ensure_server_running target env e).1
  unfolding ensure_server_running
  ensure_server_running-Kept target env e h =
      elim (Option-cases (env.model_path (or_model target e))) [
        | inl n ↦ rw (n, ensure_server_running) h
        | inr (path, f) ↦
            rw (f, ensure_server_running) (choose-Kept (or_model target e) path env e h)
      ]

  pub resume-Kept : (r : Health) (env : Env) (c : Call) (e : Engine) → P e → P (resume r env c e).1
  unfolding resume
  resume-Kept r env (waits_for_socket target path) e h = start_server-Kept target path env e h
  resume-Kept ok env (probes target path) e h = h
  resume-Kept not_ok env (probes target path) e h = start_server-Kept target path env e h
  resume-Kept thrown env (probes target path) e h =
      start_server-Kept target path env (force_purge e) (k.purges e h)
  resume-Kept ok env (loads target big (suc n)) e h = k.warms target big e h
  resume-Kept not_ok env (loads target big (suc (suc n))) e h = h
  resume-Kept thrown env (loads target big (suc (suc n))) e h = h
  resume-Kept not_ok env (loads target big (suc zero)) e h = h
  resume-Kept thrown env (loads target big (suc zero)) e h = h
  resume-Kept ok env (loads target big zero) e h = h
  resume-Kept not_ok env (loads target big zero) e h = h
  resume-Kept thrown env (loads target big zero) e h = h
  resume-Kept ok env (done b) e h = h
  resume-Kept not_ok env (done b) e h = h
  resume-Kept thrown env (done b) e h = h

  pub step-Kept : (st : Step) (s : System) → P s.engine → P (step st s).engine
  unfolding step
  step-Kept (call target env) s h = ensure_server_running-Kept target env s.engine h
  step-Kept (answer i r env) s h = elim (Option-cases (get_elem? s.calls i)) [
    | inl n ↦ rw n h
    | inr (c, f) ↦ rw f (resume-Kept r env c s.engine h)
  ]
  step-Kept (fire t) s h = k.fires t s.engine h
  step-Kept purge s h = k.purges s.engine h
  step-Kept fall_back s h = k.falls_back s.engine h
  step-Kept (touch now) s h = k.touches now s.engine h
  step-Kept (schedule now) s h = k.schedules now s.engine h
  step-Kept (adjust mode) s h = k.adjusts mode s.engine h

  pub run-Kept : (sts : List Step) (s : System) → P s.engine → P (run sts s).engine
  unfolding run
  run-Kept [] s h = h
  run-Kept (st ∷ sts) s h = run-Kept sts (step st s) (step-Kept st s h)

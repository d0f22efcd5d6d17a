-- ===== src/Agents/Offline/Runs/Leaks.antt =====
-- A server that the engine replaces without killing it.
use personas_agentes.Common.{
  ℕ, ◌<◌, ◌≡◌, ◌≢◌, refl, ap, inl, inr, String, Bool, true, false, ◌&&◌, List, [], ◌∷◌, Option,
  none, some, arith, Bool-cases, contains, nat_beq, nat_eq, All,
}
use personas_agentes.Maintenance.Budget.{AdaptiveMode, ultraleve, balanceado, turbo}
use personas_agentes.Agents.Offline.{
  Engine, Env, clear, without, adjust_linger_window, touch_activity, schedule_purge, force_purge,
  on_purge_timer, spawn_server, or_model, is_big, required_mb, is_memory_low, check_memory_safety,
  start_server, choose, ensure_server_running,
}
use personas_agentes.Agents.Offline.Runs.{System, Step, call, step, run}
use personas_agentes.Agents.Offline.Runs.Preserving.{Kept, run-Kept}
use personas_agentes.Agents.Offline.Runs.Timers.{Inv}

-- A process that runs and that the engine does not hold, so nothing will kill it.
pub record Lost (p : ℕ) (e : Engine) : Type 0 where
  pub runs : contains e.running p ≡ true
  pub no_server : e.active_server_process ≢ some p
  pub no_cli : e.active_process ≢ some p
  pub old : p < e.next_id

contains-without :
    (n p : ℕ) (ps : List ℕ) → n ≢ p → contains ps p ≡ true → contains (without n ps) p ≡ true
contains-without n p [] d h = h
contains-without n p (q ∷ qs) d h = elim (Bool-cases (nat_beq n q)) [
  | inl e ↦ rw e (contains-without n p qs d (ground (arith, e, d, h)))
  | inr e ↦ rw e (elim (Bool-cases (nat_beq q p)) [
    | inl f ↦ rw f refl
    | inr f ↦ rw f (contains-without n p qs d (ground (arith, f, h)))
  ])
]

contains-clear :
    (o : Option ℕ) (p : ℕ) (ps : List ℕ)
    → o ≢ some p
    → contains ps p ≡ true
    → contains (clear o ps) p ≡ true
contains-clear none p ps d h = h
contains-clear (some n) p ps d h = contains-without n p ps (λ e. d (ap some e)) h

module _ (p : ℕ) where
  purge-Lost : (e : Engine) → Lost p e → Lost p (force_purge e)
  unfolding force_purge
  purge-Lost e h = record {
    runs =
        contains-clear e.active_server_process p (clear e.active_process e.running) h.no_server
          (contains-clear e.active_process p e.running h.no_cli h.runs);
    no_server = λ a. ground (arith, a);
    no_cli = λ a. ground (arith, a);
    old = h.old;
  }

  spawn-Lost :
      (target : String) (big : Bool) (env : Env) (e : Engine)
      → Lost p e
      → Lost p (spawn_server target big env e).1
  unfolding spawn_server
  spawn-Lost target big env e h = elim (Bool-cases env.spawns) [
    | inr n ↦ rw n h
    | inl y ↦ rw y (record {
      runs = ground (arith, h.runs);
      no_server = λ a. ground (arith, a, h.old);
      no_cli = h.no_cli;
      old = omega (arith, h.old);
    })
  ]

  fire-Lost : (t : ℕ) (e : Engine) → Lost p e → Lost p (on_purge_timer t e)
  unfolding on_purge_timer force_purge
  fire-Lost t e h = elim (Bool-cases (contains e.timers t)) [
    | inr n ↦ rw n h
    | inl y ↦ rw y (
        purge-Lost (record e { timers = without t e.timers })
          (record { runs = h.runs; no_server = h.no_server; no_cli = h.no_cli; old = h.old }))
  ]

  schedule-Lost : (now : ℕ) (e : Engine) → Lost p e → Lost p (schedule_purge now e)
  unfolding schedule_purge touch_activity
  schedule-Lost now e h = record {
    runs = h.runs;
    no_server = h.no_server;
    no_cli = h.no_cli;
    old = omega (arith, h.old);
  }

  touch-Lost : (now : ℕ) (e : Engine) → Lost p e → Lost p (touch_activity now e)
  unfolding touch_activity
  touch-Lost now e h = record {
    runs = h.runs;
    no_server = h.no_server;
    no_cli = h.no_cli;
    old = h.old;
  }

  adjust-Lost : (mode : AdaptiveMode) (e : Engine) → Lost p e → Lost p (adjust_linger_window mode e)
  unfolding adjust_linger_window
  adjust-Lost ultraleve e h = record {
    runs = h.runs;
    no_server = h.no_server;
    no_cli = h.no_cli;
    old = h.old;
  }
  adjust-Lost balanceado e h = record {
    runs = h.runs;
    no_server = h.no_server;
    no_cli = h.no_cli;
    old = h.old;
  }
  adjust-Lost turbo e h = record {
    runs = h.runs;
    no_server = h.no_server;
    no_cli = h.no_cli;
    old = h.old;
  }

  pub Lost-Kept : Kept (Lost p)
  Lost-Kept = record {
    purges = purge-Lost;
    spawns = spawn-Lost;
    warms = λ target big e h. record {
      runs = h.runs;
      no_server = h.no_server;
      no_cli = h.no_cli;
      old = h.old;
    };
    touches = touch-Lost;
    schedules = schedule-Lost;
    fires = fire-Lost;
    falls_back =
        λ e h. record { runs = h.runs; no_server = h.no_server; no_cli = h.no_cli; old = h.old };
    adjusts = adjust-Lost;
  }

fresh-old : (m p : ℕ) (ps : List ℕ) → All (λ q. q < m) ps → contains ps p ≡ true → p < m
fresh-old m p [] h c = ground (arith, c)
fresh-old m p (q ∷ qs) h c = elim (Bool-cases (nat_beq q p)) [
  | inl e ↦ ground (arith, e, h.0)
  | inr e ↦ fresh-old m p qs h.1 (ground (arith, e, c))
]

-- Where the engine holds the server `p` and no model, and what the system answers lets a server start.
pub record Restarts (target : Option String) (env : Env) (p : ℕ) (path : String) (e : Engine)
    : Type 0 where
  pub no_model : e.current_loaded_model ≡ none
  pub holds : e.active_server_process ≡ some p
  pub available : e.llama_server_available ≡ true
  pub found : env.model_path (or_model target e) ≡ some path
  pub fits : is_memory_low (required_mb (is_big path)) env ≡ false
  pub can_spawn : env.spawns ≡ true

never : (b : Bool) → (b && false) ≡ false
never true = refl
never false = refl

restart-Lost :
    (target : Option String) (env : Env) (p : ℕ) (path : String) (e : Engine)
    → Inv e
    → Restarts target env p path e
    → Lost p (ensure_server_running target env e).1
unfolding ensure_server_running choose start_server check_memory_safety spawn_server
restart-Lost target env p path e i r =
    let o = fresh-old e.next_id p e.running i.fresh (i.held p r.holds) in
    rw (r.found, ensure_server_running, r.available, r.no_model)
      (rw (never e.is_warm, r.fits, r.can_spawn)
        (record {
          runs = ground (arith, i.held p r.holds);
          no_server = λ a. ground (arith, a, o);
          no_cli = λ a. ground (arith, a, i.no_cli);
          old = omega (arith, o);
        }))

-- While the engine holds a server and no model, a further call that starts a server
-- loses the first one: it runs on whatever happens after that, timers and purges included.
pub restart-runs :
    (target : Option String) (env : Env) (p : ℕ) (path : String) (s : System) (sts : List Step)
    → Inv s.engine
    → Restarts target env p path s.engine
    → contains (run (call target env ∷ sts) s).engine.running p ≡ true
unfolding run step
restart-runs target env p path s sts i r =
    (run-Kept (Lost p) (Lost-Kept p) sts (step (call target env) s)
      (restart-Lost target env p path s.engine i r)).runs

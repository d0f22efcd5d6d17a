-- ===== src/Agents/Offline/Runs/Timers.antt =====
-- The invariant of the engine over every interleaving: its timer, its model and its processes.
use personas_agentes.Common.{
  ℕ, suc, ◌<◌, ◌≡◌, refl, ◌∙◌, ap, inl, inr, String, Bool, true, false, List, [], ◌∷◌, Option, none,
  some, All, arith, Bool-cases, contains, nat_beq, nat_eq,
}
use personas_agentes.Maintenance.Budget.{AdaptiveMode, ultraleve, balanceado, turbo}
use personas_agentes.Agents.Offline.{
  Engine, Env, new_engine, clear, without, adjust_linger_window, touch_activity, schedule_purge,
  force_purge, on_purge_timer, spawn_server,
}
use personas_agentes.Agents.Offline.Runs.{Step, run}
use personas_agentes.Agents.Offline.Runs.Preserving.{Kept, run-Kept}

abbrev pub armed : Option ℕ → List ℕ
armed none = []
armed (some t) = t ∷ []

-- The only timer that is armed is the engine's own; a model is loaded only where the engine is
-- warm; the server it holds is among the processes, none of which has the next number.
pub record Inv (e : Engine) : Type 0 where
  pub own_timer : e.timers ≡ armed e.purge_timer
  pub cold : e.is_warm ≡ false → e.current_loaded_model ≡ none
  pub fresh : All (λ p. p < e.next_id) e.running
  pub no_cli : e.active_process ≡ none
  pub held : (p : ℕ) → e.active_server_process ≡ some p → contains e.running p ≡ true

clear-armed : (t : Option ℕ) → clear t (armed t) ≡ []
clear-armed none = refl
clear-armed (some t) = ground arith

clear-without : (t : ℕ) (o : Option ℕ) → clear o (without t (armed o)) ≡ []
clear-without t none = refl
clear-without t (some p) = ground arith

All-without : (n m : ℕ) (ps : List ℕ) → All (λ p. p < m) ps → All (λ p. p < m) (without n ps)
All-without n m [] h = tt
All-without n m (p ∷ ps) h = elim (Bool-cases (nat_beq n p)) [
  | inl e ↦ rw e (All-without n m ps h.1)
  | inr e ↦ rw e (h.0, All-without n m ps h.1)
]

All-clear :
    (t : Option ℕ) (m : ℕ) (ps : List ℕ) → All (λ p. p < m) ps → All (λ p. p < m) (clear t ps)
All-clear none m ps h = h
All-clear (some n) m ps h = All-without n m ps h

All-weaken : (m : ℕ) (ps : List ℕ) → All (λ p. p < m) ps → All (λ p. p < suc m) ps
All-weaken m [] h = tt
All-weaken m (p ∷ ps) h = (omega (arith, h.0), All-weaken m ps h.1)

purge-Inv : (e : Engine) → Inv e → Inv (force_purge e)
unfolding force_purge
purge-Inv e h = record {
  own_timer = ap (clear e.purge_timer) h.own_timer ∙ clear-armed e.purge_timer;
  cold = λ c. refl;
  fresh =
      All-clear e.active_server_process e.next_id (clear e.active_process e.running)
        (All-clear e.active_process e.next_id e.running h.fresh);
  no_cli = refl;
  held = λ p a. ground (arith, a);
}

touch-Inv : (now : ℕ) (e : Engine) → Inv e → Inv (touch_activity now e)
unfolding touch_activity
touch-Inv now e h = record {
  own_timer = ap (clear e.purge_timer) h.own_timer ∙ clear-armed e.purge_timer;
  cold = h.cold;
  fresh = h.fresh;
  no_cli = h.no_cli;
  held = h.held;
}

schedule-Inv : (now : ℕ) (e : Engine) → Inv e → Inv (schedule_purge now e)
unfolding schedule_purge touch_activity
schedule-Inv now e h = record {
  own_timer =
      ap (λ ts. e.next_id ∷ ts) (ap (clear e.purge_timer) h.own_timer ∙ clear-armed e.purge_timer);
  cold = h.cold;
  fresh = All-weaken e.next_id e.running h.fresh;
  no_cli = h.no_cli;
  held = h.held;
}

spawn-Inv :
    (target : String) (big : Bool) (env : Env) (e : Engine)
    → Inv e
    → Inv (spawn_server target big env e).1
unfolding spawn_server
spawn-Inv target big env e h = elim (Bool-cases env.spawns) [
  | inr n ↦ rw n h
  | inl y ↦ rw y (record {
    own_timer = h.own_timer;
    cold = h.cold;
    fresh = (omega arith, All-weaken e.next_id e.running h.fresh);
    no_cli = h.no_cli;
    held = λ p a. ground (arith, a);
  })
]

fire-Inv : (t : ℕ) (e : Engine) → Inv e → Inv (on_purge_timer t e)
unfolding on_purge_timer force_purge
fire-Inv t e h = elim (Bool-cases (contains e.timers t)) [
  | inr n ↦ rw n h
  | inl y ↦ rw y (record {
    own_timer =
        ap (λ ts. clear e.purge_timer (without t ts)) h.own_timer ∙ clear-without t e.purge_timer;
    cold = λ c. refl;
    fresh =
        All-clear e.active_server_process e.next_id (clear e.active_process e.running)
          (All-clear e.active_process e.next_id e.running h.fresh);
    no_cli = refl;
    held = λ p a. ground (arith, a);
  })
]

adjust-Inv : (mode : AdaptiveMode) (e : Engine) → Inv e → Inv (adjust_linger_window mode e)
unfolding adjust_linger_window
adjust-Inv ultraleve e h = record {
  own_timer = h.own_timer;
  cold = h.cold;
  fresh = h.fresh;
  no_cli = h.no_cli;
  held = h.held;
}
adjust-Inv balanceado e h = record {
  own_timer = h.own_timer;
  cold = h.cold;
  fresh = h.fresh;
  no_cli = h.no_cli;
  held = h.held;
}
adjust-Inv turbo e h = record {
  own_timer = h.own_timer;
  cold = h.cold;
  fresh = h.fresh;
  no_cli = h.no_cli;
  held = h.held;
}

pub Inv-Kept : Kept Inv
Inv-Kept = record {
  purges = purge-Inv;
  spawns = spawn-Inv;
  warms = λ target big e h. record {
    own_timer = h.own_timer;
    cold = λ c. ground (arith, c);
    fresh = h.fresh;
    no_cli = h.no_cli;
    held = h.held;
  };
  touches = touch-Inv;
  schedules = schedule-Inv;
  fires = fire-Inv;
  falls_back = λ e h. record {
    own_timer = h.own_timer;
    cold = λ c. ground (arith, c);
    fresh = h.fresh;
    no_cli = h.no_cli;
    held = h.held;
  };
  adjusts = adjust-Inv;
}

-- Over every interleaving of calls, answers, purges and timers from a new engine, at most one timer
-- is armed, the one that the engine holds; a model is loaded only while the engine is warm; and the
-- server that the engine holds is running.
pub run-new_engine-Inv :
    (name : String) (available : Bool) (mode : AdaptiveMode) (sts : List Step)
    → Inv (run sts (record { engine = new_engine name available mode; calls = [] })).engine
unfolding new_engine
run-new_engine-Inv name available mode sts =
    run-Kept Inv Inv-Kept sts (record { engine = new_engine name available mode; calls = [] })
      (adjust-Inv mode _ (record {
        own_timer = refl;
        cold = λ c. refl;
        fresh = tt;
        no_cli = refl;
        held = λ p a. ground (arith, a);
      }))

-- ===== src/Agents/Offline/Runs.antt =====
-- Any interleaving of what happens to the engine, the search of a model's file, and the telemetry.
-- `streamChatCompletion` is a `touch`, a `call` with its `answer`s, perhaps a `fall_back`, and a
-- `schedule`; `setupResourceBudgetSync` subscribes `adjust`.
pub mod Preserving
pub mod Timers
pub mod Leaks
pub mod Returning
mod Examples
use personas_agentes.Common.{
  ℕ, zero, suc, ◌-◌, String, Bool, true, false, List, [], ◌∷◌, ◌++◌, Option, none, some,
  if◌then◌else◌, str_eq, get_elem?, arith,
}
use personas_agentes.Maintenance.Budget.{AdaptiveMode}
use personas_agentes.Agents.Offline.{
  Engine, Env, Health, Call, adjust_linger_window, touch_activity, schedule_purge, force_purge,
  on_purge_timer, ensure_server_running, resume,
}

-- The loop of `findModelPath` over its directories; `join` and `exists` are the arguments.
pub find_in :
    (join : String → String → String)
    → (exists : String → Bool) → String
    → List String
    → Option String
find_in join exists name [] = none
find_in join exists name (dir ∷ dirs) =
    let rest = find_in join exists name dirs in
    if str_eq dir "" then rest else if exists (join dir name) then some (join dir name) else rest

pub record OfflineEngineTelemetry : Type 0 where
  pub is_warm : Bool
  pub loaded_model : String
  pub allocated_memory_bytes : ℕ
  pub linger_window_ms : ℕ
  pub time_until_purge_ms : ℕ
  pub llama_server_available : Bool

abbrev loaded_or : Option String → String → String
loaded_or none name = name
loaded_or (some m) name = if str_eq m "" then name else m

pub get_telemetry : ℕ → Engine → OfflineEngineTelemetry
get_telemetry now e = record {
  is_warm = e.is_warm;
  loaded_model = loaded_or e.current_loaded_model e.model_name;
  allocated_memory_bytes = if e.is_warm then e.estimated_ram_bytes else 0;
  linger_window_ms = e.linger_window_ms;
  time_until_purge_ms = if e.is_warm then e.linger_window_ms - (now - e.last_activity_time) else 0;
  llama_server_available = e.llama_server_available;
}

-- The engine and the calls of `ensureServerRunning` that have begun.
pub record System : Type 0 where
  pub engine : Engine
  pub calls : List Call

pub data Step : Type 0 where
  call : Option String → Env → Step
  answer : ℕ → Health → Env → Step
  fire : ℕ → Step
  purge fall_back : Step
  touch schedule : ℕ → Step
  adjust : AdaptiveMode → Step

abbrev pub replace_at : ℕ → Call → List Call → List Call
replace_at i c [] = []
replace_at zero c (d ∷ ds) = c ∷ ds
replace_at (suc i) c (d ∷ ds) = d ∷ replace_at i c ds

-- The call at `i`, if there is one, goes on.
abbrev pub go_on : ℕ → Health → Env → Option Call → System → System
go_on i h env none s = s
go_on i h env (some c) s =
    let (d, e) = resume h env c s.engine in record { engine = e; calls = replace_at i d s.calls }

abbrev pub on_engine : (Engine → Engine) → System → System
on_engine f s = record s { engine = f s.engine }

unfoldable pub step : Step → System → System
unfolding ensure_server_running resume on_purge_timer force_purge touch_activity schedule_purge
    adjust_linger_window
step (call target env) s =
    let (c, e) = ensure_server_running target env s.engine in
    record { engine = e; calls = s.calls ++ c ∷ [] }
step (answer i h env) s = go_on i h env (get_elem? s.calls i) s
step (fire t) s = on_engine (on_purge_timer t) s
step purge s = on_engine force_purge s
step fall_back s = on_engine (λ e. record e { is_warm = true }) s
step (touch now) s = on_engine (touch_activity now) s
step (schedule now) s = on_engine (schedule_purge now) s
step (adjust mode) s = on_engine (adjust_linger_window mode) s

unfoldable pub run : List Step → System → System
unfolding step
run [] s = s
run (st ∷ sts) s = run sts (step st s)

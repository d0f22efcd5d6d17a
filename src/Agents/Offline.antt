-- ===== src/Agents/Offline.antt =====
-- src_local/utils/ai/warm_purge_offline_engine.ts: WarmPurgeOfflineEngine.
-- A timer and a process are numbers: `timers` lists the timers that are armed and `running` the
-- processes that were spawned and not killed. `ensureServerRunning` runs in pieces from one `await`
-- to the next: `Call` says where it waits, and `resume` is the piece after the answer. So a list of
-- steps is any interleaving of calls, timers and purges. `runLlamaCli`, which nothing calls, and the
-- search of the executables are left out.
pub mod Runs
use personas_agentes.Common.{
  codes, includes, ℕ, zero, suc, ◌+◌, ◌-◌, ◌*◌, String, Bool, true, false, not, ◌&&◌, ◌||◌, List,
  [], ◌∷◌, ◌++◌, Option, none, some, if◌then◌else◌, keep, any, contains, ltb, nat_beq, str_eq,
  get_elem?, nat_eq,
}
use personas_agentes.Maintenance.Budget.{AdaptiveMode, ultraleve, balanceado, turbo}

pub record Engine : Type 0 where
  pub model_name : String
  pub estimated_ram_bytes : ℕ
  pub is_warm : Bool
  pub linger_window_ms : ℕ
  pub purge_timer : Option ℕ
  pub last_activity_time : ℕ
  pub llama_server_available : Bool
  pub active_process : Option ℕ
  pub active_server_process : Option ℕ
  pub current_loaded_model : Option String
  pub timers : List ℕ
  pub running : List ℕ
  pub next_id : ℕ

pub adjust_linger_window : AdaptiveMode → Engine → Engine
adjust_linger_window ultraleve e = record e { linger_window_ms = 15000 }
adjust_linger_window balanceado e = record e { linger_window_ms = 60000 }
adjust_linger_window turbo e = record e { linger_window_ms = 120000 }

-- The engine after the constructor, for the model of the environment and the mode of the budget.
pub new_engine : String → Bool → AdaptiveMode → Engine
unfolding adjust_linger_window
new_engine name available mode = adjust_linger_window mode (record {
  model_name = name;
  estimated_ram_bytes = 1500 * 1048576;
  is_warm = false;
  linger_window_ms = 120000;
  purge_timer = none;
  last_activity_time = 0;
  llama_server_available = available;
  active_process = none;
  active_server_process = none;
  current_loaded_model = none;
  timers = [];
  running = [];
  next_id = 0;
})

abbrev pub without : ℕ → List ℕ → List ℕ
without n = keep (λ m. not (nat_beq n m))

-- `clearTimeout` and `kill`, where there is one.
abbrev pub clear : Option ℕ → List ℕ → List ℕ
clear none ns = ns
clear (some n) ns = without n ns

pub touch_activity : ℕ → Engine → Engine
touch_activity now e = record e {
  last_activity_time = now;
  timers = clear e.purge_timer e.timers;
  purge_timer = none;
}

pub schedule_purge : ℕ → Engine → Engine
unfolding touch_activity
schedule_purge now e =
    let t = touch_activity now e in
    record t {
      timers = t.next_id ∷ t.timers;
      purge_timer = some t.next_id;
      next_id = suc t.next_id;
    }

pub force_purge : Engine → Engine
force_purge e = record e {
  running = clear e.active_server_process (clear e.active_process e.running);
  active_process = none;
  active_server_process = none;
  is_warm = false;
  current_loaded_model = none;
  timers = clear e.purge_timer e.timers;
  purge_timer = none;
}

-- The callback of the timer, which is armed no more.
pub on_purge_timer : ℕ → Engine → Engine
unfolding force_purge
on_purge_timer t e =
    if contains e.timers t then force_purge (record e { timers = without t e.timers }) else e

-- What the system answers in a piece: the file of a model, the free memory in bytes, and whether
-- the server can be spawned.
pub record Env : Type 0 where
  pub model_path : String → Option String
  pub free_memory : ℕ
  pub spawns : Bool

-- How the health check ends.
pub data Health : Type 0 where
  ok not_ok thrown : Health

pub data Call : Type 0 where
  waits_for_socket : (target path : String) → Call
  probes : (target path : String) → Call
  loads : (target : String) → (big : Bool) → (tries : ℕ) → Call
  done : Bool → Call

-- `modelTarget || this.modelName`
abbrev pub or_model : Option String → Engine → String
or_model none e = e.model_name
or_model (some target) e = if str_eq target "" then e.model_name else target

abbrev pub is_big : String → Bool
is_big path = includes (codes "7b") (codes path) || includes (codes "8b") (codes path)

abbrev pub required_mb : Bool → ℕ
required_mb big = if big then 4800 else 1500

-- The test of `checkMemorySafety`, whose purge stands where it is called.
abbrev pub is_memory_low : ℕ → Env → Bool
is_memory_low required env = ltb env.free_memory ((required + 1024) * 1048576)

pub check_memory_safety : ℕ → Env → Engine → Bool × Engine
unfolding force_purge
check_memory_safety required env e =
    if is_memory_low required env then (false, force_purge e) else (true, e)

-- The spawn of the server, in front of the loop of health checks.
pub spawn_server : String → Bool → Env → Engine → Call × Engine
spawn_server target big env e =
    if env.spawns
    then (
      loads target big 40,
      record e {
        active_server_process = some e.next_id;
        running = e.next_id ∷ e.running;
        next_id = suc e.next_id;
      },
    )
    else (done false, e)

-- From the test of the memory on.
pub start_server : String → String → Env → Engine → Call × Engine
unfolding check_memory_safety spawn_server
start_server target path env e =
    let (safe, f) = check_memory_safety (required_mb (is_big path)) env e in
    if safe then spawn_server target (is_big path) env f else (done false, f)

-- `this.currentLoadedModel && this.currentLoadedModel !== targetName`
abbrev pub is_other_model : String → Option String → Bool
is_other_model target none = false
is_other_model target (some m) = not (str_eq m "") && not (str_eq m target)

abbrev pub is_same_model : String → Option String → Bool
is_same_model target none = false
is_same_model target (some m) = str_eq m target

-- `ensureServerRunning` up to its first `await`, once the file of the model is there.
pub choose : String → String → Env → Engine → Call × Engine
unfolding force_purge start_server
choose target path env e =
    if not e.llama_server_available
    then (done false, e)
    else if e.is_warm && is_other_model target e.current_loaded_model
    then (waits_for_socket target path, force_purge e)
    else if e.is_warm && is_same_model target e.current_loaded_model
    then (probes target path, e)
    else start_server target path env e

pub ensure_server_running : Option String → Env → Engine → Call × Engine
unfolding choose
ensure_server_running target env e = elim (env.model_path (or_model target e)) [
  | none ↦ (done false, e)
  | some path ↦ choose (or_model target e) path env e
]

abbrev pub warm_up : String → Bool → Engine → Engine
warm_up target big e = record e {
  is_warm = true;
  current_loaded_model = some target;
  estimated_ram_bytes = required_mb big * 1048576;
}

pub resume : Health → Env → Call → Engine → Call × Engine
unfolding start_server force_purge
resume h env (waits_for_socket target path) e = start_server target path env e
resume ok env (probes target path) e = (done true, e)
resume not_ok env (probes target path) e = start_server target path env e
resume thrown env (probes target path) e = start_server target path env (force_purge e)
resume ok env (loads target big (suc n)) e = (done true, warm_up target big e)
resume h env (loads target big (suc (suc n))) e = (loads target big (suc n), e)
resume h env (loads target big n) e = (done false, e)
resume h env (done b) e = (done b, e)

-- ===== src/Maintenance/Budget.antt =====
-- src_local/engines/maintenance/sovereign_resource_budget.ts: SovereignResourceBudget.
-- Usages are percents, as the samples round them, temperatures whole degrees. The weights of the
-- score are exact hundredths and the rounding is to the nearest, up at a half; what the machine
-- reports is an argument (`Load`). Battery power is always off, as in the source. The interval and
-- the identity of the timer are left out, and of the sizes of memory only whole GB count.
pub mod Score
pub mod Adaptation
pub mod Announcements
mod Examples
use personas_agentes.Common.{
  ℕ, suc, ◌+◌, ◌-◌, ◌*◌, ◌/◌, min, max, Bool, true, false, List, [], ◌∷◌, ◌++◌, if◌then◌else◌, ltb,
  leb, arith,
}

pub data AdaptiveMode : Type 0 where
  ultraleve balanceado turbo : AdaptiveMode

pub data AiStrategy : Type 0 where
  cloud_only cloud_or_warm_purge local_or_cloud_with_cache : AiStrategy

-- What the machine reports: percents of memory and processor in use, its size.
pub record Load : Type 0 where
  pub ram_usage : ℕ
  pub cpu_usage : ℕ
  pub cpu_count : ℕ
  pub ram_total_gb : ℕ
  pub ram_free_gb : ℕ

pub record TelemetrySnapshot : Type 0 where
  pub load : Load
  pub estimated_temp_c : ℕ
  pub resource_score : ℕ
  pub mode : AdaptiveMode

pub record AdaptiveConfig : Type 0 where
  pub mode : AdaptiveMode
  pub resource_score : ℕ
  pub max_concurrent_workers : ℕ
  pub max_wasm_micro_agents : ℕ
  pub file_watch_interval_ms : ℕ
  pub ai_strategy : AiStrategy
  pub optimal_slm_threads : ℕ
  pub optimal_slm_context_size : ℕ

abbrev pub thermal_score : ℕ → ℕ
thermal_score temp = if ltb 75 temp then 100 - (temp - 75) * 4 else 100

pub calculate_resource_score : (ram cpu temp : ℕ) → Bool → ℕ
calculate_resource_score ram cpu temp on_battery = min 100 (
    ((100 - ram) * 40
      + (100 - cpu) * 40
      + thermal_score temp * 15
      + (if on_battery then 50 else 100) * 5
      + 50)
    / 100)

pub determine_mode : ℕ → AdaptiveMode
determine_mode score =
    if ltb score 30 then ultraleve else if leb score 70 then balanceado else turbo

abbrev pub estimated_temp : (cpu ram : ℕ) → ℕ
estimated_temp cpu ram = (400 + cpu * 4 + ram + 5) / 10

pub sample_telemetry : Load → TelemetrySnapshot
unfolding calculate_resource_score determine_mode
sample_telemetry l =
    let temp = estimated_temp l.cpu_usage l.ram_usage in
    let score = calculate_resource_score l.ram_usage l.cpu_usage temp false in
    record {
      load = l;
      estimated_temp_c = temp;
      resource_score = score;
      mode = determine_mode score;
    }

abbrev pub effective_cores : ℕ → ℕ
effective_cores cores = if ltb 4 cores then max 4 (cores / 2) else cores

pub get_adaptive_config : TelemetrySnapshot → AdaptiveConfig
get_adaptive_config s =
    let cores = s.load.cpu_count in
    elim s.mode [
      | ultraleve ↦ record {
        mode = ultraleve;
        resource_score = s.resource_score;
        max_concurrent_workers = 1;
        max_wasm_micro_agents = 1;
        file_watch_interval_ms = 10000;
        ai_strategy = cloud_only;
        optimal_slm_threads = max 1 (min (effective_cores cores / 2) 4);
        optimal_slm_context_size = 2048;
      }
      | balanceado ↦ record {
        mode = balanceado;
        resource_score = s.resource_score;
        max_concurrent_workers = max 2 cores;
        max_wasm_micro_agents = 3;
        file_watch_interval_ms = 3000;
        ai_strategy = cloud_or_warm_purge;
        optimal_slm_threads = max 1 (min (effective_cores cores * 3 / 4) 6);
        optimal_slm_context_size = if leb 16 s.load.ram_total_gb then 4096 else 2048;
      }
      | turbo ↦ record {
        mode = turbo;
        resource_score = s.resource_score;
        max_concurrent_workers = max 4 (cores * 2);
        max_wasm_micro_agents = 8;
        file_watch_interval_ms = 1000;
        ai_strategy = local_or_cloud_with_cache;
        optimal_slm_threads = max 1 (min (effective_cores cores) 8);
        optimal_slm_context_size = 4096;
      }
    ]

-- `getOptimalSlmContextSize`.
pub get_optimal_slm_context_size : Bool → TelemetrySnapshot → ℕ
unfolding get_adaptive_config
get_optimal_slm_context_size is_7b_or_8b s =
    let base = (get_adaptive_config s).optimal_slm_context_size in
    if is_7b_or_8b then if ltb s.load.ram_free_gb 4 then 2048 else base else base

abbrev pub same_mode : AdaptiveMode → AdaptiveMode → Bool
same_mode ultraleve ultraleve = true
same_mode balanceado balanceado = true
same_mode turbo turbo = true
same_mode _ _ = false

-- The budget, with the events `resource:mode_changed` that it has emitted, the oldest first.
pub record Budget : Type 0 where
  pub latest_snapshot : TelemetrySnapshot
  pub is_looping : Bool
  pub announced : List AdaptiveConfig

pub new_budget : Load → Budget
unfolding sample_telemetry
new_budget l = record { latest_snapshot = sample_telemetry l; is_looping = false; announced = [] }

pub start_loop : Budget → Budget
start_loop b = record b { is_looping = true }

pub stop_loop : Budget → Budget
stop_loop b = record b { is_looping = false }

-- The timer's callback, which a stopped loop does not call any more.
pub tick : Load → Budget → Budget
unfolding sample_telemetry get_adaptive_config
tick l b =
    let s = sample_telemetry l in
    if b.is_looping
    then record b {
      latest_snapshot = s;
      announced =
          if same_mode b.latest_snapshot.mode s.mode
          then b.announced
          else b.announced ++ get_adaptive_config s ∷ [];
    }
    else b

pub data Step : Type 0 where
  starts stops : Step
  ticks : Load → Step

pub step : Budget → Step → Budget
unfolding start_loop stop_loop tick
step b starts = start_loop b
step b stops = stop_loop b
step b (ticks l) = tick l b

pub run : Budget → List Step → Budget
unfolding step
run b [] = b
run b (s ∷ ss) = run (step b s) ss

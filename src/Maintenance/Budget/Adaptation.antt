-- ===== src/Maintenance/Budget/Adaptation.antt =====
-- How the configuration follows the load.
use personas_agentes.Common.{ℕ, ◌*◌, ◌≤◌, ◌<◌, ◌≡◌, ◌⊎◌, min, max, false, arith}
use personas_agentes.Maintenance.Budget.{
  AdaptiveMode, ultraleve, balanceado, turbo, Load, estimated_temp, TelemetrySnapshot,
  sample_telemetry, AdaptiveConfig, get_adaptive_config, determine_mode,
}
use personas_agentes.Maintenance.Budget.Score.{score-antitone}

-- The second load is on the same machine and at least as heavy.
pub record IsHeavier (l l' : Load) : Type 0 where
  pub ram : l.ram_usage ≤ l'.ram_usage
  pub cpu : l.cpu_usage ≤ l'.cpu_usage
  pub cores : l.cpu_count ≡ l'.cpu_count
  pub memory : l.ram_total_gb ≡ l'.ram_total_gb

abbrev pub rank : AdaptiveMode → ℕ
rank ultraleve = 0
rank balanceado = 1
rank turbo = 2

-- The second configuration asks for no more than the first.
abbrev pub AsksLess : AdaptiveConfig → AdaptiveConfig → Type 0
AsksLess c c' =
    (c'.max_concurrent_workers ≤ c.max_concurrent_workers)
    × (c'.max_wasm_micro_agents ≤ c.max_wasm_micro_agents)
    × (c.file_watch_interval_ms ≤ c'.file_watch_interval_ms)
    × (c'.optimal_slm_threads ≤ c.optimal_slm_threads)
    × (c'.optimal_slm_context_size ≤ c.optimal_slm_context_size)

sampled-score :
    (l l' : Load)
    → IsHeavier l l'
    → (sample_telemetry l').resource_score ≤ (sample_telemetry l).resource_score
unfolding sample_telemetry
sampled-score l l' h =
    score-antitone l.ram_usage l'.ram_usage l.cpu_usage l'.cpu_usage
      (estimated_temp l.cpu_usage l.ram_usage) (estimated_temp l'.cpu_usage l'.ram_usage) false
      h.ram h.cpu (ground (arith, h.ram, h.cpu))

determine_mode-rank : (s s' : ℕ) → s' ≤ s → rank (determine_mode s') ≤ rank (determine_mode s)
unfolding determine_mode
determine_mode-rank s s' h = ground arith

-- By the rank of the mode, on one machine.
config-AsksLess :
    (s s' : TelemetrySnapshot)
    → s.load.cpu_count ≡ s'.load.cpu_count
    → s.load.ram_total_gb ≡ s'.load.ram_total_gb
    → rank s'.mode ≤ rank s.mode
    → AsksLess (get_adaptive_config s) (get_adaptive_config s')
unfolding get_adaptive_config
config-AsksLess s s' c m r = (ground arith, ground arith, ground arith, ground arith, ground arith)

sampled-rank :
    (l l' : Load)
    → IsHeavier l l'
    → rank (sample_telemetry l').mode ≤ rank (sample_telemetry l).mode
unfolding sample_telemetry
sampled-rank l l' h =
    determine_mode-rank (sample_telemetry l).resource_score (sample_telemetry l').resource_score
      (sampled-score l l' h)

-- On one machine, a load that is heavier in memory and processor never gets a configuration that
-- asks for more: not more workers, micro-agents, threads or context, nor a shorter watch interval.
pub sample_telemetry-AsksLess :
    (l l' : Load)
    → IsHeavier l l'
    → AsksLess
        (get_adaptive_config (sample_telemetry l))
        (get_adaptive_config (sample_telemetry l'))
unfolding sample_telemetry
sample_telemetry-AsksLess l l' h =
    config-AsksLess (sample_telemetry l) (sample_telemetry l') h.cores h.memory
      (sampled-rank l l' h)

-- On a machine with a processor, every configuration has from one to eight threads and no more than
-- there are processors, from one worker to two for each processor or four, and a context of 2048 or
-- 4096 tokens.
pub get_adaptive_config-bounds :
    (s : TelemetrySnapshot)
    → 0 < s.load.cpu_count
    → let c = get_adaptive_config s in
      (1 ≤ c.optimal_slm_threads)
      × (c.optimal_slm_threads ≤ min 8 s.load.cpu_count)
      × (1 ≤ c.max_concurrent_workers)
      × (c.max_concurrent_workers ≤ max 4 (s.load.cpu_count * 2))
      × ((c.optimal_slm_context_size ≡ 2048) ⊎ (c.optimal_slm_context_size ≡ 4096))
unfolding get_adaptive_config
get_adaptive_config-bounds s h =
    (ground arith, ground arith, ground arith, ground arith, ground arith)

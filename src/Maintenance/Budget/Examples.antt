-- ===== src/Maintenance/Budget/Examples.antt =====
-- A quiet machine of eight processors and the same one under load.
use personas_agentes.Common.{◌≤◌, ◌≡◌, refl, ◌⊎◌, min, max, ◌*◌, false, [], ◌∷◌, arith}
use personas_agentes.Maintenance.Budget.{
  Load, calculate_resource_score, turbo, ultraleve, sample_telemetry, determine_mode,
  get_adaptive_config, new_budget, starts, ticks, run,
}
use personas_agentes.Maintenance.Budget.Score.{score-antitone}
use personas_agentes.Maintenance.Budget.Adaptation.{
  IsHeavier, AsksLess, sample_telemetry-AsksLess, get_adaptive_config-bounds,
}
use personas_agentes.Maintenance.Budget.Announcements.{Informed, run-new_budget-Informed}

abbrev quiet : Load
quiet = record { ram_usage = 20; cpu_usage = 5; cpu_count = 8; ram_total_gb = 16; ram_free_gb = 12 }

abbrev laden : Load
laden = record { ram_usage = 90; cpu_usage = 95; cpu_count = 8; ram_total_gb = 16; ram_free_gb = 1 }

quiet-turbo : (sample_telemetry quiet).mode ≡ turbo
unfolding sample_telemetry calculate_resource_score determine_mode
quiet-turbo = refl

laden-ultraleve : (sample_telemetry laden).mode ≡ ultraleve
unfolding sample_telemetry calculate_resource_score determine_mode
laden-ultraleve = refl

laden-IsHeavier : IsHeavier quiet laden
laden-IsHeavier = record { ram = omega arith; cpu = omega arith; cores = refl; memory = refl }

score-antitone_holds :
    calculate_resource_score 90 95 87 false ≤ calculate_resource_score 20 5 44 false
score-antitone_holds =
    score-antitone 20 90 5 95 44 87 false (omega arith) (omega arith) (omega arith)

sample_telemetry-AsksLess_example :
    AsksLess
      (get_adaptive_config (sample_telemetry quiet))
      (get_adaptive_config (sample_telemetry laden))
sample_telemetry-AsksLess_example = sample_telemetry-AsksLess quiet laden laden-IsHeavier

get_adaptive_config-bounds_holds :
    let c = get_adaptive_config (sample_telemetry laden) in
    (1 ≤ c.optimal_slm_threads)
    × (c.optimal_slm_threads ≤ min 8 8)
    × (1 ≤ c.max_concurrent_workers)
    × (c.max_concurrent_workers ≤ max 4 (8 * 2))
    × ((c.optimal_slm_context_size ≡ 2048) ⊎ (c.optimal_slm_context_size ≡ 4096))
unfolding sample_telemetry
get_adaptive_config-bounds_holds = get_adaptive_config-bounds (sample_telemetry laden) (omega arith)

run-new_budget-Informed_example :
    Informed
      (sample_telemetry quiet).mode
      (run (new_budget quiet) (starts ∷ ticks laden ∷ ticks laden ∷ ticks quiet ∷ []))
run-new_budget-Informed_example =
    run-new_budget-Informed quiet (starts ∷ ticks laden ∷ ticks laden ∷ ticks quiet ∷ [])

-- ===== src/Maintenance/Budget/Announcements.antt =====
-- The events by which the budget tells of its mode.
use personas_agentes.Common.{
  ◌≡◌, refl, ◌∙◌, inl, inr, true, false, List, [], ◌∷◌, ◌++◌, arith, Bool-cases,
}
use personas_agentes.Maintenance.Budget.{
  AdaptiveMode, Load, AdaptiveConfig, get_adaptive_config, TelemetrySnapshot, sample_telemetry,
  same_mode, Budget, new_budget, start_loop, stop_loop, tick, Step, starts, stops, ticks, step, run,
}

-- The mode that a listener knows which knew `m` and has read the events.
abbrev pub known : AdaptiveMode → List AdaptiveConfig → AdaptiveMode
known m [] = m
known m (c ∷ cs) = known c.mode cs

-- Every event tells of another mode than the one known before.
abbrev pub IsNews : AdaptiveMode → List AdaptiveConfig → Type 0
IsNews m [] = Unit
IsNews m (c ∷ cs) = (same_mode m c.mode ≡ false) × IsNews c.mode cs

abbrev pub Informed : AdaptiveMode → Budget → Type 0
Informed m b = (known m b.announced ≡ b.latest_snapshot.mode) × IsNews m b.announced

same_mode-eq : (m m' : AdaptiveMode) → same_mode m m' ≡ true → m ≡ m'
same_mode-eq m m' h = ground arith

known-append :
    (m : AdaptiveMode) (cs : List AdaptiveConfig) (c : AdaptiveConfig)
    → known m (cs ++ c ∷ []) ≡ c.mode
known-append m [] c = refl
known-append m (d ∷ ds) c = known-append d.mode ds c

IsNews-append :
    (m : AdaptiveMode) (cs : List AdaptiveConfig) (c : AdaptiveConfig)
    → IsNews m cs
    → same_mode (known m cs) c.mode ≡ false
    → IsNews m (cs ++ c ∷ [])
IsNews-append m [] c h k = (k, tt)
IsNews-append m (d ∷ ds) c h k = (h.0, IsNews-append d.mode ds c h.1 k)

config-mode : (s : TelemetrySnapshot) → (get_adaptive_config s).mode ≡ s.mode
unfolding get_adaptive_config
config-mode s = ground arith

tick-Informed : (m : AdaptiveMode) (l : Load) (b : Budget) → Informed m b → Informed m (tick l b)
unfolding tick
tick-Informed m l b i = elim (Bool-cases b.is_looping) [
  | inr off ↦ rw off i
  | inl on ↦ elim (Bool-cases (same_mode b.latest_snapshot.mode (sample_telemetry l).mode)) [
    | inl same ↦
        rw (on, same)
          (i.0 ∙ same_mode-eq b.latest_snapshot.mode (sample_telemetry l).mode same, i.1)
    | inr new ↦
        let c = get_adaptive_config (sample_telemetry l) in
        rw (on, new)
          (
            known-append m b.announced c ∙ config-mode (sample_telemetry l),
            IsNews-append m b.announced c i.1 (rw (i.0, config-mode (sample_telemetry l)) new),
          )
  ]
]

step-Informed : (m : AdaptiveMode) (b : Budget) (s : Step) → Informed m b → Informed m (step b s)
unfolding step
step-Informed m b starts i = unfold start_loop in i
step-Informed m b stops i = unfold stop_loop in i
step-Informed m b (ticks l) i = tick-Informed m l b i

run-Informed :
    (m : AdaptiveMode) (b : Budget) (ss : List Step) → Informed m b → Informed m (run b ss)
unfolding run
run-Informed m b [] i = i
run-Informed m b (s ∷ ss) i = run-Informed m (step b s) ss (step-Informed m b s i)

-- After any starts, stops and ticks of a new budget, the last mode that was announced, or the first
-- one if none was, is the mode of the latest snapshot, and each announcement told of a mode other
-- than the one before.
pub run-new_budget-Informed :
    (l : Load) (ss : List Step) → Informed (sample_telemetry l).mode (run (new_budget l) ss)
run-new_budget-Informed l ss =
    run-Informed (sample_telemetry l).mode (new_budget l) ss (unfold new_budget in (refl, tt))

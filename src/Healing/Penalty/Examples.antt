-- ===== src/Healing/Penalty/Examples.antt =====
-- A matrix of one item, a call that fails.
use personas_agentes.Common.{
  ℕ, ◌+◌, ◌*◌, ◌-◌, ◌/◌, ◌≡◌, refl, min, String, List, [], ◌∷◌, Option, none, some, false,
}
use personas_agentes.Healing.Penalty.{
  Item, Info, green, fail, sane, thrown, penalty_ceiling, calculate, aggregate, prop, drains_of,
  apply_rust, apply_penalties,
}

abbrev tangled : Item
tangled = record {
  file = "a.ts";
  test_status = "DEEP";
  cyclomatic_complexity = 30;
  cognitive_complexity = 3;
  nesting_depth = 2;
  cbo = 0;
  dit = 0;
  maintainability_index = 400;
  defect_density = 0;
  quality_gate = green;
  is_shadow = false;
  is_compliant = none;
}

abbrev unknown : String → Option Info
unknown file = none

abbrev critical_alert : List (Option (Option String))
critical_alert = some (some "critical") ∷ []

abbrev exact_tenths : ℕ → ℕ → ℕ → ℕ
exact_tenths count total cap = min (10 * cap) ((20 * count * cap + total) / (2 * total))

abbrev sum : List ℕ → ℕ
sum [] = 0
sum (d ∷ ds) = d + sum ds

abbrev rounded_rest : ℕ → List ℕ → ℕ
rounded_rest base drains = (base - sum drains + 5) / 10

drains_tangled :
    apply_penalties exact_tenths rounded_rest none 900 [] unknown (some (tangled ∷ [])) sane
    ≡ some 850
unfolding apply_penalties calculate aggregate drains_of prop penalty_ceiling
drains_tangled = refl

-- A service that fails leaves the raw score as it is, whatever the alerts are.
keeps_raw :
    apply_penalties exact_tenths rounded_rest
      (some thrown)
      900
      critical_alert
      unknown
      (some (tangled ∷ []))
      fail
    ≡ some 900
unfolding apply_penalties apply_rust
keeps_raw = refl

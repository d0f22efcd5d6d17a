-- ===== src/Maintenance/Budget/Score.antt =====
-- The score of a load.
use personas_agentes.Common.{ℕ, ◌≤◌, Bool, arith}
use personas_agentes.Maintenance.Budget.{calculate_resource_score}

-- More usage and a higher temperature never raise the score.
pub score-antitone :
    (ram ram' cpu cpu' temp temp' : ℕ) (on_battery : Bool)
    → ram ≤ ram'
    → cpu ≤ cpu'
    → temp ≤ temp'
    → calculate_resource_score ram' cpu' temp' on_battery
      ≤ calculate_resource_score ram cpu temp on_battery
unfolding calculate_resource_score
score-antitone ram ram' cpu cpu' temp temp' on_battery r c t = ground arith

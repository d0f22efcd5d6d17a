-- ===== src/Governance/Compliance/Examples.antt =====
-- Alerts of two severities.
use personas_agentes.Common.{◌≤◌, ◌≡◌, refl, List, [], ◌∷◌, ◌++◌, some}
use personas_agentes.Governance.Compliance.{
  Alert, no_counts, categorize_alert, count_alerts, get_compliance_level, ceiling,
  apply_constraints, total_score,
}
use personas_agentes.Governance.Compliance.Alerts.{total_score-append-le}

abbrev mediums : List Alert
mediums = record { severity = some "medium" } ∷ record { severity = some "medium" } ∷ []

abbrev highs : List Alert
highs = record { severity = some "critical" } ∷ []

scores : total_score 700 mediums ≡ 930
unfolding total_score apply_constraints count_alerts categorize_alert get_compliance_level no_counts
scores = refl

total_score-append-le_holds :
    let c = count_alerts mediums no_counts in
    (total_score 700 (mediums ++ highs) ≤ total_score 700 mediums)
    × (total_score 700 mediums ≤ ceiling (get_compliance_level c.high c.med))
total_score-append-le_holds = total_score-append-le 700 mediums highs

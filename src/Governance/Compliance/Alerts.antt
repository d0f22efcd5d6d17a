-- ===== src/Governance/Compliance/Alerts.antt =====
-- What more alerts do to the score.
use personas_agentes.Common.{ℕ, ◌≤◌, ◌≡◌, refl, List, [], ◌∷◌, ◌++◌, arith}
use personas_agentes.Governance.Compliance.{
  Alert, Counts, no_counts, categorize_alert, count_alerts, get_compliance_level, compliance_score,
  ceiling, apply_constraints, total_score,
}

-- The second counts are at least the first in every kind that is counted.
pub record IsMore (c c' : Counts) : Type 0 where
  pub high : c.high ≤ c'.high
  pub med : c.med ≤ c'.med
  pub low : c.low ≤ c'.low

categorize-IsMore : (r : Alert) (c c' : Counts) → IsMore c c' → IsMore c (categorize_alert r c')
unfolding categorize_alert
categorize-IsMore r c c' i = record {
  high = ground (arith, i.high);
  med = ground (arith, i.med);
  low = ground (arith, i.low);
}

count_alerts-append :
    (rs qs : List Alert) (c : Counts)
    → count_alerts (rs ++ qs) c ≡ count_alerts qs (count_alerts rs c)
unfolding count_alerts
count_alerts-append [] qs c = refl
count_alerts-append (r ∷ rs) qs c = count_alerts-append rs qs (categorize_alert r c)

count_alerts-IsMore :
    (rs : List Alert) (c c' : Counts) → IsMore c c' → IsMore c (count_alerts rs c')
unfolding count_alerts
count_alerts-IsMore [] c c' i = i
count_alerts-IsMore (r ∷ rs) c c' i =
    count_alerts-IsMore rs c (categorize_alert r c') (categorize-IsMore r c c' i)

-- More alerts never raise the ceiling or the part for compliance.
level-antitone :
    (c c' : Counts)
    → IsMore c c'
    → (ceiling (get_compliance_level c'.high c'.med) ≤ ceiling (get_compliance_level c.high c.med))
      × (compliance_score (get_compliance_level c'.high c'.med)
          ≤ compliance_score (get_compliance_level c.high c.med))
unfolding get_compliance_level
level-antitone c c' i = (ground (arith, i.high, i.med), ground (arith, i.high, i.med))

-- Further alerts never raise the total score, and it never exceeds the ceiling of the level that the
-- alerts give.
pub total_score-append-le :
    (others : ℕ) (rs qs : List Alert)
    → let c = count_alerts rs no_counts in
      (total_score others (rs ++ qs) ≤ total_score others rs)
      × (total_score others rs ≤ ceiling (get_compliance_level c.high c.med))
unfolding total_score apply_constraints
total_score-append-le others rs qs =
    let c = count_alerts rs no_counts in
    let i =
      count_alerts-IsMore qs c c
        (record { high = omega arith; med = omega arith; low = omega arith }) in
    let l = level-antitone c (count_alerts qs c) i in
    (
      rw (count_alerts-append rs qs no_counts) (omega (arith, i.high, i.med, i.low, l.0, l.1)),
      omega arith,
    )

-- ===== src/Governance/Compliance.antt =====
-- src_local/core/governance/scoring_engine.ts: the parts of the score that depend on the alerts.
-- Scores are in whole tenths of a point. An alert that is no object is `none`; its severity is in
-- lower case.
pub mod Alerts
mod Examples
use personas_agentes.Common.{
  ℕ, suc, ◌+◌, ◌-◌, ◌*◌, min, String, Bool, true, false, ◌||◌, List, [], ◌∷◌, Option, none, some,
  if◌then◌else◌, ltb, str_eq, arith,
}

pub data ComplianceLevel : Type 0 where
  sovereign excellent standard substandard degraded critical : ComplianceLevel

pub record Alert : Type 0 where
  pub severity : Option String

pub record Counts : Type 0 where
  pub high : ℕ
  pub med : ℕ
  pub low : ℕ
  pub strat : ℕ

pub no_counts : Counts
no_counts = record { high = 0; med = 0; low = 0; strat = 0 }

pub categorize_alert : Alert → Counts → Counts
categorize_alert r c = elim r.severity [
  | none ↦ record c { strat = suc c.strat }
  | some sev ↦
      if str_eq sev "critical" || str_eq sev "high"
      then record c { high = suc c.high }
      else if str_eq sev "medium"
      then record c { med = suc c.med }
      else record c { low = suc c.low }
]

pub count_alerts : List Alert → Counts → Counts
unfolding categorize_alert
count_alerts [] c = c
count_alerts (r ∷ rs) c = count_alerts rs (categorize_alert r c)

abbrev pub security_score : Counts → ℕ
security_score c = 150 - c.high * 50

abbrev pub get_standard_compliance : ℕ → ComplianceLevel
get_standard_compliance m = if ltb 5 m then standard else if ltb 0 m then excellent else sovereign

pub get_compliance_level : ℕ → ℕ → ComplianceLevel
get_compliance_level h m =
    if ltb 5 h
    then critical
    else if ltb 2 h
    then degraded
    else if ltb 0 h
    then substandard
    else get_standard_compliance m

-- `vetoThreshold` of the policies times fifteen, in tenths.
abbrev pub compliance_score : ComplianceLevel → ℕ
compliance_score sovereign = 150
compliance_score excellent = 135
compliance_score standard = 105
compliance_score substandard = 75
compliance_score degraded = 45
compliance_score critical = 15

abbrev pub ceiling : ComplianceLevel → ℕ
ceiling critical = 200
ceiling degraded = 400
ceiling substandard = 600
ceiling standard = 850
ceiling excellent = 950
ceiling sovereign = 1000

pub apply_constraints : ℕ → Counts → ℕ
unfolding get_compliance_level
apply_constraints raw c =
    min raw (ceiling (get_compliance_level c.high c.med)) - (c.high * 15 + c.med * 5 + c.low) * 2

-- `calculateHealth`, where `others` is the sum of the parts that the alerts do not change.
pub total_score : ℕ → List Alert → ℕ
unfolding count_alerts apply_constraints get_compliance_level no_counts
total_score others alerts =
    let c = count_alerts alerts no_counts in
    apply_constraints
      (others + security_score c + compliance_score (get_compliance_level c.high c.med)) c

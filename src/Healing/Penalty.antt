-- ===== src/Healing/Penalty.antt =====
-- src_local/engines/healing/penalty_engine.ts: PenaltyEngine, and of
-- src_local/engines/diagnostics/strategies what it counts with: AdjustmentCalculator, CalcHelpers,
-- ThresholdHelpers, ComplianceHelpers.
-- Scores, the maintainability index and the defect density are in whole tenths, a metric that is
-- absent is 0, and a result that is not a number is `none`. A severity is in lower case; an alert
-- that is no object is `none`. What is computed in floating point is an argument: the share that a
-- count drains, in tenths, and the rounded difference of the score and the drains.
mod Examples
use personas_agentes.Common.{
  ℕ, zero, suc, ◌+◌, ◌*◌, ◌-◌, ◌/◌, min, max, String, Bool, true, false, not, ◌&&◌, ◌||◌, List, [],
  ◌∷◌, Option, none, some, if◌then◌else◌, ltb, str_eq, any, length,
}

pub data Gate : Type 0 where
  green yellow red no_gate : Gate

pub record Item : Type 0 where
  pub file : String
  pub test_status : String
  pub cyclomatic_complexity : ℕ
  pub cognitive_complexity : ℕ
  pub nesting_depth : ℕ
  pub cbo : ℕ
  pub dit : ℕ
  pub maintainability_index : ℕ
  pub defect_density : ℕ
  pub quality_gate : Gate
  pub is_shadow : Bool
  pub is_compliant : Option Bool

pub record Info : Type 0 where
  pub component_type : String
  pub complexity : ℕ

pub record Stats : Type 0 where
  pub cc : ℕ
  pub cog : ℕ
  pub nest : ℕ
  pub coupled : ℕ
  pub deep : ℕ
  pub mi_low : ℕ
  pub mi_critical : ℕ
  pub defect : ℕ
  pub gate_red : ℕ
  pub shadow : ℕ
  pub shallow : ℕ
  pub total : ℕ

abbrev pub count_if : Bool → ℕ → ℕ
count_if b n = if b then suc n else n

abbrev pub check_structural : Item → Stats → Stats
check_structural m s = record s {
  cc = count_if (ltb 20 m.cyclomatic_complexity) s.cc;
  cog = count_if (ltb 15 m.cognitive_complexity) s.cog;
  nest = count_if (ltb 3 m.nesting_depth) s.nest;
  coupled = count_if (ltb 10 m.cbo) s.coupled;
  deep = count_if (ltb 5 m.dit) s.deep;
}

abbrev pub is_red : Gate → Bool
is_red red = true
is_red _ = false

abbrev pub is_green : Gate → Bool
is_green green = true
is_green _ = false

abbrev pub is_false : Option Bool → Bool
is_false (some false) = true
is_false _ = false

abbrev pub is_logic : String → Bool
is_logic type = any (str_eq type) ("AGENT" ∷ "CORE" ∷ "LOGIC" ∷ "UTIL" ∷ "UNKNOWN" ∷ [])

abbrev pub is_shallow : Item → Option Info → Bool
is_shallow m none = false
is_shallow m (some i) =
    str_eq m.test_status "SHALLOW"
    && (is_logic i.component_type || ltb 1 i.complexity)
    && not (is_green m.quality_gate)

abbrev pub check_quality : Item → Option Info → Stats → Stats
check_quality m info s = record s {
  mi_low = count_if (ltb 0 m.maintainability_index && ltb m.maintainability_index 100) s.mi_low;
  mi_critical =
      count_if (ltb 0 m.maintainability_index && ltb m.maintainability_index 50) s.mi_critical;
  defect = count_if (ltb 10 m.defect_density) s.defect;
  gate_red = count_if (is_red m.quality_gate) s.gate_red;
  shadow = count_if (m.is_shadow && is_false m.is_compliant) s.shadow;
  shallow = count_if (is_shallow m info) s.shallow;
}

pub aggregate : List Item → (String → Option Info) → Stats → Stats
aggregate [] map_data s = s
aggregate (m ∷ ms) map_data s =
    aggregate ms map_data (check_quality m (map_data m.file) (check_structural m s))

pub calculate : List Item → (String → Option Info) → Stats
unfolding aggregate
calculate matrix map_data = aggregate matrix map_data (record {
  cc = 0;
  cog = 0;
  nest = 0;
  coupled = 0;
  deep = 0;
  mi_low = 0;
  mi_critical = 0;
  defect = 0;
  gate_red = 0;
  shadow = 0;
  shallow = 0;
  total = length matrix;
})

-- `Math.round(Math.min(cap, (count / n) * cap) * 10)`, by the rounding of a count among `n`.
pub prop : (tenths : ℕ → ℕ → ℕ → ℕ) → (total count cap : ℕ) → ℕ
prop tenths total count cap = tenths count (max 1 total) cap

pub data CognitiveStatus : Type 0 where
  fail degraded sane : CognitiveStatus

abbrev pub cog_penalty : CognitiveStatus → ℕ
cog_penalty fail = 50
cog_penalty degraded = 20
cog_penalty sane = 0

-- The adjustments whose key begins with `Quality (` or `Cognitive (`, in the order of their sum.
pub drains_of : (ℕ → ℕ → ℕ → ℕ) → Stats → CognitiveStatus → List ℕ
unfolding prop
drains_of tenths s cognitive =
    cog_penalty cognitive
    ∷ prop tenths s.total s.cc 5
    ∷ prop tenths s.total s.cog 4
    ∷ prop tenths s.total s.nest 3
    ∷ prop tenths s.total s.coupled 3
    ∷ prop tenths s.total s.deep 2
    ∷ prop tenths s.total s.mi_low 4
    ∷ prop tenths s.total s.mi_critical 3
    ∷ prop tenths s.total s.defect 3
    ∷ prop tenths s.total s.gate_red 3
    ∷ prop tenths s.total s.shadow 3
    ∷ []

-- Whether an alert has the severity.
abbrev pub has_severity : String → Option (Option String) → Bool
has_severity sev (some (some s)) = str_eq s sev
has_severity sev _ = false

pub penalty_ceiling : List (Option (Option String)) → ℕ
penalty_ceiling alerts =
    if any (has_severity "critical") alerts || any (has_severity "high") alerts
    then 70
    else if any (has_severity "medium") alerts
    then 95
    else 100

-- `Math.max(0, Math.round(Math.min(raw, ceiling) - totalDrain))`, in points, by the rounded
-- difference of a number and a sum.
abbrev pub final_score : (rounded : ℕ → List ℕ → ℕ) → (raw top : ℕ) → List ℕ → ℕ
final_score rounded raw top drains = rounded (min raw (10 * top)) drains

-- How the call of the service ends.
pub data Reply : Type 0 where
  thrown empty : Reply
  answered : ℕ → Reply

-- The exception is caught within, so that the caller never sees it.
pub apply_rust : ℕ → Reply → ℕ
apply_rust raw thrown = raw
apply_rust raw empty = raw
apply_rust raw (answered score) = score

-- `apply`, with the reply of the service if there is one, and the matrix if there is one.
pub apply_penalties :
    (tenths : ℕ → ℕ → ℕ → ℕ) (rounded : ℕ → List ℕ → ℕ)
    → Option Reply
    → (raw : ℕ) → List (Option (Option String))
    → (String → Option Info)
    → Option (List Item)
    → CognitiveStatus
    → Option ℕ
unfolding apply_rust calculate drains_of penalty_ceiling
apply_penalties tenths rounded (some reply) raw alerts map_data matrix cognitive =
    some (apply_rust raw reply)
apply_penalties tenths rounded none raw alerts map_data none cognitive = none
apply_penalties tenths rounded none raw alerts map_data (some matrix) cognitive = some (
    10
    * final_score rounded raw (penalty_ceiling alerts)
        (drains_of tenths (calculate matrix map_data) cognitive))

-- ===== src/Diagnostics/Intelligence.antt =====
-- src_local/engines/diagnostics/intelligence_control_engine.ts: IntelligenceControlEngine.
-- Paths, names and contents are texts. The files of the walk with their contents (`none` if a file
-- cannot be read), the manifests that were read, the regular expression of a technology, the number
-- of rules in the file of a persona and the percentage are arguments; descriptions and the texts of
-- recommendations are left out.
pub mod Catalog
pub mod Covered
mod Examples
use personas_agentes.Common.{
  codes, codes_eq, includes, ℕ, ◌-◌, Bool, true, false, not, ◌&&◌, ◌||◌, List, [], ◌∷◌, ◌++◌,
  Option, none, some, if◌then◌else◌, keep, find, map, length, leb, ltb, contains, get, text_eq,
}
use personas_agentes.Diagnostics.Intelligence.Catalog.{
  Category, Manifests, TechEntry, PersonaCapability, tech_catalog, super_personas, default_persona,
  tech_to_persona, manifests, package_json,
}

pub record DetectedTechnology : Type 0 where
  pub id : List ℕ
  pub name : List ℕ
  pub category : Category
  pub evidence_files : List (List ℕ)

pub record BlindspotFinding : Type 0 where
  pub tech_id : List ℕ
  pub tech_name : List ℕ
  pub category : Category
  pub evidence_files : List (List ℕ)
  pub recommended_persona_key : List ℕ

pub record CoverageReport : Type 0 where
  pub total_technologies : ℕ
  pub total_personas : ℕ
  pub covered_count : ℕ
  pub blindspot_count : ℕ
  pub coverage_percentage : ℕ
  pub technologies : List DetectedTechnology
  pub capabilities : List PersonaCapability
  pub blindspots : List BlindspotFinding

-- The first manifest that is evidence of a technology.
abbrev pub is_evidence : (List ℕ → Bool) → Manifests → List ℕ → Bool
is_evidence pattern m name = elim (get name m) [
  | none ↦ false
  | some content ↦ ltb 0 (length content) && (pattern content || codes_eq name package_json)
]

abbrev pub first_evidence : Option (List ℕ) → List (List ℕ)
first_evidence none = []
first_evidence (some name) = name ∷ []

pub manifest_evidence : (List ℕ → Bool) → TechEntry → Manifests → List (List ℕ)
manifest_evidence pattern e m =
    if e.manifest_check m then first_evidence (find (is_evidence pattern m) manifests) else []

abbrev pub with_evidence : List ℕ → List (List ℕ) → List (List ℕ)
with_evidence path found = if contains found path then found else found ++ path ∷ []

abbrev pub Files : Type 0
Files = List (List ℕ × Option (List ℕ))

-- The loop over the files, which ends with the fifth evidence.
pub collect_evidence : (List ℕ → Bool) → Files → List (List ℕ) → List (List ℕ)
collect_evidence pattern [] found = found
collect_evidence pattern ((path, none) ∷ fs) found = collect_evidence pattern fs found
collect_evidence pattern ((path, some content) ∷ fs) found =
    let matched = pattern content || pattern path in
    let more = if matched then with_evidence path found else found in
    let rest = collect_evidence pattern fs more in
    if matched && leb 5 (length more) then more else rest

-- A technology is detected if there is evidence of it.
abbrev pub detected : TechEntry → List (List ℕ) → List DetectedTechnology → List DetectedTechnology
detected e [] rest = rest
detected e (p ∷ ps) rest =
    record { id = e.id; name = e.name; category = e.category; evidence_files = p ∷ ps } ∷ rest

pub detect_project_technologies :
    (patterns : List ℕ → List ℕ → Bool)
    → Files
    → Manifests
    → List TechEntry
    → List DetectedTechnology
unfolding manifest_evidence collect_evidence
detect_project_technologies patterns files m [] = []
detect_project_technologies patterns files m (e ∷ es) =
    detected e (collect_evidence (patterns e.id) files (manifest_evidence (patterns e.id) e m))
      (detect_project_technologies patterns files m es)

-- `coveredTechIds`
pub covered_tech_ids : List PersonaCapability → List (List ℕ)
covered_tech_ids [] = []
covered_tech_ids (p ∷ ps) = p.handled_technologies ++ covered_tech_ids ps

abbrev pub recommended : List ℕ → List ℕ
recommended id = elim (get id tech_to_persona) [ none ↦ default_persona | some key ↦ key ]

abbrev pub blindspot_of : DetectedTechnology → BlindspotFinding
blindspot_of t = record {
  tech_id = t.id;
  tech_name = t.name;
  category = t.category;
  evidence_files = t.evidence_files;
  recommended_persona_key = recommended t.id;
}

pub blindspots_of : (covered : List (List ℕ)) → List DetectedTechnology → List BlindspotFinding
blindspots_of covered techs = map blindspot_of (keep (λ t. not (contains covered t.id)) techs)

pub generate_report :
    (patterns : List ℕ → List ℕ → Bool)
    → (rules : List ℕ → ℕ) → (percent : ℕ → ℕ → ℕ) → Files
    → Manifests
    → CoverageReport
unfolding detect_project_technologies covered_tech_ids blindspots_of
generate_report patterns rules percent files m =
    let techs = detect_project_technologies patterns files m tech_catalog in
    let personas = super_personas rules in
    let blindspots = blindspots_of (covered_tech_ids personas) techs in
    let covered = length techs - length blindspots in
    record {
      total_technologies = length techs;
      total_personas = length personas;
      covered_count = covered;
      blindspot_count = length blindspots;
      coverage_percentage = if ltb 0 (length techs) then percent covered (length techs) else 100;
      technologies = techs;
      capabilities = personas;
      blindspots = blindspots;
    }

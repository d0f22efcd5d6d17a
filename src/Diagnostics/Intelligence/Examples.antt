-- ===== src/Diagnostics/Intelligence/Examples.antt =====
-- A code base with one file that is written for Bun.
use native.Mathlib.Nat.{mul-div_cancel}
use personas_agentes.Common.{
  codes_eq, ◌&&◌, ◌*◌, ◌/◌, codes, includes, ℕ, ◌≡◌, refl, Bool, List, [], ◌∷◌, some, All,
}
use personas_agentes.Diagnostics.Intelligence.{
  CoverageReport, Files, collect_evidence, manifest_evidence, generate_report,
  detect_project_technologies,
}
use personas_agentes.Diagnostics.Intelligence.Catalog.{Manifests}
use personas_agentes.Diagnostics.Intelligence.Covered.{
  Supported, generate_report-covered, detect_project_technologies-Supported,
}
use personas_agentes.Diagnostics.Intelligence.Catalog.{tech_catalog, super_personas}

abbrev patterns : List ℕ → List ℕ → Bool
patterns id text = codes_eq id (codes "ts_bun") && includes (codes "Bun.serve") text

abbrev files : Files
files = (codes "a.ts", some (codes "Bun.serve()")) ∷ []

abbrev manifests_read : Manifests
manifests_read = (codes "package.json", codes "typescript") ∷ []

abbrev percent : ℕ → ℕ → ℕ
percent a b = 100 * a / b

abbrev report : CoverageReport
report = generate_report patterns (λ p. 0) percent files manifests_read

generate_report-covered_example :
    (report.blindspots ≡ [])
    × ((report.covered_count ≡ report.total_technologies) × (report.coverage_percentage ≡ 100))
generate_report-covered_example =
    generate_report-covered patterns (λ p. 0) percent (λ n h. mul-div_cancel 100 h) files
      manifests_read

detect_project_technologies-Supported_holds :
    All Supported (detect_project_technologies patterns files manifests_read tech_catalog)
detect_project_technologies-Supported_holds =
    detect_project_technologies-Supported patterns files manifests_read tech_catalog

technologies_found : report.total_technologies ≡ 1
unfolding generate_report detect_project_technologies collect_evidence manifest_evidence
    tech_catalog super_personas
technologies_found = refl

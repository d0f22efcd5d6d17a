-- ===== src/Diagnostics/Scorecard/Examples.antt =====
-- The scan of a small workspace.
use personas_agentes.Common.{
  codes, is_space, ℕ, ◌≡◌, refl, List, [], ◌∷◌, ◌++◌, take, some, true, false, Entries, plain,
  directory, end, entry, paths_in, text_eq,
}
use personas_agentes.Diagnostics.Scorecard.{
  is_ignored, is_scanned, walk_entries, collect_source_files, collect_tested_modules, measure,
  collect_scorecard_metrics, Surroundings,
}
use personas_agentes.Diagnostics.Scorecard.Limit.{collect_source_files-take}

abbrev slash : List ℕ → List ℕ → List ℕ
slash path name = path ++ codes "/" ++ name

abbrev workspace : Entries
workspace = entry (directory (codes "dist") (entry (plain (codes "a.ts")) end)) (
    entry (plain (codes "b.ts")) (
      entry (plain (codes "b.test.ts"))
        (entry (directory (codes "lib") (entry (plain (codes "c.go")) end)) end)))

collect_source_files-take_example :
    collect_source_files slash 1 (codes "r") workspace
    ≡ take 1 (paths_in slash is_ignored is_scanned (codes "r") workspace)
collect_source_files-take_example = collect_source_files-take slash 1 (codes "r") workspace

scans_workspace :
    collect_source_files slash 9 (codes "r") workspace ≡ codes "r/b.ts" ∷ codes "r/lib/c.go" ∷ []
unfolding collect_source_files walk_entries
scans_workspace = refl

abbrev files : Surroundings
files = record {
  read_file = λ p. some (codes "// a\nlogger.info()");
  exists = λ p. true;
  normalize = λ p. p;
  relative = λ p. p;
  imports = λ p t. codes "r/b" ∷ [];
}

measures_workspace :
    (collect_scorecard_metrics slash files true
      (codes "r")
      workspace
      (entry (plain (codes "b.test.ts")) end)).files
    ≡ (codes "r/b.ts", record { has_test = true; telemetry = true; documented = true })
      ∷ (codes "r/lib/c.go", record { has_test = false; telemetry = true; documented = true })
      ∷ []
unfolding collect_scorecard_metrics collect_source_files walk_entries collect_tested_modules
    paths_in measure is_space
measures_workspace = refl

-- ===== src/Core/TestEngine/Examples.antt =====
-- A plan for two source files, and the metrics of a small directory.
use personas_agentes.Common.{
  codes, ℕ, ◌/◌, ◌*◌, ◌≤◌, ◌≡◌, refl, true, false, List, [], ◌∷◌, ◌++◌, All, length, text_eq, plain,
  paths_in, directory, end, entry,
}
use personas_agentes.Core.TestEngine.{
  PyramidMetrics, TestGenerationPlan, Findings, plan_tests, walk_dir, metrics_of,
  scan_pyramid_metrics,
}
use personas_agentes.Core.TestEngine.Planning.{Fills, plan_tests-shares, plan_tests-missing}

abbrev slash : List ℕ → List ℕ → List ℕ
slash path name = path ++ codes "/" ++ name

abbrev no_tests : PyramidMetrics
no_tests = record {
  unit_tests = 0;
  integration_tests = 0;
  e2e_tests = 0;
  total_source_files = 2;
  unit_percent = 0;
  integration_percent = 0;
  e2e_percent = 0;
  pyramid_healthy = false;
}

abbrev two_files : Findings
two_files = record {
  nodes = codes "src_local/a.ts" ∷ codes "src_local/b.ts" ∷ [];
  integration_pairs = [];
  e2e_candidates = [];
  regeneration_queue = [];
}

-- No file is there.
abbrev plan : TestGenerationPlan
plan = plan_tests slash (λ p. false) (codes "r") (codes "src_local") no_tests two_files

plan_tests-missing_holds : All (λ n. false ≡ false) plan.unit_targets
plan_tests-missing_holds =
    plan_tests-missing slash (λ p. false) (codes "r") (codes "src_local") no_tests two_files

plan_tests-shares_example :
    (Fills 80 2 0 plan.unit_tests_needed × (length plan.unit_targets ≤ plan.unit_tests_needed))
    × ((Fills 15 2 0 plan.integration_tests_needed
          × (length plan.integration_targets ≤ plan.integration_tests_needed))
        × (Fills 5 2 0 plan.e2e_tests_needed × (length plan.e2e_targets ≤ plan.e2e_tests_needed)))
plan_tests-shares_example =
    plan_tests-shares slash (λ p. false) (codes "r") (codes "src_local") no_tests two_files

-- Both files exist, so none of them is a target, though neither has a test.
plans_nothing :
    (plan_tests slash (λ p. true) (codes "r") (codes "src_local") no_tests two_files).unit_targets
    ≡ []
unfolding plan_tests
plans_nothing = refl

counts_files :
    (scan_pyramid_metrics
      (λ a b. 100 * a / b)
      slash
      (λ p. p)
      (codes "r")
      (entry (plain (codes "a.ts")) (
        entry
          (plain (codes "a.test.ts"))
          (entry (directory (codes "build") (entry (plain (codes "b.test.ts")) end)) end)))
      80).unit_tests
    ≡ 1
unfolding scan_pyramid_metrics metrics_of walk_dir paths_in
counts_files = refl

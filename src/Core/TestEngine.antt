-- ===== src/Core/TestEngine.antt =====
-- src_local/core/test_engine.ts: TestEngine, the metrics, the plan and the tasks.
-- A text is the list of its character codes. `join` puts a name behind a path, `name_of` is
-- `path.basename`. The dependency graph and the auditor are other engines: their results are
-- arguments, as is the rounded percentage of two numbers. The queue is a state `Q` with its `enqueue`.
-- A percentage is compared without rounding.
pub mod Generation
pub mod Planning
mod Examples
use personas_agentes.Common.{
  codes, codes_eq, ends_with, includes, ℕ, zero, suc, ◌+◌, ◌*◌, ◌-◌, ◌/◌, Bool, true, false, not,
  ◌&&◌, ◌||◌, List, [], ◌∷◌, ◌++◌, map, Option, none, some, if◌then◌else◌, keep, any, length, take,
  leb, ltb, nat_beq, Entries, paths_in,
}

pub data Layer : Type 0 where
  unit integration e2e : Layer

pub data TaskType : Type 0 where
  unit_test_gen integration_test_gen e2e_test_gen : TaskType

pub record TestAuditResult : Type 0 where
  pub test_file : List ℕ
  pub source_file : List ℕ

pub record PyramidMetrics : Type 0 where
  pub unit_tests : ℕ
  pub integration_tests : ℕ
  pub e2e_tests : ℕ
  pub total_source_files : ℕ
  pub unit_percent : ℕ
  pub integration_percent : ℕ
  pub e2e_percent : ℕ
  pub pyramid_healthy : Bool

pub record TestGenerationPlan : Type 0 where
  pub unit_tests_needed : ℕ
  pub integration_tests_needed : ℕ
  pub e2e_tests_needed : ℕ
  pub unit_targets : List (List ℕ)
  pub integration_targets : List (List ℕ × List ℕ)
  pub e2e_targets : List (List ℕ)
  pub regeneration_targets : List TestAuditResult

abbrev pub map_layer_to_task_type : List ℕ → TaskType
map_layer_to_task_type test_file =
    if ends_with (codes ".e2e.test.ts") test_file
    then e2e_test_gen
    else if ends_with (codes ".integration.test.ts") test_file
    then integration_test_gen
    else unit_test_gen

abbrev pub is_skipped_dir : List ℕ → Bool
is_skipped_dir name =
    any (λ d. codes_eq (codes d) name)
      ("node_modules" ∷ ".git" ∷ "target" ∷ "build" ∷ ".gemini" ∷ [])

-- The list that a file is pushed to.
pub data FileKind : Type 0 where
  test : Layer → FileKind
  source other : FileKind

abbrev pub kind_of : List ℕ → FileKind
kind_of name =
    if not (ends_with (codes ".ts") name)
    then other
    else if ends_with (codes ".e2e.test.ts") name
    then test e2e
    else if ends_with (codes ".integration.test.ts") name
    then test integration
    else if ends_with (codes ".test.ts") name
    then test unit
    else source

abbrev pub is_test_of : Layer → FileKind → Bool
is_test_of unit (test unit) = true
is_test_of integration (test integration) = true
is_test_of e2e (test e2e) = true
is_test_of _ _ = false

abbrev pub is_source : FileKind → Bool
is_source source = true
is_source _ = false

-- `total > 0 ? Math.round((part / total) * 100) : 0`, by the rounded percentage of two numbers.
abbrev pub percent_of : (percent : ℕ → ℕ → ℕ) → ℕ → ℕ → ℕ
percent_of percent part zero = 0
percent_of percent part (suc total) = percent part (suc total)

abbrev pub at_least : ℕ → ℕ → ℕ → Bool
at_least p part zero = leb p 0
at_least p part (suc total) = leb (p * suc total) (100 * part)

abbrev pub at_most : ℕ → ℕ → ℕ → Bool
at_most p part zero = true
at_most p part (suc total) = leb (100 * part) (p * suc total)

-- The metrics of the numbers of tests.
pub metrics_of :
    (percent : ℕ → ℕ → ℕ) → (units integrations e2es sources health_score : ℕ) → PyramidMetrics
metrics_of percent u i e s health_score =
    let total = u + i + e in
    record {
      unit_tests = u;
      integration_tests = i;
      e2e_tests = e;
      total_source_files = s;
      unit_percent = percent_of percent u total;
      integration_percent = percent_of percent i total;
      e2e_percent = percent_of percent e total;
      pyramid_healthy =
          at_least 70 u total
          && at_least 10 i total
          && at_most 25 i total
          && at_most 10 e total
          && leb 80 health_score;
    }

module _ (percent : ℕ → ℕ → ℕ) (join : List ℕ → List ℕ → List ℕ) (name_of : List ℕ → List ℕ) where
  -- `walkDir`: every file that is not in an ignored directory.
  pub walk_dir : List ℕ → Entries → List (List ℕ)
  walk_dir dir inside = paths_in join is_skipped_dir (λ name. true) dir inside

  abbrev pub tests_of : Layer → List (List ℕ) → List (List ℕ)
  tests_of layer = keep (λ p. is_test_of layer (kind_of (name_of p)))

  pub scan_pyramid_metrics : List ℕ → Entries → ℕ → PyramidMetrics
  unfolding walk_dir metrics_of
  scan_pyramid_metrics root inside health_score =
      let files = walk_dir root inside in
      metrics_of percent (length (tests_of unit files)) (length (tests_of integration files))
        (length (tests_of e2e files)) (length (keep (λ p. is_source (kind_of (name_of p))) files))
        health_score

-- `Math.ceil` of a share of the source files.
abbrev pub ceil_percent : ℕ → ℕ → ℕ
ceil_percent p n = (p * n + 99) / 100

-- What the dependency graph and the auditor found.
pub record Findings : Type 0 where
  pub nodes : List (List ℕ)
  pub integration_pairs : List (List ℕ × List ℕ)
  pub e2e_candidates : List (List ℕ)
  pub regeneration_queue : List TestAuditResult

-- The path that the filter of the targets looks up.
abbrev pub looked_up :
    (join : List ℕ → List ℕ → List ℕ) → (project_root src_dir file : List ℕ) → List ℕ
looked_up join project_root src_dir file =
    if includes (codes "src_local") file
    then join project_root file
    else join project_root (join src_dir file)

pub plan_tests :
    (join : List ℕ → List ℕ → List ℕ)
    → (exists : List ℕ → Bool) → (project_root src_dir : List ℕ) → PyramidMetrics
    → Findings
    → TestGenerationPlan
plan_tests join exists project_root src_dir m f =
    let total = length f.nodes in
    let unit_needed = ceil_percent 80 total - m.unit_tests in
    let integration_needed = ceil_percent 15 total - m.integration_tests in
    let e2e_needed = ceil_percent 5 total - m.e2e_tests in
    let untested = keep (λ n. not (exists (looked_up join project_root src_dir n))) f.nodes in
    record {
      unit_tests_needed = unit_needed;
      integration_tests_needed = integration_needed;
      e2e_tests_needed = e2e_needed;
      unit_targets = take unit_needed untested;
      integration_targets = take integration_needed f.integration_pairs;
      e2e_targets = take e2e_needed f.e2e_candidates;
      regeneration_targets = f.regeneration_queue;
    }

abbrev pub TestTask : Type 0
TestTask = TaskType × List ℕ

module _ {Q : Type 0} (enqueue : TestTask → Q → Bool × Q) where
  -- A loop that enqueues one task for each target, with the tasks that were counted before.
  pub enqueue_all {ℓ} : {A : Type ℓ} → (A → TestTask) → List A → ℕ × Q → ℕ × Q
  enqueue_all f [] (n, q) = (n, q)
  enqueue_all f (x ∷ xs) (n, q) =
      let (success, r) = enqueue (f x) q in enqueue_all f xs ((if success then suc n else n), r)

  -- The four loops of `runTestGeneration`.
  pub run_test_generation : TestGenerationPlan → Q → ℕ × Q
  unfolding enqueue_all
  run_test_generation plan q =
      enqueue_all (λ t. (e2e_test_gen, t)) plan.e2e_targets
        (enqueue_all (λ t. (integration_test_gen, t.0 ++ codes "|" ++ t.1)) plan.integration_targets
          (enqueue_all (λ t. (unit_test_gen, t)) plan.unit_targets
            (enqueue_all (λ t. (map_layer_to_task_type t.test_file, t.source_file))
              plan.regeneration_targets (0, q))))

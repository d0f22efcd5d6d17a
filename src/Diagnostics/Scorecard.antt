-- ===== src/Diagnostics/Scorecard.antt =====
-- src_local/engines/diagnostics/code_scorecard.ts: the scan of the source files and its metrics.
-- A text is the list of its character codes, a directory the tree of what it holds; one that cannot
-- be read is empty. `join`, `normalize`, `relative`, `resolve` and the reading of files are
-- arguments, as are the imports that a regular expression finds. The complexity, an average of
-- fractions, is left out.
pub mod Limit
mod Examples
use personas_agentes.Common.{
  codes, codes_eq, ends_with, starts_with, includes, skip_space, is_nil, ℕ, zero, suc, Bool, true,
  false, not, ◌&&◌, ◌||◌, List, [], ◌∷◌, ◌++◌, map, String, Option, none, some, if◌then◌else◌, keep,
  any, length, take, leb, ltb, nat_beq, contains, put, text_eq, Entry, plain, directory, Entries,
  end, entry, paths_in, drop,
}

abbrev pub unscanned_dirs : List String
unscanned_dirs =
    "node_modules" ∷ ".git" ∷ "dist" ∷ "build" ∷ "target" ∷ "target_alt" ∷ "target_v3" ∷ "bin"
    ∷ ".agent" ∷ ".gemini" ∷ ".jules" ∷ ".opencode" ∷ "obj" ∷ "__pycache__" ∷ ".psa_sessions"
    ∷ ".psa_skills" ∷ ".dsh_sessions" ∷ []

abbrev pub is_ignored : List ℕ → Bool
is_ignored name = any (λ d. codes_eq (codes d) name) unscanned_dirs

-- `SOURCE_EXT.test`
abbrev pub has_source_ext : List ℕ → Bool
has_source_ext name =
    any (λ e. ends_with (codes e) name)
      (".ts" ∷ ".tsx" ∷ ".js" ∷ ".jsx" ∷ ".go" ∷ ".rs" ∷ ".zig" ∷ ".py" ∷ ".cs" ∷ [])

abbrev pub is_scanned : List ℕ → Bool
is_scanned name =
    has_source_ext name && not (includes (codes ".test.") name || includes (codes ".spec.") name)

abbrev pub is_test_name : List ℕ → Bool
is_test_name name = ends_with (codes ".test.ts") name || ends_with (codes ".spec.ts") name

module _ (join : List ℕ → List ℕ → List ℕ) (limit : ℕ) where
  -- `walk` on one entry and on the entries from one on, with `out` what was pushed before.
  unfoldable mutual
    pub visit : List (List ℕ) → List ℕ → Entry → List (List ℕ)
    visit out path (plain name) = if is_scanned name then out ++ join path name ∷ [] else out
    visit out path (directory name inside) =
        let below = walk_entries out (join path name) inside in
        if is_ignored name then out else if leb limit (length out) then out else below

    pub walk_entries : List (List ℕ) → List ℕ → Entries → List (List ℕ)
    walk_entries out path end = out
    walk_entries out path (entry e es) =
        let next = walk_entries (visit out path e) path es in
        if leb limit (length out) then out else next

  pub collect_source_files : List ℕ → Entries → List (List ℕ)
  unfolding walk_entries
  collect_source_files root inside =
      let all = walk_entries [] root inside in if leb limit 0 then [] else all

-- What the scan is given of the file system.
pub record Surroundings : Type 0 where
  pub read_file : List ℕ → Option (List ℕ)
  pub exists : List ℕ → Bool
  pub normalize : List ℕ → List ℕ
  pub relative : List ℕ → List ℕ
  -- The imports of a text, resolved at the directory of its file, without `.ts`.
  pub imports : (path content : List ℕ) → List (List ℕ)

module _ (join : List ℕ → List ℕ → List ℕ) (s : Surroundings) where
  abbrev pub add_existing : List (List ℕ) → List (List ℕ) → List (List ℕ)
  add_existing [] tested = tested
  add_existing (candidate ∷ cs) tested =
      add_existing cs (if s.exists candidate then s.normalize candidate ∷ tested else tested)

  abbrev pub add_imports : List (List ℕ) → List (List ℕ) → List (List ℕ)
  add_imports [] tested = tested
  add_imports (resolved ∷ rs) tested =
      add_imports rs
        (add_existing ((resolved ++ codes ".ts") ∷ join resolved (codes "index.ts") ∷ []) tested)

  abbrev pub add_test : List ℕ → Option (List ℕ) → List (List ℕ) → List (List ℕ)
  add_test path none tested = tested
  add_test path (some content) tested = add_imports (s.imports path content) tested

  abbrev pub add_tests : List (List ℕ) → List (List ℕ) → List (List ℕ)
  add_tests [] tested = tested
  add_tests (path ∷ paths) tested = add_tests paths (add_test path (s.read_file path) tested)

  -- The set that `collectTestedModules` fills, as the list of what was added, the last first.
  pub collect_tested_modules : List ℕ → Entries → List (List ℕ)
  collect_tested_modules tests_dir inside =
      add_tests (paths_in join is_ignored is_test_name tests_dir inside) []

abbrev pub has_telemetry : List ℕ → Bool
has_telemetry content =
    any (λ w. includes (codes w) content)
      ("logger." ∷ "winston" ∷ "eventBus.emit" ∷ "recordMetric" ∷ "performance.now" ∷ "console.log"
        ∷ "console.info" ∷ "console.warn" ∷ "console.error" ∷ [])

-- `\s*\/\/\s*\S` at the beginning of a text.
abbrev pub is_line_comment : List ℕ → Bool
is_line_comment text =
    starts_with (codes "//") (skip_space text)
    && not (is_nil (skip_space (drop 2 (skip_space text))))

-- `^\s*\/\/\s*\S` at the line ends from here on.
abbrev pub has_line_comment : List ℕ → Bool
has_line_comment [] = false
has_line_comment (c ∷ cs) = (is_line_end c && is_line_comment cs) || has_line_comment cs
  where
    is_line_end : ℕ → Bool
    is_line_end c = nat_beq c 10 || nat_beq c 13 || nat_beq c 8232 || nat_beq c 8233

-- Whether `hasPurpose` says that the file is documented.
abbrev pub has_purpose : List ℕ → Bool
has_purpose content =
    let head = take 800 content in
    includes (codes "/**") head
    || includes (codes "///") head
    || is_line_comment head
    || has_line_comment head

pub record FileMetrics : Type 0 where
  pub has_test : Bool
  pub telemetry : Bool
  pub documented : Bool

pub record ScorecardMetrics : Type 0 where
  pub files : List (List ℕ × FileMetrics)
  pub total_files : ℕ

abbrev pub file_metrics : List (List ℕ) → List ℕ → List ℕ → FileMetrics
file_metrics tested normal content = record {
  has_test = contains tested normal;
  telemetry = has_telemetry content;
  documented = has_purpose content;
}

module _ (s : Surroundings) (tested : List (List ℕ)) where
  -- The loop over the targets; a file that cannot be read is passed over.
  pub measure : List (List ℕ) → List (List ℕ × FileMetrics) → List (List ℕ × FileMetrics)
  measure [] files = files
  measure (abs ∷ targets) files = elim (s.read_file abs) [
    | none ↦ measure targets files
    | some content ↦
        measure targets (put (s.relative abs) (file_metrics tested (s.normalize abs) content) files)
  ]

-- The scope: `full`, or another.
abbrev pub limit_of : Bool → ℕ
limit_of full = if full then 5000 else 250

pub collect_scorecard_metrics :
    (join : List ℕ → List ℕ → List ℕ)
    → Surroundings
    → (full : Bool) → (root : List ℕ) → (inside tests : Entries) → ScorecardMetrics
unfolding collect_source_files collect_tested_modules measure
collect_scorecard_metrics join s full root inside tests =
    let targets = collect_source_files join (limit_of full) root inside in
    let tested = collect_tested_modules join s (join root (codes "tests")) tests in
    record { files = measure s tested targets []; total_files = length targets }

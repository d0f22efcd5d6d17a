-- ===== src/Diagnostics/Audit.antt =====
-- src_local/engines/diagnostics/audit_code_guardian_service.ts: TestAuditor.
-- A text is the list of its character codes. The files of the walk, the reading of a file, `relative`
-- and the two forms of `path.basename` are arguments, and so is the rounded percentage of two numbers,
-- which is computed in floating point; the texts of the reasons are left out, and so are the signals
-- that no level reads.
pub mod Numbers
pub mod Gate
mod Examples
use personas_agentes.Common.{
  codes, ends_with, includes, after, trim_codes, ℕ, zero, suc, ◌+◌, ◌*◌, ◌/◌, Bool, true, false,
  not, ◌&&◌, ◌||◌, List, [], ◌∷◌, ◌++◌, Option, none, some, if◌then◌else◌, keep, any, length, leb,
  ltb,
}
use personas_agentes.Core.TestEngine.Generation.{count_expects}

pub data TestQualityLevel : Type 0 where
  smoke basic good phd : TestQualityLevel

pub record AuditedTest : Type 0 where
  pub test_file : List ℕ
  pub source_file : List ℕ
  pub level : TestQualityLevel
  pub expect_count : ℕ
  pub should_regenerate : Bool

abbrev pub has_mock : List ℕ → Bool
has_mock content = any (λ w. includes (codes w) content) ("mock(" ∷ "spyOn(" ∷ "Mock" ∷ [])

abbrev pub has_edge_cases : List ℕ → Bool
has_edge_cases content =
    any (λ w. includes (codes w) content)
      ("null" ∷ "undefined" ∷ "empty" ∷ "NaN" ∷ "Infinity" ∷ "[]" ∷ "''" ∷ "\"\"" ∷ [])

abbrev pub has_async : List ℕ → Bool
has_async content = includes (codes "async") content && includes (codes "await") content

abbrev pub has_trivial_assert : List ℕ → Bool
has_trivial_assert content =
    any (λ w. includes (codes w) content)
      ("expect(true).toBe(true)" ∷ "expect(1).toBe(1)" ∷ "expect(true).toBeTruthy()" ∷ [])

abbrev pub imports_source : (base content : List ℕ) → Bool
imports_source base content =
    includes (codes "from") content
    && (includes base content || includes (codes "./" ++ base) content)

-- The level before the test of the length.
pub grade_long : (base content : List ℕ) → TestQualityLevel
grade_long base content =
    let expects = count_expects content in
    if has_trivial_assert content && leb expects 2
    then smoke
    else if not (imports_source base content)
    then smoke
    else if ltb expects 3
    then basic
    else if not (has_mock content) && not (has_edge_cases content) && ltb expects 5
    then basic
    else if leb 5 expects && has_edge_cases content && (has_mock content || has_async content)
    then phd
    else good

pub grade : (base content : List ℕ) → TestQualityLevel
unfolding grade_long
grade base content = if ltb (length (trim_codes content)) 50 then smoke else grade_long base content

-- `shouldRegenerate`, which each branch sets with its level.
abbrev pub regenerates : TestQualityLevel → Bool
regenerates smoke = true
regenerates basic = true
regenerates good = false
regenerates phd = false

-- `replace` of the first occurrence of a text.
abbrev pub replace_first : (part by text : List ℕ) → List ℕ
replace_first part by [] = []
replace_first part by (c ∷ cs) = elim (after part (c ∷ cs)) [
  | some rest ↦ by ++ rest
  | none ↦ c ∷ replace_first part by cs
]

-- The source of a test, by the name of its file.
abbrev pub source_of : (name path : List ℕ) → List ℕ
source_of name path =
    if ends_with (codes ".e2e.test.ts") name
    then replace_first (codes ".e2e.test.ts") (codes ".ts") path
    else if ends_with (codes ".integration.test.ts") name
    then replace_first (codes ".integration.test.ts") (codes ".ts") path
    else replace_first (codes ".test.ts") (codes ".ts") path

pub record Report : Type 0 where
  pub total : ℕ
  pub smokes : ℕ
  pub basics : ℕ
  pub goods : ℕ
  pub phds : ℕ
  pub regeneration_queue : List AuditedTest
  pub health_score : ℕ

abbrev pub is_level : TestQualityLevel → TestQualityLevel → Bool
is_level smoke smoke = true
is_level basic basic = true
is_level good good = true
is_level phd phd = true
is_level _ _ = false

abbrev pub of_level : TestQualityLevel → List AuditedTest → ℕ
of_level l results = length (keep (λ r. is_level l r.level) results)

-- The score, by the rounded percentage that one number is of another.
pub health_of : (percent : ℕ → ℕ → ℕ) → (goods phds total : ℕ) → ℕ
health_of percent goods phds zero = 0
health_of percent goods phds (suc n) = percent (goods * 70 + phds * 100) (suc n * 100)

pub report_of : (ℕ → ℕ → ℕ) → List AuditedTest → Report
unfolding health_of
report_of percent results = record {
  total = length results;
  smokes = of_level smoke results;
  basics = of_level basic results;
  goods = of_level good results;
  phds = of_level phd results;
  regeneration_queue = keep (λ r. r.should_regenerate) results;
  health_score = health_of percent (of_level good results) (of_level phd results) (length results);
}

abbrev pub push : Option AuditedTest → List AuditedTest → List AuditedTest
push none rs = rs
push (some r) rs = r ∷ rs

module _ (read_file : List ℕ → Option (List ℕ)) (relative name_of stem_of : List ℕ → List ℕ) where
  -- The result for the text of a test, if it can be read.
  pub audit_content : List ℕ → Option (List ℕ) → Option AuditedTest
  unfolding grade
  audit_content path none = none
  audit_content path (some content) =
      let source = source_of (name_of path) path in
      let level = grade (stem_of source) content in
      some (record {
        test_file = relative path;
        source_file = relative source;
        level = level;
        expect_count = count_expects content;
        should_regenerate = regenerates level;
      })

  pub audit_single_test : List ℕ → Option AuditedTest
  unfolding audit_content
  audit_single_test path = audit_content path (read_file path)

  pub audit_files : List (List ℕ) → List AuditedTest
  unfolding audit_single_test
  audit_files [] = []
  audit_files (path ∷ paths) =
      let rest = audit_files paths in
      if ends_with (codes ".test.ts") (name_of path)
      then push (audit_single_test path) rest
      else rest

  pub audit_all : (percent : ℕ → ℕ → ℕ) → List (List ℕ) → Report
  unfolding audit_files report_of
  audit_all percent paths = report_of percent (audit_files paths)

-- ===== src/Diagnostics/Audit/Gate.antt =====
-- What the auditor makes of the tests that the gate of the test engine lets through.
use personas_agentes.Common.{
  codes, includes, trim_codes, ℕ, ◌≤◌, ◌≡◌, refl, ◌∙◌, ap, inl, inr, Bool, true, false, not, ◌&&◌,
  ◌||◌, List, some, if◌then◌else◌, length, ltb, leb, arith, Bool-cases,
}
use personas_agentes.Core.TestEngine.{Layer, e2e}
use personas_agentes.Core.TestEngine.Generation.{Analysis, count_expects, validate_generated_test}
use personas_agentes.Core.TestEngine.Generation.Accepted.{validated-imports}
use personas_agentes.Diagnostics.Audit.{
  TestQualityLevel, smoke, basic, good, phd, has_mock, has_edge_cases, has_async,
  has_trivial_assert, imports_source, grade_long, grade, regenerates,
}

-- A branch by a test that fails.
skipped : {A : Type 0} (b : Bool) (x y : A) → b ≡ false → (if b then x else y) ≡ y
skipped b x y e = rw e refl

taken : {A : Type 0} (b : Bool) (x y : A) → b ≡ true → (if b then x else y) ≡ x
taken b x y e = rw e refl

-- The branches of the grade for a text that imports its source and has five assertions.
long-kept :
    (trivial imports mock edges async : Bool) (n : ℕ)
    → imports ≡ true
    → 5 ≤ n
    → regenerates (
        if trivial && leb n 2
        then smoke
        else if not imports
        then smoke
        else if ltb n 3
        then basic
        else if not mock && not edges && ltb n 5
        then basic
        else if leb 5 n && edges && (mock || async)
        then phd
        else good)
      ≡ false
long-kept trivial imports mock edges async n i h = ground (arith, i, h)

-- A generated test that passes the gate, names its source, has five assertions and fifty characters
-- beside its white space is not queued for regeneration.
pub grade-kept :
    (base_name : List ℕ → List ℕ) (code target : List ℕ) (layer : Layer) (a : Analysis)
    → validate_generated_test base_name (some code) target layer a ≡ true
    → includes (base_name target) code ≡ true
    → 5 ≤ count_expects code
    → 50 ≤ length (trim_codes code)
    → regenerates (grade (base_name target) code) ≡ false
unfolding grade grade_long
grade-kept base_name code target layer a v i h l =
    let from_found : includes (codes "from") code ≡ true =
      ground (arith, validated-imports base_name code target layer a v) in
    ap regenerates (
      skipped (ltb (length (trim_codes code)) 50) smoke (grade_long (base_name target) code)
        (ground (arith, l)))
    ∙ long-kept (has_trivial_assert code) (imports_source (base_name target) code) (has_mock code)
        (has_edge_cases code) (has_async code) (count_expects code) (ground (arith, from_found, i))
        h

long-requeued :
    (trivial imports : Bool) (x : TestQualityLevel) (n : ℕ)
    → n ≤ 2
    → regenerates (
        if trivial && leb n 2
        then smoke
        else if not imports
        then smoke
        else if ltb n 3
        then basic
        else x)
      ≡ true
long-requeued trivial imports x n h = ground (arith, h)

-- An end-to-end test that passes the gate with two assertions is queued for regeneration.
pub grade-requeued :
    (base_name : List ℕ → List ℕ) (code target : List ℕ) (a : Analysis)
    → validate_generated_test base_name (some code) target e2e a ≡ true
    → count_expects code ≤ 2
    → regenerates (grade (base_name target) code) ≡ true
unfolding grade grade_long
grade-requeued base_name code target a v h = elim (Bool-cases (ltb (length (trim_codes code)) 50)) [
  | inl e ↦
      ap regenerates
        (taken (ltb (length (trim_codes code)) 50) smoke (grade_long (base_name target) code) e)
  | inr e ↦
      ap regenerates
        (skipped (ltb (length (trim_codes code)) 50) smoke (grade_long (base_name target) code) e)
      ∙ long-requeued (has_trivial_assert code) (imports_source (base_name target) code) _
          (count_expects code) h
]

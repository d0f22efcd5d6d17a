-- ===== src/Diagnostics/Audit/Examples.antt =====
-- A report of two tests, and a generated test that is kept.
use native.Mathlib.Nat.{div-lt_iff_lt-mul}
use personas_agentes.Common.{
  keep, zero, suc, ◌*◌, ◌/◌, ◌<◌, codes, is_space, ℕ, ◌+◌, ◌≤◌, ◌≡◌, refl, true, false, List, [],
  ◌∷◌, Option, none, some, length, arith,
}
use personas_agentes.Core.TestEngine.{unit}
use personas_agentes.Core.TestEngine.Generation.{validate_generated_test}
use personas_agentes.Diagnostics.Audit.{
  Report, grade, grade_long, regenerates, audit_content, audit_single_test, audit_files, audit_all,
  report_of, health_of, source_of,
}
use personas_agentes.Diagnostics.Audit.Numbers.{is_low, audit_all-numbers}
use personas_agentes.Diagnostics.Audit.Gate.{grade-kept}

abbrev kept : List ℕ
kept =
    codes
      "import { a } from './a'; describe('a', () => { it('b', () => { expect(a(1)); expect(a(2)); expect(a(3)); expect(a(4)); expect(a(5)); }); });"

abbrev name_of_source : List ℕ → List ℕ
name_of_source path = codes "a"

kept-validated : validate_generated_test name_of_source (some kept) (codes "a.ts") unit none ≡ true
unfolding validate_generated_test
kept-validated = refl

grade-kept_holds : regenerates (grade (codes "a") kept) ≡ false
unfolding is_space
grade-kept_holds =
    grade-kept name_of_source kept (codes "a.ts") unit none kept-validated refl (omega arith)
      (omega arith)

abbrev read_file : List ℕ → Option (List ℕ)
read_file path = some kept

abbrev percent : ℕ → ℕ → ℕ
percent a zero = 0
percent a (suc n) = (2 * (100 * a) + suc n) / (2 * suc n)

percent-le : (a b : ℕ) → 0 < b → a ≤ b → percent a b ≤ 100
percent-le a zero p h = omega arith
percent-le a (suc n) p h =
    let below : 2 * (100 * a) + suc n < 101 * (2 * suc n) = omega (arith, h) in
    omega (arith, (div-lt_iff_lt-mul {k = 2 * suc n} (omega arith)).1 below)

abbrev report : Report
report =
    audit_all read_file (λ p. p) (λ p. p) name_of_source percent
      (codes "a.test.ts" ∷ codes "a.ts" ∷ [])

audit_all-numbers_example :
    (report.smokes + report.basics + report.goods + report.phds ≡ report.total)
    × (((length report.regeneration_queue ≡ report.smokes + report.basics)
          × (report.regeneration_queue
              ≡ keep is_low (
                  audit_files read_file
                    (λ p. p)
                    (λ p. p)
                    name_of_source
                    (codes "a.test.ts" ∷ codes "a.ts" ∷ []))))
        × (report.health_score ≤ 100))
audit_all-numbers_example =
    audit_all-numbers read_file (λ p. p) (λ p. p) name_of_source percent percent-le
      (codes "a.test.ts" ∷ codes "a.ts" ∷ [])

grades_health : report.health_score ≡ 70
unfolding audit_all audit_files audit_single_test audit_content grade grade_long report_of health_of
    is_space
grades_health = refl

finds_source : source_of (codes "b.e2e.test.ts") (codes "a/b.e2e.test.ts") ≡ codes "a/b.ts"
finds_source = refl

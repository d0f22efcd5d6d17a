-- ===== src/Core/TestEngine/Generation/Examples.antt =====
-- Generators with a model that answers.
use personas_agentes.Common.{codes, ℕ, ◌≡◌, refl, List, [], ◌∷◌, ◌++◌, none, some, text_eq}
use personas_agentes.Core.TestEngine.{integration, e2e}
use personas_agentes.Core.TestEngine.Generation.{
  Disk, Surroundings, complete, generate_unit_test, generate_integration_test, generate_e2e_test,
  ask, write_if_valid, validate_generated_test,
}
use personas_agentes.Core.TestEngine.Generation.Gated.{Gated, UnitGated, generators-Gated}

abbrev slash : List ℕ → List ℕ → List ℕ
slash path name = path ++ codes "/" ++ name

abbrev answer : List ℕ
answer =
    codes
      "import { a } from './a'; describe('a', () => { it('b', () => { expect(a(1)).toBe(2); expect(a(2)).toBe(3); expect(a(3)).toBe(4); }); });"

abbrev model : Surroundings
model = record { analyze_file = λ p. some none; reason = λ p. some (some answer); write = complete }

abbrev disk : Disk
disk = (codes "r/a.ts", codes "x") ∷ []

generators-Gated_example :
    UnitGated
      (λ p. codes "a")
      slash
      (codes "r")
      model
      (codes "a.ts")
      disk
      (generate_unit_test (λ p. codes "a") slash (codes "r") (λ p t a. t) model (codes "a.ts") disk)
    × (Gated
          (λ p. codes "a")
          model
          (codes "a.ts")
          (codes "r/a.integration.test.ts")
          integration
          none
          disk
          (generate_integration_test
            (λ p. codes "a")
            slash
            (codes "r")
            (λ p q t u. t)
            model
            (codes "a.ts")
            (codes "b.ts")
            disk)
        × Gated
            (λ p. codes "a")
            model
            (codes "a.ts")
            (codes "r/a.e2e.test.ts")
            e2e
            none
            disk
            (generate_e2e_test
              (λ p. codes "a")
              slash
              (codes "r")
              (λ p t d. t)
              model
              (codes "a.ts")
              disk))
generators-Gated_example =
    generators-Gated (λ p. codes "a") slash (codes "r") (λ p t a. t) (λ p q t u. t) (λ p t d. t)
      model (codes "a.ts") (codes "b.ts") disk

writes_unit_test :
    (generate_unit_test (λ p. codes "a") slash (codes "r") (λ p t a. t) model (codes "a.ts") disk).1
    ≡ (codes "r/a.ts", codes "x") ∷ (codes "r/a.test.ts", answer) ∷ []
unfolding generate_unit_test ask write_if_valid validate_generated_test
writes_unit_test = refl

-- A file that does not end in `.ts` is overwritten by its test.
overwrites_source :
    (generate_unit_test
      (λ p. codes "a")
      slash
      (codes "r")
      (λ p t a. t)
      model
      (codes "a.tsx")
      ((codes "r/a.tsx", codes "x") ∷ [])).1
    ≡ (codes "r/a.tsx", answer) ∷ []
unfolding generate_unit_test ask write_if_valid validate_generated_test
overwrites_source = refl

-- ===== src/Core/TestEngine/Generation/Accepted.antt =====
-- What a text has that the validator accepts.
use personas_agentes.Common.{
  codes, includes, ℕ, ◌≡◌, Bool, true, false, not, ◌||◌, List, some, if◌then◌else◌, length, ltb,
  arith,
}
use personas_agentes.Core.TestEngine.{Layer}
use personas_agentes.Core.TestEngine.Generation.{
  Analysis, imports_target, is_smoke_test, asserts_enough, validate_generated_test,
}

-- What the validator tests before it accepts.
accepts-imports :
    (b c d e f : Bool)
    → (if b
        then false
        else if c
        then false
        else if not d
        then false
        else if not e
        then false
        else if f
        then false
        else true)
      ≡ true
    → d ≡ true
accepts-imports b c d e f h = ground (arith, h)

pub validated-imports :
    (base_name : List ℕ → List ℕ) (code target : List ℕ) (layer : Layer) (a : Analysis)
    → validate_generated_test base_name (some code) target layer a ≡ true
    → imports_target (base_name target) target code ≡ true
unfolding validate_generated_test
validated-imports base_name code target layer a h =
    accepts-imports (ltb (length code) 100) (is_smoke_test code)
      (imports_target (base_name target) target code) (asserts_enough layer a code)
      (not (includes (codes "describe(") code) || not (includes (codes "it(") code)) h

-- ===== src/Core/TestEngine/Generation.antt =====
-- src_local/core/test_engine.ts: the validator and the generators of TestEngine.
-- The disk is a map from paths to texts. `Surroundings` has what the generators call: the analysis
-- and the model, each of which may throw (`none`), and how a write ends. The prompts are
-- arguments. An exception is caught, and the generator returns false.
pub mod Gated
pub mod Accepted
mod Examples
use personas_agentes.Common.{
  codes, codes_eq, starts_with, includes, ℕ, zero, suc, ◌+◌, ◌/◌, Bool, true, false, not, ◌&&◌,
  ◌||◌, List, [], ◌∷◌, ◌++◌, Option, none, some, if◌then◌else◌, length, get, put, ltb, text_eq,
}
use personas_agentes.Core.TestEngine.{Layer, unit, integration, e2e}

-- The complexities of the functions of a file.
abbrev pub Analysis : Type 0
Analysis = Option (List ℕ)

abbrev pub sum_or_one : List ℕ → ℕ
sum_or_one [] = 0
sum_or_one (zero ∷ cs) = suc (sum_or_one cs)
sum_or_one (suc c ∷ cs) = suc c + sum_or_one cs

abbrev pub required_min : Analysis → ℕ
required_min none = 3
required_min (some complexities) = (sum_or_one complexities + 1) / 2 + 1

-- `testCode.match(/expect\(/g).length`
abbrev pub count_expects : List ℕ → ℕ
count_expects [] = 0
count_expects (c ∷ cs) =
    let rest = count_expects cs in if starts_with (codes "expect(") (c ∷ cs) then suc rest else rest

abbrev pub asserts_enough : Layer → Analysis → List ℕ → Bool
asserts_enough unit analysis code = not (ltb (count_expects code) (required_min analysis))
asserts_enough integration analysis code = not (ltb (count_expects code) 3)
asserts_enough e2e analysis code = not (ltb (count_expects code) 2)

abbrev pub is_smoke_test : List ℕ → Bool
is_smoke_test code =
    includes (codes "expect(true).toBe(true)") code || includes (codes "expect(1).toBe(1)") code

abbrev pub imports_target : (base target code : List ℕ) → Bool
imports_target base target code =
    includes (codes "from") code && (includes base code || includes target code)

-- `filePath.replace(/\.ts$/, ext)`
abbrev pub ts_stem : List ℕ → Option (List ℕ)
ts_stem [] = none
ts_stem (c ∷ cs) =
    let rest = ts_stem cs in
    if codes_eq (c ∷ cs) (codes ".ts")
    then some []
    else elim rest [ none ↦ none | some stem ↦ some (c ∷ stem) ]

abbrev pub with_extension : List ℕ → List ℕ → List ℕ
with_extension ext path = elim (ts_stem path) [ none ↦ path | some stem ↦ stem ++ ext ]

abbrev pub Disk : Type 0
Disk = List (List ℕ × List ℕ)

-- How a write ends: it throws with nothing in the file, with a part of the text, or it succeeds.
pub data Write : Type 0 where
  nothing_written complete : Write
  partly_written : List ℕ → Write

pub record Surroundings : Type 0 where
  pub analyze_file : List ℕ → Option Analysis
  pub reason : List ℕ → Option (Option (List ℕ))
  pub write : Write

-- The result of a generator that writes, and the disk.
abbrev pub written_to : (full code : List ℕ) → Disk → Write → Bool × Disk
written_to full code d complete = (true, put full code d)
written_to full code d nothing_written = (false, d)
written_to full code d (partly_written part) = (false, put full part d)

-- `base_name` is `path.basename(targetFile, '.ts')`.
module _ (base_name : List ℕ → List ℕ) where
  unfoldable pub validate_generated_test :
      Option (List ℕ) → (target : List ℕ) → Layer → Analysis → Bool
  validate_generated_test none target layer analysis = false
  validate_generated_test (some code) target layer analysis =
      if ltb (length code) 100
      then false
      else if is_smoke_test code
      then false
      else if not (imports_target (base_name target) target code)
      then false
      else if not (asserts_enough layer analysis code)
      then false
      else if not (includes (codes "describe(") code) || not (includes (codes "it(") code)
      then false
      else true

  -- The end of every generator: the gate, then the write.
  pub write_if_valid :
      Surroundings
      → (target full : List ℕ) → Layer
      → Analysis
      → Option (List ℕ)
      → Disk
      → Bool × Disk
  unfolding validate_generated_test
  write_if_valid s target full layer analysis none d = (false, d)
  write_if_valid s target full layer analysis (some code) d =
      if not (validate_generated_test (some code) target layer analysis)
      then (false, d)
      else written_to full code d s.write

  -- The call of the model and what is made of its answer.
  pub ask : Surroundings → (prompt target full : List ℕ) → Layer → Analysis → Disk → Bool × Disk
  unfolding write_if_valid
  ask s prompt target full layer analysis d = elim (s.reason prompt) [
    | none ↦ (false, d)
    | some code ↦ write_if_valid s target full layer analysis code d
  ]

  -- `join` puts a name behind the root of the project.
  module _ (join : List ℕ → List ℕ → List ℕ) (project_root : List ℕ) where
    abbrev pub test_path : List ℕ → List ℕ → List ℕ
    test_path ext path = join project_root (with_extension ext path)

    pub generate_unit_test :
        (prompt : (path source : List ℕ) → Analysis → List ℕ)
        → Surroundings
        → List ℕ
        → Disk
        → Bool × Disk
    unfolding ask
    generate_unit_test prompt s path d = elim (s.analyze_file path) [
      | none ↦ (false, d)
      | some analysis ↦ elim (get (join project_root path) d) [
        | none ↦ (false, d)
        | some source ↦
            ask s (prompt path source analysis) path (test_path (codes ".test.ts") path) unit
              analysis d
      ]
    ]

    pub generate_integration_test :
        (prompt : (path other source other_source : List ℕ) → List ℕ)
        → Surroundings
        → (path other : List ℕ) → Disk
        → Bool × Disk
    unfolding ask
    generate_integration_test prompt s path other d = elim (get (join project_root path) d) [
      | none ↦ (false, d)
      | some source ↦ elim (get (join project_root other) d) [
        | none ↦ (false, d)
        | some other_source ↦
            ask s (prompt path other source other_source) path
              (test_path (codes ".integration.test.ts") path) integration none d
      ]
    ]

    -- The prompt holds the texts of the first imports, which it reads from the disk.
    pub generate_e2e_test :
        (prompt : (path source : List ℕ) → Disk → List ℕ)
        → Surroundings
        → List ℕ
        → Disk
        → Bool × Disk
    unfolding ask
    generate_e2e_test prompt s path d = elim (get (join project_root path) d) [
      | none ↦ (false, d)
      | some source ↦
          ask s (prompt path source d) path (test_path (codes ".e2e.test.ts") path) e2e none d
    ]

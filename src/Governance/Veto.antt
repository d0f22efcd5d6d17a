-- ===== src/Governance/Veto.antt =====
-- src_local/core/governance/veto_engine.ts: `isIgnoredPath`, `shouldVeto` and `shouldSkip`.
-- A text is the list of its character codes. The loop of `isIgnoredPath` over the index `i` recurs
-- on what is left of the path; the texts of the justifications are left out. `trim` of a line is
-- `trim_line`, the conversion to lower case `lower`: they are arguments.
pub mod Paths
pub mod Order
mod Examples
use personas_agentes.Common.{
  codes, codes_eq, starts_with, includes, ends_with, ℕ, zero, suc, ◌+◌, ◌-◌, String, ◌≡◌, Bool,
  true, false, not, ◌&&◌, ◌||◌, List, [], ◌∷◌, ◌++◌, map, Option, none, some, if◌then◌else◌,
  nat_beq, ltb, length, take, drop, any, arith,
}

abbrev pub ignored_dirs : List (List ℕ)
ignored_dirs = map codes (
    ".git" ∷ "__pycache__" ∷ "build" ∷ "node_modules" ∷ ".venv" ∷ ".agent" ∷ ".gemini"
    ∷ "submodules" ∷ "dist" ∷ "target" ∷ "bin" ∷ [])

pub is_ignored_dir : List ℕ → Bool
is_ignored_dir segment = any (λ d. codes_eq d segment) ignored_dirs

abbrev pub is_separator : ℕ → Bool
is_separator c = nat_beq c 47 || nat_beq c 92

-- The segment that ends at `i`, if it has characters and its directory is ignored.
abbrev pub ends_ignored : List ℕ → ℕ → ℕ → Bool
ends_ignored path start i = ltb start i && is_ignored_dir (take (i - start) (drop start path))

-- The loop from `i`, with `rest` the path from there on.
pub scan : List ℕ → (start i : ℕ) → (rest : List ℕ) → Bool
scan path start i [] = ends_ignored path start i
scan path start i (c ∷ cs) =
    let after = scan path (suc i) (suc i) cs in
    let on = scan path start (suc i) cs in
    if is_separator c then ends_ignored path start i || after else on

pub is_ignored_path : List ℕ → Bool
unfolding scan
is_ignored_path [] = false
is_ignored_path (c ∷ cs) = scan (c ∷ cs) 0 0 (c ∷ cs)

pub data VetoReason : Type 0 where
  infrastructure legacy_artifact security_risk : VetoReason

abbrev pub legacy_extensions : List (List ℕ)
legacy_extensions = map codes (".pyc" ∷ ".o" ∷ ".exe" ∷ ".dll" ∷ ".class" ∷ [])

pub should_veto : List ℕ → Option VetoReason
unfolding is_ignored_path
should_veto path =
    if is_ignored_path path
    then some infrastructure
    else if any (λ e. ends_with e path) legacy_extensions
    then some legacy_artifact
    else if includes (codes "/secrets/") path || includes (codes "/internal/keys/") path
    then some security_risk
    else none

abbrev pub is_comment : List ℕ → Bool
is_comment line =
    starts_with (codes "//") line
    || starts_with (codes "/*") line
    || starts_with (codes "*") line
    || starts_with (codes "#") line

abbrev pub is_test_path : List ℕ → Bool
is_test_path path =
    includes (codes "/tests/") path
    || includes (codes ".test.") path
    || includes (codes ".spec.") path

module _ (trim_line lower : List ℕ → List ℕ) where
  pub should_skip : (line path : List ℕ) → (is_experimentation : Bool) → Bool
  unfolding is_ignored_path
  should_skip line path is_experimentation =
      if is_comment (trim_line line)
      then true
      else if is_experimentation && not (includes (codes "critical") (lower line))
      then true
      else if is_test_path path
      then true
      else is_ignored_path path

-- ===== src/Healing/Verification.antt =====
-- src_local/engines/healing/formal_verification_engine.ts: FormalVerificationEngine.
-- A text is the list of its character codes. `toLowerCase` and `toUpperCase` are the arguments
-- `lower` and `upper`. The regular expression of the second contract is written out as a matcher.
-- Descriptions and logging are left out, and so is the run of Idris, whose result is not used.
pub mod Indexing
pub mod Violations
mod Examples
use personas_agentes.Common.{
  codes, starts_with, includes, skip_space, after, find, length, nat_beq, ℕ, Bool, true, false, not,
  ◌&&◌, ◌||◌, List, [], ◌∷◌, Option, none, some, if◌then◌else◌,
}

pub data ContractName : Type 0 where
  finite_termination memory_bounds sqlite_invariants null_safety : ContractName

pub data ErrorReason : Type 0 where
  infinite_loop unsafe_index unbounded_delete unbounded_update unsafe_override : ErrorReason

pub record FormalContractResult : Type 0 where
  pub passed : Bool
  pub contract_name : ContractName
  pub error_reason : Option ErrorReason

pub record PatchVerificationReport : Type 0 where
  pub approved : Bool
  pub patch_length : ℕ
  pub contracts : List FormalContractResult
  pub rejection_reason : Option (ContractName × Option ErrorReason)

abbrev pub pass : ContractName → FormalContractResult
pass name = record { passed = true; contract_name = name; error_reason = none }

abbrev pub fail : ContractName → ErrorReason → FormalContractResult
fail name why = record { passed = false; contract_name = name; error_reason = some why }

abbrev pub skip_nines : List ℕ → List ℕ
skip_nines [] = []
skip_nines (c ∷ cs) = let rest = skip_nines cs in if nat_beq c 57 then rest else c ∷ cs

-- `\s*\]`
pub closes : List ℕ → Bool
closes cs = starts_with (codes "]") (skip_space cs)

-- `-1\s*\]`
pub negative_index : List ℕ → Bool
unfolding closes
negative_index cs = elim (after (codes "-1") cs) [ none ↦ false | some rest ↦ closes rest ]

-- `9999+\s*\]`: what follows the nines in the pattern is none.
pub huge_index : List ℕ → Bool
unfolding closes
huge_index cs = elim (after (codes "9999") cs) [
  | none ↦ false
  | some rest ↦ closes (skip_nines rest)
]

-- `/\[\s*-1\s*\]|\[\s*9999+\s*\]/.test`
pub unsafe_direct_indexing : List ℕ → Bool
unfolding negative_index huge_index
unsafe_direct_indexing [] = false
unsafe_direct_indexing (c ∷ cs) =
    let later = unsafe_direct_indexing cs in
    (nat_beq c 91 && (negative_index (skip_space cs) || huge_index (skip_space cs))) || later

pub report : ℕ → List FormalContractResult → PatchVerificationReport
report size results = elim (find (λ c. not c.passed) results) [
  | some failed ↦ record {
    approved = false;
    patch_length = size;
    contracts = results;
    rejection_reason = some (failed.contract_name, failed.error_reason);
  }
  | none ↦ record {
    approved = true;
    patch_length = size;
    contracts = results;
    rejection_reason = none;
  }
]

module _ (lower upper : List ℕ → List ℕ) where
  pub check_finite_termination : List ℕ → FormalContractResult
  check_finite_termination code =
      if includes (codes "while (true)") (lower code)
        || includes (codes "while(true)") (lower code)
        || includes (codes "for (;;)") (lower code)
        || includes (codes "for(;;)") (lower code)
      then fail finite_termination infinite_loop
      else pass finite_termination

  pub check_memory_bounds : List ℕ → FormalContractResult
  unfolding unsafe_direct_indexing
  check_memory_bounds code =
      if unsafe_direct_indexing code then fail memory_bounds unsafe_index else pass memory_bounds

  pub check_sqlite_invariants : List ℕ → FormalContractResult
  check_sqlite_invariants code =
      if includes (codes "DELETE FROM") (upper code) && not (includes (codes "WHERE") (upper code))
      then fail sqlite_invariants unbounded_delete
      else if includes (codes "UPDATE ") (upper code)
          && includes (codes " SET ") (upper code)
          && not (includes (codes "WHERE") (upper code))
      then fail sqlite_invariants unbounded_update
      else pass sqlite_invariants

  pub check_type_and_null_safety : List ℕ → FormalContractResult
  check_type_and_null_safety code =
      if includes (codes "as any") code && includes (codes "null!") code
      then fail null_safety unsafe_override
      else pass null_safety

  pub verify_patch : List ℕ → PatchVerificationReport
  unfolding check_finite_termination check_memory_bounds check_sqlite_invariants
      check_type_and_null_safety report
  verify_patch patch = report (length patch) (
      check_finite_termination patch
      ∷ check_memory_bounds patch
      ∷ check_sqlite_invariants patch
      ∷ check_type_and_null_safety patch
      ∷ [])

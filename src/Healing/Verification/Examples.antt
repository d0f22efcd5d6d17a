-- ===== src/Healing/Verification/Examples.antt =====
-- Patches that are approved and rejected, with conversions of case for ASCII letters.
use personas_agentes.Common.{
  codes, is_space, ℕ, ◌+◌, ◌-◌, ◌≡◌, refl, ◌&&◌, List, map, some, if◌then◌else◌, leb, true,
}
use personas_agentes.Healing.Verification.{
  sqlite_invariants, memory_bounds, unbounded_delete, unsafe_index, closes, negative_index,
  huge_index, unsafe_direct_indexing, check_finite_termination, check_memory_bounds,
  check_sqlite_invariants, check_type_and_null_safety, report, verify_patch,
}
use personas_agentes.Healing.Verification.Violations.{Verdict, verify_patch-Verdict}

abbrev lower : List ℕ → List ℕ
lower = map (λ c. if leb 65 c && leb c 90 then c + 32 else c)

abbrev upper : List ℕ → List ℕ
upper = map (λ c. if leb 97 c && leb c 122 then c - 32 else c)

verify_patch-Verdict_example :
    Verdict lower upper (codes "delete from t") (verify_patch lower upper (codes "delete from t"))
verify_patch-Verdict_example = verify_patch-Verdict lower upper (codes "delete from t")

rejects_delete :
    (verify_patch lower upper (codes "delete from t")).rejection_reason
    ≡ some (sqlite_invariants, some unbounded_delete)
unfolding verify_patch report check_finite_termination check_memory_bounds check_sqlite_invariants
    check_type_and_null_safety unsafe_direct_indexing negative_index huge_index closes is_space
rejects_delete = refl

rejects_index :
    (verify_patch lower upper (codes "a[ 99999 ]")).rejection_reason
    ≡ some (memory_bounds, some unsafe_index)
unfolding verify_patch report check_finite_termination check_memory_bounds check_sqlite_invariants
    check_type_and_null_safety unsafe_direct_indexing negative_index huge_index closes is_space
rejects_index = refl

-- One `WHERE` covers every statement of the patch.
approves_masked_delete :
    (verify_patch lower upper (codes "DELETE FROM t; SELECT a FROM b WHERE c")).approved ≡ true
unfolding verify_patch report check_finite_termination check_memory_bounds check_sqlite_invariants
    check_type_and_null_safety unsafe_direct_indexing negative_index huge_index closes is_space
approves_masked_delete = refl

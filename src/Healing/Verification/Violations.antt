-- ===== src/Healing/Verification/Violations.antt =====
-- The verdict on a patch against a description of what each contract forbids.
use personas_agentes.Common.{
  codes, includes, ℕ, ◌≡◌, refl, ap, ◌∙◌, ◌⊎◌, inl, inr, Bool, true, false, not, ◌||◌, List, [],
  ◌∷◌, ◌++◌, none, some, arith, Bool-cases, Occurs, includes_iff, Decides, or-Decides, and-Decides,
  not-Decides, if◌then◌else◌, find, All, length,
}
use personas_agentes.Healing.Verification.{
  ContractName, finite_termination, memory_bounds, sqlite_invariants, null_safety, ErrorReason,
  FormalContractResult, infinite_loop, unsafe_index, unbounded_delete, unbounded_update,
  unsafe_override, PatchVerificationReport, pass, fail, check_finite_termination,
  check_memory_bounds, check_sqlite_invariants, check_type_and_null_safety, report, verify_patch,
}
use personas_agentes.Healing.Verification.Indexing.{UnsafeIndex, unsafe_direct_indexing_iff}

occurs : (part text : List ℕ) → Decides (includes part text) (Occurs part text)
occurs part text = includes_iff part text

abbrev pub fails : FormalContractResult → Bool
fails c = not c.passed

one-fails :
    {P : Type 0} (b : Bool) (n : ContractName) (why : ErrorReason)
    → Decides b P
    → Decides (fails (if b then fail n why else pass n)) P
one-fails true n why h = h
one-fails false n why h = h

two-fails :
    {P : Type 0} (b c : Bool) (n : ContractName) (why other : ErrorReason)
    → Decides (b || c) P
    → Decides (fails (if b then fail n why else if c then fail n other else pass n)) P
two-fails true c n why other h = h
two-fails false true n why other h = h
two-fails false false n why other h = h

module _ (lower upper : List ℕ → List ℕ) where
  -- What a contract forbids.
  pub Violated : List ℕ → ContractName → Type 0
  Violated code finite_termination =
      ((Occurs (codes "while (true)") (lower code) ⊎ Occurs (codes "while(true)") (lower code))
        ⊎ Occurs (codes "for (;;)") (lower code))
      ⊎ Occurs (codes "for(;;)") (lower code)
  Violated code memory_bounds = UnsafeIndex code
  Violated code sqlite_invariants =
      (Occurs (codes "DELETE FROM") (upper code) × (¬ Occurs (codes "WHERE") (upper code)))
      ⊎ ((Occurs (codes "UPDATE ") (upper code) × Occurs (codes " SET ") (upper code))
          × (¬ Occurs (codes "WHERE") (upper code)))
  Violated code null_safety = Occurs (codes "as any") code × Occurs (codes "null!") code

  -- The result of a contract.
  pub check : List ℕ → ContractName → FormalContractResult
  unfolding check_finite_termination check_memory_bounds check_sqlite_invariants
      check_type_and_null_safety
  check code finite_termination = check_finite_termination lower upper code
  check code memory_bounds = check_memory_bounds lower upper code
  check code sqlite_invariants = check_sqlite_invariants lower upper code
  check code null_safety = check_type_and_null_safety lower upper code

  -- A contract fails exactly where what it forbids is there.
  check-fails :
      (code : List ℕ) (n : ContractName) → Decides (fails (check code n)) (Violated code n)
  unfolding check Violated check_finite_termination check_memory_bounds check_sqlite_invariants
      check_type_and_null_safety
  check-fails code finite_termination = one-fails _ finite_termination infinite_loop (
      or-Decides _ _
        (or-Decides _ _
          (or-Decides _ _ (occurs (codes "while (true)") (lower code))
            (occurs (codes "while(true)") (lower code)))
          (occurs (codes "for (;;)") (lower code)))
        (occurs (codes "for(;;)") (lower code)))
  check-fails code memory_bounds =
      one-fails _ memory_bounds unsafe_index (unsafe_direct_indexing_iff code)
  check-fails code sqlite_invariants =
      two-fails _ _ sqlite_invariants unbounded_delete unbounded_update (
        or-Decides _ _ (and-Decides _ _ (occurs (codes "DELETE FROM") (upper code)) (bounded code))
          (and-Decides _ _
            (and-Decides _ _ (occurs (codes "UPDATE ") (upper code))
              (occurs (codes " SET ") (upper code)))
            (bounded code)))
    where
      bounded :
          (code : List ℕ)
          → Decides
              (not (includes (codes "WHERE") (upper code)))
              (¬ Occurs (codes "WHERE") (upper code))
      bounded code = not-Decides _ (occurs (codes "WHERE") (upper code))
  check-fails code null_safety =
      one-fails _ null_safety unsafe_override
        (and-Decides _ _ (occurs (codes "as any") code) (occurs (codes "null!") code))

-- The contracts before one, in the order of the report.
abbrev pub before : ContractName → List ContractName
before finite_termination = []
before memory_bounds = finite_termination ∷ []
before sqlite_invariants = finite_termination ∷ memory_bounds ∷ []
before null_safety = finite_termination ∷ memory_bounds ∷ sqlite_invariants ∷ []

find-first :
    (passing rest : List FormalContractResult) (c : FormalContractResult)
    → All (λ d. fails d ≡ false) passing
    → fails c ≡ true
    → find (λ d. not d.passed) (passing ++ c ∷ rest) ≡ some c
find-first [] rest c h e = rw e refl
find-first (d ∷ ds) rest c h e = rw h.0 (find-first ds rest c h.1 e)

report-rejects :
    (size : ℕ) (results : List FormalContractResult) (c : FormalContractResult)
    → find (λ d. not d.passed) results ≡ some c
    → (PatchVerificationReport.approved (report size results) ≡ false)
      × (PatchVerificationReport.rejection_reason (report size results)
          ≡ some (c.contract_name, c.error_reason))
unfolding report
report-rejects size results c e = (rw (e, report) refl, rw (e, report) refl)

module _ (lower upper : List ℕ → List ℕ) (patch : List ℕ) where
  -- The patch is approved for want of a violation, or rejected for the first one.
  pub Verdict : PatchVerificationReport → Type 0
  unfolding Violated check
  Verdict r =
      ((r.approved ≡ true)
        × ((r.rejection_reason ≡ none) × ((n : ContractName) → ¬ Violated lower upper patch n)))
      ⊎ ((name : ContractName) × ((r.approved ≡ false)
            × ((r.rejection_reason ≡ some (name, (check lower upper patch name).error_reason))
                × (Violated lower upper patch name
                    × All (λ n. ¬ Violated lower upper patch n) (before name)))))

  violates :
      (n : ContractName) → fails (check lower upper patch n) ≡ true → Violated lower upper patch n
  violates n e = (check-fails lower upper patch n).0 e

  holds :
      (n : ContractName)
      → fails (check lower upper patch n) ≡ false
      → ¬ Violated lower upper patch n
  holds n e v = ground (arith, (check-fails lower upper patch n).1 v, e)

  names : (n : ContractName) → FormalContractResult.contract_name (check lower upper patch n) ≡ n
  unfolding check check_finite_termination check_memory_bounds check_sqlite_invariants
      check_type_and_null_safety
  names finite_termination = ground arith
  names memory_bounds = ground arith
  names sqlite_invariants = ground arith
  names null_safety = ground arith

  rejected :
      (passing rest : List FormalContractResult) (n : ContractName)
      → verify_patch lower upper patch
        ≡ report (length patch) (passing ++ check lower upper patch n ∷ rest)
      → All (λ d. fails d ≡ false) passing
      → fails (check lower upper patch n) ≡ true
      → All (λ m. ¬ Violated lower upper patch m) (before n)
      → Verdict (verify_patch lower upper patch)
  unfolding Verdict
  rejected passing rest n p h e clean =
      let c = check lower upper patch n in
      let r =
        report-rejects (length patch) (passing ++ c ∷ rest) c (find-first passing rest c h e) in
      inr (
        n,
        (
          ap (λ q. q.approved) p ∙ r.0,
          (
            ap (λ q. q.rejection_reason) p ∙ r.1 ∙ ap (λ m. some (m, c.error_reason)) (names n),
            (violates n e, clean),
          ),
        ),
      )

  all_hold :
      fails (check lower upper patch finite_termination) ≡ false
      → fails (check lower upper patch memory_bounds) ≡ false
      → fails (check lower upper patch sqlite_invariants) ≡ false
      → fails (check lower upper patch null_safety) ≡ false
      → (n : ContractName) → ¬ Violated lower upper patch n
  all_hold a b d e finite_termination = holds finite_termination a
  all_hold a b d e memory_bounds = holds memory_bounds b
  all_hold a b d e sqlite_invariants = holds sqlite_invariants d
  all_hold a b d e null_safety = holds null_safety e

  -- A patch is approved, and no reason is given, where no contract is violated; where one is, the
  -- patch is rejected and the reason names the first of them with its own explanation.
  pub verify_patch-Verdict : Verdict (verify_patch lower upper patch)
  unfolding Verdict verify_patch check report
  verify_patch-Verdict =
      let c = check lower upper patch in
      elim (Bool-cases (fails (c finite_termination))) [
        | inl a ↦
            rejected [] (c memory_bounds ∷ c sqlite_invariants ∷ c null_safety ∷ [])
              finite_termination refl tt a tt
        | inr a ↦ elim (Bool-cases (fails (c memory_bounds))) [
          | inl b ↦
              rejected (c finite_termination ∷ []) (c sqlite_invariants ∷ c null_safety ∷ [])
                memory_bounds refl (a, tt) b (holds finite_termination a, tt)
          | inr b ↦ elim (Bool-cases (fails (c sqlite_invariants))) [
            | inl d ↦
                rejected (c finite_termination ∷ c memory_bounds ∷ []) (c null_safety ∷ [])
                  sqlite_invariants refl (a, (b, tt)) d
                  (holds finite_termination a, (holds memory_bounds b, tt))
            | inr d ↦ elim (Bool-cases (fails (c null_safety))) [
              | inl e ↦
                  rejected (c finite_termination ∷ c memory_bounds ∷ c sqlite_invariants ∷ []) []
                    null_safety refl (a, (b, (d, tt))) e
                    (
                      holds finite_termination a,
                      (holds memory_bounds b, (holds sqlite_invariants d, tt)),
                    )
              | inr e ↦ inl (
                rw (a, b, d, e, verify_patch, report) refl,
                (rw (a, b, d, e, verify_patch, report) refl, λ n. all_hold a b d e n),
              )
            ]
          ]
        ]
      ]

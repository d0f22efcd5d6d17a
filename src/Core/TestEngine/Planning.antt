-- ===== src/Core/TestEngine/Planning.antt =====
-- What the plan asks for, and which files it names.
use personas_agentes.Common.{
  length-take, ℕ, zero, suc, ◌+◌, ◌*◌, ◌-◌, ◌/◌, ◌≤◌, ◌<◌, ◌⊎◌, ◌≡◌, refl, inl, inr, Bool, true,
  false, not, List, [], ◌∷◌, All, keep, length, take, arith, Bool-cases,
}
use personas_agentes.Core.TestEngine.{
  PyramidMetrics, TestGenerationPlan, Findings, looked_up, plan_tests,
}

All-take : {A : Type 0} (P : A → Type 0) (n : ℕ) (xs : List A) → All P xs → All P (take n xs)
All-take P zero xs h = tt
All-take P (suc n) [] h = tt
All-take P (suc n) (x ∷ xs) h = (h.0, All-take P n xs h.1)

All-keep : {A : Type 0} (p : A → Bool) (xs : List A) → All (λ x. p x ≡ true) (keep p xs)
All-keep p [] = tt
All-keep p (x ∷ xs) = elim (Bool-cases (p x)) [
  | inl e ↦ rw e (e, All-keep p xs)
  | inr e ↦ rw e (All-keep p xs)
]

All-map :
    {A : Type 0} (P Q : A → Type 0) → ((x : A) → P x → Q x) → (xs : List A) → All P xs → All Q xs
All-map P Q f [] h = tt
All-map P Q f (x ∷ xs) h = (f x h.0, All-map P Q f xs h.1)

not-true : (b : Bool) → not b ≡ true → b ≡ false
not-true true e = ground (arith, e)
not-true false e = refl

-- `ideal` is the least number that makes up `p` percent of `n`, and `needed` what is missing to it.
abbrev pub Fills : (p n have needed : ℕ) → Type 0
Fills p n have needed =
    (ideal : ℕ) × (((p * n ≤ 100 * ideal) × (100 * ideal < p * n + 100))
      × (((have ≤ ideal) × (have + needed ≡ ideal)) ⊎ ((ideal ≤ have) × (needed ≡ 0))))

share : (p n have : ℕ) → Fills p n have ((p * n + 99) / 100 - have)
share p n have = (
  (p * n + 99) / 100,
  (
    (omega arith, omega arith),
    elim (missing have ((p * n + 99) / 100)) [
      | inl h ↦ inl (h, omega (arith, h))
      | inr h ↦ inr (h, omega (arith, h))
    ],
  ),
)
  where
    missing : (a b : ℕ) → (a ≤ b) ⊎ (b ≤ a)
    missing a b = ground arith

module _ (join : List ℕ → List ℕ → List ℕ) (exists : List ℕ → Bool) (project_root src_dir : List ℕ)
    (m : PyramidMetrics) (f : Findings) where
  abbrev plan : TestGenerationPlan
  plan = plan_tests join exists project_root src_dir m f

  -- For each layer, the ideal number is the least that makes up its share of the source files, 80
  -- percent for unit tests, 15 for integration tests and 5 for end-to-end tests; the plan needs what
  -- is missing to it, nothing if there are as many tests or more, and has no more targets than it
  -- needs.
  pub plan_tests-shares :
      (Fills 80 (length f.nodes) m.unit_tests plan.unit_tests_needed
        × (length plan.unit_targets ≤ plan.unit_tests_needed))
      × ((Fills 15 (length f.nodes) m.integration_tests plan.integration_tests_needed
            × (length plan.integration_targets ≤ plan.integration_tests_needed))
          × (Fills 5 (length f.nodes) m.e2e_tests plan.e2e_tests_needed
              × (length plan.e2e_targets ≤ plan.e2e_tests_needed)))
  unfolding plan_tests
  plan_tests-shares = (
    (share 80 (length f.nodes) m.unit_tests, length-take plan.unit_tests_needed _),
    (
      (
        share 15 (length f.nodes) m.integration_tests,
        length-take plan.integration_tests_needed f.integration_pairs,
      ),
      (share 5 (length f.nodes) m.e2e_tests, length-take plan.e2e_tests_needed f.e2e_candidates),
    ),
  )

  -- Every target of a unit test is a path at which no file exists.
  pub plan_tests-missing :
      All (λ n. exists (looked_up join project_root src_dir n) ≡ false) plan.unit_targets
  unfolding plan_tests
  plan_tests-missing =
      All-map _ _ (λ n e. not-true (exists (looked_up join project_root src_dir n)) e) _
        (All-take _ plan.unit_tests_needed _
          (All-keep (λ n. not (exists (looked_up join project_root src_dir n))) f.nodes))

-- ===== src/Core/TestEngine/Generation/Gated.antt =====
-- What the generators write.
use personas_agentes.Common.{
  codes, ℕ, ◌≡◌, ◌≢◌, refl, sym, ◌∙◌, inl, inr, ◌⊎◌, Bool, String, true, false, List, Option, none,
  some, get, put, get-put, text_eq, arith, Bool-cases, Option-cases, codes_eq, codes_eq_iff,
  ==_refl,
}
use personas_agentes.Core.TestEngine.{Layer, unit, integration, e2e}
use personas_agentes.Core.TestEngine.Generation.{
  Analysis, Disk, Surroundings, Write, complete, nothing_written, partly_written, written_to,
  validate_generated_test, write_if_valid, ask, test_path, generate_unit_test,
  generate_integration_test, generate_e2e_test,
}

written : (full code : List ℕ) (d : Disk) → get full (put full code d) ≡ some code
written full code d = get-put full full code d ∙ rw (==_refl full) refl

elsewhere :
    (full code : List ℕ) (d : Disk) (p : List ℕ) → p ≢ full → get p (put full code d) ≡ get p d
elsewhere full code d p h = elim (Bool-cases (codes_eq full p)) [
  | inl e ↦ ground (arith, h (sym ((codes_eq_iff full p).0 e)))
  | inr e ↦ get-put full p code d ∙ rw e refl
]

module _ (base_name : List ℕ → List ℕ) where
  -- The generator returned false and left the disk as it was; or a text passes the validator, and
  -- the generator returned true and wrote this text to `full`, or returned false since the write threw
  -- and left a part in `full`. No other file has changed.
  pub Gated : Surroundings → (target full : List ℕ) → Layer → Analysis → Disk → Bool × Disk → Type 0
  unfolding validate_generated_test
  Gated s target full layer analysis d (written, after) =
      ((written ≡ false) × (after ≡ d))
      ⊎ ((code : List ℕ) × ((validate_generated_test base_name (some code) target layer analysis
              ≡ true)
            × (((p : List ℕ) → p ≢ full → get p after ≡ get p d)
                × (((written ≡ true) × ((s.write ≡ complete) × (get full after ≡ some code)))
                    ⊎ ((written ≡ false)
                        × ((part : List ℕ) × ((s.write ≡ partly_written part)
                              × (get full after ≡ some part))))))))

  untouched :
      (s : Surroundings) (target full : List ℕ) (layer : Layer) (analysis : Analysis) (d : Disk)
      → Gated s target full layer analysis d (false, d)
  unfolding Gated
  untouched s target full layer analysis d = inl (refl, refl)

  written_to-Gated :
      (s : Surroundings) (target full : List ℕ) (layer : Layer) (analysis : Analysis)
      (code : List ℕ) (d : Disk) (w : Write)
      → validate_generated_test base_name (some code) target layer analysis ≡ true
      → s.write ≡ w
      → Gated s target full layer analysis d (written_to full code d w)
  unfolding Gated
  written_to-Gated s target full layer analysis code d complete v e =
      inr (code, (v, (elsewhere full code d, inl (refl, (e, written full code d)))))
  written_to-Gated s target full layer analysis code d nothing_written v e = inl (refl, refl)
  written_to-Gated s target full layer analysis code d (partly_written part) v e =
      inr (code, (v, (elsewhere full part d, inr (refl, (part, (e, written full part d))))))

  write_if_valid-Gated :
      (s : Surroundings) (target full : List ℕ) (layer : Layer) (analysis : Analysis)
      (code : Option (List ℕ)) (d : Disk)
      → Gated s target full layer analysis d
          (write_if_valid base_name s target full layer analysis code d)
  unfolding write_if_valid
  write_if_valid-Gated s target full layer analysis none d =
      untouched s target full layer analysis d
  write_if_valid-Gated s target full layer analysis (some code) d =
      elim (Bool-cases (validate_generated_test base_name (some code) target layer analysis)) [
        | inr v ↦ rw v (untouched s target full layer analysis d)
        | inl v ↦ rw v (written_to-Gated s target full layer analysis code d s.write v refl)
      ]

  ask-Gated :
      (s : Surroundings) (prompt target full : List ℕ) (layer : Layer) (analysis : Analysis)
      (d : Disk)
      → Gated s target full layer analysis d (ask base_name s prompt target full layer analysis d)
  unfolding ask
  ask-Gated s prompt target full layer analysis d = elim (Option-cases (s.reason prompt)) [
    | inl n ↦ rw (n, ask) (untouched s target full layer analysis d)
    | inr (code, f) ↦ rw (f, ask) (write_if_valid-Gated s target full layer analysis code d)
  ]

  module _ (join : List ℕ → List ℕ → List ℕ) (project_root : List ℕ) where
    -- Where the test of a file stands.
    abbrev pub test_of : String → List ℕ → List ℕ
    test_of ext path = test_path base_name join project_root (codes ext) path

    -- The validator reads the analysis of the file; if there is none, nothing is generated.
    abbrev pub UnitGated : Surroundings → List ℕ → Disk → Bool × Disk → Type 0
    UnitGated s path d r =
        ((s.analyze_file path ≡ none) × (r ≡ (false, d)))
        ⊎ ((a : Analysis) × ((s.analyze_file path ≡ some a)
              × Gated s path (test_of ".test.ts" path) unit a d r))

    generate_unit_test-Gated :
        (prompt : (path source : List ℕ) → Analysis → List ℕ) (s : Surroundings) (path : List ℕ)
        (d : Disk)
        → UnitGated s path d (generate_unit_test base_name join project_root prompt s path d)
    unfolding generate_unit_test
    generate_unit_test-Gated prompt s path d =
        let full = test_of ".test.ts" path in
        elim (Option-cases (s.analyze_file path)) [
          | inl n ↦ inl (n, rw (n, generate_unit_test) refl)
          | inr (a, f) ↦ inr (
            a,
            (
              f,
              elim (Option-cases (get (join project_root path) d)) [
                | inl m ↦ rw (f, generate_unit_test, m) (untouched s path full unit a d)
                | inr (source, g) ↦
                    rw (f, generate_unit_test, g)
                      (ask-Gated s (prompt path source a) path full unit a d)
              ],
            ),
          )
        ]

    generate_integration_test-Gated :
        (prompt : (path other source other_source : List ℕ) → List ℕ) (s : Surroundings)
        (path other : List ℕ) (d : Disk)
        → Gated s path
            (test_of ".integration.test.ts" path)
            integration
            none
            d
            (generate_integration_test base_name join project_root prompt s path other d)
    unfolding generate_integration_test
    generate_integration_test-Gated prompt s path other d =
        let full = test_of ".integration.test.ts" path in
        elim (Option-cases (get (join project_root path) d)) [
          | inl n ↦ rw (n, generate_integration_test) (untouched s path full integration none d)
          | inr (source, f) ↦ elim (Option-cases (get (join project_root other) d)) [
            | inl m ↦
                rw (f, generate_integration_test, m) (untouched s path full integration none d)
            | inr (other_source, g) ↦
                rw (f, generate_integration_test, g)
                  (ask-Gated s (prompt path other source other_source) path full integration none d)
          ]
        ]

    generate_e2e_test-Gated :
        (prompt : (path source : List ℕ) → Disk → List ℕ) (s : Surroundings) (path : List ℕ)
        (d : Disk)
        → Gated s path
            (test_of ".e2e.test.ts" path)
            e2e
            none
            d
            (generate_e2e_test base_name join project_root prompt s path d)
    unfolding generate_e2e_test
    generate_e2e_test-Gated prompt s path d =
        let full = test_of ".e2e.test.ts" path in
        elim (Option-cases (get (join project_root path) d)) [
          | inl n ↦ rw (n, generate_e2e_test) (untouched s path full e2e none d)
          | inr (source, f) ↦
              rw (f, generate_e2e_test) (ask-Gated s (prompt path source d) path full e2e none d)
        ]

    -- Each generator, of unit, integration and end-to-end tests, writes only a text that passes the
    -- validator for its layer, for unit tests with the analysis of the file, and only to the path of
    -- the test: it returns true and has written the text, or returns false and has changed nothing,
    -- whatever fails on the way, but for a part of the text that a write which throws leaves there.
    pub generators-Gated :
        (unit_prompt : (path source : List ℕ) → Analysis → List ℕ)
        (integration_prompt : (path other source other_source : List ℕ) → List ℕ)
        (e2e_prompt : (path source : List ℕ) → Disk → List ℕ) (s : Surroundings)
        (path other : List ℕ) (d : Disk)
        → UnitGated s path d (generate_unit_test base_name join project_root unit_prompt s path d)
          × (Gated s path (test_of ".integration.test.ts" path) integration none d (
                generate_integration_test base_name join project_root integration_prompt s path
                  other d)
              × Gated s path
                  (test_of ".e2e.test.ts" path)
                  e2e
                  none
                  d
                  (generate_e2e_test base_name join project_root e2e_prompt s path d))
    generators-Gated unit_prompt integration_prompt e2e_prompt s path other d = (
      generate_unit_test-Gated unit_prompt s path d,
      (
        generate_integration_test-Gated integration_prompt s path other d,
        generate_e2e_test-Gated e2e_prompt s path d,
      ),
    )

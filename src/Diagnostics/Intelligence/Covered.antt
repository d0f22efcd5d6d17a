-- ===== src/Diagnostics/Intelligence/Covered.antt =====
-- What a report says of any code base.
use personas_agentes.Common.{
  ℕ, zero, suc, ◌-◌, ◌<◌, ◌≤◌, ◌≡◌, refl, ap, ◌∙◌, inl, inr, Bool, true, ◌||◌, List, [], ◌∷◌,
  Option, none, some, if◌then◌else◌, find, length, length-append, leb, ltb, contains, text_eq, All,
  arith, Bool-cases,
}
use personas_agentes.Diagnostics.Intelligence.Catalog.{
  TechEntry, Manifests, tech_catalog, super_personas, manifests,
}
use personas_agentes.Diagnostics.Intelligence.{
  DetectedTechnology, Files, is_evidence, first_evidence, manifest_evidence, with_evidence,
  collect_evidence, detected, detect_project_technologies, covered_tech_ids, blindspots_of,
  generate_report,
}

catalog-All :
    (rules : List ℕ → ℕ)
    → All (λ e. contains (covered_tech_ids (super_personas rules)) e.id ≡ true) tech_catalog
unfolding covered_tech_ids super_personas tech_catalog
catalog-All rules =
    (refl, (refl, (refl, (refl, (refl, (refl, (refl, (refl, (refl, (refl, (refl, tt)))))))))))

detected-All :
    (P : List ℕ → Type 0) (e : TechEntry) (found : List (List ℕ)) (rest : List DetectedTechnology)
    → P e.id
    → All (λ t. P t.id) rest
    → All (λ t. P t.id) (detected e found rest)
detected-All P e [] rest h hs = hs
detected-All P e (p ∷ ps) rest h hs = (h, hs)

detect-All :
    (P : List ℕ → Type 0) (patterns : List ℕ → List ℕ → Bool) (files : Files) (m : Manifests)
    (es : List TechEntry)
    → All (λ e. P e.id) es
    → All (λ t. P t.id) (detect_project_technologies patterns files m es)
unfolding detect_project_technologies
detect-All P patterns files m [] h = tt
detect-All P patterns files m (e ∷ es) h =
    detected-All P e _ _ h.0 (detect-All P patterns files m es h.1)

no_blindspots :
    (covered : List (List ℕ)) (techs : List DetectedTechnology)
    → All (λ t. contains covered t.id ≡ true) techs
    → blindspots_of covered techs ≡ []
unfolding blindspots_of
no_blindspots covered [] h = refl
no_blindspots covered (t ∷ ts) h = rw h.0 (no_blindspots covered ts h.1)

percentage :
    (percent : ℕ → ℕ → ℕ)
    → ((n : ℕ) → 0 < n → percent n n ≡ 100)
    → (n : ℕ) → (if ltb 0 n then percent (n - 0) n else 100) ≡ 100
percentage percent whole zero = refl
percentage percent whole (suc n) =
    let more : ltb 0 (suc n) ≡ true = ground arith in
    let same : suc n - 0 ≡ suc n = omega arith in
    rw more (ap (λ k. percent k (suc n)) same ∙ whole (suc n) (omega arith))

-- Whatever the files and the manifests are, a report has no blind spot and every technology counts
-- as covered, so the coverage is 100 percent if the percentage of a whole is.
pub generate_report-covered :
    (patterns : List ℕ → List ℕ → Bool) (rules : List ℕ → ℕ) (percent : ℕ → ℕ → ℕ)
    → ((n : ℕ) → 0 < n → percent n n ≡ 100)
    → (files : Files) (m : Manifests)
    → let r = generate_report patterns rules percent files m in
      (r.blindspots ≡ [])
      × ((r.covered_count ≡ r.total_technologies) × (r.coverage_percentage ≡ 100))
unfolding generate_report
generate_report-covered patterns rules percent whole files m =
    let techs = detect_project_technologies patterns files m tech_catalog in
    let none_left =
      no_blindspots (covered_tech_ids (super_personas rules)) techs
        (detect-All _ patterns files m tech_catalog (catalog-All rules)) in
    (
      none_left,
      (rw none_left (omega arith), rw none_left (percentage percent whole (length techs))),
    )

with_evidence-le :
    (path : List ℕ) (found : List (List ℕ)) → length (with_evidence path found) ≤ suc (length found)
with_evidence-le path found = elim (Bool-cases (contains found path)) [
  | inl e ↦ rw e (omega arith)
  | inr e ↦ rw e (omega (arith, length-append found (path ∷ [])))
]

stop-le :
    (more rest : List (List ℕ))
    → length more ≤ 5
    → (length more ≤ 4 → length rest ≤ 5)
    → length (if leb 5 (length more) then more else rest) ≤ 5
stop-le more rest h r = elim (Bool-cases (leb 5 (length more))) [
  | inl e ↦ rw e h
  | inr e ↦ rw e (r (ground (arith, e)))
]

collect_evidence-le :
    (pattern : List ℕ → Bool) (files : Files) (found : List (List ℕ))
    → length found ≤ 4
    → length (collect_evidence pattern files found) ≤ 5
unfolding collect_evidence
collect_evidence-le pattern [] found h = omega (arith, h)
collect_evidence-le pattern ((path, none) ∷ fs) found h = collect_evidence-le pattern fs found h
collect_evidence-le pattern ((path, some content) ∷ fs) found h =
    elim (Bool-cases (pattern content || pattern path)) [
      | inr e ↦ rw e (collect_evidence-le pattern fs found h)
      | inl e ↦ rw e (
          stop-le (with_evidence path found)
            (collect_evidence pattern fs (with_evidence path found))
            (omega (arith, h, with_evidence-le path found))
            (collect_evidence-le pattern fs (with_evidence path found)))
    ]

first_evidence-le : (o : Option (List ℕ)) → length (first_evidence o) ≤ 4
first_evidence-le none = omega arith
first_evidence-le (some p) = omega arith

manifest_evidence-le :
    (pattern : List ℕ → Bool) (e : TechEntry) (m : Manifests)
    → length (manifest_evidence pattern e m) ≤ 4
unfolding manifest_evidence
manifest_evidence-le pattern e m = elim (Bool-cases (e.manifest_check m)) [
  | inr n ↦ rw n (omega arith)
  | inl y ↦ rw y (first_evidence-le (find (is_evidence pattern m) manifests))
]

abbrev pub Supported : DetectedTechnology → Type 0
Supported t = (1 ≤ length t.evidence_files) × (length t.evidence_files ≤ 5)

detected-Supported :
    (e : TechEntry) (found : List (List ℕ)) (rest : List DetectedTechnology)
    → length found ≤ 5
    → All Supported rest
    → All Supported (detected e found rest)
detected-Supported e [] rest h hs = hs
detected-Supported e (p ∷ ps) rest h hs = ((omega arith, h), hs)

-- Every technology that is detected has evidence, at most five files of it.
pub detect_project_technologies-Supported :
    (patterns : List ℕ → List ℕ → Bool) (files : Files) (m : Manifests) (es : List TechEntry)
    → All Supported (detect_project_technologies patterns files m es)
unfolding detect_project_technologies
detect_project_technologies-Supported patterns files m [] = tt
detect_project_technologies-Supported patterns files m (e ∷ es) =
    let start = manifest_evidence (patterns e.id) e m in
    detected-Supported e (collect_evidence (patterns e.id) files start) _
      (collect_evidence-le (patterns e.id) files start (manifest_evidence-le (patterns e.id) e m))
      (detect_project_technologies-Supported patterns files m es)

-- ===== src/Diagnostics/Audit/Numbers.antt =====
-- The numbers of a report.
use personas_agentes.Common.{
  ◌||◌, ap, codes, ends_with, ℕ, zero, suc, ◌+◌, ◌*◌, ◌≤◌, ◌<◌, ◌≡◌, refl, inl, inr, Bool, List, [],
  ◌∷◌, Option, none, some, if◌then◌else◌, keep, length, All, arith, Bool-cases, ◌∙◌,
}
use personas_agentes.Diagnostics.Audit.{
  TestQualityLevel, smoke, basic, good, phd, AuditedTest, regenerates, is_level, of_level,
  health_of, report_of, audit_content, push, audit_single_test, audit_files, audit_all,
}

-- A result is queued by its level.
abbrev ByLevel : AuditedTest → Type 0
ByLevel r = r.should_regenerate ≡ regenerates r.level

abbrev bump : Bool → ℕ → ℕ
bump b n = if b then suc n else n

length-keep :
    (p : AuditedTest → Bool) (r : AuditedTest) (rs : List AuditedTest)
    → length (keep p (r ∷ rs)) ≡ bump (p r) (length (keep p rs))
length-keep p r rs = elim (Bool-cases (p r)) [ inl e ↦ rw e refl | inr e ↦ rw e refl ]

bumps-sum :
    (l : TestQualityLevel) (a b c d n : ℕ)
    → a + b + c + d ≡ n
    → bump (is_level smoke l) a
        + bump (is_level basic l) b
        + bump (is_level good l) c
        + bump (is_level phd l) d
      ≡ suc n
bumps-sum smoke a b c d n h = omega (arith, h)
bumps-sum basic a b c d n h = omega (arith, h)
bumps-sum good a b c d n h = omega (arith, h)
bumps-sum phd a b c d n h = omega (arith, h)

levels-sum :
    (rs : List AuditedTest)
    → of_level smoke rs + of_level basic rs + of_level good rs + of_level phd rs ≡ length rs
levels-sum [] = omega arith
levels-sum (r ∷ rs) = omega (
  arith,
  length-keep (λ t. is_level smoke t.level) r rs,
  length-keep (λ t. is_level basic t.level) r rs,
  length-keep (λ t. is_level good t.level) r rs,
  length-keep (λ t. is_level phd t.level) r rs,
  bumps-sum r.level (of_level smoke rs) (of_level basic rs) (of_level good rs) (of_level phd rs)
      (length rs) (levels-sum rs),
)

bump-queue :
    (l : TestQualityLevel) (a b n : ℕ)
    → n ≡ a + b
    → bump (regenerates l) n ≡ bump (is_level smoke l) a + bump (is_level basic l) b
bump-queue smoke a b n h = omega (arith, h)
bump-queue basic a b n h = omega (arith, h)
bump-queue good a b n h = omega (arith, h)
bump-queue phd a b n h = omega (arith, h)

queue-sum :
    (rs : List AuditedTest)
    → All ByLevel rs
    → length (keep (λ r. r.should_regenerate) rs) ≡ of_level smoke rs + of_level basic rs
queue-sum [] h = omega arith
queue-sum (r ∷ rs) h =
    length-keep (λ t. t.should_regenerate) r rs
    ∙ ap (λ b. bump b (length (keep (λ t. t.should_regenerate) rs))) h.0
    ∙ omega (
      arith,
      length-keep (λ t. is_level smoke t.level) r rs,
      length-keep (λ t. is_level basic t.level) r rs,
      bump-queue r.level (of_level smoke rs) (of_level basic rs)
          (length (keep (λ t. t.should_regenerate) rs)) (queue-sum rs h.1),
    )

health_of-le :
    (percent : ℕ → ℕ → ℕ)
    → ((a b : ℕ) → 0 < b → a ≤ b → percent a b ≤ 100)
    → (goods phds total : ℕ) → goods + phds ≤ total
    → health_of percent goods phds total ≤ 100
unfolding health_of
health_of-le percent at_most goods phds zero h = omega arith
health_of-le percent at_most goods phds (suc n) h =
    at_most (goods * 70 + phds * 100) (suc n * 100) (omega arith) (omega (arith, h))

-- A test of one of the two lower levels.
abbrev pub is_low : AuditedTest → Bool
is_low r = is_level smoke r.level || is_level basic r.level

low-regenerates : (l : TestQualityLevel) → regenerates l ≡ is_level smoke l || is_level basic l
low-regenerates smoke = refl
low-regenerates basic = refl
low-regenerates good = refl
low-regenerates phd = refl

same-step :
    (b c : Bool) (r : AuditedTest) (xs ys : List AuditedTest)
    → b ≡ c
    → xs ≡ ys
    → (if b then r ∷ xs else xs) ≡ (if c then r ∷ ys else ys)
same-step b c r xs ys e f = rw (e, f) refl

queue-low :
    (rs : List AuditedTest) → All ByLevel rs → keep (λ r. r.should_regenerate) rs ≡ keep is_low rs
queue-low [] h = refl
queue-low (r ∷ rs) h =
    same-step r.should_regenerate (is_low r) r (keep (λ t. t.should_regenerate) rs) (keep is_low rs)
      (h.0 ∙ low-regenerates r.level) (queue-low rs h.1)

module _ (read_file : List ℕ → Option (List ℕ)) (relative name_of stem_of : List ℕ → List ℕ) where
  abbrev Each : Option AuditedTest → Type 0
  Each none = Unit
  Each (some r) = ByLevel r

  audit_content-Each :
      (path : List ℕ) (o : Option (List ℕ))
      → Each (audit_content read_file relative name_of stem_of path o)
  unfolding audit_content
  audit_content-Each path none = tt
  audit_content-Each path (some content) = refl

  push-All :
      (o : Option AuditedTest) (rs : List AuditedTest)
      → Each o
      → All ByLevel rs
      → All ByLevel (push o rs)
  push-All none rs h hs = hs
  push-All (some r) rs h hs = (h, hs)

  audit_files-All :
      (paths : List (List ℕ)) → All ByLevel (audit_files read_file relative name_of stem_of paths)
  unfolding audit_files audit_single_test
  audit_files-All [] = tt
  audit_files-All (path ∷ paths) = elim (Bool-cases (ends_with (codes ".test.ts") (name_of path))) [
    | inr e ↦ rw e (audit_files-All paths)
    | inl e ↦ rw e (
        push-All (audit_content read_file relative name_of stem_of path (read_file path))
          (audit_files read_file relative name_of stem_of paths)
          (audit_content-Each path (read_file path)) (audit_files-All paths))
  ]

  -- The four levels of a report add up to its tests, the queue for regeneration is the list of the
  -- audited tests of the two lower levels, as many as these levels count, and the health score is at
  -- most 100 if the percentage of a part is.
  pub audit_all-numbers :
      (percent : ℕ → ℕ → ℕ)
      → ((a b : ℕ) → 0 < b → a ≤ b → percent a b ≤ 100)
      → (paths : List (List ℕ))
      → let r = audit_all read_file relative name_of stem_of percent paths in
        (r.smokes + r.basics + r.goods + r.phds ≡ r.total)
        × (((length r.regeneration_queue ≡ r.smokes + r.basics)
              × (r.regeneration_queue
                  ≡ keep is_low (audit_files read_file relative name_of stem_of paths)))
            × (r.health_score ≤ 100))
  unfolding audit_all report_of
  audit_all-numbers percent at_most paths =
      let rs = audit_files read_file relative name_of stem_of paths in
      (
        levels-sum rs,
        (
          (queue-sum rs (audit_files-All paths), queue-low rs (audit_files-All paths)),
          health_of-le percent at_most (of_level good rs) (of_level phd rs) (length rs)
              (omega (arith, levels-sum rs)),
        ),
      )

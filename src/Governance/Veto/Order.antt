-- ===== src/Governance/Veto/Order.antt =====
-- What lies below an ignored directory, for both tests of the engine.
use personas_agentes.Common.{
  ℕ, ◌≡◌, refl, ap, ◌∙◌, inl, inr, Bool, true, ◌||◌, List, [], ◌∷◌, ◌++◌, some, any, arith,
  Bool-cases,
}
use personas_agentes.Governance.Veto.{
  is_ignored_dir, is_separator, is_ignored_path, should_veto, infrastructure, should_skip,
}
use personas_agentes.Governance.Veto.Paths.{segments_from, segments, is_ignored_path-segments}

any-append {ℓ} :
    {A : Type ℓ} (p : A → Bool) (xs ys : List A) → any p (xs ++ ys) ≡ any p xs || any p ys
any-append p [] ys = refl
any-append p (x ∷ xs) ys = ground (arith, any-append p xs ys)

segments-join :
    (read p q : List ℕ) (c : ℕ)
    → is_separator c ≡ true
    → segments_from read (p ++ c ∷ q) ≡ segments_from read p ++ segments_from [] q
unfolding segments_from
segments-join read [] q c s = rw s refl
segments-join read (x ∷ p) q c s = elim (Bool-cases (is_separator x)) [
  | inl e ↦ rw e (ap (λ xs. read ∷ xs) (segments-join [] p q c s))
  | inr e ↦ rw e (segments-join (read ++ x ∷ []) p q c s)
]

is_ignored_path-join :
    (p q : List ℕ) (c : ℕ)
    → is_separator c ≡ true
    → is_ignored_path (p ++ c ∷ q) ≡ is_ignored_path p || is_ignored_path q
unfolding segments
is_ignored_path-join p q c s =
    is_ignored_path-segments (p ++ c ∷ q)
    ∙ ap (any is_ignored_dir) (segments-join [] p q c s)
    ∙ any-append is_ignored_dir (segments p) (segments q)
    ∙ ground (arith, is_ignored_path-segments p, is_ignored_path-segments q)

-- A path that lies below an ignored path, or holds one below it, is vetoed as infrastructure
-- and skipped, whatever the line and the domain.
pub join-vetoed :
    (trim_line lower : List ℕ → List ℕ) (p q line : List ℕ) (c : ℕ) (is_experimentation : Bool)
    → is_separator c ≡ true
    → is_ignored_path p || is_ignored_path q ≡ true
    → (should_veto (p ++ c ∷ q) ≡ some infrastructure)
      × (should_skip trim_line lower line (p ++ c ∷ q) is_experimentation ≡ true)
unfolding should_veto should_skip
join-vetoed trim_line lower p q line c x s h =
    let e = is_ignored_path-join p q c s ∙ h in (rw e refl, ground (arith, e))

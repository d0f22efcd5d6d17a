-- ===== src/Diagnostics/Scorecard/Limit.antt =====
-- The scan with a limit against the scan of everything.
use personas_agentes.Common.{
  length-take, ℕ, zero, suc, ◌≤◌, ◌<◌, ◌≡◌, refl, sym, ap, ◌∙◌, inl, inr, List, [], ◌∷◌, ◌++◌,
  append_assoc, append-nil, length, length-append, take, leb, arith, Bool-cases, Entry, plain,
  directory, Entries, end, entry, paths_of, paths_in,
}
use personas_agentes.Diagnostics.Scorecard.{
  is_ignored, is_scanned, visit, walk_entries, collect_source_files,
}

take-all : {A : Type 0} (n : ℕ) (xs : List A) → length xs ≤ n → take n xs ≡ xs
take-all zero [] h = refl
take-all zero (x ∷ xs) h = ground (arith, h)
take-all (suc n) [] h = refl
take-all (suc n) (x ∷ xs) h = ap (λ ys. x ∷ ys) (take-all n xs (omega (arith, h)))

-- What is appended beyond the limit is not taken.
take-full : {A : Type 0} (n : ℕ) (xs ys : List A) → length xs ≡ n → take n (xs ++ ys) ≡ xs
take-full zero [] ys h = refl
take-full zero (x ∷ xs) ys h = ground (arith, h)
take-full (suc n) [] ys h = ground (arith, h)
take-full (suc n) (x ∷ xs) ys h = ap (λ zs. x ∷ zs) (take-full n xs ys (omega (arith, h)))

take-take : {A : Type 0} (n : ℕ) (xs ys : List A) → take n (take n xs ++ ys) ≡ take n (xs ++ ys)
take-take zero xs ys = refl
take-take (suc n) [] ys = refl
take-take (suc n) (x ∷ xs) ys = ap (λ zs. x ∷ zs) (take-take n xs ys)

module _ (join : List ℕ → List ℕ → List ℕ) (limit : ℕ) where
  abbrev all_of : List ℕ → Entry → List (List ℕ)
  all_of = paths_of join is_ignored is_scanned

  abbrev all_in : List ℕ → Entries → List (List ℕ)
  all_in = paths_in join is_ignored is_scanned

  mutual
    unfolding walk_entries paths_in

    visit-take :
        (out : List (List ℕ)) (path : List ℕ) (e : Entry)
        → length out < limit
        → visit join limit out path e ≡ take limit (out ++ all_of path e)
    visit-take out path (plain name) h = elim (Bool-cases (is_scanned name)) [
      | inl s ↦ rw s (
          sym (
            take-all limit (out ++ join path name ∷ [])
              (omega (arith, h, length-append out (join path name ∷ [])))))
      | inr s ↦
          rw s (sym (ap (take limit) (append-nil out) ∙ take-all limit out (omega (arith, h))))
    ]
    visit-take out path (directory name inside) h = elim (Bool-cases (is_ignored name)) [
      | inl s ↦
          rw s (sym (ap (take limit) (append-nil out) ∙ take-all limit out (omega (arith, h))))
      | inr s ↦ rw s (elim (Bool-cases (leb limit (length out))) [
        | inl full ↦ ground (arith, full, h)
        | inr on ↦ rw on (walk-take out (join path name) inside (omega (arith, h)))
      ])
    ]

    walk-take :
        (out : List (List ℕ)) (path : List ℕ) (es : Entries)
        → length out ≤ limit
        → walk_entries join limit out path es ≡ take limit (out ++ all_in path es)
    walk-take out path end h = sym (ap (take limit) (append-nil out) ∙ take-all limit out h)
    walk-take out path (entry e es) h = elim (Bool-cases (leb limit (length out))) [
      | inl full ↦
          rw full
            (sym (take-full limit out (all_of path e ++ all_in path es) (ground (arith, full, h))))
      | inr on ↦ rw on (
          let first = visit-take out path e (ground (arith, on)) in
          ap (λ o. walk_entries join limit o path es) first
          ∙ walk-take (take limit (out ++ all_of path e)) path es
              (length-take limit (out ++ all_of path e))
          ∙ take-take limit (out ++ all_of path e) (all_in path es)
          ∙ ap (take limit) (append_assoc out (all_of path e) (all_in path es)))
    ]

  -- A scan with a limit finds the first files, as many as the limit, of those that a scan without
  -- one finds: the scanned files in the order of the directories, outside the ignored ones.
  pub collect_source_files-take :
      (root : List ℕ) (inside : Entries)
      → collect_source_files join limit root inside
        ≡ take limit (paths_in join is_ignored is_scanned root inside)
  unfolding collect_source_files
  collect_source_files-take root inside = elim (Bool-cases (leb limit 0)) [
    | inl z ↦ rw z (sym (take-full limit [] (all_in root inside) (ground (arith, z))))
    | inr p ↦ rw p (walk-take [] root inside (omega arith))
  ]

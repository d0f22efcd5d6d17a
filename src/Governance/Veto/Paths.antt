-- ===== src/Governance/Veto/Paths.antt =====
-- The scan for an ignored directory against splitting the path.
use personas_agentes.Common.{
  ℕ, suc, ◌+◌, ◌-◌, ◌≡◌, refl, sym, ap, ◌∙◌, inl, inr, true, false, ◌||◌, List, [], ◌∷◌, ◌++◌,
  append_assoc, if◌then◌else◌, ltb, length, length-append, take, drop, any, arith, Bool-cases,
}
use personas_agentes.Governance.Veto.{
  is_ignored_dir, is_separator, ends_ignored, scan, is_ignored_path,
}

-- The segments of the text `read ++ rest`, where `read` holds no separator.
unfoldable pub segments_from : (read rest : List ℕ) → List (List ℕ)
segments_from read [] = read ∷ []
segments_from read (c ∷ cs) =
    let after = segments_from [] cs in
    let on = segments_from (read ++ c ∷ []) cs in if is_separator c then read ∷ after else on

-- `split(/[/\]/)`.
unfoldable pub segments : List ℕ → List (List ℕ)
unfolding segments_from
segments = segments_from []

take-length : (xs ys : List ℕ) → take (length xs) (xs ++ ys) ≡ xs
take-length [] ys = refl
take-length (x ∷ xs) ys = ap (λ zs. x ∷ zs) (take-length xs ys)

drop-length : (xs ys : List ℕ) → drop (length xs) (xs ++ ys) ≡ ys
drop-length [] ys = refl
drop-length (x ∷ xs) ys = drop-length xs ys

nothing-ignored : is_ignored_dir [] ≡ false
unfolding is_ignored_dir
nothing-ignored = refl

-- The segment read, cut out of the path by its two ends.
ends_ignored-read :
    (path before read rest : List ℕ) (start i : ℕ)
    → path ≡ before ++ (read ++ rest)
    → start ≡ length before
    → i ≡ length before + length read
    → ends_ignored path start i ≡ is_ignored_dir read
ends_ignored-read path before [] rest start i p s e =
    let at : ltb start i ≡ false = ground (arith, s, e) in rw (at, nothing-ignored) refl
ends_ignored-read path before (r ∷ rs) rest start i p s e =
    let cut : take (i - start) (drop start path) ≡ r ∷ rs =
      ap (λ n. take n (drop start path)) {x = i - start} {y = length (r ∷ rs)}
        (ground (arith, s, e))
      ∙ ap (take (length (r ∷ rs))) (
          ap (λ n. drop n path) s
          ∙ ap (drop (length before)) p
          ∙ drop-length before ((r ∷ rs) ++ rest))
      ∙ take-length (r ∷ rs) rest in
    let at : ltb start i ≡ true = ground (arith, s, e) in rw at (ap is_ignored_dir cut)

scan-segments :
    (path before read rest : List ℕ) (start i : ℕ)
    → path ≡ before ++ (read ++ rest)
    → start ≡ length before
    → i ≡ length before + length read
    → scan path start i rest ≡ any is_ignored_dir (segments_from read rest)
unfolding scan segments_from
scan-segments path before read [] start i p s e =
    ends_ignored-read path before read [] start i p s e ∙ ground arith
scan-segments path before read (c ∷ cs) start i p s e = elim (Bool-cases (is_separator c)) [
  | inl sep ↦
      rw (sep, ends_ignored-read path before read (c ∷ cs) start i p s e)
        (ap (λ b. is_ignored_dir read || b)
          (scan-segments path (before ++ (read ++ c ∷ [])) [] cs (suc i) (suc i)
            (p
              ∙ ap (λ xs. before ++ xs) (sym (append_assoc read (c ∷ []) cs))
              ∙ sym (append_assoc before (read ++ c ∷ []) cs))
            (ends before read c i e) (ends before read c i e ∙ ground arith)))
  | inr on ↦ rw on (
      scan-segments path before (read ++ c ∷ []) cs start (suc i)
        (p ∙ ap (λ xs. before ++ xs) (sym (append_assoc read (c ∷ []) cs))) s
        (ground (arith, e, length-append read (c ∷ []))))
]
  where
    ends :
        (before read : List ℕ) (c i : ℕ)
        → i ≡ length before + length read
        → suc i ≡ length (before ++ (read ++ c ∷ []))
    ends before read c i e =
        ground (arith, e, length-append before (read ++ c ∷ []), length-append read (c ∷ []))

-- A path is ignored exactly if one of the segments between its separators, `/` or `\`, is the name of
-- an ignored directory.
pub is_ignored_path-segments :
    (path : List ℕ) → is_ignored_path path ≡ any is_ignored_dir (segments path)
unfolding is_ignored_path segments
is_ignored_path-segments [] = rw nothing-ignored refl
is_ignored_path-segments (c ∷ cs) = scan-segments (c ∷ cs) [] [] (c ∷ cs) 0 0 refl refl refl

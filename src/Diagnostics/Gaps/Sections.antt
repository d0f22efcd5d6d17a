-- ===== src/Diagnostics/Gaps/Sections.antt =====
-- The sections of a report are read one by one.
use personas_agentes.Common.{
  codes, includes, trim_codes, all_lines, all_lines-append, ℕ, ◌≡◌, refl, sym, ap, ◌∙◌, inl, inr,
  Bool, true, false, not, ◌&&◌, ◌||◌, List, [], ◌∷◌, ◌++◌, append_assoc, append-nil, if◌then◌else◌,
  Bool-cases, is_nil, starts_with,
}
use personas_agentes.Diagnostics.Gaps.{
  GapDetail, State, is_gap, no_units, flush_gaps, section_of, handle_local_line,
  handle_missing_count_line, handle_collection, quoted, process_line, process_lines, new_state,
  extract_lines, extract,
}

-- The gaps that were found before stand in front.
abbrev prepend : List GapDetail → State × List GapDetail → State × List GapDetail
prepend gaps (s, found) = (s, gaps ++ found)

keeps : (s : State) (gaps : List GapDetail) → (s, gaps) ≡ prepend gaps (s, [])
keeps s gaps = ap (λ g. (s, g)) (sym (append-nil gaps))

flush_gaps-prepend :
    (s : State) (gaps : List GapDetail) → flush_gaps s gaps ≡ gaps ++ flush_gaps s []
unfolding flush_gaps
flush_gaps-prepend s gaps =
    elim (Bool-cases (
      not (is_nil s.last_local)
      && is_gap s.last_level
      && (s.collecting_missing || not (no_units s.current_missing)))) [
        | inl e ↦ rw e refl
        | inr e ↦ rw e (sym (append-nil gaps))
      ]

handle_collection-prepend :
    (line : List ℕ) (s : State) (gaps : List GapDetail)
    → handle_collection line (s, gaps) ≡ prepend gaps (handle_collection line (s, []))
unfolding handle_collection
handle_collection-prepend line s gaps =
    elim (Bool-cases (starts_with (codes ">") line && includes (codes "- `") line)) [
      | inl e ↦
          rw e (keeps (record s { current_missing = s.current_missing ++ quoted line ∷ [] }) gaps)
      | inr e ↦ rw e (elim (Bool-cases (starts_with (codes ">") line)) [
        | inl f ↦ rw f (keeps s gaps)
        | inr f ↦ rw f (
            ap (λ g. (record s { collecting_missing = false; current_missing = [] }, g))
              (flush_gaps-prepend s gaps))
      ])
    ]

branch :
    (gaps : List GapDetail) (b : Bool) (x y x' y' : State × List GapDetail)
    → x ≡ prepend gaps x'
    → y ≡ prepend gaps y'
    → (if b then x else y) ≡ prepend gaps (if b then x' else y')
branch gaps true x y x' y' p q = p
branch gaps false x y x' y' p q = q

process_line-prepend :
    (line : List ℕ) (s : State) (gaps : List GapDetail)
    → process_line line (s, gaps) ≡ prepend gaps (process_line line (s, []))
unfolding process_line handle_local_line
process_line-prepend line s gaps = elim (Bool-cases (includes (codes "**Local:**") line)) [
  | inl a ↦ rw a (ap (λ g. (section_of line, g)) (flush_gaps-prepend s gaps))
  | inr a ↦ rw a (elim (Bool-cases (includes (codes "Faltam") line)) [
    | inl b ↦ rw b (keeps (handle_missing_count_line line s) gaps)
    | inr b ↦ rw b (elim (Bool-cases (includes (codes "Ausentes") line)) [
      | inl c ↦ rw c (keeps (record s { collecting_missing = true }) gaps)
      | inr c ↦ rw c (
          branch gaps s.collecting_missing (handle_collection line (s, gaps)) (s, gaps)
            (handle_collection line (s, [])) (s, []) (handle_collection-prepend line s gaps)
            (keeps s gaps))
    ])
  ])
]

process_lines-prepend :
    (lines : List (List ℕ)) (s : State) (gaps : List GapDetail)
    → process_lines lines (s, gaps) ≡ prepend gaps (process_lines lines (s, []))
unfolding process_lines
process_lines-prepend [] s gaps = keeps s gaps
process_lines-prepend (line ∷ lines) s gaps =
    let (t, found) = process_line (trim_codes line) (s, []) in
    let x = process_lines lines (t, []) in
    ap (process_lines lines) (process_line-prepend (trim_codes line) s gaps)
    ∙ process_lines-prepend lines t (gaps ++ found)
    ∙ ap (λ g. (x.0, g)) (append_assoc gaps found x.1)
    ∙ sym (ap (prepend gaps) (process_lines-prepend lines t found))

section-resets :
    (line : List ℕ) (s : State) (gaps : List GapDetail)
    → includes (codes "**Local:**") line ≡ true
    → process_line line (s, gaps) ≡ (section_of line, flush_gaps s gaps)
unfolding process_line handle_local_line
section-resets line s gaps e = rw e refl

process_lines-append :
    (xs ys : List (List ℕ)) (x : State × List GapDetail)
    → process_lines (xs ++ ys) x ≡ process_lines ys (process_lines xs x)
unfolding process_lines
process_lines-append [] ys x = refl
process_lines-append (line ∷ lines) ys x =
    process_lines-append lines ys (process_line (trim_codes line) x)

abbrev finish : State × List GapDetail → List GapDetail
finish (s, gaps) = flush_gaps s gaps

finish-prepend :
    (gaps : List GapDetail) (x : State × List GapDetail)
    → finish (prepend gaps x) ≡ gaps ++ finish x
finish-prepend gaps (s, found) =
    flush_gaps-prepend s (gaps ++ found)
    ∙ append_assoc gaps found (flush_gaps s [])
    ∙ ap (λ g. gaps ++ g) (sym (flush_gaps-prepend s found))

-- A section that follows other lines, read on its own.
from_section :
    (line : List ℕ) (lines : List (List ℕ)) (s : State) (gaps : List GapDetail)
    → includes (codes "**Local:**") (trim_codes line) ≡ true
    → finish (process_lines (line ∷ lines) (s, gaps))
      ≡ flush_gaps s gaps ++ finish (process_lines lines (section_of (trim_codes line), []))
unfolding process_lines
from_section line lines s gaps e =
    let start = section_of (trim_codes line) in
    ap (λ x. finish (process_lines lines x)) (section-resets (trim_codes line) s gaps e)
    ∙ ap finish (process_lines-prepend lines start (flush_gaps s gaps))
    ∙ finish-prepend (flush_gaps s gaps) (process_lines lines (start, []))

extract_lines-append :
    (xs : List (List ℕ)) (line : List ℕ) (ys : List (List ℕ))
    → includes (codes "**Local:**") (trim_codes line) ≡ true
    → extract_lines (xs ++ line ∷ ys) ≡ extract_lines xs ++ extract_lines (line ∷ ys)
unfolding extract_lines
extract_lines-append xs line ys e =
    let before = process_lines xs (new_state, []) in
    ap finish (process_lines-append xs (line ∷ ys) (new_state, []))
    ∙ from_section line ys before.0 before.1 e
    ∙ ap (λ g. extract_lines xs ++ g) (sym (from_section line ys new_state [] e))

-- Where a part of a report begins with the line of a file, its gaps are those of what stands before
-- it, then its own: nothing of an unfinished section reaches the next one.
pub extract-sections :
    (a b line : List ℕ) (rest : List (List ℕ))
    → all_lines b ≡ line ∷ rest
    → includes (codes "**Local:**") (trim_codes line) ≡ true
    → extract (a ++ 10 ∷ b) ≡ extract a ++ extract b
unfolding extract
extract-sections a b line rest p e =
    ap extract_lines (all_lines-append a b ∙ ap (λ ls. all_lines a ++ ls) p)
    ∙ extract_lines-append (all_lines a) line rest e
    ∙ ap (λ ls. extract_lines (all_lines a) ++ extract_lines ls) (sym p)

-- ===== src/Diagnostics/Gaps/Units.antt =====
-- What the section of one file yields.
use personas_agentes.Common.{
  codes, includes, trim_codes, is_nil, ℕ, ◌≡◌, refl, sym, ap, ◌∙◌, Bool, true, false, List, [], ◌∷◌,
  ◌++◌, map, append_assoc, append-nil, starts_with, All,
}
use personas_agentes.Diagnostics.Gaps.{
  GapDetail, State, gap, number_or_zero, missing_number, flush_gaps, section_of, quoted,
  handle_local_line, handle_missing_count_line, handle_collection, process_line, process_lines,
  new_state, extract_lines,
}

-- The tests on a line, trimmed, in the order in which they are made.
abbrev pub has : List ℕ → List ℕ → Bool
has part line = includes part (trim_codes line)

pub record IsCount (line : List ℕ) : Type 0 where
  pub not_local : has (codes "**Local:**") line ≡ false
  pub counts : has (codes "Faltam") line ≡ true
  pub in_gaps : has (codes "PARITY_GAPS") line ≡ true

pub record IsHeading (line : List ℕ) : Type 0 where
  pub not_local : has (codes "**Local:**") line ≡ false
  pub not_count : has (codes "Faltam") line ≡ false
  pub heads : has (codes "Ausentes") line ≡ true

pub record IsUnit (line : List ℕ) : Type 0 where
  pub not_local : has (codes "**Local:**") line ≡ false
  pub not_count : has (codes "Faltam") line ≡ false
  pub not_heading : has (codes "Ausentes") line ≡ false
  pub quotes : starts_with (codes ">") (trim_codes line) ≡ true
  pub lists : has (codes "- `") line ≡ true

abbrev unit_of : List ℕ → List ℕ
unit_of line = quoted (trim_codes line)

-- The state of a section while its units are collected.
abbrev collecting : List ℕ → ℕ → List (List ℕ) → State
collecting file count units = record {
  last_local = file;
  last_level = gap;
  last_missing_count = count;
  collecting_missing = true;
  current_missing = units;
}

unit-adds :
    (line file : List ℕ) (count : ℕ) (units : List (List ℕ)) (gaps : List GapDetail)
    → IsUnit line
    → process_line (trim_codes line) (collecting file count units, gaps)
      ≡ (collecting file count (units ++ unit_of line ∷ []), gaps)
unfolding process_line handle_collection
unit-adds line file count units gaps h =
    rw (h.not_local, h.not_count, h.not_heading, h.quotes, h.lists) refl

units-add :
    (lines : List (List ℕ)) (file : List ℕ) (count : ℕ) (units : List (List ℕ))
    (gaps : List GapDetail)
    → All IsUnit lines
    → process_lines lines (collecting file count units, gaps)
      ≡ (collecting file count (units ++ map unit_of lines), gaps)
unfolding process_lines
units-add [] file count units gaps h =
    ap (λ us. (collecting file count us, gaps)) (sym (append-nil units))
units-add (line ∷ lines) file count units gaps h =
    ap (process_lines lines) (unit-adds line file count units gaps h.0)
    ∙ units-add lines file count (units ++ unit_of line ∷ []) gaps h.1
    ∙ ap (λ us. (collecting file count us, gaps))
        (append_assoc units (unit_of line ∷ []) (map unit_of lines))

opens :
    (line : List ℕ)
    → has (codes "**Local:**") line ≡ true
    → process_line (trim_codes line) (new_state, []) ≡ (section_of (trim_codes line), [])
unfolding process_line handle_local_line new_state flush_gaps
opens line e = rw e refl

counts-gap :
    (line : List ℕ) (s : State)
    → IsCount line
    → process_line (trim_codes line) (s, []) ≡ (
      record s {
        last_level = gap;
        last_missing_count = number_or_zero (missing_number (trim_codes line));
      },
      [],
    )
unfolding process_line handle_missing_count_line
counts-gap line s h = rw (h.not_local, h.counts, h.in_gaps) refl

starts-units :
    (line : List ℕ) (s : State)
    → IsHeading line
    → process_line (trim_codes line) (s, []) ≡ (record s { collecting_missing = true }, [])
unfolding process_line
starts-units line s h = rw (h.not_local, h.not_count, h.heads) refl

abbrev finish : State × List GapDetail → List GapDetail
finish (s, gaps) = flush_gaps s gaps

flushes :
    (file : List ℕ) (count : ℕ) (units : List (List ℕ))
    → is_nil file ≡ false
    → flush_gaps (collecting file count units) []
      ≡ record { file = file; level = gap; missing_count = count; missing_units = units } ∷ []
unfolding flush_gaps
flushes file count units f = rw f refl

-- The section of a file with a name, a count of gaps and a list of units yields one gap: the file,
-- the count and every unit of the list in its order.
pub section-reads :
    (local count heading : List ℕ) (units : List (List ℕ))
    → has (codes "**Local:**") local ≡ true
    → is_nil (unit_of local) ≡ false
    → IsCount count
    → IsHeading heading
    → All IsUnit units
    → extract_lines (local ∷ count ∷ heading ∷ units)
      ≡ record {
        file = unit_of local;
        level = gap;
        missing_count = number_or_zero (missing_number (trim_codes count));
        missing_units = map unit_of units;
      }
        ∷ []
unfolding extract_lines process_lines flush_gaps section_of
section-reads local count heading units l f c h us =
    let file = unit_of local in
    let n = number_or_zero (missing_number (trim_codes count)) in
    let start = section_of (trim_codes local) in
    let counted = record start { last_level = gap; last_missing_count = n } in
    ap
      (λ x. finish (
        process_lines units
          (process_line (trim_codes heading) (process_line (trim_codes count) x))))
      (opens local l)
    ∙ ap (λ x. finish (process_lines units (process_line (trim_codes heading) x)))
        (counts-gap count start c)
    ∙ ap (λ x. finish (process_lines units x)) (starts-units heading counted h)
    ∙ ap finish (units-add units file n [] [] us)
    ∙ flushes file n (map unit_of units) f

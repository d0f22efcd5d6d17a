-- ===== src/Diagnostics/Gaps/Examples.antt =====
-- A report of two files.
use personas_agentes.Common.{
  codes, is_space, ℕ, ◌≡◌, refl, List, [], ◌∷◌, ◌++◌, trim_codes, split_lines,
}
use personas_agentes.Diagnostics.Gaps.{
  gap, quoted, extract, extract_lines, process_lines, process_line, handle_local_line,
  handle_missing_count_line, handle_collection, flush_gaps, section_of, new_state, number_or_zero,
  missing_number,
}
use personas_agentes.Diagnostics.Gaps.Sections.{extract-sections}
use personas_agentes.Diagnostics.Gaps.Units.{IsCount, IsHeading, IsUnit, section-reads}

abbrev first_local : List ℕ
first_local = codes "**Local:** `a.ts`"

abbrev first_count : List ℕ
first_count = codes "> Faltam 2 PARITY_GAPS"

abbrev first_heading : List ℕ
first_heading = codes "> Ausentes:"

abbrev first_units : List (List ℕ)
first_units = codes "> - `f`" ∷ codes "> - `g`" ∷ []

first_count-IsCount : IsCount first_count
unfolding is_space
first_count-IsCount = record { not_local = refl; counts = refl; in_gaps = refl }

first_heading-IsHeading : IsHeading first_heading
unfolding is_space
first_heading-IsHeading = record { not_local = refl; not_count = refl; heads = refl }

f-IsUnit : IsUnit (codes "> - `f`")
unfolding is_space
f-IsUnit = record {
  not_local = refl;
  not_count = refl;
  not_heading = refl;
  quotes = refl;
  lists = refl;
}

g-IsUnit : IsUnit (codes "> - `g`")
unfolding is_space
g-IsUnit = record {
  not_local = refl;
  not_count = refl;
  not_heading = refl;
  quotes = refl;
  lists = refl;
}

section-reads_example :
    extract_lines (first_local ∷ first_count ∷ first_heading ∷ first_units)
    ≡ record {
      file = quoted (trim_codes first_local);
      level = gap;
      missing_count = number_or_zero (missing_number (trim_codes first_count));
      missing_units =
          quoted (trim_codes (codes "> - `f`")) ∷ quoted (trim_codes (codes "> - `g`")) ∷ [];
    }
      ∷ []
unfolding is_space quoted
section-reads_example =
    section-reads first_local first_count first_heading first_units refl refl first_count-IsCount
      first_heading-IsHeading (f-IsUnit, (g-IsUnit, tt))

abbrev unfinished : List ℕ
unfinished = codes "**Local:** `a.ts`\n> Faltam 3 PARITY_GAPS\n> Ausentes:\n> - `f`"

abbrev second : List ℕ
second = codes "**Local:** `b.ts`\n> Faltam 1 x"

extract-sections_example :
    extract (unfinished ++ 10 ∷ second) ≡ extract unfinished ++ extract second
unfolding split_lines is_space
extract-sections_example =
    extract-sections unfinished second (codes "**Local:** `b.ts`") (codes "> Faltam 1 x" ∷ []) refl
      refl

reads_unfinished :
    extract unfinished
    ≡ record { file = codes "a.ts"; level = gap; missing_count = 3; missing_units = codes "f" ∷ [] }
      ∷ []
unfolding extract extract_lines process_lines process_line handle_local_line
    handle_missing_count_line handle_collection flush_gaps section_of new_state quoted split_lines
    is_space
reads_unfinished = refl

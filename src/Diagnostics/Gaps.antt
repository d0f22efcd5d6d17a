-- ===== src/Diagnostics/Gaps.antt =====
-- src_local/engines/diagnostics/strategies: GapExtractor.ts, and of GapScanner.ts what it reads and
-- the two categories of its text.
-- A text is the list of its character codes; the two regular expressions are written out as
-- matchers, and a number that was read is exact.
pub mod Sections
pub mod Units
mod Examples
use personas_agentes.Common.{
  codes_eq, any, keep, codes, starts_with, includes, after, trim_codes, is_nil, all_lines, ℕ, zero,
  suc, ◌+◌, ◌*◌, ◌-◌, Bool, true, false, not, ◌&&◌, ◌||◌, List, [], ◌∷◌, ◌++◌, map, Option, none,
  some, if◌then◌else◌, nat_beq, leb,
}

pub data Level : Type 0 where
  no_level gap shallow : Level

pub record GapDetail : Type 0 where
  pub file : List ℕ
  pub level : Level
  pub missing_count : ℕ
  pub missing_units : List (List ℕ)

pub record State : Type 0 where
  pub last_local : List ℕ
  pub last_level : Level
  pub last_missing_count : ℕ
  pub collecting_missing : Bool
  pub current_missing : List (List ℕ)

-- The characters up to a backtick, if there is one.
abbrev pub up_to_tick : List ℕ → Option (List ℕ)
up_to_tick [] = none
up_to_tick (c ∷ cs) =
    let rest = up_to_tick cs in
    if nat_beq c 96 then some [] else elim rest [ none ↦ none | some t ↦ some (c ∷ t) ]

abbrev pub if_filled : Option (List ℕ) → Option (List ℕ)
if_filled none = none
if_filled (some []) = none
if_filled (some (c ∷ cs)) = some (c ∷ cs)

-- The last text between two backticks, which the greedy `.*` of the expression leaves.
abbrev pub last_ticked : List ℕ → Option (List ℕ)
last_ticked [] = none
last_ticked (c ∷ cs) = elim (last_ticked cs) [
  | some t ↦ some t
  | none ↦ if nat_beq c 96 then if_filled (up_to_tick cs) else none
]

-- ``line.replace(/.*`([^`]+)`.*/s, "$1").trim()``
pub quoted : List ℕ → List ℕ
quoted line = elim (last_ticked line) [ none ↦ trim_codes line | some t ↦ trim_codes t ]

abbrev pub is_digit : ℕ → Bool
is_digit c = leb 48 c && leb c 57

-- `\d+` and `parseInt` of it, with what was read before.
abbrev pub digits_from : ℕ → List ℕ → ℕ
digits_from n [] = n
digits_from n (c ∷ cs) = let on = digits_from (n * 10 + (c - 48)) cs in if is_digit c then on else n

abbrev pub digits : List ℕ → Option ℕ
digits [] = none
digits (c ∷ cs) = if is_digit c then some (digits_from 0 (c ∷ cs)) else none

abbrev pub or_else : Option ℕ → Option ℕ → Option ℕ
or_else none o = o
or_else (some n) o = some n

-- `/Faltam (\d+)/`
abbrev pub missing_number : List ℕ → Option ℕ
missing_number [] = none
missing_number (c ∷ cs) =
    or_else (elim (after (codes "Faltam ") (c ∷ cs)) [ none ↦ none | some rest ↦ digits rest ])
      (missing_number cs)

-- `parseInt(match?.[1] || "0")`
abbrev pub number_or_zero : Option ℕ → ℕ
number_or_zero none = 0
number_or_zero (some n) = n

abbrev pub is_gap : Level → Bool
is_gap gap = true
is_gap _ = false

abbrev pub no_units : List (List ℕ) → Bool
no_units [] = true
no_units (u ∷ us) = false

pub flush_gaps : State → List GapDetail → List GapDetail
flush_gaps s gaps =
    if not (is_nil s.last_local)
      && is_gap s.last_level
      && (s.collecting_missing || not (no_units s.current_missing))
    then gaps
      ++ record {
        file = s.last_local;
        level = s.last_level;
        missing_count = s.last_missing_count;
        missing_units = s.current_missing;
      }
        ∷ []
    else gaps

-- The state behind a line with `**Local:**`.
pub section_of : List ℕ → State
unfolding quoted
section_of line = record {
  last_local = quoted line;
  last_level = no_level;
  last_missing_count = 0;
  collecting_missing = false;
  current_missing = [];
}

pub handle_local_line : List ℕ → State × List GapDetail → State × List GapDetail
unfolding flush_gaps section_of
handle_local_line line (s, gaps) = (section_of line, flush_gaps s gaps)

pub handle_missing_count_line : List ℕ → State → State
handle_missing_count_line line s = record s {
  last_level = (if includes (codes "PARITY_GAPS") line then gap else shallow);
  last_missing_count = number_or_zero (missing_number line);
}

pub handle_collection : List ℕ → State × List GapDetail → State × List GapDetail
unfolding quoted flush_gaps
handle_collection line (s, gaps) =
    if starts_with (codes ">") line && includes (codes "- `") line
    then (record s { current_missing = s.current_missing ++ quoted line ∷ [] }, gaps)
    else if not (starts_with (codes ">") line)
    then (record s { collecting_missing = false; current_missing = [] }, flush_gaps s gaps)
    else (s, gaps)

pub process_line : List ℕ → State × List GapDetail → State × List GapDetail
unfolding handle_local_line handle_missing_count_line handle_collection
process_line line (s, gaps) =
    if includes (codes "**Local:**") line
    then handle_local_line line (s, gaps)
    else if includes (codes "Faltam") line
    then (handle_missing_count_line line s, gaps)
    else if includes (codes "Ausentes") line
    then (record s { collecting_missing = true }, gaps)
    else if s.collecting_missing
    then handle_collection line (s, gaps)
    else (s, gaps)

pub process_lines : List (List ℕ) → State × List GapDetail → State × List GapDetail
unfolding process_line
process_lines [] x = x
process_lines (line ∷ lines) x = process_lines lines (process_line (trim_codes line) x)

pub new_state : State
new_state = record {
  last_local = [];
  last_level = no_level;
  last_missing_count = 0;
  collecting_missing = false;
  current_missing = [];
}

pub extract_lines : List (List ℕ) → List GapDetail
unfolding process_lines flush_gaps new_state
extract_lines lines = let (s, gaps) = process_lines lines (new_state, []) in flush_gaps s gaps

pub extract : List ℕ → List GapDetail
unfolding extract_lines
extract content = extract_lines (all_lines content)

-- `extractFromFile`, on the text of the report if the file exists.
pub extract_from_file : Option (List ℕ) → List GapDetail
unfolding extract
extract_from_file none = []
extract_from_file (some report) = extract report

abbrev pub has_init : GapDetail → Bool
has_init g = any (codes_eq (codes "__init__")) g.missing_units

-- `initGaps` and `otherGaps` of `formatAnalysis`.
pub init_gaps : List GapDetail → List GapDetail
init_gaps = keep has_init

pub other_gaps : List GapDetail → List GapDetail
other_gaps = keep (λ g. not (has_init g))

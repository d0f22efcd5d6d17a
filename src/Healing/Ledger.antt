-- ===== src/Healing/Ledger.antt =====
-- src_local/engines/healing/resilience_healing_architect_service.ts: StabilityLedger.
-- The ledger is a map in insertion order; `saved` is what the file of the persistence holds, `none`
-- if it holds no ledger. A count of occurrences that is no number (an entry for a gold standard has
-- none, and adding to it gives NaN) is `none`; the times of the history are left out. The entries that
-- were loaded have all their fields, so nothing but the write can throw.
pub mod Files
pub mod Failing
pub mod Expected
mod Examples
use personas_agentes.Common.{
  codes, codes_eq, ℕ, suc, Bool, true, false, not, ◌&&◌, ◌||◌, List, [], ◌∷◌, ◌++◌, map, Option,
  none, some, if◌then◌else◌, nat_beq, includes, contains, get, has, put, delete, text_eq,
}

pub data LedgerStatus : Type 0 where
  unstable healed reference disparity : LedgerStatus

pub data LedgerEvent : Type 0 where
  seen gold_standard : LedgerEvent
  parity_error : (target : List ℕ) → (discrepancies : List (List ℕ)) → LedgerEvent

-- `meta`: the target and the severity of the last disparity.
abbrev pub EntryMeta : Type 0
EntryMeta = Option (List ℕ × List ℕ)

pub record LedgerEntry : Type 0 where
  pub occurrences : Option ℕ
  pub history : List LedgerEvent
  pub status : LedgerStatus
  pub meta : EntryMeta

abbrev pub Ledger : Type 0
Ledger = List (List ℕ × LedgerEntry)

pub record StabilityLedger : Type 0 where
  pub ledger : Ledger
  pub saved : Option Ledger

abbrev pub new_entry : LedgerEntry
new_entry = record { occurrences = some 0; history = []; status = unstable; meta = none }

abbrev pub reference_entry : LedgerEntry
reference_entry = record {
  occurrences = none;
  history = gold_standard ∷ [];
  status = reference;
  meta = none;
}

abbrev pub increment : Option ℕ → Option ℕ
increment none = none
increment (some n) = some (suc n)

abbrev pub is_reference : LedgerStatus → Bool
is_reference reference = true
is_reference _ = false

abbrev pub is_healed : LedgerStatus → Bool
is_healed healed = true
is_healed _ = false

abbrev pub entry_or : LedgerEntry → Option LedgerEntry → LedgerEntry
entry_or default none = default
entry_or default (some e) = e

-- The changes of an entry in `updateFileStatus`.
abbrev pub touched : LedgerEntry → LedgerEntry
touched e = record e {
  occurrences = increment e.occurrences;
  history = e.history ++ seen ∷ [];
  status = if is_reference e.status then e.status else unstable;
}

-- The entry of a file after an issue about it.
abbrev pub visited_entry : (is_gold : Bool) → Option LedgerEntry → LedgerEntry
visited_entry true o = entry_or reference_entry o
visited_entry false o = touched (entry_or new_entry o)

pub update_file_status : (is_gold : List ℕ → Bool) → List ℕ → Ledger → Ledger
update_file_status is_gold file l = put file (visited_entry (is_gold file) (get file l)) l

abbrev pub strategic_dna : List ℕ
strategic_dna = codes "Strategic/DNA"

-- A backslash becomes a slash.
abbrev pub slashed : List ℕ → List ℕ
slashed file = map (λ c. if nat_beq c 92 then 47 else c) file

-- The file of an issue, if it has one that is not empty.
abbrev pub extract_file_name : Option (List ℕ) → List ℕ
extract_file_name none = strategic_dna
extract_file_name (some []) = strategic_dna
extract_file_name (some (c ∷ cs)) = slashed (c ∷ cs)

-- The files with errors, and the ledger.
pub process_audit_results :
    (is_gold : List ℕ → Bool) → List (Option (List ℕ)) → Ledger → List (List ℕ) × Ledger
unfolding update_file_status
process_audit_results is_gold [] l = ([], l)
process_audit_results is_gold (issue ∷ issues) l =
    let file = extract_file_name issue in
    let (errors, after) =
      process_audit_results is_gold issues (update_file_status is_gold file l) in
    (file ∷ errors, after)

abbrev pub is_healable : List ℕ → LedgerEntry → (errors : List (List ℕ)) → Bool
is_healable file e errors =
    not (codes_eq file strategic_dna || is_reference e.status)
    && (not (contains errors file) && not (is_healed e.status))

abbrev pub mark_as_healed : LedgerEntry → LedgerEntry
mark_as_healed e = record e { status = healed; occurrences = some 0 }

abbrev pub heal : List (List ℕ) → List ℕ → LedgerEntry → LedgerEntry
heal errors file e = if is_healable file e errors then mark_as_healed e else e

pub detect_healed_files : List (List ℕ) → Ledger → Ledger
detect_healed_files errors [] = []
detect_healed_files errors ((file, e) ∷ l) =
    (file, heal errors file e) ∷ detect_healed_files errors l

pub perform_maintenance : (project_root : List ℕ) → Ledger → Ledger
perform_maintenance project_root l =
    if not (includes (codes "Personas_Agentes") project_root) && has (codes ".agent/skills") l
    then delete (codes ".agent/skills") l
    else l

-- How the write of the file ends: it throws before or while it replaces the old text, or succeeds.
pub data Saving : Type 0 where
  keeps_old breaks_off saves : Saving

abbrev pub saved_by : Saving → Ledger → Option Ledger → Option Ledger
saved_by keeps_old l old = old
saved_by breaks_off l old = none
saved_by saves l old = some l

-- `saveLedger`, which catches the exception of the write.
abbrev pub save : Saving → Ledger → StabilityLedger → StabilityLedger
save w l s = record { ledger = l; saved = saved_by w l s.saved }

module _ (project_root : List ℕ) (is_gold : List ℕ → Bool) where
  pub update : Saving → List (Option (List ℕ)) → StabilityLedger → StabilityLedger
  unfolding process_audit_results detect_healed_files perform_maintenance
  update w issues s =
      let (errors, after) =
        process_audit_results is_gold issues (perform_maintenance project_root s.ledger) in
      save w (detect_healed_files errors after) s

pub references : Ledger → Ledger
references [] = []
references ((file, e) ∷ l) =
    let rest = references l in if is_reference e.status then (file, e) ∷ rest else rest

pub clear_ledger : Saving → StabilityLedger → StabilityLedger
unfolding references
clear_ledger w s = save w (references s.ledger) s

pub register_disparity :
    (w : Saving) (source target : List ℕ) (discrepancies : List (List ℕ)) (severity : List ℕ)
    → StabilityLedger
    → StabilityLedger
register_disparity w source target discrepancies severity s =
    let file = slashed source in
    let e = entry_or new_entry (get file s.ledger) in
    save w
      (put file
        (record {
          status = disparity;
          occurrences = increment e.occurrences;
          history = e.history ++ parity_error target discrepancies ∷ [];
          meta = some (target, severity);
        })
        s.ledger)
      s

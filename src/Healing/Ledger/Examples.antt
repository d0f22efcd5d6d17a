-- ===== src/Healing/Ledger/Examples.antt =====
-- A ledger with a file that fails again and one that is healed.
use personas_agentes.Common.{
  codes, ℕ, ◌≡◌, refl, Bool, false, List, [], ◌∷◌, Option, none, some, get, text_eq,
}
use personas_agentes.Healing.Ledger.{
  LedgerEntry, StabilityLedger, LedgerStatus, unstable, healed, reference_entry, update_file_status,
  process_audit_results, detect_healed_files, perform_maintenance, keeps_old, update,
}
use personas_agentes.Healing.Ledger.Failing.{IsFailing, update-IsFailing}
use personas_agentes.Healing.Ledger.Expected.{expected, update-expected}

abbrev failing : LedgerEntry
failing = record { occurrences = some 2; history = []; status = unstable; meta = none }

abbrev before : StabilityLedger
before = record {
  ledger = (codes "a.ts", failing) ∷ (codes "b.ts", failing) ∷ (codes "c.ts", reference_entry) ∷ [];
  saved = none;
}

abbrev no_gold : List ℕ → Bool
no_gold file = false

abbrev issues : List (Option (List ℕ))
issues = some (codes "a.ts") ∷ none ∷ some (codes "c.ts") ∷ []

abbrev after : StabilityLedger
after = update (codes "/p") no_gold keeps_old issues before

-- One more issue about a file, and nothing written.
update-expected_example :
    get (codes "a.ts") after.ledger
    ≡ expected false false 1 (get (codes "a.ts") (perform_maintenance (codes "/p") before.ledger))
update-expected_example =
    update-expected (codes "/p") no_gold keeps_old issues before (codes "a.ts")

update-IsFailing_example : IsFailing (get (codes "a.ts") after.ledger)
update-IsFailing_example =
    update-IsFailing (codes "/p") no_gold issues keeps_old before (codes "a.ts") refl refl

abbrev status_of : Option LedgerEntry → Option LedgerStatus
status_of none = none
status_of (some e) = some e.status

b-healed : status_of (get (codes "b.ts") after.ledger) ≡ some healed
unfolding update process_audit_results update_file_status detect_healed_files perform_maintenance
b-healed = refl

abbrev count_of : Option LedgerEntry → Option (Option ℕ)
count_of none = none
count_of (some e) = some e.occurrences

-- An entry that was made for a gold standard has no count, and adding to it gives none.
c-count : count_of (get (codes "c.ts") after.ledger) ≡ some none
unfolding update process_audit_results update_file_status detect_healed_files perform_maintenance
c-count = refl

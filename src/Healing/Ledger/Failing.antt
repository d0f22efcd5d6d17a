-- ===== src/Healing/Ledger/Failing.antt =====
-- A file that fails is not reported as healed.
use personas_agentes.Common.{
  ℕ, zero, suc, ◌≡◌, refl, ap, ◌∙◌, Bool, true, false, List, map, Option, map_option, some,
  if◌then◌else◌, contains, get, text_eq,
}
use personas_agentes.Healing.Ledger.{
  LedgerStatus, unstable, healed, reference, disparity, LedgerEntry, StabilityLedger, visited_entry,
  extract_file_name, entry_or, new_entry, heal, is_healed, is_reference, perform_maintenance,
  Saving, update,
}
use personas_agentes.Healing.Ledger.Files.{issues_about, visits, update-visits, about, heal-same}

-- There is an entry, and it is unstable or that of a gold standard.
abbrev pub IsFailing : Option LedgerEntry → Type 0
IsFailing o = (e : LedgerEntry) × ((o ≡ some e) × (is_healed e.status ≡ false))

touched_status : (s : LedgerStatus) → is_healed (if is_reference s then s else unstable) ≡ false
touched_status unstable = refl
touched_status healed = refl
touched_status reference = refl
touched_status disparity = refl

visits-IsFailing : (n : ℕ) (o : Option LedgerEntry) → IsFailing (visits false (suc n) o)
visits-IsFailing zero o =
    (visited_entry false o, (refl, touched_status (entry_or new_entry o).status))
visits-IsFailing (suc n) o = visits-IsFailing n (some (visited_entry false o))

-- After an update, a file that an issue is about, and that is no gold standard, has an entry that is
-- not healed.
pub update-IsFailing :
    (project_root : List ℕ) (is_gold : List ℕ → Bool) (issues : List (Option (List ℕ))) (w : Saving)
    (s : StabilityLedger) (file : List ℕ)
    → is_gold file ≡ false
    → contains (map extract_file_name issues) file ≡ true
    → IsFailing (get file (update project_root is_gold w issues s).ledger)
update-IsFailing project_root is_gold issues w s file plain_file named =
    let errors = map extract_file_name issues in
    let before = get file (perform_maintenance project_root s.ledger) in
    let n = about file errors named in
    let after = visits-IsFailing n.0 before in
    (
      after.0,
      (
        update-visits project_root is_gold w issues s file
            ∙ ap (λ b. map_option (heal errors file) (visits b (issues_about file errors) before))
                plain_file
            ∙ ap (λ k. map_option (heal errors file) (visits false k before)) n.1
            ∙ ap (map_option (heal errors file)) after.1.0
            ∙ ap (λ e. some e) (heal-same errors file after.0 named),
        after.1.1,
      ),
    )

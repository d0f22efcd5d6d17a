-- ===== src/Healing/Ledger/Files.antt =====
-- What an update does, file by file.
use personas_agentes.Common.{
  contains, codes_eq, codes_eq_iff, ℕ, zero, suc, ◌≡◌, refl, ap, ◌∙◌, inl, inr, Bool, List, [], ◌∷◌,
  map, Option, arith, true, false, map_option, some, if◌then◌else◌, get, get-put, text_eq,
  Bool-cases,
}
use personas_agentes.Healing.Ledger.{
  LedgerEntry, Ledger, StabilityLedger, visited_entry, update_file_status, extract_file_name,
  process_audit_results, is_healable, Saving, heal, detect_healed_files, perform_maintenance,
  update,
}

-- How many issues are about a file.
abbrev pub issues_about : List ℕ → List (List ℕ) → ℕ
issues_about file [] = 0
issues_about file (x ∷ xs) =
    let rest = issues_about file xs in if codes_eq x file then suc rest else rest

-- The entry of a file after a number of issues about it.
abbrev pub visits : Bool → ℕ → Option LedgerEntry → Option LedgerEntry
visits is_gold zero o = o
visits is_gold (suc n) o = visits is_gold n (some (visited_entry is_gold o))

get-update_file_status :
    (is_gold : List ℕ → Bool) (x file : List ℕ) (l : Ledger)
    → get file (update_file_status is_gold x l)
      ≡ (if codes_eq x file then some (visited_entry (is_gold x) (get x l)) else get file l)
unfolding update_file_status
get-update_file_status is_gold x file l = get-put x file (visited_entry (is_gold x) (get x l)) l

process-errors :
    (is_gold : List ℕ → Bool) (issues : List (Option (List ℕ))) (l : Ledger)
    → (process_audit_results is_gold issues l).0 ≡ map extract_file_name issues
unfolding process_audit_results
process-errors is_gold [] l = refl
process-errors is_gold (i ∷ issues) l =
    ap (λ xs. extract_file_name i ∷ xs) (process-errors is_gold issues _)

get-process :
    (is_gold : List ℕ → Bool) (file : List ℕ) (issues : List (Option (List ℕ))) (l : Ledger)
    → get file (process_audit_results is_gold issues l).1
      ≡ visits (is_gold file) (issues_about file (map extract_file_name issues)) (get file l)
unfolding process_audit_results
get-process is_gold file [] l = refl
get-process is_gold file (i ∷ issues) l =
    let x = extract_file_name i in
    let rest = issues_about file (map extract_file_name issues) in
    get-process is_gold file issues (update_file_status is_gold x l)
    ∙ ap (visits (is_gold file) rest) (get-update_file_status is_gold x file l)
    ∙ elim (Bool-cases (codes_eq x file)) [
      | inl e ↦ rw e (
          ap (λ y. visits (is_gold file) rest (some (visited_entry (is_gold y) (get y l))))
            ((codes_eq_iff x file).0 e))
      | inr e ↦ rw e refl
    ]

get-detect :
    (errors : List (List ℕ)) (file : List ℕ) (l : Ledger)
    → get file (detect_healed_files errors l) ≡ map_option (heal errors file) (get file l)
unfolding detect_healed_files
get-detect errors file [] = refl
get-detect errors file ((x, e) ∷ l) = elim (Bool-cases (codes_eq x file)) [
  | inl y ↦ rw y (ap (λ z. some (heal errors z e)) ((codes_eq_iff x file).0 y))
  | inr n ↦ rw n (get-detect errors file l)
]

-- The entry of a file after an update, by the issues about this file.
pub update-visits :
    (project_root : List ℕ) (is_gold : List ℕ → Bool) (w : Saving) (issues : List (Option (List ℕ)))
    (s : StabilityLedger) (file : List ℕ)
    → let errors = map extract_file_name issues in
      get file (update project_root is_gold w issues s).ledger
      ≡ map_option (heal errors file) (
          visits
            (is_gold file)
            (issues_about file errors)
            (get file (perform_maintenance project_root s.ledger)))
unfolding update
update-visits project_root is_gold w issues s file =
    let kept = perform_maintenance project_root s.ledger in
    get-detect (process_audit_results is_gold issues kept).0 file
      (process_audit_results is_gold issues kept).1
    ∙ ap (λ o. map_option (heal (process_audit_results is_gold issues kept).0 file) o)
        (get-process is_gold file issues kept)
    ∙ ap
        (λ errors. map_option (heal errors file) (
          visits (is_gold file) (issues_about file (map extract_file_name issues)) (get file kept)))
        (process-errors is_gold issues kept)

pub about :
    (file : List ℕ) (errors : List (List ℕ))
    → contains errors file ≡ true
    → (n : ℕ) × (issues_about file errors ≡ suc n)
about file [] h = ground (arith, h)
about file (x ∷ xs) h = elim (Bool-cases (codes_eq x file)) [
  | inl e ↦ (issues_about file xs, rw e refl)
  | inr e ↦
      let later : contains xs file ≡ true = ground (arith, h, e) in
      let r = about file xs later in (r.0, rw e r.1)
]

pub about_none :
    (file : List ℕ) (errors : List (List ℕ))
    → contains errors file ≡ false
    → issues_about file errors ≡ 0
about_none file [] h = refl
about_none file (x ∷ xs) h = elim (Bool-cases (codes_eq x file)) [
  | inl e ↦ ground (arith, h, e)
  | inr e ↦
      let later : contains xs file ≡ false = ground (arith, h, e) in rw e (about_none file xs later)
]

pub heal-same :
    (errors : List (List ℕ)) (file : List ℕ) (e : LedgerEntry)
    → contains errors file ≡ true
    → heal errors file e ≡ e
heal-same errors file e h =
    let kept : is_healable file e errors ≡ false = ground (arith, h) in rw kept refl

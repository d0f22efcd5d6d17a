-- ===== src/Healing/Patch/Examples.antt =====
-- Patches on a small disk.
use personas_agentes.Common.{
  ◌≡◌, refl, true, false, List, [], ◌∷◌, Option, none, some, get, put, get-put, string_eq,
  if◌then◌else◌, str_eq,
}
use personas_agentes.Healing.Patch.{
  Disk, Finding, Surroundings, complete, apply_and_validate, backup_path, rename, set_aside, revert,
  drop_backup, settle, still_broken,
}
use personas_agentes.Healing.Patch.Restore.{
  Spares, Restored, reached, apply_and_validate_rejected, apply_and_validate_confirmed,
}

abbrev disk : Disk
disk = ("r/a.ts", "old") ∷ ("r/b.ts", "other") ∷ []

abbrev finding : Finding
finding = record { file = "a.ts"; issue = "eval" }

-- The audit reports the file as long as it does not hold the text "fixed", and saves a ledger.
abbrev clean_if_fixed : Disk → Option (List Finding)
clean_if_fixed d = elim (get "r/a.ts" d) [
  | none ↦ some (finding ∷ [])
  | some c ↦ if str_eq c "fixed" then some [] else some (finding ∷ [])
]

abbrev audit : Disk → Option (List Finding) × Disk
audit d = (clean_if_fixed d, put "ledger" "seen" d)

abbrev here : Surroundings
here = record { write_result = complete; audit = audit }

audit-Spares : Spares "r/a.ts" audit
unfolding backup_path
audit-Spares d = (get-put "ledger" "r/a.ts" "seen" d, get-put "ledger" "r/a.ts.bak" "seen" d)

rejects_worse : (apply_and_validate here "r/a.ts" "a.ts" "worse" "eval" disk).1 ≡ false
unfolding apply_and_validate settle still_broken set_aside revert drop_backup rename backup_path
rejects_worse = refl

apply_and_validate_rejected_example :
    Restored "r/a.ts" "old"
      (reached here "r/a.ts" "worse" disk)
      (apply_and_validate here "r/a.ts" "a.ts" "worse" "eval" disk).0
apply_and_validate_rejected_example =
    apply_and_validate_rejected here "r/a.ts" "a.ts" "worse" "eval" disk audit-Spares refl
      rejects_worse

confirms_fixed : (apply_and_validate here "r/a.ts" "a.ts" "fixed" "eval" disk).1 ≡ true
unfolding apply_and_validate settle still_broken set_aside revert drop_backup rename backup_path
confirms_fixed = refl

apply_and_validate_confirmed_example :
    ((here.write_result ≡ complete)
      × ((fs : List Finding) × ((here.audit (put "r/a.ts" "fixed" (set_aside "r/a.ts" disk))).0
            ≡ some fs)
          × (still_broken "a.ts" "eval" fs ≡ false)))
    × Restored "r/a.ts" "fixed"
        (here.audit (put "r/a.ts" "fixed" (set_aside "r/a.ts" disk))).1
        (apply_and_validate here "r/a.ts" "a.ts" "fixed" "eval" disk).0
apply_and_validate_confirmed_example =
    apply_and_validate_confirmed here "r/a.ts" "a.ts" "fixed" "eval" disk audit-Spares
      confirms_fixed

-- A patch for a file that did not exist stays on the disk when its cure is not confirmed.
keeps_new_file :
    get "r/n.ts" (apply_and_validate here "r/n.ts" "a.ts" "worse" "eval" disk).0 ≡ some "worse"
unfolding apply_and_validate settle still_broken set_aside revert drop_backup rename backup_path
keeps_new_file = refl

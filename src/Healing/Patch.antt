-- ===== src/Healing/Patch.antt =====
-- src_local/engines/healing/patch_manager.ts: a patch is written over a file that is kept as a
-- backup, the audit is run again, and the backup is dropped or put back.
-- The disk is a map from paths to contents. The audit is a parameter: from the disk it comes to a disk
-- (it saves its cache and the stability ledger) and answers with its first list of findings, or
-- throws (`none`). A write that fails can leave a part of the text in the file. Logging has no effect
-- here.
pub mod Lookup
pub mod Restore
mod Examples
use Prim.Native.String
use personas_agentes.Common.{
  String, Bool, true, false, ◌&&◌, List, Option, none, some, if◌then◌else◌, get, has, put, delete,
  any, str_eq, string_eq,
}

abbrev pub Disk : Type 0
Disk = List (String × String)

pub record Finding : Type 0 where
  pub file : String
  pub issue : String

-- How a write ends: it throws with nothing in the file, with a part of the text, or it succeeds.
pub data WriteResult : Type 0 where
  nothing_written complete : WriteResult
  partly_written : String → WriteResult

-- What the method is given of its surroundings.
pub record Surroundings : Type 0 where
  pub write_result : WriteResult
  pub audit : Disk → Option (List Finding) × Disk

-- `renameSync`: an existing target is replaced. It is called on existing files only.
pub rename : String → String → Disk → Disk
rename from to d = elim (get from d) [ none ↦ d | some content ↦ put to content (delete from d) ]

pub backup_path : String → String
backup_path full = String.◌++◌ full ".bak"

pub still_broken : String → String → List Finding → Bool
still_broken file issue = any (λ f. str_eq f.file file && str_eq f.issue issue)

pub set_aside : String → Disk → Disk
set_aside full d = if has full d then rename full (backup_path full) d else d

pub revert : String → Disk → Disk
revert full d =
    if has (backup_path full) d
    then rename (backup_path full) full (if has full d then delete full d else d)
    else d

pub drop_backup : String → Disk → Disk
drop_backup full d = if has (backup_path full) d then delete (backup_path full) d else d

-- What is made of the audit's answer, and the disk after it.
pub settle : (full file issue : String) → Option (List Finding) × Disk → Disk × Bool
settle full file issue (none, d) = (revert full d, false)
settle full file issue (some findings, d) =
    if still_broken file issue findings then (revert full d, false) else (drop_backup full d, true)

-- `applyAndValidate`; `full` is `file` joined to the project's root.
pub apply_and_validate : Surroundings → (full file new_content issue : String) → Disk → Disk × Bool
apply_and_validate s full file new_content issue d =
    let aside = set_aside full d in
    elim s.write_result [
      | nothing_written ↦ (revert full aside, false)
      | partly_written part ↦ (revert full (put full part aside), false)
      | complete ↦ settle full file issue (s.audit (put full new_content aside))
    ]

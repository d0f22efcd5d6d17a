-- ===== src/Healing/Patch/Lookup.antt =====
-- What is at a path after the file operations of a patch.
use text.Mathlib.TextLemmas.{append_cancel_left, append-nil, cons≢nil}
use personas_agentes.Common.{
  String, ◌≡◌, ◌≢◌, sym, ◌∙◌, none, some, if◌then◌else◌, arith, get, put, delete, get-put,
  get-delete, eq_iff, has_iff_get, str_eq, string_eq,
}
use personas_agentes.Healing.Patch.{Disk, rename, backup_path, set_aside, revert, drop_backup}

pub backup_path-ne : (full : String) → backup_path full ≢ full
unfolding backup_path
backup_path-ne full e = cons≢nil (append_cancel_left full ".bak" "" (e ∙ sym (append-nil full)))

-- Where the file was there: the disk without it, its content in the backup.
pub get-set_aside :
    (full c p : String) (d : Disk)
    → get full d ≡ some c
    → get p (set_aside full d)
      ≡ (if str_eq (backup_path full) p then some c else if str_eq full p then none else get p d)
unfolding set_aside rename
get-set_aside full c p d h =
    ground (
      arith,
      has_iff_get full d,
      get-put (backup_path full) p c (delete full d),
      get-delete full p d,
    )

pub get-revert :
    (full c p : String) (d : Disk)
    → get (backup_path full) d ≡ some c
    → get p (revert full d)
      ≡ (if str_eq full p then some c else if str_eq (backup_path full) p then none else get p d)
unfolding revert rename
get-revert full c p d h = ground (
  arith,
  has_iff_get (backup_path full) d,
  get-put full p c (delete (backup_path full) (delete full d)),
  get-put full p c (delete (backup_path full) d),
  get-delete (backup_path full) p (delete full d),
  get-delete (backup_path full) p d,
  get-delete full p d,
  get-delete full (backup_path full) d,
  eq_iff full (backup_path full),
  backup_path-ne full,
)

pub get-drop_backup :
    (full p : String) (w : Disk)
    → get p (drop_backup full w) ≡ (if str_eq (backup_path full) p then none else get p w)
unfolding drop_backup
get-drop_backup full p w = ground (
  arith,
  has_iff_get (backup_path full) w,
  get-delete (backup_path full) p w,
  eq_iff (backup_path full) p,
)

pub backup-set_aside :
    (full c : String) (d : Disk)
    → get full d ≡ some c
    → get (backup_path full) (set_aside full d) ≡ some c
backup-set_aside full c d h = ground (
  arith,
  get-set_aside full c (backup_path full) d h,
  eq_iff (backup_path full) (backup_path full),
)

pub backup-put :
    (full text : String) (d : Disk)
    → get (backup_path full) (put full text d) ≡ get (backup_path full) d
backup-put full text d = ground (
  arith,
  get-put full (backup_path full) text d,
  eq_iff full (backup_path full),
  backup_path-ne full,
)

-- ===== src/Healing/Patch/Restore.antt =====
-- What `applyAndValidate` leaves on the disk, on each of its ways out.
use personas_agentes.Common.{
  String, ◌≡◌, refl, ◌∙◌, true, false, none, some, arith, get, put, get-put, eq_iff, has_iff_get,
  str_eq, string_eq, Option-cases, List, Option, ◌⊎◌, inl, inr,
}
use personas_agentes.Healing.Patch.Lookup.{
  backup_path-ne, get-set_aside, get-revert, get-drop_backup, backup-set_aside, backup-put,
}
use personas_agentes.Healing.Patch.{
  Disk, Finding, Surroundings, backup_path, still_broken, set_aside, revert, drop_backup,
  WriteResult, complete, nothing_written, partly_written, settle, apply_and_validate,
}

WriteResult-cases :
    (r : WriteResult)
    → (r ≡ complete) ⊎ ((r ≡ nothing_written) ⊎ ((part : String) × (r ≡ partly_written part)))
WriteResult-cases complete = inl refl
WriteResult-cases nothing_written = inr (inl refl)
WriteResult-cases (partly_written part) = inr (inr (part, refl))

-- The audit leaves the file and its backup as they are.
abbrev pub Spares : (full : String) → (Disk → Option (List Finding) × Disk) → Type 0
Spares full audit =
    (d : Disk)
    → (get full (audit d).1 ≡ get full d)
      × (get (backup_path full) (audit d).1 ≡ get (backup_path full) d)

-- The disk that the audit left, if it ran, and the first one if the write failed.
abbrev pub reached : Surroundings → (full new_content : String) → Disk → Disk
reached s full new_content d = elim s.write_result [
  | complete ↦ (s.audit (put full new_content (set_aside full d))).1
  | _ ↦ d
]

-- The file is restored, the backup is gone, and the rest is as on the disk `w`.
abbrev pub Restored : (full c : String) → (w after : Disk) → Type 0
Restored full c w after =
    (get full after ≡ some c)
    × ((get (backup_path full) after ≡ none)
        × ((p : String)
            → str_eq full p ≡ false
            → str_eq (backup_path full) p ≡ false
            → get p after ≡ get p w))

revert-Restored :
    (full c : String) (w : Disk)
    → get (backup_path full) w ≡ some c
    → Restored full c w (revert full w)
revert-Restored full c w b = (
  ground (arith, get-revert full c full w b, eq_iff full full),
  (
    ground (
      arith,
      get-revert full c (backup_path full) w b,
      eq_iff full (backup_path full),
      eq_iff (backup_path full) (backup_path full),
      backup_path-ne full,
    ),
    λ p x y. rw (get-revert full c p w b, x, y) refl,
  ),
)

settle-reverts :
    (full file issue : String) (o : Option (List Finding)) (w : Disk)
    → (settle full file issue (o, w)).1 ≡ false
    → (settle full file issue (o, w)).0 ≡ revert full w
unfolding settle
settle-reverts full file issue none w r = refl
settle-reverts full file issue (some fs) w r = ground (arith, r)

rest-set_aside :
    (full c : String) (d w after : Disk)
    → get full d ≡ some c
    → ((p : String) → str_eq full p ≡ false → get p w ≡ get p (set_aside full d))
    → Restored full c w after
    → Restored full c d after
rest-set_aside full c d w after h same (a, (b, rest)) =
    (a, (b, λ p x y. rest p x y ∙ same p x ∙ rw (get-set_aside full c p d h, x, y) refl))

-- Where a patch of a file that exists is not confirmed, because the write fails, whatever part of the
-- text it leaves, or the audit throws or still finds the issue, the file has its content again and
-- there is no file at the backup's path. Every other file is as the audit left it, and as it was
-- before if the write failed. The audit is taken to leave the file and its backup alone.
pub apply_and_validate_rejected :
    (s : Surroundings) (full file new_content issue : String) (d : Disk) {c : String}
    → Spares full s.audit
    → get full d ≡ some c
    → (apply_and_validate s full file new_content issue d).1 ≡ false
    → Restored full c
        (reached s full new_content d)
        (apply_and_validate s full file new_content issue d).0
unfolding apply_and_validate
apply_and_validate_rejected s full file new_content issue d {c} spares h r =
    let aside = set_aside full d in
    let kept = backup-set_aside full c d h in
    elim (WriteResult-cases s.write_result) [
      | inr (inl e) ↦
          rw (e, reached)
            (rest-set_aside full c d aside (revert full aside) h (λ p x. refl)
              (revert-Restored full c aside kept))
      | inr (inr (part, e)) ↦
          rw (e, reached)
            (rest-set_aside full c d (put full part aside) (revert full (put full part aside)) h
              (λ p x. rw (get-put full p part aside, x) refl)
              (revert-Restored full c (put full part aside) (backup-put full part aside ∙ kept)))
      | inl e ↦
          let w = put full new_content aside in
          let reverted = settle-reverts full file issue (s.audit w).0 (s.audit w).1 (rw e at r) in
          rw (e, reached)
            (rw reverted (
              revert-Restored full c (s.audit w).1
                ((spares w).1 ∙ backup-put full new_content aside ∙ kept)))
    ]

get-set_aside_other :
    (full p : String) (d : Disk)
    → str_eq full p ≡ false
    → str_eq (backup_path full) p ≡ false
    → get p (set_aside full d) ≡ get p d
get-set_aside_other full p d ne ne' = elim (Option-cases (get full d)) [
  | inl absent ↦ unfold set_aside in ground (arith, has_iff_get full d)
  | inr (c, there) ↦ rw (get-set_aside full c p d there, ne', ne)
]

settle-confirms :
    (full file issue : String) (o : Option (List Finding)) (w : Disk)
    → (settle full file issue (o, w)).1 ≡ true
    → ((fs : List Finding) × (o ≡ some fs) × (still_broken file issue fs ≡ false))
      × ((settle full file issue (o, w)).0 ≡ drop_backup full w)
unfolding settle
settle-confirms full file issue none w r = ground (arith, r)
settle-confirms full file issue (some fs) w r = ((fs, refl, ground (arith, r)), ground (arith, r))

drop-Restored :
    (full c : String) (w : Disk) → get full w ≡ some c → Restored full c w (drop_backup full w)
drop-Restored full c w g = (
  ground (arith, get-drop_backup full full w, eq_iff (backup_path full) full, backup_path-ne full),
  (
    ground (
      arith,
      get-drop_backup full (backup_path full) w,
      eq_iff (backup_path full) (backup_path full),
    ),
    λ p x y. rw (get-drop_backup full p w, y) refl,
  ),
)

-- A cure is confirmed only where the write succeeds and the audit of the patched disk does not report
-- the issue on the file. It leaves the new content in the file, no file at the backup's path, and
-- every other file as the audit left it. The audit is taken to leave the file and its backup alone.
pub apply_and_validate_confirmed :
    (s : Surroundings) (full file new_content issue : String) (d : Disk)
    → Spares full s.audit
    → (apply_and_validate s full file new_content issue d).1 ≡ true
    → let patched = put full new_content (set_aside full d) in
      let after = (apply_and_validate s full file new_content issue d).0 in
      ((s.write_result ≡ complete)
        × ((fs : List Finding) × ((s.audit patched).0 ≡ some fs)
            × (still_broken file issue fs ≡ false)))
      × Restored full new_content (s.audit patched).1 after
unfolding apply_and_validate
apply_and_validate_confirmed s full file new_content issue d spares r =
    let patched = put full new_content (set_aside full d) in
    elim (WriteResult-cases s.write_result) [
      | inr (inl e) ↦ absurd (ground (arith, rw e at r))
      | inr (inr (part, e)) ↦ absurd (ground (arith, rw e at r))
      | inl e ↦
          let there : get full patched ≡ some new_content =
            ground (arith, get-put full full new_content (set_aside full d), eq_iff full full) in
          let f =
            settle-confirms full file issue (s.audit patched).0 (s.audit patched).1 (rw e at r) in
          (
            (e, f.0),
            rw e (
                rw f.1 (
                  drop-Restored full new_content (s.audit patched).1 ((spares patched).0 ∙ there))),
          )
    ]

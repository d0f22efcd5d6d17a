-- ===== src/Healing/Ledger/Expected.antt =====
-- The entry of a file after an update, described without the loops.
use personas_agentes.Common.{
  codes_eq, ℕ, zero, suc, ◌+◌, ◌≡◌, refl, ap, ◌∙◌, inl, inr, Bool, true, false, not, ◌&&◌, ◌||◌,
  List, [], ◌∷◌, ◌++◌, map, Option, map_option, none, some, if◌then◌else◌, contains, get, text_eq,
  arith, Bool-cases, append_assoc,
}
use personas_agentes.Healing.Ledger.{
  LedgerStatus, unstable, healed, reference, disparity, LedgerEvent, seen, gold_standard, EntryMeta,
  LedgerEntry, StabilityLedger, touched, extract_file_name, new_entry, reference_entry, increment,
  heal, is_healed, is_reference, strategic_dna, perform_maintenance, Saving, update,
}
use personas_agentes.Healing.Ledger.Files.{
  issues_about, visits, update-visits, about, about_none, heal-same,
}

abbrev pub raised : ℕ → Option ℕ → Option ℕ
raised n none = none
raised n (some k) = some (k + n)

abbrev pub sightings : ℕ → List LedgerEvent
sightings zero = []
sightings (suc n) = seen ∷ sightings n

abbrev pub failing_status : LedgerStatus → LedgerStatus
failing_status reference = reference
failing_status _ = unstable

-- A file with `n` issues that is no gold standard.
abbrev pub failed : ℕ → LedgerEntry → LedgerEntry
failed n e = record {
  occurrences = raised n e.occurrences;
  history = e.history ++ sightings n;
  status = failing_status e.status;
  meta = e.meta;
}

-- A file without issues, by its old status; the entry for findings without a file is never healed.
abbrev pub quiet_as : (is_dna : Bool) → LedgerStatus → LedgerEntry → LedgerEntry
quiet_as true status e = e
quiet_as false reference e = e
quiet_as false healed e = e
quiet_as false unstable e = record {
  occurrences = some 0;
  history = e.history;
  status = healed;
  meta = e.meta;
}
quiet_as false disparity e = record {
  occurrences = some 0;
  history = e.history;
  status = healed;
  meta = e.meta;
}

abbrev pub expected :
    (is_dna is_gold : Bool) → (issues : ℕ) → Option LedgerEntry → Option LedgerEntry
expected is_dna is_gold zero none = none
expected is_dna is_gold zero (some e) = some (quiet_as is_dna e.status e)
expected is_dna true (suc n) none =
    some
      (record { occurrences = none; history = gold_standard ∷ []; status = reference; meta = none })
expected is_dna true (suc n) (some e) = some e
expected is_dna false (suc n) none = some (record {
  occurrences = some (suc n);
  history = sightings (suc n);
  status = unstable;
  meta = none;
})
expected is_dna false (suc n) (some e) = some (failed (suc n) e)

failing_status-eq : (s : LedgerStatus) → (if is_reference s then s else unstable) ≡ failing_status s
failing_status-eq unstable = refl
failing_status-eq healed = refl
failing_status-eq reference = refl
failing_status-eq disparity = refl

failing_status-twice : (s : LedgerStatus) → failing_status (failing_status s) ≡ failing_status s
failing_status-twice unstable = refl
failing_status-twice healed = refl
failing_status-twice reference = refl
failing_status-twice disparity = refl

raised-increment : (n : ℕ) (o : Option ℕ) → raised n (increment o) ≡ raised (suc n) o
raised-increment n none = refl
raised-increment n (some k) = ap some (omega arith)

raised-one : (o : Option ℕ) → increment o ≡ raised 1 o
raised-one none = refl
raised-one (some k) = ap some (omega arith)

abbrev with_parts : Option ℕ → List LedgerEvent → LedgerStatus → EntryMeta → LedgerEntry
with_parts o h s m = record { occurrences = o; history = h; status = s; meta = m }

with_parts-eq :
    {o p : Option ℕ} {h i : List LedgerEvent} {s t : LedgerStatus} (m : EntryMeta)
    → o ≡ p
    → h ≡ i
    → s ≡ t
    → with_parts o h s m ≡ with_parts p i t m
with_parts-eq m a b c = rw (a, b, c) refl

failed-touched : (n : ℕ) (e : LedgerEntry) → failed n (touched e) ≡ failed (suc n) e
failed-touched n e =
    with_parts-eq e.meta (raised-increment n e.occurrences)
      (append_assoc e.history (seen ∷ []) (sightings n))
      (ap failing_status (failing_status-eq e.status) ∙ failing_status-twice e.status)

failed-one : (e : LedgerEntry) → touched e ≡ failed 1 e
failed-one e = with_parts-eq e.meta (raised-one e.occurrences) refl (failing_status-eq e.status)

visits-failed :
    (n : ℕ) (e : LedgerEntry) → visits false n (some (touched e)) ≡ some (failed (suc n) e)
visits-failed zero e = ap some (failed-one e)
visits-failed (suc n) e = visits-failed n (touched e) ∙ ap some (failed-touched (suc n) e)

visits-gold : (n : ℕ) (e : LedgerEntry) → visits true n (some e) ≡ some e
visits-gold zero e = refl
visits-gold (suc n) e = visits-gold n e

visits-expected :
    (is_dna is_gold : Bool) (n : ℕ) (o : Option LedgerEntry)
    → visits is_gold (suc n) o ≡ expected is_dna is_gold (suc n) o
visits-expected is_dna true n none = visits-gold n reference_entry
visits-expected is_dna true n (some e) = visits-gold n e
visits-expected is_dna false n none =
    visits-failed n new_entry
    ∙ ap (λ k. some (with_parts (some k) (sightings (suc n)) unstable none)) (omega arith)
visits-expected is_dna false n (some e) = visits-failed n e

map_option-same :
    (f : LedgerEntry → LedgerEntry) (o : Option LedgerEntry)
    → ((e : LedgerEntry) → f e ≡ e)
    → map_option f o ≡ o
map_option-same f none h = refl
map_option-same f (some e) h = ap some (h e)

quiet-eq :
    (dna : Bool) (s : LedgerStatus) (e : LedgerEntry)
    → (if not (dna || is_reference s) && not (is_healed s)
        then record e { status = healed; occurrences = some 0 }
        else e)
      ≡ quiet_as dna s e
quiet-eq true s e = refl
quiet-eq false unstable e = refl
quiet-eq false healed e = refl
quiet-eq false reference e = refl
quiet-eq false disparity e = refl

heal-quiet :
    (errors : List (List ℕ)) (file : List ℕ) (e : LedgerEntry)
    → contains errors file ≡ false
    → heal errors file e ≡ quiet_as (codes_eq file strategic_dna) e.status e
heal-quiet errors file e h = rw h (quiet-eq (codes_eq file strategic_dna) e.status e)

quiet-map :
    (errors : List (List ℕ)) (file : List ℕ) (gold : Bool) (o : Option LedgerEntry)
    → contains errors file ≡ false
    → map_option (heal errors file) o ≡ expected (codes_eq file strategic_dna) gold 0 o
quiet-map errors file gold none h = refl
quiet-map errors file gold (some e) h = ap some (heal-quiet errors file e h)

-- After an update, the entry of a file depends only on its old entry, once the maintenance is done, on
-- whether it is a gold standard and on the number of issues about it. Without issues, an entry that is
-- unstable or of a disparity becomes healed with a count of zero, but for that of the findings
-- without a file, and all else stays. With issues, a gold standard keeps its entry or gets that of a
-- reference; any other file gets one event and one occurrence for each, where the occurrences are a
-- number, and is unstable unless it is a reference.
pub update-expected :
    (project_root : List ℕ) (is_gold : List ℕ → Bool) (w : Saving) (issues : List (Option (List ℕ)))
    (s : StabilityLedger) (file : List ℕ)
    → get file (update project_root is_gold w issues s).ledger
      ≡ expected
          (codes_eq file strategic_dna)
          (is_gold file)
          (issues_about file (map extract_file_name issues))
          (get file (perform_maintenance project_root s.ledger))
update-expected project_root is_gold w issues s file =
    let errors = map extract_file_name issues in
    let before = get file (perform_maintenance project_root s.ledger) in
    update-visits project_root is_gold w issues s file ∙ elim (Bool-cases (contains errors file)) [
      | inl named ↦
          let n = about file errors named in
          map_option-same (heal errors file) _ (λ e. heal-same errors file e named)
          ∙ rw n.1 (visits-expected (codes_eq file strategic_dna) (is_gold file) n.0 before)
      | inr quiet ↦
          rw (about_none file errors quiet) (quiet-map errors file (is_gold file) before quiet)
    ]

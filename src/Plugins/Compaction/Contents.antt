-- ===== src/Plugins/Compaction/Contents.antt =====
-- What a summary holds, and that a second one holds the same.
use personas_agentes.Common.{
  ℕ, ◌+◌, ◌≡◌, ◌≢◌, refl, ap, ◌∙◌, String, Bool, false, ◌||◌, List, [], ◌∷◌, ◌++◌, Option, none,
  some, contains, string_eq, str_eq, eq_iff, eq_refl, any, get, arith,
}
use personas_agentes.Kernel.Sessions.{
  Kind, turn_start, tool_call, tool_result, verification, reasoning, approval_prompt, text,
  turn_end, compaction, Event, Service, get_history, new_event, or_zero,
}
use personas_agentes.Kernel.Sessions.Numbering.{get_history-append}
use personas_agentes.Plugins.Compaction.{
  Reader, Gathered, nothing_yet, add, gather_event, gather, summarise, CompactionSummary, compact,
}

-- Whether the text is there and is `f`.
abbrev pub is_text : String → Option String → Bool
is_text f none = false
is_text f (some x) = str_eq x f

-- Whether the event is a call that names the file.
abbrev pub touches : {P H : Type 0} → Reader P → String → Event P H → Bool
touches r f e = elim e.kind [ tool_call ↦ is_text f (r.file_path e.payload) | _ ↦ false ]

abbrev pub verifies : {P H : Type 0} → Reader P → String → Event P H → Bool
verifies r f e = elim e.kind [ verification ↦ is_text f (r.text e.payload) | _ ↦ false ]

contains-append_one :
    (xs : List String) (x f : String) → contains (xs ++ x ∷ []) f ≡ contains xs f || str_eq x f
contains-append_one [] x f = ground arith
contains-append_one (y ∷ ys) x f = ground (arith, contains-append_one ys x f)

contains-add :
    (o : Option String) (xs : List String) (f : String)
    → contains (add o xs) f ≡ contains xs f || is_text f o
contains-add none xs f = ground arith
contains-add (some x) xs f =
    ground (arith, contains-append_one xs x f, eq_iff x f, ap (contains xs) {x = x} {y = f})

module _ {P H : Type 0} (r : Reader P) where
  gather-files :
      (es : List (Event P H)) (g : Gathered) (f : String)
      → contains (gather r es g).touched_files f
        ≡ contains g.touched_files f || any (touches r f) es
  unfolding gather
  gather-files [] g f = ground arith
  gather-files (e ∷ es) g f =
      gather-files es (gather_event r e.kind e.payload g) f ∙ ground (arith, one e.kind e.payload)
    where
      one :
          (k : Kind) (p : P)
          → contains (gather_event r k p g).touched_files f
            ≡ contains g.touched_files f
              || elim k [ tool_call ↦ is_text f (r.file_path p) | _ ↦ false ]
      one tool_call p = contains-add (r.file_path p) g.touched_files f
      one turn_start p = ground arith
      one verification p = ground arith
      one reasoning p = ground arith
      one tool_result p = ground arith
      one approval_prompt p = ground arith
      one compaction p = ground arith
      one text p = ground arith
      one turn_end p = ground arith

  gather-contracts :
      (es : List (Event P H)) (g : Gathered) (f : String)
      → contains (gather r es g).verified_contracts f
        ≡ contains g.verified_contracts f || any (verifies r f) es
  unfolding gather
  gather-contracts [] g f = ground arith
  gather-contracts (e ∷ es) g f =
      gather-contracts es (gather_event r e.kind e.payload g) f
      ∙ ground (arith, one e.kind e.payload)
    where
      one :
          (k : Kind) (p : P)
          → contains (gather_event r k p g).verified_contracts f
            ≡ contains g.verified_contracts f
              || elim k [ verification ↦ is_text f (r.text p) | _ ↦ false ]
      one verification p = contains-add (r.text p) g.verified_contracts f
      one turn_start p = ground arith
      one tool_call p = ground arith
      one reasoning p = ground arith
      one tool_result p = ground arith
      one approval_prompt p = ground arith
      one compaction p = ground arith
      one text p = ground arith
      one turn_end p = ground arith

  gather-append_one :
      (es : List (Event P H)) (e : Event P H) (g : Gathered)
      → e.kind ≡ compaction
      → gather r (es ++ e ∷ []) g ≡ gather r es g
  unfolding gather
  gather-append_one [] e g c = rw c refl
  gather-append_one (d ∷ ds) e g c = gather-append_one ds e (gather_event r d.kind d.payload g) c

module _ {P H : Type 0} (r : Reader P) (digest : String → ℕ → Kind → P → H)
    (as_payload : CompactionSummary → P) where
  -- The summary of a session lists a file exactly if a call in its history names the file, and a
  -- verified contract exactly if a verification in its history has that text.
  pub compact-lists :
      (id f : String) (s : Service P H)
      → let summary = (compact r digest as_payload id s).1 in
        (contains summary.touched_files f ≡ any (touches r f) (get_history id s))
        × (contains summary.verified_contracts f ≡ any (verifies r f) (get_history id s))
  unfolding compact
  compact-lists id f s = (
    gather-files r (get_history id s) nothing_yet f,
    gather-contracts r (get_history id s) nothing_yet f,
  )

  -- Compacting a session again gives the same summary, and the histories of other sessions stay as
  -- they were.
  pub compact-again :
      (id : String) (s : Service P H)
      → let t = (compact r digest as_payload id s).0 in
        ((compact r digest as_payload id t).1 ≡ (compact r digest as_payload id s).1)
        × ((j : String) → j ≢ id → get_history j t ≡ get_history j s)
  unfolding compact new_event
  compact-again id s =
      let sum = summarise id (gather r (get_history id s) nothing_yet) in
      let e = new_event digest id (or_zero (get id s.counts) + 1) 1 compaction (as_payload sum) in
      (
        ap (λ es. summarise id (gather r es nothing_yet)) {y = get_history id s ++ e ∷ []}
              (get_history-append digest id id 1 compaction (as_payload sum) s
                ∙ rw (eq_refl id) refl)
            ∙ ap (summarise id) (gather-append_one r (get_history id s) e nothing_yet refl),
        λ j ne.
            ground
              (arith, get_history-append digest id j 1 compaction (as_payload sum) s, eq_iff id j),
      )

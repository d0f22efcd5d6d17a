-- ===== src/Kernel/Sessions/Numbering.antt =====
-- The numbers and stamps of a session's events.
use personas_agentes.Common.{
  ℕ, suc, ◌+◌, String, ◌≡◌, refl, ap, subst, ◌∙◌, false, List, [], ◌∷◌, ◌++◌, if◌then◌else◌, get,
  has, string_eq, nat_eq, arith, eq_iff, get-put, eq_refl, has_iff_get, str_eq, length,
  length-append, Bool-cases, inl, inr,
}
use personas_agentes.Kernel.Sessions.{
  Kind, Meta, Event, Line, session_init, logged, Service, or_zero, or_empty, restart, create,
  events_of, get_history, new_event, append,
}

module _ {P H : Type 0} where
  events_of-append : (ls ms : List (Line P H)) → events_of (ls ++ ms) ≡ events_of ls ++ events_of ms
  events_of-append [] ms = refl
  events_of-append (session_init m ∷ ls) ms = events_of-append ls ms
  events_of-append (logged e ∷ ls) ms =
      ap (λ (t : List (Event P H)). e ∷ t) (events_of-append ls ms)

module _ {P H : Type 0} (digest : String → ℕ → Kind → P → H) where
  -- The events are numbered from `k + 1` on, belong to the session, and carry the stamp of their own
  -- session, number, kind and payload.
  abbrev pub Genuine : String → ℕ → List (Event P H) → Type 0
  Genuine id k [] = Unit
  Genuine id k (e ∷ es) =
      (e.index ≡ suc k)
      × (e.session_id ≡ id)
      × (e.sha256 ≡ digest id (suc k) e.kind e.payload)
      × Genuine id (suc k) es

  pub record Inv (s : Service P H) : Type 0 where
    pub genuine : (id : String) → Genuine id 0 (get_history id s)
    pub counted : (id : String) → or_zero (get id s.counts) ≡ length (get_history id s)

  Genuine-append :
      (id : String) (k : ℕ) (es : List (Event P H)) (e : Event P H)
      → Genuine id k es
      → Genuine id (k + length es) (e ∷ [])
      → Genuine id k (es ++ e ∷ [])
  Genuine-append id k [] e h g =
      let same : k + 0 ≡ k = omega arith in subst (λ n. Genuine id n (e ∷ [])) same g
  Genuine-append id k (x ∷ es) e h g =
      let same : k + suc (length es) ≡ suc k + length es = omega arith in
      (
        h.0,
        h.1,
        h.2,
        Genuine-append id (suc k) es e h.3 (subst (λ n. Genuine id n (e ∷ [])) same g),
      )

  -- `append` adds one event at the end of its own session's history, and leaves the others.
  pub get_history-append :
      (id j : String) (turn : ℕ) (kind : Kind) (payload : P) (s : Service P H)
      → get_history j (append digest id turn kind payload s) ≡ (
          if str_eq id j
          then get_history id s
            ++ new_event digest id (or_zero (get id s.counts) + 1) turn kind payload ∷ []
          else get_history j s)
  unfolding get_history append
  get_history-append id j turn kind payload s =
      let ls = or_empty (get id s.files) in
      let e = new_event digest id (or_zero (get id s.counts) + 1) turn kind payload in
      elim (Bool-cases (str_eq id j)) [
        | inl h ↦
            rw (get-put id j (ls ++ logged e ∷ []) s.files, h) (events_of-append ls (logged e ∷ []))
        | inr h ↦ rw (get-put id j (ls ++ logged e ∷ []) s.files, h) refl
      ]

  counts-append :
      (id j : String) (turn : ℕ) (kind : Kind) (payload : P) (s : Service P H)
      → or_zero (get j (append digest id turn kind payload s).counts)
        ≡ (if str_eq id j then or_zero (get id s.counts) + 1 else or_zero (get j s.counts))
  unfolding append
  counts-append id j turn kind payload s =
      ground (arith, get-put id j (or_zero (get id s.counts) + 1) s.counts)

  new_event-Genuine :
      (id : String) (count k turn : ℕ) (kind : Kind) (payload : P)
      → count ≡ suc k
      → Genuine id k (new_event digest id count turn kind payload ∷ [])
  unfolding new_event
  new_event-Genuine id count k turn kind payload e =
      (e, refl, ap (λ n. digest id n kind payload) e, tt)

  append-Genuine :
      (id : String) (turn : ℕ) (kind : Kind) (payload : P) (s : Service P H)
      → Inv s
      → Genuine id 0 (get_history id (append digest id turn kind payload s))
  append-Genuine id turn kind payload s i =
      rw (get_history-append id id turn kind payload s, eq_refl id)
        (Genuine-append id 0 (get_history id s) _ (i.genuine id) (
          new_event-Genuine id (or_zero (get id s.counts) + 1) (0 + length (get_history id s)) turn
            kind payload (omega (arith, i.counted id))))

  -- Appending an event keeps the sessions' logs numbered from one without gaps, each event stamped with
  -- the digest of its own session, number, type and payload, and the counters equal to the lengths of
  -- the logs.
  pub append-Inv :
      (id : String) (turn : ℕ) (kind : Kind) (payload : P) (s : Service P H)
      → Inv s
      → Inv (append digest id turn kind payload s)
  append-Inv id turn kind payload s i = record {
    genuine = λ j. elim (Bool-cases (str_eq id j)) [
      | inl h ↦
          subst (λ k. Genuine k 0 (get_history k (append digest id turn kind payload s)))
            ((eq_iff id j).0 h) (append-Genuine id turn kind payload s i)
      | inr h ↦ rw (get_history-append id j turn kind payload s, h) (i.genuine j)
    ];
    counted = λ j. elim (Bool-cases (str_eq id j)) [
      | inl h ↦
          rw
            (get_history-append id j turn kind payload s, counts-append id j turn kind payload s, h)
            (omega (
              arith,
              i.counted id,
              length-append (get_history id s)
                  (new_event digest id (or_zero (get id s.counts) + 1) turn kind payload ∷ []),
            ))
      | inr h ↦
          rw
            (get_history-append id j turn kind payload s, counts-append id j turn kind payload s, h)
            (i.counted j)
    ];
  }

  pub get_history-create :
      (m : Meta) (j : String) (s : Service P H) → get_history j (create m s) ≡ get_history j s
  unfolding get_history create
  get_history-create m j s = ground (
    arith,
    get-put m.id j (session_init m ∷ []) s.files,
    eq_iff m.id j,
    has_iff_get m.id s.files,
    ap (λ k. get k s.files) {x = m.id} {y = j},
  )

  counts-create :
      (m : Meta) (j : String) (s : Service P H)
      → or_zero (get j (create m s).counts)
        ≡ (if str_eq m.id j then 0 else or_zero (get j s.counts))
  unfolding create
  counts-create m j s = ground (arith, get-put m.id j 0 s.counts)

  pub absent-history :
      (id : String) (s : Service P H) → has id s.files ≡ false → get_history id s ≡ []
  unfolding get_history
  absent-history id s h = rw ((has_iff_get id s.files).0 h) refl

  -- A session is created for an id that has no file yet.
  pub create-Inv :
      (m : Meta) (s : Service P H) → Inv s → has m.id s.files ≡ false → Inv (create m s)
  create-Inv m s i absent = record {
    genuine = λ j. rw (get_history-create m j s) (i.genuine j);
    counted = λ j.
        rw (get_history-create m j s, counts-create m j s)
          (ground (
            arith,
            eq_iff m.id j,
            i.counted j,
            ap (λ l. length l) (absent-history m.id s absent),
            ap (λ k. length (get_history k s)) {x = m.id} {y = j},
          ));
  }

  -- The service loses its count of a session that has a log: it is restarted, or the session is
  -- created again.
  pub data Interrupts (id : String) (s : Service P H) : Service P H → Type 0 where
    restarted : Interrupts id s (restart s)
    created_again : (m : Meta) → m.id ≡ id → Interrupts id s (create m s)

  interrupted-history :
      (id : String) (s : Service P H) (s' : Service P H)
      → Interrupts id s s'
      → (get_history id s' ≡ get_history id s) × (or_zero (get id s'.counts) ≡ 0)
  interrupted-history id s s' restarted = unfold restart get_history in (refl, refl)
  interrupted-history id s s' (created_again m e) =
      (get_history-create m id s, ground (arith, counts-create m id s, eq_iff m.id id))

  -- In a service whose counters and stamps agree with its files: after a restart, or after `create`
  -- is called again for a session whose log has an event, the next event of the session is added to
  -- the log with the number of its first event.
  pub interrupted-reuses :
      (id : String) (turn : ℕ) (kind : Kind) (payload : P) (s s' : Service P H) (e : Event P H)
      (es : List (Event P H))
      → Inv s
      → get_history id s ≡ e ∷ es
      → Interrupts id s s'
      → (x : Event P H) × (x.index ≡ e.index)
        × (get_history id (append digest id turn kind payload s') ≡ (e ∷ es) ++ x ∷ [])
  interrupted-reuses id turn kind payload s s' e es i h c =
      let (kept, lost) = interrupted-history id s s' c in
      let first : e.index ≡ 1 = (subst (Genuine id 0) h (i.genuine id)).0 in
      (
        new_event digest id (or_zero (get id s'.counts) + 1) turn kind payload,
        unfold new_event in omega (arith, lost, first),
        rw (get_history-append id id turn kind payload s', eq_refl id)
            (ap
              (λ (l : List (Event P H)).
                l ++ new_event digest id (or_zero (get id s'.counts) + 1) turn kind payload ∷ [])
              (kept ∙ h)),
      )

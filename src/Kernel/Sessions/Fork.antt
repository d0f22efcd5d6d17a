-- ===== src/Kernel/Sessions/Fork.antt =====
-- What `fork` copies.
use personas_agentes.Common.{
  ℕ, ◌+◌, String, ◌≡◌, refl, sym, ap, ◌∙◌, false, List, [], ◌∷◌, ◌++◌, map, Option, get, has, take,
  string_eq, eq_refl, str_eq, append_assoc, append-nil, map-append,
}
use personas_agentes.Kernel.Sessions.{
  Kind, Event, Service, or_zero, create, get_history, new_event, append, append_all, fork,
  fork_meta,
}
use personas_agentes.Kernel.Sessions.Numbering.{
  Inv, append-Inv, create-Inv, get_history-append, get_history-create, absent-history,
}

-- What of an event does not depend on its session.
abbrev pub content : {P H : Type 0} → Event P H → ℕ × Kind × P
content e = (e.turn_index, e.kind, e.payload)

module _ {P H : Type 0} (digest : String → ℕ → Kind → P → H) where
  append_all-Inv :
      (id : String) (es : List (Event P H)) (s : Service P H)
      → Inv digest s
      → Inv digest (append_all digest id es s)
  unfolding append_all
  append_all-Inv id [] s i = i
  append_all-Inv id (e ∷ es) s i =
      append_all-Inv id es (append digest id e.turn_index e.kind e.payload s)
        (append-Inv digest id e.turn_index e.kind e.payload s i)

  content-append :
      (id : String) (turn : ℕ) (kind : Kind) (payload : P) (s : Service P H)
      → map content (get_history id (append digest id turn kind payload s))
        ≡ map content (get_history id s) ++ (turn, kind, payload) ∷ []
  content-append id turn kind payload s =
      let x = new_event digest id (or_zero (get id s.counts) + 1) turn kind payload in
      rw (get_history-append digest id id turn kind payload s, eq_refl id)
        (map-append content (get_history id s) (x ∷ []) ∙ unfold new_event in refl)

  content-append_all :
      (id : String) (es : List (Event P H)) (s : Service P H)
      → map content (get_history id (append_all digest id es s))
        ≡ map content (get_history id s) ++ map content es
  unfolding append_all
  content-append_all id [] s = sym (append-nil _)
  content-append_all id (e ∷ es) s =
      content-append_all id es (append digest id e.turn_index e.kind e.payload s)
      ∙ (ap (λ (l : List (ℕ × Kind × P)). l ++ map content es)
            (content-append id e.turn_index e.kind e.payload s)
          ∙ append_assoc (map content (get_history id s)) (content e ∷ []) (map content es))

  other-append_all :
      (id j : String) (es : List (Event P H)) (s : Service P H)
      → str_eq id j ≡ false
      → get_history j (append_all digest id es s) ≡ get_history j s
  unfolding append_all
  other-append_all id j [] s ne = refl
  other-append_all id j (e ∷ es) s ne =
      other-append_all id j es (append digest id e.turn_index e.kind e.payload s) ne
      ∙ rw (get_history-append digest id j e.turn_index e.kind e.payload s, ne) refl

  -- In a service whose counters and stamps agree with its files, which can fail after a restart, a
  -- fork under an id with no file copies the turn, the kind and the payload of the first `step`
  -- events, in order, keeps counters and stamps in agreement with the files, the fork's included, and
  -- leaves the original session and all others as they were.
  pub fork-copies :
      (original forked : String) (step : ℕ) (persona : Option String) (s : Service P H)
      → Inv digest s
      → has forked s.files ≡ false
      → Inv digest (fork digest original forked step persona s)
        × (map content (get_history forked (fork digest original forked step persona s))
            ≡ map content (take step (get_history original s)))
        × ((j : String)
            → str_eq forked j ≡ false
            → get_history j (fork digest original forked step persona s) ≡ get_history j s)
  unfolding fork
  fork-copies original forked step persona s i absent =
      let m = fork_meta original forked step persona s in
      (
        append_all-Inv forked (take step (get_history original s)) (create m s)
            (create-Inv digest m s i absent),
        content-append_all forked (take step (get_history original s)) (create m s)
            ∙ ap
                (λ (l : List (Event P H)).
                  map content l ++ map content (take step (get_history original s)))
                (get_history-create digest m forked s ∙ absent-history digest forked s absent),
        λ j ne.
            other-append_all forked j (take step (get_history original s)) (create m s) ne
            ∙ get_history-create digest m j s,
      )

-- ===== src/Kernel/Sessions/Examples.antt =====
-- A session with two events, its fork, and a restart of the service.
use personas_agentes.Common.{ℕ, ◌+◌, ◌*◌, String, ◌≡◌, refl, [], ◌∷◌, ◌++◌, map, none, string_eq}
use personas_agentes.Kernel.Sessions.{
  Kind, turn_start, reasoning, text, Meta, Event, Service, new_service, restart, create,
  get_history, new_event, append, append_all, fork,
}
use personas_agentes.Kernel.Sessions.Numbering.{
  Inv, append-Inv, create-Inv, restarted, interrupted-reuses,
}
use personas_agentes.Kernel.Sessions.Fork.{content, fork-copies}

-- A stand-in for the digest: the number and the payload.
abbrev stamp : String → ℕ → Kind → ℕ → ℕ
stamp id index kind payload = 100 * index + payload

sessions_run : ℕ
unfolding create append append_all fork get_history new_event restart
sessions_run = 0

abbrev meta : Meta
meta = record { id = "s"; persona = "p"; model = "m"; parent = none; fork_step = none }

abbrev logged_two : Service ℕ ℕ
logged_two =
    append stamp "s" 1 reasoning 8 (append stamp "s" 1 turn_start 7 (create meta new_service))

new_service-Inv : Inv stamp new_service
unfolding sessions_run
new_service-Inv = record { genuine = λ id. tt; counted = λ id. refl }

logged_two-Inv : Inv stamp logged_two
logged_two-Inv =
    append-Inv stamp "s" 1 reasoning 8 _ (
      append-Inv stamp "s" 1 turn_start 7 _
        (create-Inv stamp meta new_service new_service-Inv refl))

append-Inv_example : Inv stamp (append stamp "s" 1 text 9 logged_two)
append-Inv_example = append-Inv stamp "s" 1 text 9 logged_two logged_two-Inv

interrupted-reuses_example :
    (x : Event ℕ ℕ) × (x.index ≡ 1)
    × (get_history "s" (append stamp "s" 1 text 9 (restart logged_two))
        ≡ get_history "s" logged_two ++ x ∷ [])
unfolding sessions_run
interrupted-reuses_example =
    interrupted-reuses stamp "s" 1 text 9 logged_two (restart logged_two) _ _ logged_two-Inv refl
      restarted

fork-copies_example :
    map content (get_history "f" (fork stamp "s" "f" 1 none logged_two)) ≡ (1, turn_start, 7) ∷ []
unfolding sessions_run
fork-copies_example = (fork-copies stamp "s" "f" 1 none logged_two logged_two-Inv refl).1

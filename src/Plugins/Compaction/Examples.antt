-- ===== src/Plugins/Compaction/Examples.antt =====
-- A session with two calls on one file.
use personas_agentes.Common.{
  ℕ, ◌≡◌, refl, String, false, [], ◌∷◌, none, some, any, contains, string_eq,
}
use personas_agentes.Kernel.Sessions.{
  Kind, tool_call, verification, Service, new_service, append, new_event, get_history,
}
use personas_agentes.Plugins.Compaction.{
  Reader, CompactionSummary, compact, gather, gather_event, summarise,
}
use personas_agentes.Plugins.Compaction.Contents.{touches, verifies, compact-lists, compact-again}

abbrev reader : Reader String
reader = record {
  file_path = (λ p. some p);
  text = (λ p. some p);
  content = (λ p. none);
  is_decision = (λ c. false);
  clip = (λ c. c);
}

abbrev digest : String → ℕ → Kind → String → ℕ
digest id n k p = n

abbrev as_payload : CompactionSummary → String
as_payload c = "summary"

abbrev calls_twice : Service String ℕ
calls_twice =
    append digest "s" 1 tool_call "a.ts"
      (append digest "s" 1 verification "total" (append digest "s" 1 tool_call "a.ts" new_service))

lists_once : (compact reader digest as_payload "s" calls_twice).1.touched_files ≡ "a.ts" ∷ []
unfolding compact gather gather_event summarise append new_event get_history
lists_once = refl

compact-lists_holds :
    let summary = (compact reader digest as_payload "s" calls_twice).1 in
    (contains summary.touched_files "a.ts"
      ≡ any (touches reader "a.ts") (get_history "s" calls_twice))
    × (contains summary.verified_contracts "a.ts"
        ≡ any (verifies reader "a.ts") (get_history "s" calls_twice))
compact-lists_holds = compact-lists reader digest as_payload "s" "a.ts" calls_twice

compact-again_holds :
    (compact reader digest as_payload "s" (compact reader digest as_payload "s" calls_twice).0).1
    ≡ (compact reader digest as_payload "s" calls_twice).1
compact-again_holds = (compact-again reader digest as_payload "s" calls_twice).0

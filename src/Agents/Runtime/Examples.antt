-- ===== src/Agents/Runtime/Examples.antt =====
-- A statement without a condition, and an execution after others.
use personas_agentes.Common.{
  ◌≡◌, refl, true, false, List, [], ◌∷◌, some, codes, get, string_eq, arith,
}
use personas_agentes.Agents.Runtime.Logic.{
  Payload, text_payload, object_payload, absent, value, git_logic, Words, database_output,
  missing_where, database_logic, run_emulated_wasm_logic,
}
use personas_agentes.Agents.Runtime.{
  WasmAgentMetadata, new_runtime, register_all, register_agent, purge_all, fails, succeeds, execute,
}
use personas_agentes.Agents.Runtime.Slots.{
  Step, purges, executes, step, run, run-new_runtime-execute,
}

abbrev words : Words
words = record {
  to_lower = (λ t. t);
  to_upper = (λ t. t);
  has_high_entropy = (λ t. false);
  is_semantic = (λ t. true);
  sample = 7;
}

abbrev statement : Payload
statement = text_payload (codes "UPDATE t")

misses_where : database_logic words (codes "UPDATE t") ≡ database_output false (missing_where ∷ [])
unfolding database_logic
misses_where = refl

database_misses :
    run_emulated_wasm_logic words "agent_database.wasm" statement
    ≡ some (database_output false (missing_where ∷ []))
unfolding run_emulated_wasm_logic database_logic
database_misses = refl

abbrev before : List Step
before = executes 1 "agent_git.wasm" statement ∷ purges ∷ []

abbrev database_agent : WasmAgentMetadata
database_agent = record { id = "agent_database.wasm"; binary_size_kb = 640; ram_limit_kb = 700 }

has_database : get "agent_database.wasm" (run words new_runtime before).agents ≡ some database_agent
unfolding run step execute purge_all new_runtime register_all register_agent
has_database = refl

run-new_runtime-execute_example :
    (execute words 1 "agent_database.wasm" statement (run words new_runtime before)).0
    ≡ succeeds (database_output false (missing_where ∷ [])) 700
run-new_runtime-execute_example =
    ((run-new_runtime-execute words before 1 "agent_database.wasm" statement (omega arith)).0
        database_agent has_database).0
      (database_output false (missing_where ∷ [])) database_misses

-- A difference that is a number makes the git agent fail.
abbrev wrong_diff : Payload
wrong_diff = object_payload (record {
  source = absent;
  code = absent;
  sql = absent;
  commit_message = absent;
  diff = value (codes "5");
})

fails_on_value : (execute words 1 "agent_git.wasm" wrong_diff new_runtime).0 ≡ fails
unfolding execute new_runtime register_all register_agent run_emulated_wasm_logic git_logic
fails_on_value = refl

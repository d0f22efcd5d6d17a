-- ===== src/Agents/Runtime.antt =====
-- src_local/utils/ai/wasm_micro_agent_runtime.ts: WasmMicroAgentRuntime.
-- A text is the list of its codes. The conversions of case, the two regular expressions and the
-- telemetry's random sample are arguments. Of a payload, a text or another value, the fields that are
-- read stand in `Payload`; an array, or an object with methods of its own, in a field is left out. The loading of a real module, whose result
-- the source does not use, and the times are left out. From the test of the limit on, an execution
-- runs without an `await`, so it is one step.
pub mod Logic
pub mod Slots
mod Examples
use personas_agentes.Common.{
  ℕ, suc, ◌+◌, ◌-◌, String, Bool, true, false, List, [], ◌∷◌, Option, none, some, if◌then◌else◌,
  leb, get, put, string_eq, arith,
}
use Logic.{Payload, Words, Output, run_emulated_wasm_logic}

pub record WasmAgentMetadata : Type 0 where
  pub id : String
  pub binary_size_kb : ℕ
  pub ram_limit_kb : ℕ

pub record Runtime : Type 0 where
  pub agents : List (String × WasmAgentMetadata)
  pub active_executions : ℕ

pub register_agent : WasmAgentMetadata → Runtime → Runtime
register_agent a r = record r { agents = put a.id a r.agents }

abbrev pub default_agents : List WasmAgentMetadata
default_agents =
    record { id = "agent_audit.wasm"; binary_size_kb = 512; ram_limit_kb = 600 }
    ∷ record { id = "agent_security.wasm"; binary_size_kb = 768; ram_limit_kb = 800 }
    ∷ record { id = "agent_git.wasm"; binary_size_kb = 1024; ram_limit_kb = 1024 }
    ∷ record { id = "agent_telemetry.wasm"; binary_size_kb = 256; ram_limit_kb = 300 }
    ∷ record { id = "agent_database.wasm"; binary_size_kb = 640; ram_limit_kb = 700 }
    ∷ record { id = "agent_linter.wasm"; binary_size_kb = 890; ram_limit_kb = 900 }
    ∷ []

pub register_all : List WasmAgentMetadata → Runtime → Runtime
unfolding register_agent
register_all [] r = r
register_all (a ∷ rest) r = register_all rest (register_agent a r)

pub new_runtime : Runtime
unfolding register_all
new_runtime = register_all default_agents (record { agents = []; active_executions = 0 })

pub purge_all : Runtime → Runtime
purge_all r = record r { active_executions = 0 }

-- How an execution stands: not registered, waiting for a slot, with its output and the memory, or
-- failed since the logic threw.
pub data Execution : Type 0 where
  unregistered waits fails : Execution
  succeeds : Output → ℕ → Execution

-- The result of the `try` and the `catch`.
abbrev pub concluded : ℕ → Option Output → Execution
concluded ram none = fails
concluded ram (some output) = succeeds output ram

-- `execute` at one look at the limit; one that waits looks again after its sleep.
pub execute : Words → ℕ → String → Payload → Runtime → Execution × Runtime
unfolding run_emulated_wasm_logic
execute w max_concurrent id payload r = elim (get id r.agents) [
  | none ↦ (unregistered, r)
  | some agent ↦
      if leb max_concurrent r.active_executions
      then (waits, r)
      else let busy = record r { active_executions = suc r.active_executions } in
        let output = run_emulated_wasm_logic w agent.id payload in
        (
          concluded agent.ram_limit_kb output,
          record busy { active_executions = busy.active_executions - 1 },
        )
]

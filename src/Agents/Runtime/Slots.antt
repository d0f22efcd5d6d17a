-- ===== src/Agents/Runtime/Slots.antt =====
-- The slots of the executions.
use personas_agentes.Common.{
  some, ◌≢◌, ℕ, ◌<◌, ◌≡◌, refl, String, false, List, [], ◌∷◌, none, some, leb, get, string_eq,
  arith,
}
use personas_agentes.Agents.Runtime.Logic.{
  Payload, text_payload, Words, git_logic, run_emulated_wasm_logic,
}
use personas_agentes.Agents.Runtime.{
  WasmAgentMetadata, Runtime, register_agent, register_all, new_runtime, purge_all, unregistered,
  Output, succeeds, fails, execute,
}

pub data Step : Type 0 where
  registers : WasmAgentMetadata → Step
  purges : Step
  executes : (max_concurrent : ℕ) → String → Payload → Step

unfoldable pub step : Words → Runtime → Step → Runtime
step w r (registers a) = register_agent a r
step w r purges = purge_all r
step w r (executes n id p) = (execute w n id p r).1

unfoldable pub run : Words → Runtime → List Step → Runtime
unfolding step
run w r [] = r
run w r (s ∷ ss) = run w (step w r s) ss

step-idle :
    (w : Words) (r : Runtime) (s : Step)
    → r.active_executions ≡ 0
    → (step w r s).active_executions ≡ 0
unfolding step
step-idle w r (registers a) h = unfold register_agent in h
step-idle w r purges h = unfold purge_all in refl
step-idle w r (executes n id p) h = unfold execute in ground arith

run-idle :
    (w : Words) (r : Runtime) (ss : List Step)
    → r.active_executions ≡ 0
    → (run w r ss).active_executions ≡ 0
unfolding run
run-idle w r [] h = h
run-idle w r (s ∷ ss) h = run-idle w (step w r s) ss (step-idle w r s h)

leb_positive : (n : ℕ) → 0 < n → leb n 0 ≡ false
leb_positive n h = ground arith

answers-text :
    (w : Words) (id : String) (t : List ℕ) → run_emulated_wasm_logic w id (text_payload t) ≢ none
unfolding run_emulated_wasm_logic git_logic
answers-text w id t = ground arith

-- After any registrations, purges and executions of a new runtime, under a positive limit no execution
-- waits: if its agent is registered, it succeeds with the logic's output, or fails where the logic
-- throws, and if not, it is turned away. The logic of no agent throws on a text.
pub run-new_runtime-execute :
    (w : Words) (ss : List Step) (max_concurrent : ℕ) (id : String) (payload : Payload)
    → 0 < max_concurrent
    → let r = run w new_runtime ss in
      ((agent : WasmAgentMetadata)
        → get id r.agents ≡ some agent
        → ((output : Output)
            → run_emulated_wasm_logic w agent.id payload ≡ some output
            → (execute w max_concurrent id payload r).0 ≡ succeeds output agent.ram_limit_kb)
          × (run_emulated_wasm_logic w agent.id payload ≡ none
              → (execute w max_concurrent id payload r).0 ≡ fails))
      × ((get id r.agents ≡ none → (execute w max_concurrent id payload r).0 ≡ unregistered)
          × ((t : List ℕ) → run_emulated_wasm_logic w id (text_payload t) ≢ none))
unfolding execute
run-new_runtime-execute w ss n id payload pos =
    let r = run w new_runtime ss in
    let idle : r.active_executions ≡ 0 =
      run-idle w new_runtime ss (unfold new_runtime register_all register_agent in refl) in
    (
      λ agent h. (
        λ output o. rw (h, execute, idle, leb_positive n pos, o) refl,
        λ o. rw (h, execute, idle, leb_positive n pos, o) refl,
      ),
      (λ h. rw (h, execute) refl, λ t. answers-text w id t),
    )

-- ===== src/Lib.antt =====
-- A verification library for Personas_Agentes: the micro-kernel of its agents (sessions, events,
-- tools, plugins and their loader, approvals, the agent loop), two of its plugins, its task worker
-- pool, its test engine with the dependency graph and the auditor of tests, its patch manager with
-- the verification of patches, its resource budget, its governance and scores, the runtime of its
-- micro-agents and the local engine that serves the models.
--
-- A prompt becomes a turn of the agent loop (src_local/psa/core/psa_agent_loop.ts). The loop selects a
-- tool among those that plugins have registered, asks the approval manager first where that one is
-- exclusive, calls it through the tool service, whose hooks run as a waterfall of the event bus,
-- streams the model's answer and logs every step in the session service. Beside the kernel,
-- background tasks run on a worker pool, the healer patches files and audits the result, the budget
-- fits the workers and models to the machine, and the veto engine says which paths are passed over.
-- The test engine plans tests from what the dependency graph and the auditor of tests find, has the
-- model write them and keeps what passes its validator. The offline engine starts a server for a
-- model, kills it when it is idle, and reads its stream.
--
-- Common              tests, lists, maps in insertion order; no file of the program
-- Kernel/Approval     src_local/psa/kernel/psa_approval_manager.ts: PsaApprovalManager
-- Kernel/EventBus     src_local/psa/kernel/psa_events.ts: on, off, emit
-- Kernel/Waterfall    src_local/psa/kernel/psa_events.ts: runWaterfall
-- Kernel/Plugins      src_local/psa/kernel/psa_plugin.ts: PsaPluginManager, and the registry of
--                     src_local/psa/tools/psa_tool_service.ts
-- Kernel/Loading      src_local/psa/kernel/psa_plugin_loader.ts: PsaPluginLoader
-- Kernel/Tools        src_local/psa/tools/psa_tool_service.ts: executeTool
-- Kernel/Sessions     src_local/psa/session/psa_session_service.ts: PsaSessionService
-- Kernel/Loop         src_local/psa/core/psa_agent_loop.ts: runTurn
-- Core/TaskPool       src_local/core/task_worker_pool.ts: TaskWorkerPool
-- Core/TestEngine     src_local/core/test_engine.ts: TestEngine
-- Healing/Patch       src_local/engines/healing/patch_manager.ts: PatchManager
-- Plugins/Todo        src_local/psa/plugins/core/todo_plugin.ts
-- Plugins/Compaction  src_local/psa/plugins/core/compaction_plugin.ts
-- Maintenance/Budget  src_local/engines/maintenance/sovereign_resource_budget.ts
-- Governance/Veto     src_local/core/governance/veto_engine.ts
-- Healing/Penalty     src_local/engines/healing/penalty_engine.ts: PenaltyEngine
-- Healing/Verification src_local/engines/healing/formal_verification_engine.ts
-- Healing/Ledger      src_local/engines/healing/resilience_healing_architect_service.ts: StabilityLedger
-- Agents/Runtime      src_local/utils/ai/wasm_micro_agent_runtime.ts
-- Agents/Offline      src_local/utils/ai/warm_purge_offline_engine.ts: the server, its timers and models
-- Agents/Stream       src_local/utils/ai/warm_purge_offline_engine.ts: streamChatCompletion, generate
-- Diagnostics/Gaps    src_local/engines/diagnostics/strategies/GapExtractor.ts, GapScanner.ts
-- Diagnostics/Scorecard src_local/engines/diagnostics/code_scorecard.ts
-- Diagnostics/Graph   src_local/engines/diagnostics/audit_code_guardian_service.ts: DependencyGraph
-- Diagnostics/Audit   src_local/engines/diagnostics/audit_code_guardian_service.ts: TestAuditor
-- Diagnostics/Intelligence src_local/engines/diagnostics/intelligence_control_engine.ts
-- Governance/Resources  src_local/core/governance/resource_engine.ts
-- Governance/Compliance src_local/core/governance/scoring_engine.ts: alerts and constraints
--
-- A class is a record of its fields; a method is a function from the record to the record after it,
-- with the result beside it, and keeps its name in snake case. A `Map` is a list of pairs in
-- insertion order. What happens between two awaits of the program is one step, so a list of calls
-- or steps stands for any interleaving. A promise is a number, and its settling an entry of a list.
-- An exception is a constructor of the result. Promises, timers, the file system, the regular
-- expressions, the SHA-256 digest, the model, the operator and the code of tools and hooks are
-- arguments, or constructors of what is passed in.
--
-- Every definition is total by structural recursion. An emission has fuel, since a handler can make
-- the array longer that is walked; the number of handlers is enough where none does. The waterfall
-- recurs on the number of hooks that are left and a hook on its own program, which is well-founded
-- and may call `next` any number of times. A server that is started is asked at most 40 times for its
-- health, the bound of the source, and the loop recurs on what is left of it.
--
-- A number that the source computes in floating point is an argument where the exact one could round
-- to another.
--
-- Not modelled: times and latencies, the texts of messages, logging, the directory of the sessions,
-- an exception of the model's stream or of the file system in the kernel, and the components that are
-- outside the files above (the servers, the reporting engines, the orchestrator and its calls over
-- gRPC, the generated protocol code, the analyses by the TypeScript compiler, the native programs).
pub mod Common
pub mod Kernel
pub mod Core
pub mod Healing
pub mod Governance
pub mod Plugins
pub mod Agents
pub mod Diagnostics
pub mod Maintenance

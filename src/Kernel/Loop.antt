-- ===== src/Kernel/Loop.antt =====
-- src_local/psa/core/psa_agent_loop.ts: one turn of an agent, `runTurn`.
-- A turn is the list of its visible effects in their order: lines of the session's log, events that
-- the generator yields, questions to the operator, calls of tools. What it depends on is in `World`:
-- the verdicts of the regular expressions on the prompt, whether a variable of the environment
-- approves everything, the operator's answer, what each tool call comes to (`executeTool`), whether
-- the context can be read from a result (an array with a `null` in it throws), the chunks of the
-- model's stream. The contents of the messages, the telemetry's numbers and times are left out. JSON
-- text is a parameter type `J` of parsed values. That the promise of a tool call is rejected ends the
-- generator with an exception, and so does a result that has no JSON text, which counts as a rejected
-- call here: adding it to the log throws before it is written. The file of the log is taken to be
-- writable, so no other line of the log throws.
pub mod Stages
pub mod Protocol
pub mod Consent
mod Examples
use personas_agentes.Common.{
  ℕ, ◌<◌, String, Bool, true, false, not, ◌&&◌, ◌||◌, List, [], ◌∷◌, ◌++◌, Option, none, some,
  if◌then◌else◌, find, str_eq, ltb,
}
use personas_agentes.Kernel.Plugins.{Tool}
use personas_agentes.Kernel.Sessions.{
  Kind, turn_start, reasoning, tool_call, tool_result, verification, approval_prompt, text,
  turn_end,
}
use personas_agentes.Kernel.Tools.{Executed, success, error, rejected}

pub record Request : Type 0 where
  pub prompt_length : ℕ
  pub model : Option String
  pub deepthink : Bool
  pub auto_approve_if_test : Bool

-- What the regular expressions find in the prompt. `explicit` is the tool's name in lower case and
-- the parsed arguments, if the text of the arguments is there and parses.
pub record Intents (J : Type 0) : Type 0 where
  pub explicit : Option (String × Option J)
  pub is_diagnostic : Bool
  pub is_audit_staged : Bool
  pub is_registry : Bool
  pub is_healing : Bool
  pub is_governance : Bool
  pub is_shell : Bool
  pub is_fs_list : Bool
  pub is_compact : Bool
  pub is_code_search : Bool
  pub is_conversational : Bool

pub data Args (J : Type 0) : Type 0 where
  parsed : J → Args J
  no_args diagnostic_args dry_run_args session_args shell_args dir_args query_args patch_args :
      Args J

pub data Chunk : Type 0 where
  reasoning_chunk text_chunk error_chunk : Chunk

pub record World (J R : Type 0) : Type 0 where
  pub intents : Intents J
  pub lower : String → String
  pub environment_approves : Bool
  pub approves : Bool
  pub executes : String → Args J → Executed R
  pub reads_context : R → Bool
  pub stream : String → Bool → List Chunk
  pub has_code_fence : Bool

pub data Effect (J : Type 0) : Type 0 where
  logs yields : Kind → Effect J
  asks : String → Effect J
  calls : String → Args J → Effect J

-- The model that is asked for, by its name or an alias; an empty name counts as none.
pub resolve_model : Option String → String
resolve_model none = "qwen2.5-coder-1.5b"
resolve_model (some m) =
    if str_eq m "" || str_eq m "deepseek-v4-flash"
    then "qwen2.5-coder-1.5b"
    else if str_eq m "deepseek-v4-pro"
    then "qwen3-8b-thinking"
    else m

abbrev pub is_deep_think : Request → Bool
is_deep_think q = q.deepthink || str_eq (resolve_model q.model) "qwen3-8b-thinking"

abbrev pub named : String → List Tool → Option Tool
named n = find (λ t. str_eq t.name n)

module _ {J : Type 0} where
  abbrev pub pick : String → Args J → List Tool → Option (Tool × Args J)
  pick n args tools = elim (named n tools) [ none ↦ none | some t ↦ some (t, args) ]

  -- Step 3.2: the first intent that applies names the tool.
  pub by_intent : Intents J → ℕ → List Tool → Option (Tool × Args J)
  by_intent i prompt_length tools =
      if i.is_diagnostic
      then pick "system.run_diagnostic" diagnostic_args tools
      else if i.is_audit_staged
      then pick "audit.staged" dry_run_args tools
      else if i.is_registry
      then pick "registry.list_stacks" no_args tools
      else if i.is_healing
      then pick "healing.run_auto_heal" dry_run_args tools
      else if i.is_governance
      then pick "native.governance_status" no_args tools
      else if i.is_compact
      then pick "compaction.compact" session_args tools
      else if i.is_shell
      then pick "shell.exec" shell_args tools
      else if i.is_fs_list
      then pick "fs.list_dir" dir_args tools
      else if i.is_code_search
      then pick "zvec_grep.search" query_args tools
      else if not i.is_conversational && ltb 20 prompt_length
      then pick "zvec_grep.search" query_args tools
      else none

  abbrev pub or_no_args : Option J → Args J
  or_no_args none = no_args
  or_no_args (some j) = parsed j

  -- Step 3.1: a tool that the prompt names.
  pub by_name : (String → String) → Intents J → List Tool → Option (Tool × Args J)
  by_name lower i tools = elim i.explicit [
    | none ↦ none
    | some (n, j) ↦ elim (find (λ t. str_eq (lower t.name) n) tools) [
      | none ↦ none
      | some t ↦ some (t, or_no_args j)
    ]
  ]

  pub select_tool : (String → String) → Intents J → ℕ → List Tool → Option (Tool × Args J)
  unfolding by_name by_intent
  select_tool lower i prompt_length tools = elim (by_name lower i tools) [
    | some found ↦ some found
    | none ↦ by_intent i prompt_length tools
  ]

  abbrev pub chunk_effects : List Chunk → List (Effect J)
  chunk_effects [] = []
  chunk_effects (reasoning_chunk ∷ cs) = yields reasoning ∷ chunk_effects cs
  chunk_effects (text_chunk ∷ cs) = yields text ∷ chunk_effects cs
  chunk_effects (error_chunk ∷ cs) = chunk_effects cs

  abbrev pub opening : Bool → List (Effect J)
  opening deep =
      logs turn_start
      ∷ yields turn_start
      ∷ logs reasoning
      ∷ yields reasoning
      ∷ (if deep then logs reasoning ∷ yields reasoning ∷ [] else [])

  -- Effects, with the flag that the turn goes on after them.
  abbrev pub and_then : List (Effect J) → List (Effect J) × Bool → List (Effect J) × Bool
  and_then es (fs, goes_on) = (es ++ fs, goes_on)

  abbrev pub continue : List (Effect J) × Bool → List (Effect J) × Bool → List (Effect J) × Bool
  continue (es, true) next = and_then es next
  continue (es, false) next = (es, false)

module _ {J R : Type 0} where
  -- What comes of a call: the effects, and whether the turn goes on. The context is read after the
  -- result is shown.
  abbrev pub use_result : World J R → Executed R → List (Effect J) × Bool
  use_result w rejected = ([], false)
  use_result w error = (logs tool_result ∷ yields tool_result ∷ [], true)
  use_result w (success r) = (logs tool_result ∷ yields tool_result ∷ [], w.reads_context r)

  -- `requestApproval` resolves at once, and asks nobody.
  abbrev pub auto_approved : World J R → Request → Bool
  auto_approved w q = q.auto_approve_if_test || w.environment_approves

  pub use_tool : World J R → Request → Tool → Args J → List (Effect J) × Bool
  use_tool w q t args =
      let run = and_then (calls t.name args ∷ []) (use_result w (w.executes t.name args)) in
      let denied : List (Effect J) × Bool = (logs tool_result ∷ yields tool_result ∷ [], true) in
      let answered = and_then (asks t.name ∷ []) (if w.approves then run else denied) in
      and_then (yields tool_call ∷ logs tool_call ∷ []) (
        if t.is_exclusive
        then and_then (yields approval_prompt ∷ []) (if auto_approved w q then run else answered)
        else run)

  -- Step 5. The code that the model wrote is the argument of the call.
  pub verify : World J R → Bool → List Tool → List (Effect J) × Bool
  verify w deep tools =
      if w.has_code_fence || deep
      then elim (named "idris2_verifier.verify" tools) [
        | none ↦ ([], true)
        | some t ↦ and_then (calls t.name patch_args ∷ []) (elim (w.executes t.name patch_args) [
          | rejected ↦ ([], false)
          | _ ↦ (logs verification ∷ yields verification ∷ [], true)
        ])
      ]
      else ([], true)

  abbrev pub tool_phase : World J R → Request → List Tool → List (Effect J) × Bool
  tool_phase w q tools = elim (select_tool w.lower w.intents q.prompt_length tools) [
    | none ↦ ([], true)
    | some (t, args) ↦ use_tool w q t args
  ]

  abbrev pub answer_phase : World J R → Request → List (Effect J) × Bool
  answer_phase w q =
      (chunk_effects (w.stream (resolve_model q.model) (is_deep_think q)) ++ logs text ∷ [], true)

  pub run_turn : World J R → Request → List Tool → List (Effect J) × Bool
  unfolding use_tool verify
  run_turn w q tools =
      continue (opening (is_deep_think q), true)
        (continue (tool_phase w q tools) (
          continue (answer_phase w q) (
            continue (verify w (is_deep_think q) tools)
              (logs turn_end ∷ yields turn_end ∷ [], true))))

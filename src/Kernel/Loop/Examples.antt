-- ===== src/Kernel/Loop/Examples.antt =====
-- A turn that calls an exclusive tool, and one whose verifier rejects.
use personas_agentes.Common.{
  ℕ, String, ◌≡◌, refl, Bool, true, false, List, [], ◌∷◌, none, some, if◌then◌else◌, str_eq, All,
}
use personas_agentes.Kernel.Plugins.{Tool}
use personas_agentes.Kernel.Tools.{Executed, success, rejected}
use personas_agentes.Kernel.Loop.{
  Request, Intents, Args, World, text_chunk, reasoning_chunk, resolve_model, by_intent, select_tool,
  use_tool, verify, run_turn,
}
use personas_agentes.Kernel.Loop.Stages.{walk, idle}
use personas_agentes.Kernel.Loop.Protocol.{IsEnd, gate_of, run_turn-walk}
use personas_agentes.Kernel.Loop.Consent.{
  Allowed, asked, called, run_turn-Allowed, run_turn-verifier_unasked,
}

abbrev shell : Tool
shell = record { name = "shell.exec"; is_exclusive = true; code = 1 }

abbrev verifier : Tool
verifier = record { name = "idris2_verifier.verify"; is_exclusive = true; code = 2 }

abbrev tools : List Tool
tools = shell ∷ verifier ∷ []

-- The intents of a prompt that asks for the shell, or for nothing.
abbrev intents : Bool → Intents ℕ
intents s = record {
  explicit = none;
  is_diagnostic = false;
  is_audit_staged = false;
  is_registry = false;
  is_healing = false;
  is_governance = false;
  is_shell = s;
  is_fs_list = false;
  is_compact = false;
  is_code_search = false;
  is_conversational = false;
}

abbrev executes : String → Args ℕ → Executed ℕ
executes n a = if str_eq n "shell.exec" then success 0 else rejected

abbrev world : Bool → Bool → World ℕ ℕ
world s approves = record {
  intents = intents s;
  lower = (λ n. n);
  environment_approves = false;
  approves = approves;
  executes = executes;
  reads_context = (λ r. true);
  stream = (λ m d. reasoning_chunk ∷ text_chunk ∷ []);
  has_code_fence = true;
}

abbrev request : Request
request = record {
  prompt_length = 4;
  model = some "qwen3-8b-thinking";
  deepthink = false;
  auto_approve_if_test = false;
}

run_turn-walk_example :
    IsEnd
      (walk
        (gate_of (world true true) request tools)
        (some idle)
        (run_turn (world true true) request tools).0)
      false
unfolding run_turn select_tool
run_turn-walk_example = run_turn-walk (world true true) request tools

run_turn-Allowed_example :
    All (Allowed (world true false) request tools) (run_turn (world true false) request tools).0
run_turn-Allowed_example = run_turn-Allowed (world true false) request tools

-- The shell is called with the operator's approval and not without it.
approved_calls : called "shell.exec" (run_turn (world true true) request tools).0 ≡ true
unfolding run_turn use_tool verify by_intent select_tool resolve_model
approved_calls = refl

denied_calls : called "shell.exec" (run_turn (world true false) request tools).0 ≡ false
unfolding run_turn use_tool verify by_intent select_tool resolve_model
denied_calls = refl

run_turn-verifier_unasked_example :
    (called "idris2_verifier.verify" (run_turn (world false false) request tools).0 ≡ true)
    × (asked (run_turn (world false false) request tools).0 ≡ false)
unfolding select_tool by_intent
run_turn-verifier_unasked_example =
    run_turn-verifier_unasked (world false false) request tools verifier refl refl refl

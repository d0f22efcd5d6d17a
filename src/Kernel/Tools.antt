-- ===== src/Kernel/Tools.antt =====
-- src_local/psa/tools/psa_tool_service.ts: `executeTool`, with its hooks.
-- `A` is the type of arguments, `R` of results and `W` of the world that code reads and changes. The
-- code of a tool is `run_code`; `emit_pre` is what the listeners of "tools/pre-execute" do, whose
-- errors the bus catches. The latency is left out. What a tool or a hook throws is taken to be
-- neither null nor undefined: the `catch` reads its message.
pub mod Gate
mod Examples
use personas_agentes.Common.{
  ℕ, String, Bool, true, false, List, [], ◌∷◌, none, some, get, string_eq,
}
use personas_agentes.Kernel.Plugins.{Tool, Registry}
use personas_agentes.Kernel.Waterfall.{Outcome, resolved, thrown, Hook, run_waterfall}

-- The promise of `executeTool`: a value with a status, or a rejection.
pub data Executed (R : Type 0) : Type 0 where
  success : R → Executed R
  error : Executed R
  rejected : Executed R

pub record Hooks (A R W : Type 0) : Type 1 where
  pub pre : List (Hook (String × A) W Bool)
  pub post : List (Hook (String × A × R) W R)

abbrev pub conclude : {R W : Type 0} → Outcome R × W → Executed R × W
conclude (resolved r, w) = (success r, w)
conclude (thrown, w) = (error, w)

module _ {A R W : Type 0} (run_code : ℕ → A → W → Outcome R × W) (emit_pre : String → A → W → W)
    (hooks : Hooks A R W) where
  -- Whether the hooks let the call pass; `thrown` if they throw.
  pub pass_gate : String → A → W → Outcome Bool × W
  pass_gate name args w = elim hooks.pre [
    | [] ↦ (resolved true, w)
    | h ∷ hs ↦ run_waterfall hooks.pre (λ p v. (resolved true, v)) (name, args) w
  ]

  pub post_process : String → A → R → W → Outcome R × W
  post_process name args r w = elim hooks.post [
    | [] ↦ (resolved r, w)
    | h ∷ hs ↦ run_waterfall hooks.post (λ p v. (resolved r, v)) (name, args, r) w
  ]

  -- The rest of the `try` block after the tool's code, and the `catch`.
  pub after_run : Tool → A → Outcome R × W → Executed R × W
  unfolding post_process
  after_run t args (resolved r, w) = conclude (post_process t.name args r w)
  after_run t args (thrown, w) = (error, w)

  pub after_gate : Tool → A → Outcome Bool × W → Executed R × W
  after_gate t args (resolved true, w) = after_run t args (run_code t.code args w)
  after_gate t args (resolved false, w) = (rejected, w)
  after_gate t args (thrown, w) = (rejected, w)

  pub execute_tool : Registry → String → A → W → Executed R × W
  execute_tool tools name args w = elim (get name tools) [
    | none ↦ (rejected, w)
    | some t ↦ after_gate t args (pass_gate name args (emit_pre name args w))
  ]

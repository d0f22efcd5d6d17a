-- ===== src/Kernel/Tools/Gate.antt =====
-- When a tool runs, and when `executeTool` is rejected.
use personas_agentes.Common.{
  ℕ, String, ◌≡◌, ◌≢◌, refl, ◌↔◌, Bool, true, false, some, get, string_eq,
}
use personas_agentes.Kernel.Plugins.{Tool, Registry}
use personas_agentes.Kernel.Waterfall.{Outcome, resolved, thrown}
use personas_agentes.Kernel.Tools.{
  rejected, Hooks, pass_gate, post_process, after_run, conclude, after_gate, execute_tool,
}

conclude-ne-rejected : {R W : Type 0} (o : Outcome R × W) → (conclude o).0 ≢ rejected
conclude-ne-rejected (resolved r, w) e = cc
conclude-ne-rejected (thrown, w) e = cc

module _ {A R W : Type 0} (run_code : ℕ → A → W → Outcome R × W) (emit_pre : String → A → W → W)
    (hooks : Hooks A R W) where
  -- The hooks' answer to the call.
  abbrev pub answer : String → A → W → Outcome Bool × W
  answer name args w = pass_gate run_code emit_pre hooks name args (emit_pre name args w)

  after_run-ne-rejected :
      (t : Tool) (args : A) (o : Outcome R × W)
      → (after_run run_code emit_pre hooks t args o).0 ≢ rejected
  unfolding after_run
  after_run-ne-rejected t args (resolved r, w) e =
      conclude-ne-rejected (post_process run_code emit_pre hooks t.name args r w) e
  after_run-ne-rejected t args (thrown, w) e = cc

  after_gate-rejected :
      (t : Tool) (args : A) (o : Outcome Bool × W)
      → (((after_gate run_code emit_pre hooks t args o).0 ≡ rejected) ↔ (o.0 ≢ resolved true))
        × ((after_gate run_code emit_pre hooks t args o).0 ≡ rejected
            → (after_gate run_code emit_pre hooks t args o).1 ≡ o.1)
  unfolding after_gate
  after_gate-rejected t args (resolved true, w) =
      let no_way = after_run-ne-rejected t args (run_code t.code args w) in
      ((λ e. absurd (no_way e), λ n. absurd (n refl)), λ e. absurd (no_way e))
  after_gate-rejected t args (resolved false, w) = ((λ e f. cc, λ n. refl), λ e. refl)
  after_gate-rejected t args (thrown, w) = ((λ e f. cc, λ n. refl), λ e. refl)

  -- The promise of a call of a registered tool is rejected exactly if the hooks do not resolve with
  -- `true`, and then the world is as the hooks left it: the tool's code has not run. Whatever the
  -- tool's code and the later hooks throw comes back as a status instead.
  pub execute_tool-rejected :
      (tools : Registry) (name : String) (args : A) (w : W) (t : Tool)
      → get name tools ≡ some t
      → (((execute_tool run_code emit_pre hooks tools name args w).0 ≡ rejected)
          ↔ ((answer name args w).0 ≢ resolved true))
        × ((execute_tool run_code emit_pre hooks tools name args w).0 ≡ rejected
            → (execute_tool run_code emit_pre hooks tools name args w).1 ≡ (answer name args w).1)
  unfolding execute_tool
  execute_tool-rejected tools name args w t e =
      rw (e, execute_tool) (after_gate-rejected t args (answer name args w))

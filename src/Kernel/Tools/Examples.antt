-- ===== src/Kernel/Tools/Examples.antt =====
-- A tool behind a hook that refuses it, and behind one that lets it pass.
use personas_agentes.Common.{ℕ, ◌+◌, ◌≡◌, refl, Bool, true, false, [], ◌∷◌, string_eq}
use personas_agentes.Kernel.Plugins.{Registry}
use personas_agentes.Kernel.Waterfall.{
  Outcome, resolved, resolves, run_waterfall, dispatch, run_program,
}
use personas_agentes.Kernel.Tools.{
  success, Hooks, pass_gate, post_process, after_run, after_gate, execute_tool,
}
use personas_agentes.Kernel.Tools.Gate.{execute_tool-rejected}

abbrev tools : Registry
tools = ("t", record { name = "t"; is_exclusive = false; code = 3 }) ∷ []

-- The world counts the calls of the tool's code.
abbrev counting : ℕ → ℕ → ℕ → Outcome ℕ × ℕ
counting code args w = (resolved (code + args), w + 1)

abbrev answering : Bool → Hooks ℕ ℕ ℕ
answering b = record { pre = (λ p w. resolves b w) ∷ []; post = [] }

passes : execute_tool counting (λ n a w. w) (answering true) tools "t" 4 0 ≡ (success 7, 1)
unfolding execute_tool pass_gate after_gate after_run post_process run_waterfall dispatch
    run_program
passes = refl

execute_tool-rejected_example :
    (execute_tool counting (λ n a w. w) (answering false) tools "t" 4 0).1 ≡ 0
unfolding execute_tool pass_gate after_gate after_run post_process run_waterfall dispatch
    run_program
execute_tool-rejected_example =
    (execute_tool-rejected counting (λ n a w. w) (answering false) tools "t" 4 0 _ refl).1 refl

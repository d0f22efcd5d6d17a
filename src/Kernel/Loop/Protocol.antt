-- ===== src/Kernel/Loop/Protocol.antt =====
-- The order of a turn's effects.
use personas_agentes.Common.{
  ◌≡◌, refl, ap, ◌∙◌, ◌⊎◌, inl, inr, Bool, true, false, List, [], ◌∷◌, Option, none, some, arith,
  Option-cases,
}
use personas_agentes.Kernel.Plugins.{Tool}
use personas_agentes.Kernel.Sessions.{turn_end}
use personas_agentes.Kernel.Loop.{
  Request, World, Args, Effect, logs, yields, opening, is_deep_think, select_tool, auto_approved,
  use_tool, resolve_model, verify, tool_phase, answer_phase, continue, run_turn,
}
use personas_agentes.Kernel.Loop.Stages.{
  Stage, idle, ready, running, result_shown, answered, verifying, verified, ended, Gate, walk,
  walk-answer_ready, walk-answer_shown, walk-continue,
}

-- The stages at which a turn can break off: a tool or the verifier was called, or the context is read
-- from a result.
abbrev pub IsEnd : Option Stage → Bool → Type 0
IsEnd s true = s ≡ some ended
IsEnd s false = (s ≡ some running) ⊎ ((s ≡ some result_shown) ⊎ (s ≡ some verifying))

opened-walk :
    {J : Type 0} (gate : Gate) (deep : Bool) (next : List (Effect J) × Bool)
    → IsEnd (walk gate (some ready) next.0) next.1
    → IsEnd
        (walk gate (some idle) (continue (opening deep, true) next).0)
        (continue (opening deep, true) next).1
opened-walk gate true next h = h
opened-walk gate false next h = h

-- The gate of a turn, by the tool that the prompt selects, if it selects one.
abbrev pub gate_of : {J R : Type 0} → World J R → Request → List Tool → Gate
gate_of w q tools = record {
  selects = elim (select_tool w.lower w.intents q.prompt_length tools) [
    | none ↦ false
    | some found ↦ true
  ];
  exclusive = elim (select_tool w.lower w.intents q.prompt_length tools) [
    | none ↦ false
    | some (t, args) ↦ t.is_exclusive
  ];
  auto = auto_approved w q;
  approved = w.approves;
}

module _ {J R : Type 0} (w : World J R) (gate : Gate) where
  -- Where the effects of a tool's phase lead.
  abbrev Phase : List (Effect J) × Bool → Type 0
  Phase a =
      ((a.1 ≡ true)
        × (((walk gate (some ready) a.0 ≡ some ready) × (gate.selects ≡ false))
            ⊎ (walk gate (some ready) a.0 ≡ some result_shown)))
      ⊎ ((a.1 ≡ false)
          × ((walk gate (some ready) a.0 ≡ some running)
              ⊎ (walk gate (some ready) a.0 ≡ some result_shown)))

  use_tool-Phase :
      (q : Request) (t : Tool) (args : Args J)
      → gate ≡ record {
        selects = true;
        exclusive = t.is_exclusive;
        auto = auto_approved w q;
        approved = w.approves;
      }
      → Phase (use_tool w q t args)
  unfolding use_tool
  use_tool-Phase q t args h = rw h (ground arith)

  verify-walk :
      (deep : Bool) (tools : List Tool)
      → (((verify w deep tools).1 ≡ true)
          × ((walk gate (some answered) (verify w deep tools).0 ≡ some answered)
              ⊎ (walk gate (some answered) (verify w deep tools).0 ≡ some verified)))
        ⊎ (((verify w deep tools).1 ≡ false)
            × (walk gate (some answered) (verify w deep tools).0 ≡ some verifying))
  unfolding verify
  verify-walk deep tools = ground arith

  -- After the tool's phase the turn can answer, or it breaks off at the call.
  tool_phase-Phase :
      (q : Request) (tools : List Tool) → gate ≡ gate_of w q tools → Phase (tool_phase w q tools)
  tool_phase-Phase q tools h =
      elim (Option-cases (select_tool w.lower w.intents q.prompt_length tools)) [
        | inl e ↦
            rw (e, tool_phase)
              (inl (refl, inl (refl, ap (λ g. g.selects) h ∙ rw (gate_of, e) refl)))
        | inr ((t, args), e) ↦ rw (e, tool_phase) (use_tool-Phase q t args (h ∙ rw e refl))
      ]

  -- The last three phases, from a stage at which the turn can answer.
  abbrev closing : (deep : Bool) (tools : List Tool) → List (Effect J) × Bool
  closing deep tools = continue (verify w deep tools) (logs turn_end ∷ yields turn_end ∷ [], true)

  closing-walk :
      (deep : Bool) (tools : List Tool)
      → IsEnd (walk gate (some answered) (closing deep tools).0) (closing deep tools).1
  closing-walk deep tools =
      let c =
        walk-continue gate (some answered) (verify w deep tools)
          (logs turn_end ∷ yields turn_end ∷ [], true) in
      elim (verify-walk deep tools) [
        | inl (on, inl e) ↦ rw (c.0, c.1, on, e) refl
        | inl (on, inr e) ↦ rw (c.0, c.1, on, e) refl
        | inr (off, e) ↦ rw (c.0, c.1, off, e) (inr (inr refl))
      ]

  answer-walk :
      (q : Request) (s : Stage)
      → ((s ≡ ready) × (gate.selects ≡ false)) ⊎ (s ≡ result_shown)
      → walk gate (some s) (answer_phase w q).0 ≡ some answered
  answer-walk q s (inl (e, quiet)) =
      rw e (walk-answer_ready J gate (w.stream (resolve_model q.model) (is_deep_think q)) quiet)
  answer-walk q s (inr e) =
      rw e (walk-answer_shown J gate (w.stream (resolve_model q.model) (is_deep_think q)))

  abbrev rest : Request → List Tool → List (Effect J) × Bool
  rest q tools = continue (answer_phase w q) (closing (is_deep_think q) tools)

  rest-walk :
      (q : Request) (tools : List Tool) (s : Stage)
      → ((s ≡ ready) × (gate.selects ≡ false)) ⊎ (s ≡ result_shown)
      → IsEnd (walk gate (some s) (rest q tools).0) (rest q tools).1
  rest-walk q tools s h =
      let c = walk-continue gate (some s) (answer_phase w q) (closing (is_deep_think q) tools) in
      rw (c.0, c.1, answer-walk q s h) (closing-walk (is_deep_think q) tools)

module _ {J R : Type 0} (w : World J R) where
  -- Where the log can be written, the effects of a turn are in order from its start, whatever the
  -- model, the operator and the tools answer. A tool is announced exactly if the prompt selects one; it
  -- is called without a prompt for approval exactly if it is not exclusive; an exclusive one is called
  -- right after the prompt if the request or the environment approves it, and if neither does, the
  -- operator is asked, and it is called if the operator approves and has its result logged without a
  -- call if not. A turn that completes ends with `turn_end` logged and yielded, and one that throws has
  -- broken off at the call of a tool or of the verifier, before its result is logged, or right after
  -- the result of a tool was logged and yielded, where the context is read from it.
  pub run_turn-walk :
      (q : Request) (tools : List Tool)
      → IsEnd (walk (gate_of w q tools) (some idle) (run_turn w q tools).0) (run_turn w q tools).1
  unfolding run_turn
  run_turn-walk q tools =
      let gate = gate_of w q tools in
      let c = walk-continue gate (some ready) (tool_phase w q tools) (rest w gate q tools) in
      opened-walk gate (is_deep_think q) (continue (tool_phase w q tools) (rest w gate q tools))
        (elim (tool_phase-Phase w gate q tools refl) [
          | inl (on, inl (e, quiet)) ↦
              rw (c.0, c.1, on, e) (rest-walk w gate q tools ready (inl (refl, quiet)))
          | inl (on, inr e) ↦
              rw (c.0, c.1, on, e) (rest-walk w gate q tools result_shown (inr refl))
          | inr (off, inl e) ↦ rw (c.0, c.1, off, e) (inl refl)
          | inr (off, inr e) ↦ rw (c.0, c.1, off, e) (inr (inl refl))
        ])

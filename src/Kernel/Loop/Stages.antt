-- ===== src/Kernel/Loop/Stages.antt =====
-- The stages of a turn, as a machine that reads its effects.
use personas_agentes.Common.{
  ◌≡◌, refl, ap, ◌∙◌, Bool, true, false, List, [], ◌∷◌, ◌++◌, Option, none, some, if◌then◌else◌,
}
use personas_agentes.Kernel.Sessions.{
  turn_start, reasoning, tool_call, tool_result, verification, approval_prompt, text, turn_end,
}
use personas_agentes.Kernel.Loop.{
  Chunk, reasoning_chunk, text_chunk, error_chunk, Effect, logs, yields, asks, calls, chunk_effects,
  continue,
}

pub data Stage : Type 0 where
  idle start_logged started reason_logged ready : Stage
  announced call_logged prompted asked running result_logged result_shown : Stage
  answering answered verifying verdict_logged verified end_logged ended : Stage

-- What decides on the call of a tool: whether one is selected, whether it is exclusive, whether calls
-- are approved without a question, and the answer to a question.
pub record Gate : Type 0 where
  pub selects : Bool
  pub exclusive : Bool
  pub auto : Bool
  pub approved : Bool

-- The stage after an effect; `none` where the effect is out of place. A tool that is selected is
-- announced. One that is not exclusive is called once the call is logged, an exclusive one after the
-- prompt: right after it, or after a question that is answered with yes, as the gate says; if the
-- answer is no, the result is logged without a call.
abbrev pub advance : {J : Type 0} → (gate : Gate) → Stage → Effect J → Option Stage
advance gate idle (logs turn_start) = some start_logged
advance gate start_logged (yields turn_start) = some started
advance gate started (logs reasoning) = some reason_logged
advance gate reason_logged (yields reasoning) = some ready
advance gate ready (logs reasoning) = some reason_logged
advance gate ready (yields tool_call) = if gate.selects then some announced else none
advance gate ready (yields reasoning) = if gate.selects then none else some answering
advance gate ready (yields text) = if gate.selects then none else some answering
advance gate ready (logs text) = if gate.selects then none else some answered
advance gate announced (logs tool_call) = some call_logged
advance gate call_logged (yields approval_prompt) = if gate.exclusive then some prompted else none
advance gate call_logged (calls n a) = if gate.exclusive then none else some running
advance gate prompted (asks n) = if gate.auto then none else some asked
advance gate prompted (calls n a) = if gate.auto then some running else none
advance gate asked (calls n a) = if gate.approved then some running else none
advance gate asked (logs tool_result) = if gate.approved then none else some result_logged
advance gate running (logs tool_result) = some result_logged
advance gate result_logged (yields tool_result) = some result_shown
advance gate result_shown (yields reasoning) = some answering
advance gate result_shown (yields text) = some answering
advance gate result_shown (logs text) = some answered
advance gate answering (yields reasoning) = some answering
advance gate answering (yields text) = some answering
advance gate answering (logs text) = some answered
advance gate answered (calls n a) = some verifying
advance gate answered (logs turn_end) = some end_logged
advance gate verifying (logs verification) = some verdict_logged
advance gate verdict_logged (yields verification) = some verified
advance gate verified (logs turn_end) = some end_logged
advance gate end_logged (yields turn_end) = some ended
advance gate _ _ = none

abbrev pub walk : {J : Type 0} → (gate : Gate) → Option Stage → List (Effect J) → Option Stage
walk gate none es = none
walk gate (some s) [] = some s
walk gate (some s) (e ∷ es) = walk gate (advance gate s e) es

walk-answer :
    (J : Type 0) (gate : Gate) (cs : List Chunk)
    → walk gate (some answering) (chunk_effects {J = J} cs ++ logs text ∷ []) ≡ some answered
walk-answer J gate [] = refl
walk-answer J gate (reasoning_chunk ∷ cs) = walk-answer J gate cs
walk-answer J gate (text_chunk ∷ cs) = walk-answer J gate cs
walk-answer J gate (error_chunk ∷ cs) = walk-answer J gate cs

pub walk-answer_ready :
    (J : Type 0) (gate : Gate) (cs : List Chunk)
    → gate.selects ≡ false
    → walk gate (some ready) (chunk_effects {J = J} cs ++ logs text ∷ []) ≡ some answered
walk-answer_ready J gate [] h = rw h refl
walk-answer_ready J gate (reasoning_chunk ∷ cs) h =
    ap
      (λ b.
        walk gate (if b then none else some answering) (chunk_effects {J = J} cs ++ logs text ∷ []))
      h
    ∙ walk-answer J gate cs
walk-answer_ready J gate (text_chunk ∷ cs) h =
    ap
      (λ b.
        walk gate (if b then none else some answering) (chunk_effects {J = J} cs ++ logs text ∷ []))
      h
    ∙ walk-answer J gate cs
walk-answer_ready J gate (error_chunk ∷ cs) h = walk-answer_ready J gate cs h

pub walk-answer_shown :
    (J : Type 0) (gate : Gate) (cs : List Chunk)
    → walk gate (some result_shown) (chunk_effects {J = J} cs ++ logs text ∷ []) ≡ some answered
walk-answer_shown J gate [] = refl
walk-answer_shown J gate (reasoning_chunk ∷ cs) = walk-answer J gate cs
walk-answer_shown J gate (text_chunk ∷ cs) = walk-answer J gate cs
walk-answer_shown J gate (error_chunk ∷ cs) = walk-answer_shown J gate cs

module _ {J : Type 0} where
  walk-append :
      (gate : Gate) (s : Option Stage) (es fs : List (Effect J))
      → walk gate s (es ++ fs) ≡ walk gate (walk gate s es) fs
  walk-append gate none es fs = refl
  walk-append gate (some s) [] fs = refl
  walk-append gate (some s) (e ∷ es) fs = walk-append gate (advance gate s e) es fs

  pub walk-continue :
      (gate : Gate) (s : Option Stage) (a next : List (Effect J) × Bool)
      → (walk gate s (continue a next).0
          ≡ (if a.1 then walk gate (walk gate s a.0) next.0 else walk gate s a.0))
        × ((continue a next).1 ≡ (if a.1 then next.1 else false))
  walk-continue gate s (es, true) (fs, b) = (walk-append gate s es fs, refl)
  walk-continue gate s (es, false) next = (refl, refl)

-- ===== src/Kernel/Loop/Consent.antt =====
-- Which tools a turn calls without the operator's approval.
use personas_agentes.Common.{
  String, ◌≡◌, refl, ◌⊎◌, inl, inr, Bool, true, false, ◌||◌, List, [], ◌∷◌, ◌++◌, none, some, arith,
  All, All-append, Option-cases, Bool-cases, str_eq, eq_iff,
}
use personas_agentes.Kernel.Plugins.{Tool}
use personas_agentes.Kernel.Sessions.{text, turn_end}
use personas_agentes.Kernel.Loop.{
  Request, World, Args, Chunk, reasoning_chunk, text_chunk, error_chunk, Effect, logs, yields, asks,
  calls, chunk_effects, opening, is_deep_think, select_tool, named, auto_approved, use_tool, verify,
  tool_phase, continue, resolve_model, answer_phase, run_turn,
}

-- A call in the trace is of the tool selected, which is not exclusive or is approved, without a
-- question or by the operator, or of the verifier.
abbrev pub Allowed : {J R : Type 0} → World J R → Request → List Tool → Effect J → Type 0
Allowed w q tools (calls n a) =
    ((t : Tool) × (select_tool w.lower w.intents q.prompt_length tools ≡ some (t, a))
      × (t.name ≡ n)
      × ((t.is_exclusive ≡ false)
          ⊎ ((auto_approved w q ≡ true) ⊎ ((auto_approved w q ≡ false) × (w.approves ≡ true)))))
    ⊎ (n ≡ "idris2_verifier.verify")
Allowed w q tools _ = Unit

named-name : (n : String) (ts : List Tool) (t : Tool) → named n ts ≡ some t → t.name ≡ n
named-name n [] t h = ground arith
named-name n (x ∷ ts) t h = elim (Bool-cases (str_eq x.name n)) [
  | inl e ↦ ground (arith, eq_iff x.name n)
  | inr e ↦ ground (arith, named-name n ts t)
]

module _ {J R : Type 0} (w : World J R) (q : Request) (tools : List Tool) where
  All-continue :
      (a b : List (Effect J) × Bool)
      → All (Allowed w q tools) a.0
      → All (Allowed w q tools) b.0
      → All (Allowed w q tools) (continue a b).0
  All-continue (es, true) b h k = All-append (Allowed w q tools) es b.0 h k
  All-continue (es, false) b h k = h

  chunks-Allowed : (cs : List Chunk) → All (Allowed w q tools) (chunk_effects cs ++ logs text ∷ [])
  chunks-Allowed [] = (tt, tt)
  chunks-Allowed (reasoning_chunk ∷ cs) = (tt, chunks-Allowed cs)
  chunks-Allowed (text_chunk ∷ cs) = (tt, chunks-Allowed cs)
  chunks-Allowed (error_chunk ∷ cs) = chunks-Allowed cs

  opening-Allowed : (deep : Bool) → All (Allowed w q tools) (opening deep)
  opening-Allowed true = (tt, (tt, (tt, (tt, (tt, (tt, tt))))))
  opening-Allowed false = (tt, (tt, (tt, (tt, tt))))

  use_tool-Allowed :
      (t : Tool) (args : Args J)
      → select_tool w.lower w.intents q.prompt_length tools ≡ some (t, args)
      → All (Allowed w q tools) (use_tool w q t args).0
  unfolding use_tool
  use_tool-Allowed t args e = ground arith

  tool_phase-Allowed : All (Allowed w q tools) (tool_phase w q tools).0
  tool_phase-Allowed = elim (Option-cases (select_tool w.lower w.intents q.prompt_length tools)) [
    | inl e ↦ rw (e, tool_phase) tt
    | inr ((t, args), e) ↦ rw (e, tool_phase) (use_tool-Allowed t args e)
  ]

  verify-Allowed : (deep : Bool) → All (Allowed w q tools) (verify w deep tools).0
  unfolding verify
  verify-Allowed deep = elim (Option-cases (named "idris2_verifier.verify" tools)) [
    | inl e ↦ ground arith
    | inr (t, e) ↦ ground (arith, named-name "idris2_verifier.verify" tools t e)
  ]

  -- Whatever a turn calls is the tool that the prompt selects, with the arguments selected, and that
  -- tool is not exclusive, or the request or the environment approves it without a question, or,
  -- where neither does, the operator approves; or it is the verifier.
  pub run_turn-Allowed : All (Allowed w q tools) (run_turn w q tools).0
  unfolding run_turn
  run_turn-Allowed =
      All-continue (opening (is_deep_think q), true)
        (continue (tool_phase w q tools) (
          continue (answer_phase w q) (
            continue (verify w (is_deep_think q) tools)
              (logs turn_end ∷ yields turn_end ∷ [], true))))
        (opening-Allowed (is_deep_think q))
        (All-continue (tool_phase w q tools)
          (continue (answer_phase w q) (
            continue (verify w (is_deep_think q) tools)
              (logs turn_end ∷ yields turn_end ∷ [], true)))
          tool_phase-Allowed
          (All-continue (answer_phase w q)
            (continue (verify w (is_deep_think q) tools)
              (logs turn_end ∷ yields turn_end ∷ [], true))
            (chunks-Allowed (w.stream (resolve_model q.model) (is_deep_think q)))
            (All-continue (verify w (is_deep_think q) tools)
              (logs turn_end ∷ yields turn_end ∷ [], true) (verify-Allowed (is_deep_think q))
              (tt, (tt, tt)))))

-- The questions to the operator and the calls of a tool, found in a trace.
abbrev pub asked : {J : Type 0} → List (Effect J) → Bool
asked [] = false
asked (asks n ∷ es) = true
asked (_ ∷ es) = asked es

abbrev pub called : {J : Type 0} → String → List (Effect J) → Bool
called m [] = false
called m (calls n a ∷ es) = str_eq n m || called m es
called m (_ ∷ es) = called m es

asked-opening : (J : Type 0) (deep : Bool) → asked (opening {J = J} deep) ≡ false
asked-opening J true = refl
asked-opening J false = refl

asked-chunks : (J : Type 0) (cs : List Chunk) → asked (chunk_effects {J = J} cs) ≡ false
asked-chunks J [] = refl
asked-chunks J (reasoning_chunk ∷ cs) = asked-chunks J cs
asked-chunks J (text_chunk ∷ cs) = asked-chunks J cs
asked-chunks J (error_chunk ∷ cs) = asked-chunks J cs

module _ {J : Type 0} where
  asked-append : (es fs : List (Effect J)) → asked (es ++ fs) ≡ asked es || asked fs
  asked-append [] fs = refl
  asked-append (logs k ∷ es) fs = asked-append es fs
  asked-append (yields k ∷ es) fs = asked-append es fs
  asked-append (asks n ∷ es) fs = refl
  asked-append (calls n a ∷ es) fs = asked-append es fs

  called-append :
      (m : String) (es fs : List (Effect J)) → called m (es ++ fs) ≡ called m es || called m fs
  called-append m [] fs = refl
  called-append m (logs k ∷ es) fs = called-append m es fs
  called-append m (yields k ∷ es) fs = called-append m es fs
  called-append m (asks n ∷ es) fs = called-append m es fs
  called-append m (calls n a ∷ es) fs = ground (arith, called-append m es fs)

  -- A call is not lost to the phases after it, and one of theirs not to the phase before it.
  called-continue :
      (m : String) (a next : List (Effect J) × Bool)
      → called m a.0 ≡ true
      → called m (continue a next).0 ≡ true
  called-continue m (es, true) next h = rw (called-append m es next.0, h) refl
  called-continue m (es, false) next h = h

  called-after :
      (m : String) (es : List (Effect J)) (next : List (Effect J) × Bool)
      → called m next.0 ≡ true
      → called m (continue (es, true) next).0 ≡ true
  called-after m es next h = ground (arith, called-append m es next.0)

  asked-continue :
      (a next : List (Effect J) × Bool)
      → asked a.0 ≡ false
      → asked next.0 ≡ false
      → asked (continue a next).0 ≡ false
  asked-continue (es, true) next h k = rw (asked-append es next.0, h, k) refl
  asked-continue (es, false) next h k = h

module _ {J R : Type 0} (w : World J R) (q : Request) (tools : List Tool) where
  verify-called :
      (deep : Bool) (t : Tool)
      → named "idris2_verifier.verify" tools ≡ some t
      → w.has_code_fence || deep ≡ true
      → (called "idris2_verifier.verify" (verify w deep tools).0 ≡ true)
        × (asked (verify w deep tools).0 ≡ false)
  unfolding verify
  verify-called deep t e f =
      let same = named-name "idris2_verifier.verify" tools t e in
      rw (e, f) (ground (arith, (eq_iff t.name "idris2_verifier.verify").1 same))

  asked-answer : asked (answer_phase w q).0 ≡ false
  asked-answer =
      let cs = w.stream (resolve_model q.model) (is_deep_think q) in
      rw (asked-append (chunk_effects cs) (logs text ∷ []), asked-chunks J cs) refl

  -- Where the prompt selects no tool, a verifier is registered and the answer has a block of code or
  -- the turn thinks deeply, the turn calls the verifier and asks the operator nothing, whether or not
  -- the verifier is an exclusive tool and whatever the operator would answer.
  pub run_turn-verifier_unasked :
      (t : Tool)
      → named "idris2_verifier.verify" tools ≡ some t
      → w.has_code_fence || is_deep_think q ≡ true
      → select_tool w.lower w.intents q.prompt_length tools ≡ none
      → (called "idris2_verifier.verify" (run_turn w q tools).0 ≡ true)
        × (asked (run_turn w q tools).0 ≡ false)
  unfolding run_turn
  run_turn-verifier_unasked t e f s =
      let deep = is_deep_think q in
      let last : List (Effect J) × Bool = (logs turn_end ∷ yields turn_end ∷ [], true) in
      let closing = continue (verify w deep tools) last in
      let answer = continue (answer_phase w q) closing in
      let v = verify-called deep t e f in
      rw (s, tool_phase)
        (
          called-after "idris2_verifier.verify" (opening deep) answer (
              called-after "idris2_verifier.verify" (answer_phase w q).0 closing
                (called-continue "idris2_verifier.verify" (verify w deep tools) last v.0)),
          asked-continue (opening deep, true) answer (asked-opening J deep)
              (asked-continue (answer_phase w q) closing asked-answer
                (asked-continue (verify w deep tools) last v.1 refl)),
        )

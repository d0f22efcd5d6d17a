-- ===== src/Kernel/Waterfall/Chain.antt =====
-- The waterfall as a nest of functions, for hooks that call `next` at most once, and what a second
-- call does.
use personas_agentes.Common.{
  ℕ, zero, suc, ◌+◌, ◌≤◌, ◌≡◌, refl, ap, ◌∙◌, List, [], ◌∷◌, Option, get_elem?, length, arith, All,
}
use native.Mathlib.Nat.{add-zero}
use personas_agentes.Kernel.Waterfall.{
  Outcome, resolved, thrown, Program, resolves, throws, awaits_next, Hook, run_program, dispatch,
  run_waterfall,
}

-- A program that does not call `next`, and one that calls it at most once.
module _ {W R : Type 0} where
  abbrev pub NoCall : Program W R → Type 0
  NoCall (resolves r w) = Unit
  NoCall (throws w) = Unit
  NoCall (awaits_next w k) = ⊥

  abbrev pub AtMostOnce : Program W R → Type 0
  AtMostOnce (resolves r w) = Unit
  AtMostOnce (throws w) = Unit
  AtMostOnce (awaits_next w k) = (o : Outcome R) (w' : W) → NoCall (k o w')

  -- A hook's program where `next` is a plain function, called as often as the program says.
  unfoldable pub run_with : (W → Outcome R × W) → Program W R → Outcome R × W
  run_with next (resolves r w) = (resolved r, w)
  run_with next (throws w) = (thrown, w)
  run_with next (awaits_next w k) = let (o, w') = next w in run_with next (k o w')

-- The chain without a counter: each hook is given the rest of the chain.
unfoldable pub chain :
    {T W R : Type 0} → List (Hook T W R) → (T → W → Outcome R × W) → T → W → Outcome R × W
chain [] final payload w = final payload w
chain (hook ∷ hooks) final payload w = run_with (chain hooks final payload) (hook payload w)

abbrev outcome : {W R : Type 0} → Outcome R × W × ℕ → Outcome R × W
outcome t = (t.0, t.1)

run_program-NoCall :
    {W R : Type 0} (next : ℕ → W → Outcome R × W × ℕ) (next' : W → Outcome R × W) (g : Program W R)
    (i : ℕ)
    → NoCall g
    → outcome (run_program next g i) ≡ run_with next' g
unfolding run_program run_with
run_program-NoCall next next' (resolves r w) i h = refl
run_program-NoCall next next' (throws w) i h = refl
run_program-NoCall next next' (awaits_next w k) i h = absurd h

run_program-AtMostOnce :
    {W R : Type 0} (next : ℕ → W → Outcome R × W × ℕ) (next' : W → Outcome R × W) (g : Program W R)
    (i : ℕ)
    → AtMostOnce g
    → ((w : W) → outcome (next i w) ≡ next' w)
    → outcome (run_program next g i) ≡ run_with next' g
unfolding run_program run_with
run_program-AtMostOnce next next' (resolves r w) i h e = refl
run_program-AtMostOnce next next' (throws w) i h e = refl
run_program-AtMostOnce {R} next next' (awaits_next w k) i h e =
    run_program-NoCall next next' (k (next i w).0 (next i w).1) (next i w).2
      (h (next i w).0 (next i w).1)
    ∙ ap (λ (t : Outcome R × _). run_with next' (k t.0 t.1)) (e w)

module _ {A : Type 0} (l : List A) where
  at_head : (i : ℕ) (x : Option A) → get_elem? l (i + 0) ≡ x → get_elem? l i ≡ x
  at_head i x e = rw (add-zero i) at e

  at_next : (i j : ℕ) (x : Option A) → get_elem? l (i + suc j) ≡ x → get_elem? l (suc i + j) ≡ x
  at_next i j x e = let same : i + suc j ≡ suc i + j = omega arith in rw same at e

zero_add : (j : ℕ) → 0 + j ≡ j
zero_add j = omega arith

-- The counter at `i` stands for the hooks from the i-th on.
dispatch-chain :
    {T W R : Type 0} (hooks : List (Hook T W R)) (final : T → W → Outcome R × W) (payload : T)
    → (rest : List (Hook T W R)) (i fuel : ℕ) → ((w : W) → All (λ h. AtMostOnce (h payload w)) rest)
    → ((j : ℕ) → get_elem? hooks (i + j) ≡ get_elem? rest j)
    → length rest ≤ fuel
    → (w : W) → outcome (dispatch hooks final payload fuel i w) ≡ chain rest final payload w
unfolding dispatch chain
dispatch-chain hooks final payload [] i zero once at enough w = refl
dispatch-chain hooks final payload [] i (suc fuel) once at enough w =
    rw (at_head hooks i _ (at 0), dispatch) refl
dispatch-chain hooks final payload (h ∷ hs) i zero once at enough w = absurd (omega arith)
dispatch-chain hooks final payload (h ∷ hs) i (suc fuel) once at enough w =
    rw (at_head hooks i _ (at 0), dispatch)
      (run_program-AtMostOnce (dispatch hooks final payload fuel) (chain hs final payload)
        (h payload w) (suc i) (once w).0
        (λ w'.
          dispatch-chain hooks final payload hs (suc i) fuel (λ v. (once v).1)
            (λ j. at_next hooks i j _ (at (suc j))) (omega arith) w'))

-- If every hook calls `next` at most once on each of its runs, the waterfall is the nest of its
-- hooks, the first outermost, round the final handler, with the same outcome and the same effects.
pub run_waterfall-chain :
    {T W R : Type 0} (hooks : List (Hook T W R)) (final : T → W → Outcome R × W) (payload : T)
    → ((w : W) → All (λ h. AtMostOnce (h payload w)) hooks)
    → (w : W) → run_waterfall hooks final payload w ≡ chain hooks final payload w
unfolding run_waterfall
run_waterfall-chain hooks final payload once w =
    dispatch-chain hooks final payload hooks 0 (length hooks) once
      (λ j. ap (get_elem? hooks) (zero_add j)) (omega arith) w

-- To hand an outcome on.
abbrev pub pass_on : {W R : Type 0} → Outcome R → W → Program W R
pass_on (resolved r) w = resolves r w
pass_on thrown w = throws w

run_program-pass_on :
    {W R : Type 0} (next : ℕ → W → Outcome R × W × ℕ) (o : Outcome R) (w : W) (i : ℕ)
    → run_program next (pass_on o w) i ≡ (o, w, i)
unfolding run_program
run_program-pass_on next (resolved r) w i = refl
run_program-pass_on next thrown w i = refl

-- A hook that awaits `next()`, and awaits it once more if that was rejected.
abbrev pub again_if : {W R : Type 0} → Outcome R → W → Program W R
again_if (resolved r) w = resolves r w
again_if thrown w = awaits_next w pass_on

abbrev pub retry : {T W R : Type 0} → Hook T W R
retry payload w = awaits_next w again_if

-- Before a hook that always throws, the retry runs the final handler all the same: the first call
-- of `next` has used the throwing hook up.
pub retry_bypasses :
    {T W R : Type 0} (gate : W → W) (final : T → W → Outcome R × W) (payload : T) (w : W)
    → run_waterfall (retry ∷ (λ p v. throws (gate v)) ∷ []) final payload w ≡ final payload (gate w)
unfolding run_waterfall dispatch run_program
retry_bypasses gate final payload w =
    ap outcome (run_program-pass_on _ (final payload (gate w)).0 (final payload (gate w)).1 2)

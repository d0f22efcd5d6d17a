-- ===== src/Kernel/Waterfall.antt =====
-- src_local/psa/kernel/psa_events.ts: `runWaterfall`, the chain of hooks round an operation.
-- A hook is a program over a world `W`, which stands for all that it reads and changes: it resolves,
-- throws, or awaits `next()` and goes on with the outcome. `T` is the payload and `R` the result; the
-- chain hands the payload on as it is. All calls of `next` share the counter `index`.
pub mod Chain
mod Examples
use personas_agentes.Common.{ℕ, zero, suc, List, [], ◌∷◌, Option, none, some, get_elem?, length}

pub data Outcome (R : Type 0) : Type 0 where
  resolved : R → Outcome R
  thrown : Outcome R

pub data Program (W R : Type 0) : Type 0 where
  resolves : R → W → Program W R
  throws : W → Program W R
  awaits_next : W → (Outcome R → W → Program W R) → Program W R

abbrev pub Hook : Type 0 → Type 0 → Type 0 → Type 0
Hook T W R = T → W → Program W R

module _ {W R : Type 0} where
  -- A hook's program, where `next` starts from the counter's present value.
  unfoldable pub run_program : (ℕ → W → Outcome R × W × ℕ) → Program W R → ℕ → Outcome R × W × ℕ
  run_program next (resolves r w) i = (resolved r, w, i)
  run_program next (throws w) i = (thrown, w, i)
  run_program next (awaits_next w k) i = let (o, w', i') = next i w in run_program next (k o w') i'

module _ {T W R : Type 0} (hooks : List (Hook T W R)) (final : T → W → Outcome R × W)
    (payload : T) where
  abbrev finish : ℕ → W → Outcome R × W × ℕ
  finish i w = let (o, w') = final payload w in (o, w', i)

  -- `dispatch` with the counter at `i`. Each nested call has a larger counter, so the number of
  -- hooks is fuel enough; without fuel the hooks are used up.
  unfoldable pub dispatch : ℕ → ℕ → W → Outcome R × W × ℕ
  unfolding run_program
  dispatch zero i w = finish i w
  dispatch (suc fuel) i w = elim (get_elem? hooks i) [
    | none ↦ finish i w
    | some hook ↦ run_program (dispatch fuel) (hook payload w) (suc i)
  ]

  unfoldable pub run_waterfall : W → Outcome R × W
  run_waterfall w = let (o, w', i) = dispatch (length hooks) 0 w in (o, w')

-- ===== src/Kernel/Waterfall/Examples.antt =====
-- Two hooks that note when they run, and a hook that refuses.
use personas_agentes.Common.{ℕ, ◌+◌, ◌≡◌, refl, List, [], ◌∷◌}
use personas_agentes.Kernel.Waterfall.{
  Outcome, resolved, thrown, throws, awaits_next, Hook, run_program, dispatch, run_waterfall,
}
use personas_agentes.Kernel.Waterfall.Chain.{
  chain, run_waterfall-chain, retry, retry_bypasses, pass_on, NoCall,
}

-- The world is the trace, latest note first.
abbrev noting : ℕ → Hook ℕ (List ℕ) ℕ
noting n payload w = awaits_next (n ∷ w) λ o w'. pass_on o ((n + 10) ∷ w')

abbrev answer : ℕ → List ℕ → Outcome ℕ × List ℕ
answer payload w = (resolved (payload + 1), 0 ∷ w)

notes :
    run_waterfall (noting 1 ∷ noting 2 ∷ []) answer 5 [] ≡ (resolved 6, 11 ∷ 12 ∷ 0 ∷ 2 ∷ 1 ∷ [])
unfolding run_waterfall dispatch run_program
notes = refl

run_waterfall-chain_example :
    run_waterfall (noting 1 ∷ (λ p w. throws w) ∷ []) answer 5 []
    ≡ chain (noting 1 ∷ (λ p w. throws w) ∷ []) answer 5 []
run_waterfall-chain_example =
    run_waterfall-chain (noting 1 ∷ (λ p w. throws w) ∷ []) answer 5 (λ w. (never_again, (tt, tt)))
      []
  where
    never_again : (o : Outcome ℕ) (w : List ℕ) → NoCall (pass_on o ((1 + 10) ∷ w))
    never_again (resolved r) w = tt
    never_again thrown w = tt

retry_bypasses_holds :
    run_waterfall (retry ∷ (λ p w. throws (7 ∷ w)) ∷ []) answer 5 [] ≡ (resolved 6, 0 ∷ 7 ∷ [])
retry_bypasses_holds = retry_bypasses (λ w. 7 ∷ w) answer 5 []

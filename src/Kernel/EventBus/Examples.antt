-- ===== src/Kernel/EventBus/Examples.antt =====
-- Two handlers, the first of which cancels the second when it is called.
use personas_agentes.Common.{
  ℕ, ◌≤◌, ◌≡◌, refl, inl, inr, Bool-cases, List, [], ◌∷◌, All, nat_beq, if◌then◌else◌, arith,
  length, string_eq, nat_eq,
}
use personas_agentes.Kernel.EventBus.{
  new_bus, handlers_of, Act, subscribes, unsubscribes, perform_all, emit,
}
use personas_agentes.Kernel.EventBus.Subscriptions.{
  subscribed_all, perform_all-subscribed, perform_all-Inv,
}
use personas_agentes.Kernel.EventBus.Emission.{IsQuiet, acts_of, emit-calls}

abbrev two : List Act
two = subscribes "turn/start" 1 ∷ subscribes "turn/start" 2 ∷ []

perform_all-subscribed_example :
    handlers_of "turn/start" (perform_all two new_bus) ≡ subscribed_all two (λ e. []) "turn/start"
perform_all-subscribed_example = perform_all-subscribed two "turn/start"

abbrev cancels : ℕ → List Act
cancels h = if nat_beq h 1 then unsubscribes "turn/start" 2 ∷ [] else []

cancels-IsQuiet : (h : ℕ) → All (IsQuiet "turn/start") (cancels h)
cancels-IsQuiet h = elim (Bool-cases (nat_beq h 1)) [ inl e ↦ rw e (tt, tt) | inr e ↦ rw e tt ]

-- Both are called, and the second is gone afterwards.
calls_both :
    let b = perform_all two new_bus in
    ((emit cancels 2 "turn/start" b).1 ≡ 1 ∷ 2 ∷ [])
    × (handlers_of "turn/start" (emit cancels 2 "turn/start" b).0 ≡ 1 ∷ [])
unfolding perform_all new_bus emit handlers_of
calls_both = (refl, refl)

two_fit : length (handlers_of "turn/start" (perform_all two new_bus)) ≤ 2
unfolding perform_all new_bus handlers_of
two_fit = omega arith

emit-calls_example :
    let b = perform_all two new_bus in
    emit cancels 2 "turn/start" b
    ≡ (acts_of cancels (handlers_of "turn/start" b) b, handlers_of "turn/start" b)
emit-calls_example =
    emit-calls cancels 2 "turn/start" (perform_all two new_bus) (perform_all-Inv two)
      cancels-IsQuiet two_fit

-- ===== src/Kernel/EventBus/Emission.antt =====
-- Which handlers an emission calls.
use personas_agentes.Common.{
  ℕ, zero, suc, ◌<◌, ◌≤◌, ◌≡◌, ◌≢◌, refl, ap, ◌∙◌, inl, inr, String, List, [], ◌∷◌, ◌++◌, none,
  some, get, put, get-put, get-delete, length, drop, All, get_elem?, nat_eq, string_eq, arith,
  Option-cases,
}
use personas_agentes.Kernel.EventBus.{
  Bus, elements, content, handlers_of, on, others, replace_by, off, Act, subscribes, unsubscribes,
  perform, perform_all, emit_from, emit,
}
use personas_agentes.Kernel.EventBus.Subscriptions.{Inv, renew, handlers-none, handlers-some}

-- The array was made before and is no other event's than `e`.
pub record IsHeld (a : ℕ) (e : String) (b : Bus) : Type 0 where
  pub issued : a < b.next_array
  pub private_to : (j : String) → get j b.listeners ≡ some a → j ≡ e

-- The handler does not subscribe anything to the event.
abbrev pub IsQuiet : String → Act → Type 0
IsQuiet e (subscribes j h) = j ≢ e
IsQuiet e (unsubscribes j h) = Unit

-- The array stays the same, and stays held.
abbrev Keeps : ℕ → String → Bus → Bus → Type 0
Keeps a e b b' = (content a b' ≡ content a b) × IsHeld a e b'

renew-Keeps :
    (a : ℕ) (e j : String) (hs : List ℕ) (b : Bus) → IsHeld a e b → Keeps a e b (renew j hs b)
renew-Keeps a e j hs b i = (
  ap elements {x = get a (put b.next_array hs b.arrays)} {y = get a b.arrays}
      (ground (arith, get-put b.next_array a hs b.arrays, i.issued)),
  record {
    issued = omega (arith, i.issued);
    private_to =
        λ k f. ground (arith, get-put j k b.next_array b.listeners, i.private_to k, i.issued);
  },
)

on-Keeps : (a : ℕ) (e j : String) (h : ℕ) (b : Bus) → IsHeld a e b → j ≢ e → Keeps a e b (on j h b)
unfolding on
on-Keeps a e j h b i ne = elim (Option-cases (get j b.listeners)) [
  | inl f ↦ rw (f, on) (renew-Keeps a e j (h ∷ []) b i)
  | inr (c, f) ↦
      rw (f, on)
        (
          ap elements {x = get a (put c (content c b ++ h ∷ []) b.arrays)} {y = get a b.arrays} (
              ground (
                arith,
                get-put c a (content c b ++ h ∷ []) b.arrays,
                i.private_to j,
                f,
                ap some {x = c} {y = a},
              )),
          record { issued = i.issued; private_to = i.private_to },
        )
]

off-Keeps : (a : ℕ) (e j : String) (h : ℕ) (b : Bus) → IsHeld a e b → Keeps a e b (off j h b)
unfolding off
off-Keeps a e j h b i = elim (Option-cases (get j b.listeners)) [
  | inl f ↦ rw (f, off) (refl, i)
  | inr (c, f) ↦ rw (f, off) (replaced (others h (content c b)))
]
  where
    replaced : (hs : List ℕ) → Keeps a e b (replace_by j hs b)
    replaced [] = (
      refl,
      record {
        issued = i.issued;
        private_to = λ k f. ground (arith, get-delete j k b.listeners, i.private_to k);
      },
    )
    replaced (k ∷ ks) = renew-Keeps a e j (k ∷ ks) b i

perform-Keeps :
    (a : ℕ) (e : String) (x : Act) (b : Bus)
    → IsHeld a e b
    → IsQuiet e x
    → Keeps a e b (perform x b)
unfolding perform
perform-Keeps a e (subscribes j h) b i q = on-Keeps a e j h b i q
perform-Keeps a e (unsubscribes j h) b i q = off-Keeps a e j h b i

perform_all-Keeps :
    (a : ℕ) (e : String) (xs : List Act) (b : Bus)
    → IsHeld a e b
    → All (IsQuiet e) xs
    → Keeps a e b (perform_all xs b)
unfolding perform_all
perform_all-Keeps a e [] b i q = (refl, i)
perform_all-Keeps a e (x ∷ xs) b i q =
    let k = perform-Keeps a e x b i q.0 in
    let ks = perform_all-Keeps a e xs (perform x b) k.1 q.1 in (ks.0 ∙ k.0, ks.1)

-- What is done to the bus while the handlers are called, one after the other.
abbrev pub acts_of : (ℕ → List Act) → List ℕ → Bus → Bus
acts_of acts [] b = b
acts_of acts (h ∷ hs) b = acts_of acts hs (perform_all (acts h) b)

drop-get :
    (i : ℕ) (hs : List ℕ) (k : ℕ) (ks : List ℕ)
    → drop i hs ≡ k ∷ ks
    → (get_elem? hs i ≡ some k) × (drop (suc i) hs ≡ ks)
drop-get zero [] k ks h = ground arith
drop-get (suc i) [] k ks h = ground arith
drop-get zero (x ∷ xs) k ks h = ground arith
drop-get (suc i) (x ∷ xs) k ks h = drop-get i xs k ks h

drop-end : (i : ℕ) (hs : List ℕ) → drop i hs ≡ [] → get_elem? hs i ≡ none
drop-end i [] h = refl
drop-end zero (x ∷ xs) h = ground arith
drop-end (suc i) (x ∷ xs) h = drop-end i xs h

emit_from-calls :
    (acts : ℕ → List Act) (a : ℕ) (e : String)
    → ((h : ℕ) → All (IsQuiet e) (acts h))
    → (rest : List ℕ) (fuel i : ℕ) (b : Bus) → IsHeld a e b
    → drop i (content a b) ≡ rest
    → length rest ≤ fuel
    → emit_from acts a fuel i b ≡ (acts_of acts rest b, rest)
unfolding emit_from
emit_from-calls acts a e q [] zero i b held d l = refl
emit_from-calls acts a e q [] (suc fuel) i b held d l =
    rw (drop-end i (content a b) d, emit_from) refl
emit_from-calls acts a e q (k ∷ ks) zero i b held d l = absurd (omega (arith, l))
emit_from-calls acts a e q (k ∷ ks) (suc fuel) i b held d l =
    let g = drop-get i (content a b) k ks d in
    let m = perform_all-Keeps a e (acts k) b held (q k) in
    let rest =
      emit_from-calls acts a e q ks fuel (suc i) (perform_all (acts k) b) m.1
        (ap (drop (suc i)) m.0 ∙ g.1) (omega (arith, l)) in
    rw (g.0, emit_from, rest) refl

-- Where no two events share an array of handlers and no handler subscribes to the event that it is
-- called for, an emission calls the handlers that the event had when it began, each once and in
-- order, whatever they cancel on the way, and the bus has gone through what they did, provided the
-- fuel is at least their number.
pub emit-calls :
    (acts : ℕ → List Act) (fuel : ℕ) (e : String) (b : Bus)
    → Inv b
    → ((h : ℕ) → All (IsQuiet e) (acts h))
    → length (handlers_of e b) ≤ fuel
    → emit acts fuel e b ≡ (acts_of acts (handlers_of e b) b, handlers_of e b)
unfolding emit handlers_of
emit-calls acts fuel e b i q l = elim (Option-cases (get e b.listeners)) [
  | inl f ↦ rw (f, emit, handlers-none e b f) refl
  | inr (a, f) ↦
      let held : IsHeld a e b = record {
        issued = i.issued e a f;
        private_to = λ j g. i.one_event j e a g f;
      } in
      rw (f, emit, handlers-some e a b f)
        (emit_from-calls acts a e q (content a b) fuel 0 b held refl
          (omega (arith, l, ap length (handlers-some e a b f))))
]

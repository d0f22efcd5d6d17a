-- ===== src/Kernel/EventBus/Subscriptions.antt =====
-- The handlers of an event after subscriptions.
use personas_agentes.Common.{
  ℕ, suc, ◌<◌, ◌≡◌, refl, sym, ap, ◌∙◌, inl, inr, String, List, [], ◌∷◌, ◌++◌, none, some, get, put,
  delete, get-put, get-delete, nat_eq, string_eq, str_eq, eq_iff, if◌then◌else◌, arith,
  Option-cases, Bool-cases,
}
use personas_agentes.Kernel.EventBus.{
  Bus, new_bus, elements, content, handlers_of, on, others, replace_by, off, Act, subscribes,
  unsubscribes, perform, perform_all,
}

-- No two events share an array, and every array in use was made before.
pub record Inv (b : Bus) : Type 0 where
  pub one_event :
      (e j : String) (a : ℕ) → get e b.listeners ≡ some a → get j b.listeners ≡ some a → e ≡ j
  pub issued : (e : String) (a : ℕ) → get e b.listeners ≡ some a → a < b.next_array

-- The handlers by what the map of events gives.
pub handlers-none : (e : String) (b : Bus) → get e b.listeners ≡ none → handlers_of e b ≡ []
unfolding handlers_of
handlers-none e b h = rw (h, handlers_of) refl

pub handlers-some :
    (e : String) (a : ℕ) (b : Bus) → get e b.listeners ≡ some a → handlers_of e b ≡ content a b
unfolding handlers_of
handlers-some e a b h = rw (h, handlers_of) refl

-- An event that gets a new array.
abbrev pub renew : String → List ℕ → Bus → Bus
renew e hs b = record b {
  listeners = put e b.next_array b.listeners;
  arrays = put b.next_array hs b.arrays;
  next_array = suc b.next_array;
}

renew-handlers_of :
    (e j : String) (hs : List ℕ) (b : Bus)
    → Inv b
    → handlers_of j (renew e hs b) ≡ (if str_eq e j then hs else handlers_of j b)
renew-handlers_of e j hs b i = elim (Bool-cases (str_eq e j)) [
  | inl s ↦
      handlers-some j b.next_array (renew e hs b)
        (ground (arith, get-put e j b.next_array b.listeners))
      ∙ ground (arith, get-put b.next_array b.next_array hs b.arrays)
  | inr n ↦ elim (Option-cases (get j b.listeners)) [
    | inl f ↦
        handlers-none j (renew e hs b) (ground (arith, get-put e j b.next_array b.listeners))
        ∙ sym (handlers-none j b f)
        ∙ rw n refl
    | inr (a, f) ↦
        handlers-some j a (renew e hs b) (ground (arith, get-put e j b.next_array b.listeners))
        ∙ ap elements {x = get a (put b.next_array hs b.arrays)} {y = get a b.arrays}
            (ground (arith, get-put b.next_array a hs b.arrays, i.issued j a f))
        ∙ sym (handlers-some j a b f)
        ∙ rw n refl
  ]
]

-- An array of an event that is written anew.
rewrite-handlers_of :
    (e j : String) (a : ℕ) (hs : List ℕ) (b : Bus)
    → Inv b
    → get e b.listeners ≡ some a
    → handlers_of j (record b { arrays = put a hs b.arrays })
      ≡ (if str_eq e j then hs else handlers_of j b)
rewrite-handlers_of e j a hs b i f = elim (Option-cases (get j b.listeners)) [
  | inl g ↦
      handlers-none j (record b { arrays = put a hs b.arrays }) g
      ∙ sym (handlers-none j b g)
      ∙ ground (arith, eq_iff e j, ap (λ k. get k b.listeners) {x = e} {y = j})
  | inr (c, g) ↦
      handlers-some j c (record b { arrays = put a hs b.arrays }) g
      ∙ ap elements (get-put a c hs b.arrays)
      ∙ ground (
        arith,
        handlers-some j c b g,
        eq_iff e j,
        i.one_event e j a f,
        ap (λ k. get k b.listeners) {x = e} {y = j},
      )
]

removed-handlers_of :
    (e j : String) (b : Bus)
    → handlers_of j (record b { listeners = delete e b.listeners })
      ≡ (if str_eq e j then [] else handlers_of j b)
removed-handlers_of e j b =
    let b' : Bus = record b { listeners = delete e b.listeners } in
    elim (Bool-cases (str_eq e j)) [
      | inl s ↦ handlers-none j b' (ground (arith, get-delete e j b.listeners)) ∙ rw s refl
      | inr n ↦ elim (Option-cases (get j b.listeners)) [
        | inl f ↦
            handlers-none j b' (ground (arith, get-delete e j b.listeners))
            ∙ sym (handlers-none j b f)
            ∙ rw n refl
        | inr (a, f) ↦
            handlers-some j a b' (ground (arith, get-delete e j b.listeners))
            ∙ sym (handlers-some j a b f)
            ∙ rw n refl
      ]
    ]

on-handlers_of :
    (e j : String) (h : ℕ) (b : Bus)
    → Inv b
    → handlers_of j (on e h b) ≡ (if str_eq e j then handlers_of e b ++ h ∷ [] else handlers_of j b)
unfolding on
on-handlers_of e j h b i = elim (Option-cases (get e b.listeners)) [
  | inl f ↦ rw (f, on, handlers-none e b f) (renew-handlers_of e j (h ∷ []) b i)
  | inr (a, f) ↦
      rw (f, on, handlers-some e a b f) (rewrite-handlers_of e j a (content a b ++ h ∷ []) b i f)
]

off-handlers_of :
    (e j : String) (h : ℕ) (b : Bus)
    → Inv b
    → handlers_of j (off e h b)
      ≡ (if str_eq e j then others h (handlers_of e b) else handlers_of j b)
unfolding off
off-handlers_of e j h b i = elim (Option-cases (get e b.listeners)) [
  | inl f ↦
      rw (f, off, handlers-none e b f)
        (ground (arith, handlers-none j b, eq_iff e j, ap (λ k. get k b.listeners) {x = e} {y = j}))
  | inr (a, f) ↦ rw (f, off, handlers-some e a b f) (replaced (others h (content a b)))
]
  where
    replaced :
        (hs : List ℕ)
        → handlers_of j (replace_by e hs b) ≡ (if str_eq e j then hs else handlers_of j b)
    replaced [] = removed-handlers_of e j b
    replaced (k ∷ ks) = renew-handlers_of e j (k ∷ ks) b i

renew-Inv : (e : String) (hs : List ℕ) (b : Bus) → Inv b → Inv (renew e hs b)
renew-Inv e hs b i = record {
  one_event = λ k j a f g. ground (
    arith,
    get-put e k b.next_array b.listeners,
    get-put e j b.next_array b.listeners,
    eq_iff e k,
    eq_iff e j,
    i.one_event k j a,
    i.issued k a,
    i.issued j a,
  );
  issued = λ k a f. ground (arith, get-put e k b.next_array b.listeners, i.issued k a);
}

on-Inv : (e : String) (h : ℕ) (b : Bus) → Inv b → Inv (on e h b)
unfolding on
on-Inv e h b i = elim (Option-cases (get e b.listeners)) [
  | inl f ↦ rw (f, on) (renew-Inv e (h ∷ []) b i)
  | inr (a, f) ↦ rw (f, on) (record { one_event = i.one_event; issued = i.issued })
]

off-Inv : (e : String) (h : ℕ) (b : Bus) → Inv b → Inv (off e h b)
unfolding off
off-Inv e h b i = elim (Option-cases (get e b.listeners)) [
  | inl f ↦ rw (f, off) i
  | inr (a, f) ↦ rw (f, off) (replaced (others h (content a b)))
]
  where
    replaced : (hs : List ℕ) → Inv (replace_by e hs b)
    replaced [] = record {
      one_event = λ k j a f g.
          ground (arith, get-delete e k b.listeners, get-delete e j b.listeners, i.one_event k j a);
      issued = λ k a f. ground (arith, get-delete e k b.listeners, i.issued k a);
    }
    replaced (k ∷ ks) = renew-Inv e (k ∷ ks) b i

perform-Inv : (x : Act) (b : Bus) → Inv b → Inv (perform x b)
unfolding perform
perform-Inv (subscribes e h) b i = on-Inv e h b i
perform-Inv (unsubscribes e h) b i = off-Inv e h b i

-- The abstract view: the handlers of every event, as a function.
abbrev pub subscribed : Act → (String → List ℕ) → String → List ℕ
subscribed (subscribes e h) f j = if str_eq e j then f e ++ h ∷ [] else f j
subscribed (unsubscribes e h) f j = if str_eq e j then others h (f e) else f j

abbrev pub subscribed_all : List Act → (String → List ℕ) → String → List ℕ
subscribed_all [] f = f
subscribed_all (x ∷ xs) f = subscribed_all xs (subscribed x f)

perform-handlers_of :
    (x : Act) (b : Bus) (f : String → List ℕ)
    → Inv b
    → ((j : String) → handlers_of j b ≡ f j)
    → (j : String) → handlers_of j (perform x b) ≡ subscribed x f j
unfolding perform
perform-handlers_of (subscribes e h) b f i same j =
    on-handlers_of e j h b i ∙ rw (same e, same j) refl
perform-handlers_of (unsubscribes e h) b f i same j =
    off-handlers_of e j h b i ∙ rw (same e, same j) refl

perform_all-handlers_of :
    (xs : List Act) (b : Bus) (f : String → List ℕ)
    → Inv b
    → ((j : String) → handlers_of j b ≡ f j)
    → (j : String) → handlers_of j (perform_all xs b) ≡ subscribed_all xs f j
unfolding perform_all
perform_all-handlers_of [] b f i same j = same j
perform_all-handlers_of (x ∷ xs) b f i same j =
    perform_all-handlers_of xs (perform x b) (subscribed x f) (perform-Inv x b i)
      (perform-handlers_of x b f i same) j

new_bus-Inv : Inv new_bus
unfolding new_bus
new_bus-Inv = record { one_event = λ e j a f g. ground arith; issued = λ e a f. ground arith }

perform_all-Inv_from : (xs : List Act) (b : Bus) → Inv b → Inv (perform_all xs b)
unfolding perform_all
perform_all-Inv_from [] b i = i
perform_all-Inv_from (x ∷ xs) b i = perform_all-Inv_from xs (perform x b) (perform-Inv x b i)

pub perform_all-Inv : (xs : List Act) → Inv (perform_all xs new_bus)
perform_all-Inv xs = perform_all-Inv_from xs new_bus new_bus-Inv

-- After any subscriptions and cancellations on a new bus, the handlers of every event are those that
-- subscribed to it, in their order, less those that cancelled since.
pub perform_all-subscribed :
    (xs : List Act) (j : String)
    → handlers_of j (perform_all xs new_bus) ≡ subscribed_all xs (λ e. []) j
unfolding new_bus
perform_all-subscribed xs j =
    perform_all-handlers_of xs new_bus (λ e. []) new_bus-Inv (λ k. handlers-none k new_bus refl) j

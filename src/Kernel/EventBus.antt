-- ===== src/Kernel/EventBus.antt =====
-- src_local/psa/kernel/psa_events.ts: `on`, `off` and `emit` of PsaEventBus.
-- A handler is a number. The arrays of handlers are a store of their own, since `on` changes an array
-- that an emission may be walking, and `off` puts a new one in its place. What a handler does to the
-- bus when it is called is the argument `acts`; what else it does, and what it throws, which `emit`
-- catches, is left out, and so is other code that runs while an emission awaits a handler. The
-- function that `on` returns is `off` with the same arguments.
pub mod Subscriptions
pub mod Emission
mod Examples
use personas_agentes.Common.{
  ℕ, zero, suc, String, Bool, not, List, [], ◌∷◌, ◌++◌, Option, none, some, get, put, delete, keep,
  get_elem?, nat_beq, nat_eq, string_eq,
}

pub record Bus : Type 0 where
  pub listeners : List (String × ℕ)
  pub arrays : List (ℕ × List ℕ)
  pub next_array : ℕ

pub new_bus : Bus
new_bus = record { listeners = []; arrays = []; next_array = 0 }

abbrev pub elements : Option (List ℕ) → List ℕ
elements none = []
elements (some hs) = hs

abbrev pub content : ℕ → Bus → List ℕ
content a b = elements (get a b.arrays)

-- The handlers of an event.
pub handlers_of : String → Bus → List ℕ
handlers_of e b = elim (get e b.listeners) [ none ↦ [] | some a ↦ content a b ]

pub on : String → ℕ → Bus → Bus
on e h b = elim (get e b.listeners) [
  | none ↦ record b {
    listeners = put e b.next_array b.listeners;
    arrays = put b.next_array (h ∷ []) b.arrays;
    next_array = suc b.next_array;
  }
  | some a ↦ record b { arrays = put a (content a b ++ h ∷ []) b.arrays }
]

abbrev pub others : ℕ → List ℕ → List ℕ
others h = keep (λ k. not (nat_beq k h))

-- `off`, with the handlers that remain.
abbrev pub replace_by : String → List ℕ → Bus → Bus
replace_by e [] b = record b { listeners = delete e b.listeners }
replace_by e (k ∷ ks) b = record b {
  listeners = put e b.next_array b.listeners;
  arrays = put b.next_array (k ∷ ks) b.arrays;
  next_array = suc b.next_array;
}

pub off : String → ℕ → Bus → Bus
off e h b = elim (get e b.listeners) [ none ↦ b | some a ↦ replace_by e (others h (content a b)) b ]

-- What a handler does to the bus.
pub data Act : Type 0 where
  subscribes unsubscribes : String → ℕ → Act

pub perform : Act → Bus → Bus
unfolding on off
perform (subscribes e h) b = on e h b
perform (unsubscribes e h) b = off e h b

pub perform_all : List Act → Bus → Bus
unfolding perform
perform_all [] b = b
perform_all (x ∷ xs) b = perform_all xs (perform x b)

-- The loop of `emit` over the array from index `i`: the bus after it and the handlers called. A
-- handler that subscribes to the event while it runs makes the array longer, so the loop has fuel.
pub emit_from : (ℕ → List Act) → ℕ → (fuel i : ℕ) → Bus → Bus × List ℕ
unfolding perform_all
emit_from acts a zero i b = (b, [])
emit_from acts a (suc fuel) i b = elim (get_elem? (content a b) i) [
  | none ↦ (b, [])
  | some h ↦
      let (b', called) = emit_from acts a fuel (suc i) (perform_all (acts h) b) in (b', h ∷ called)
]

pub emit : (ℕ → List Act) → (fuel : ℕ) → String → Bus → Bus × List ℕ
unfolding emit_from
emit acts fuel e b = elim (get e b.listeners) [
  | none ↦ (b, [])
  | some a ↦ emit_from acts a fuel 0 b
]

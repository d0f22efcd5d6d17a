-- ===== src/Kernel/Approval/Issued.antt =====
-- What every manager that was reached knows was issued before.
use personas_agentes.Common.{
  ℕ, ◌<◌, ◌≤◌, String, ◌≡◌, refl, inl, inr, true, false, List, [], ◌∷◌, some, arith, get, has,
  get-put, get-delete, has-put, string_eq, nat_eq, Option-cases,
}
use personas_agentes.Kernel.Approval.{
  Request, Manager, Call, requests, resolves, fires, settle, request_approval, expire, fire_timer,
  resolve_approval, step, run, new_request, new_manager,
}

-- What holds of every manager that was reached: all it knows of was issued before.
pub record IsClosed (m : Manager) : Type 0 where
  pub waiting_issued :
      (c : String) (r : Request) → get c m.waiting ≡ some r → r.promise < m.next_promise
  pub timers_issued : (p : ℕ) (c : String) → get p m.timers ≡ some c → p < m.next_promise
  pub settled_issued : (p : ℕ) → m.next_promise ≤ p → has p m.settled ≡ false

step-IsClosed : (m : Manager) (k : Call) → IsClosed m → IsClosed (step m k)
unfolding step request_approval resolve_approval fire_timer expire settle
step-IsClosed m (requests q) o = record {
  waiting_issued = λ c r e.
      ground
        (arith, o.waiting_issued c r, get-put q.call_id c (new_request q m.next_promise) m.waiting);
  timers_issued =
      λ p c e. ground (arith, o.timers_issued p c, get-put m.next_promise p q.call_id m.timers);
  settled_issued =
      λ p h. ground (arith, o.settled_issued p, has-put m.next_promise p true m.settled);
}
step-IsClosed m (resolves c v) o = elim (Option-cases (get c m.waiting)) [
  | inl e ↦ rw (e, step) o
  | inr (r, e) ↦ record {
    waiting_issued = λ d x k. ground (arith, o.waiting_issued d x, get-delete c d m.waiting);
    timers_issued = λ p d k. ground (arith, o.timers_issued p d);
    settled_issued = λ p h.
        ground (arith, o.settled_issued p, o.waiting_issued c r, has-put r.promise p v m.settled);
  }
]
step-IsClosed m (fires q) o = elim (Option-cases (get q m.timers)) [
  | inl e ↦ rw (e, fire_timer) o
  | inr (c, e) ↦ record {
    waiting_issued = λ d x k. ground (arith, o.waiting_issued d x, get-delete c d m.waiting);
    timers_issued = λ p d k. ground (arith, o.timers_issued p d, get-delete q p m.timers);
    settled_issued =
        λ p h. ground (arith, o.settled_issued p, o.timers_issued q c, has-put q p false m.settled);
  }
]

pub run-IsClosed : (m : Manager) (ks : List Call) → IsClosed m → IsClosed (run m ks)
unfolding run
run-IsClosed m [] o = o
run-IsClosed m (k ∷ ks) o = run-IsClosed (step m k) ks (step-IsClosed m k o)

pub new_manager-IsClosed : IsClosed new_manager
new_manager-IsClosed = record {
  waiting_issued = λ c r e. cc;
  timers_issued = λ p c e. cc;
  settled_issued = λ p h. refl;
}

-- ===== src/Kernel/Approval/Orphans.antt =====
-- A call id that is used again while its first request waits leaves a promise that is never settled.
use personas_agentes.Common.{
  ℕ, suc, ◌<◌, String, ◌≡◌, ◌≢◌, refl, inl, inr, Bool, false, List, [], ◌∷◌, none, some, arith, get,
  has, put, delete, get-put, get-delete, has-put, has_iff_get, string_eq, nat_eq, eq_iff,
  Option-cases,
}
use personas_agentes.Kernel.Approval.{
  Request, Manager, Params, Call, requests, resolves, fires, settle, auto_approves,
  request_approval, expire, fire_timer, resolve_approval, step, run, new_request, new_manager,
}
use personas_agentes.Kernel.Approval.Settling.{Reason, step-Reason}
use personas_agentes.Kernel.Approval.Issued.{IsClosed, run-IsClosed, new_manager-IsClosed}

-- A promise that was returned and is not settled, with no request that waits and no armed timer.
pub record IsOrphan (p : ℕ) (m : Manager) : Type 0 where
  pub issued : p < m.next_promise
  pub unsettled : has p m.settled ≡ false
  pub unheld : (c : String) (r : Request) → get c m.waiting ≡ some r → r.promise ≢ p
  pub untimed : get p m.timers ≡ none

unreasoned : (p : ℕ) (m : Manager) (k : Call) (v : Bool) → IsOrphan p m → Reason m p k v → ⊥
unreasoned p m (requests q) v o x = omega (arith, o.issued, x.1)
unreasoned p m (resolves c approves) v o x = o.unheld c x.0 x.1 x.2
unreasoned p m (fires q) v o x = cc (o.untimed, x.2.1)

step-unsettled : (p : ℕ) (m : Manager) (k : Call) → IsOrphan p m → has p (step m k).settled ≡ false
step-unsettled p m k o = elim (Option-cases (get p (step m k).settled)) [
  | inl e ↦ (has_iff_get p (step m k).settled).1 e
  | inr (v, e) ↦ absurd (unreasoned p m k v o (step-Reason m k p v o.unsettled e))
]

step-unheld :
    (p : ℕ) (m : Manager) (k : Call)
    → IsOrphan p m
    → (c : String) (r : Request) → get c (step m k).waiting ≡ some r
    → r.promise ≢ p
unfolding step request_approval resolve_approval fire_timer expire settle
step-unheld p m (requests q) o c r e =
    ground
      (arith, o.issued, o.unheld c r, get-put q.call_id c (new_request q m.next_promise) m.waiting)
step-unheld p m (resolves c' v) o c r e = ground (arith, o.unheld c r, get-delete c' c m.waiting)
step-unheld p m (fires q) o c r e = elim (Option-cases (get q m.timers)) [
  | inl off ↦ ground (arith, o.unheld c r)
  | inr (c', on) ↦ ground (arith, o.unheld c r, get-delete c' c m.waiting)
]

step-untimed : (p : ℕ) (m : Manager) (k : Call) → IsOrphan p m → get p (step m k).timers ≡ none
unfolding step request_approval resolve_approval fire_timer expire settle
step-untimed p m (requests q) o =
    ground (arith, o.issued, o.untimed, get-put m.next_promise p q.call_id m.timers)
step-untimed p m (resolves c' v) o = ground (arith, o.untimed)
step-untimed p m (fires q) o = ground (arith, o.untimed, get-delete q p m.timers)

step-issued : (p : ℕ) (m : Manager) (k : Call) → p < m.next_promise → p < (step m k).next_promise
unfolding step request_approval resolve_approval fire_timer expire settle
step-issued p m (requests q) h = ground arith
step-issued p m (resolves c v) h = ground arith
step-issued p m (fires q) h = ground arith

run-IsOrphan : (p : ℕ) (m : Manager) (ks : List Call) → IsOrphan p m → IsOrphan p (run m ks)
unfolding run
run-IsOrphan p m [] o = o
run-IsOrphan p m (k ∷ ks) o = run-IsOrphan p (step m k) ks (record {
  issued = step-issued p m k o.issued;
  unsettled = step-unsettled p m k o;
  unheld = step-unheld p m k o;
  untimed = step-untimed p m k o;
})

-- Two requests of one call id, and then the timers of both.
abbrev pub collide : Params → Params → Manager → Manager
collide q s m =
    run m (requests q ∷ requests s ∷ fires m.next_promise ∷ fires (suc m.next_promise) ∷ [])

-- The two requests, made one after the other.
abbrev both_waiting : Params → Params → Manager → Manager
both_waiting q s m =
    let p = m.next_promise in
    record m {
      waiting = put q.call_id (new_request s (suc p)) (put q.call_id (new_request q p) m.waiting);
      timers = put (suc p) q.call_id (put p q.call_id m.timers);
      next_promise = suc (suc p);
    }

both_waiting_lem :
    (q s : Params) (m : Manager)
    → s.call_id ≡ q.call_id
    → auto_approves q ≡ false
    → auto_approves s ≡ false
    → step (step m (requests q)) (requests s) ≡ both_waiting q s m
unfolding step request_approval
both_waiting_lem q s m same asks asks_too = rw (asks, step) (rw (asks_too, same) refl)

-- The first timer has removed the second request.
abbrev first_fired : Params → Params → Manager → Manager
first_fired q s m =
    let b = both_waiting q s m in
    record b {
      waiting = delete q.call_id b.waiting;
      timers = delete m.next_promise b.timers;
      settled = put m.next_promise false m.settled;
    }

first_fired_lem :
    (q s : Params) (m : Manager)
    → IsClosed m
    → step (both_waiting q s m) (fires m.next_promise) ≡ first_fired q s m
unfolding step fire_timer expire settle
first_fired_lem q s m o =
    let p = m.next_promise in
    let c = q.call_id in
    let older = put c (new_request q p) m.waiting in
    ground (
      arith,
      get-put (suc p) p c (put p c m.timers),
      get-put p p c m.timers,
      get-put c c (new_request s (suc p)) older,
      eq_iff c c,
      o.settled_issued p,
    )

abbrev both_fired : Params → Params → Manager → Manager
both_fired q s m =
    let f = first_fired q s m in record f { timers = delete (suc m.next_promise) f.timers }

both_fired_lem :
    (q s : Params) (m : Manager)
    → step (first_fired q s m) (fires (suc m.next_promise)) ≡ both_fired q s m
unfolding step fire_timer expire settle
both_fired_lem q s m =
    let p = m.next_promise in
    let c = q.call_id in
    let b = both_waiting q s m in
    ground (
      arith,
      get-delete p (suc p) b.timers,
      get-put (suc p) (suc p) c (put p c m.timers),
      get-delete c c b.waiting,
      eq_iff c c,
    )

both_fired-IsOrphan :
    (q s : Params) (m : Manager) → IsClosed m → IsOrphan (suc m.next_promise) (both_fired q s m)
both_fired-IsOrphan q s m o = record {
  issued = omega arith;
  unsettled = ground (
    arith,
    has-put m.next_promise (suc m.next_promise) false m.settled,
    o.settled_issued (suc m.next_promise),
  );
  unheld = λ d r e. ground (
    arith,
    get-delete q.call_id d (both_waiting q s m).waiting,
    get-put q.call_id d (new_request s (suc m.next_promise))
        (put q.call_id (new_request q m.next_promise) m.waiting),
    get-put q.call_id d (new_request q m.next_promise) m.waiting,
    o.waiting_issued d r,
  );
  untimed =
      ground
        (arith, get-delete (suc m.next_promise) (suc m.next_promise) (first_fired q s m).timers);
}

collide-IsOrphan :
    (q s : Params) (m : Manager)
    → s.call_id ≡ q.call_id
    → auto_approves q ≡ false
    → auto_approves s ≡ false
    → IsClosed m
    → IsOrphan (suc m.next_promise) (collide q s m)
unfolding run
collide-IsOrphan q s m same asks asks_too o =
    rw (both_waiting_lem q s m same asks asks_too, first_fired_lem q s m o, both_fired_lem q s m)
      (both_fired-IsOrphan q s m o)

-- Two requests with one call id, of any session, tool and arguments, that are made one right after the
-- other and approved without a question neither of them, and whose timers then fire in their order
-- with no call between: the second promise is never settled, whatever was called before and is called
-- afterwards.
pub collide-never_settles :
    (q s : Params) (js ks : List Call)
    → s.call_id ≡ q.call_id
    → auto_approves q ≡ false
    → auto_approves s ≡ false
    → has
        (suc (run new_manager js).next_promise)
        (run (collide q s (run new_manager js)) ks).settled
      ≡ false
collide-never_settles q s js ks same asks asks_too =
    let m = run new_manager js in
    (run-IsOrphan (suc m.next_promise) (collide q s m) ks (
      collide-IsOrphan q s m same asks asks_too
        (run-IsClosed new_manager js new_manager-IsClosed))).unsettled

-- ===== src/Kernel/Approval/Settling.antt =====
-- Which call settles which promise, and how.
use personas_agentes.Common.{
  ℕ, String, ◌≡◌, inl, inr, Bool, true, false, some, if◌then◌else◌, arith, get, has, delete,
  get-put, suc, has_iff_get, nat_beq, string_eq, nat_eq, Option-cases,
}
use personas_agentes.Kernel.Approval.{
  Request, Manager, Call, requests, resolves, fires, settle, auto_approves, request_approval,
  expire, fire_timer, resolve_approval, step,
}

-- `settle` changes the promise itself, if it is not settled, and nothing else.
get-settle :
    (p q : ℕ) (value : Bool) (m : Manager)
    → get q (settle p value m).settled ≡ (
        if nat_beq p q
        then if has p m.settled then get q m.settled else some value
        else get q m.settled)
unfolding settle
get-settle p q value m = ground (arith, get-put p q value m.settled)

-- The reason for which the call gives the promise `p` the value `value` in the state `m`.
abbrev pub Reason : Manager → ℕ → Call → Bool → Type 0
Reason m p (requests q) value = (auto_approves q ≡ true) × (p ≡ m.next_promise) × (value ≡ true)
Reason m p (resolves c approves) value =
    (r : Request) × (get c m.waiting ≡ some r) × (r.promise ≡ p) × (value ≡ approves)
Reason m p (fires p') value =
    (p' ≡ p)
    × (value ≡ false)
    × ((c : String) × (get p m.timers ≡ some c) × (has c m.waiting ≡ true))

-- A promise is settled with `true` only by an automatic approval of its own request or by the
-- operator's approval of its request, and with `false` only by the operator's rejection of its
-- request or by its own timer, while a request of that timer's call id waits.
pub step-Reason :
    (m : Manager) (k : Call) (p : ℕ) (value : Bool)
    → has p m.settled ≡ false
    → get p (step m k).settled ≡ some value
    → Reason m p k value
unfolding step request_approval resolve_approval fire_timer expire
step-Reason m (requests q) p value u h = ground (
  arith,
  has_iff_get p m.settled,
  get-settle m.next_promise p true (record m { next_promise = suc m.next_promise }),
)
step-Reason m (resolves c approves) p value u h = elim (Option-cases (get c m.waiting)) [
  | inl e ↦ ground (arith, has_iff_get p m.settled)
  | inr (r, e) ↦ (
    r,
    e,
    ground (
      arith,
      has_iff_get p m.settled,
      get-settle r.promise p approves (record m { waiting = delete c m.waiting }),
    ),
    ground (
      arith,
      has_iff_get p m.settled,
      get-settle r.promise p approves (record m { waiting = delete c m.waiting }),
    ),
  )
]
step-Reason m (fires p') p value u h = elim (Option-cases (get p' m.timers)) [
  | inl e ↦ ground (arith, has_iff_get p m.settled)
  | inr (c, e) ↦
      let m' = record m { timers = delete p' m.timers; waiting = delete c m.waiting } in
      let same : p' ≡ p = ground (arith, has_iff_get p m.settled, get-settle p' p false m') in
      (
        same,
        ground (arith, has_iff_get p m.settled, get-settle p' p false m'),
        (c, rw (← same) e, ground (arith, has_iff_get p m.settled, has_iff_get c m.waiting)),
      )
]

settle_keeps :
    (p q : ℕ) (v : Bool) (m : Manager) {value : Bool}
    → get p m.settled ≡ some value
    → get p (settle q v m).settled ≡ some value
settle_keeps p q v m h = ground (arith, get-settle q p v m, has_iff_get q m.settled)

pub step-settled :
    (m : Manager) (k : Call) (p : ℕ) {value : Bool}
    → get p m.settled ≡ some value
    → get p (step m k).settled ≡ some value
unfolding step request_approval resolve_approval fire_timer expire
step-settled m (requests q) p h =
    ground
      (arith, settle_keeps p m.next_promise true (record m { next_promise = suc m.next_promise }) h)
step-settled m (resolves c approves) p h = elim (Option-cases (get c m.waiting)) [
  | inl e ↦ ground arith
  | inr (r, e) ↦
      ground
        (arith, settle_keeps p r.promise approves (record m { waiting = delete c m.waiting }) h)
]
step-settled m (fires p') p h = elim (Option-cases (get p' m.timers)) [
  | inl e ↦ ground arith
  | inr (c, e) ↦ ground (
    arith,
    settle_keeps p p' false (record m { timers = delete p' m.timers; waiting = delete c m.waiting })
        h,
  )
]

-- ===== src/Kernel/Approval/Liveness.antt =====
-- Every promise is settled in the end, as long as no call id is used again while a timer of its
-- earlier request is armed.
use personas_agentes.Common.{
  ℕ, ◌<◌, String, ◌≡◌, refl, inl, inr, true, false, List, [], ◌∷◌, some, arith, get, has, delete,
  get-delete, has_iff_get, string_eq, nat_eq, Option-cases, Bool-cases, ap,
}
use personas_agentes.Kernel.Approval.{
  Manager, Call, requests, resolves, fires, auto_approves, request_approval, expire, fire_timer,
  resolve_approval, step, run, is_pending, new_manager,
}
use personas_agentes.Kernel.Approval.Settling.{step-settled}
use personas_agentes.Kernel.Approval.Waiting.{
  Inv, IsFresh, new_manager-Inv, has-settle, settle_record, removed-Inv, automatic-Inv,
  requested-Inv,
}

-- The timer of `p`, armed for the call id `c`, fires.
fired-Inv :
    (m : Manager) (p : ℕ) (c : String)
    → Inv m
    → get p m.timers ≡ some c
    → Inv (expire c p (record m { timers = delete p m.timers }))
unfolding expire
fired-Inv m p c i e = elim (Option-cases (get c m.waiting)) [
  | inl gone ↦
      rw (gone, expire)
        (record {
          covered = λ q lt. elim (i.covered q lt) [
            | inl done ↦ inl done
            | inr (d, r, er, qr, tr) ↦ inr (
              d,
              r,
              er,
              qr,
              ground (
                arith,
                get-delete p q m.timers,
                ap (λ k. get k m.waiting) {x = c} {y = d},
                ap (λ k. get k m.timers) {x = p} {y = q},
              ),
            )
          ];
          issued = λ q d k. ground (arith, i.issued q d, get-delete p q m.timers);
          one_timer = λ q q' d k k'.
              ground (arith, i.one_timer q q' d, get-delete p q m.timers, get-delete p q' m.timers);
          armed = λ d r k. (
            (i.armed d r k).0,
            ground (
              arith,
              i.armed d r k,
              get-delete p r.promise m.timers,
              ap (λ k. get k m.waiting) {x = c} {y = d},
              ap (λ k. get k m.timers) {x = p} {y = r.promise},
            ),
          );
        })
  | inr (r, there) ↦
      let own : r.promise ≡ p = i.one_timer r.promise p c (i.armed c r there).1 e in
      let t = delete p m.timers in
      rw (there, expire, ap is_pending (i.armed c r there).0)
        (rw
          (← own, settle_record r.promise false m (delete c m.waiting) (delete r.promise m.timers))
          (removed-Inv m c r false (delete r.promise m.timers) i there
            (λ q ne. ground (arith, get-delete r.promise q m.timers))
            (λ q d k. ground (arith, get-delete r.promise q m.timers))))
]

fire_timer-has_settled :
    (p : ℕ) (m : Manager) (q : ℕ) → has q m.settled ≡ true → has q (fire_timer p m).settled ≡ true
unfolding step
fire_timer-has_settled p m q h = elim (Option-cases (get q m.settled)) [
  | inl e ↦ cc (h, (has_iff_get q m.settled).1 e)
  | inr (v, e) ↦
      ground (arith, step-settled m (fires p) q e, has_iff_get q (fire_timer p m).settled)
]

-- Every call keeps the invariant, where a request's call id is fresh.
pub step-Inv : (m : Manager) (k : Call) → Inv m → IsFresh m k → Inv (step m k)
unfolding step request_approval resolve_approval fire_timer expire
step-Inv m (requests q) i fresh = elim (Bool-cases (auto_approves q)) [
  | inl auto ↦ rw (auto, step) (automatic-Inv m i)
  | inr asks ↦ rw (asks, step) (requested-Inv m q i fresh)
]
step-Inv m (resolves c approves) i fresh = elim (Option-cases (get c m.waiting)) [
  | inl e ↦ rw (e, step) i
  | inr (r, e) ↦
      rw
        (
          e,
          step,
          ap is_pending (i.armed c r e).0,
          settle_record r.promise approves m (delete c m.waiting) m.timers,
        )
        (removed-Inv m c r approves m.timers i e (λ p ne. refl) (λ p d k. k))
]
step-Inv m (fires p) i fresh = elim (Option-cases (get p m.timers)) [
  | inl e ↦ rw (e, fire_timer) i
  | inr (c, e) ↦ rw (e, fire_timer) (fired-Inv m p c i e)
]

-- The timer of a promise settles it, if it was not settled.
fire_timer-settles :
    (m : Manager) (p : ℕ) → Inv m → p < m.next_promise → has p (fire_timer p m).settled ≡ true
unfolding fire_timer expire
fire_timer-settles m p i lt = elim (i.covered p lt) [
  | inl done ↦ fire_timer-has_settled p m p done
  | inr (c, r, er, pr, tr) ↦ ground (
    arith,
    i.armed c r er,
    has-settle p p false (record m { timers = delete p m.timers; waiting = delete c m.waiting }),
  )
]

-- Each request of the calls is fresh where it is made.
abbrev pub AllFresh : Manager → List Call → Type 0
AllFresh m [] = Unit
AllFresh m (k ∷ ks) = IsFresh m k × AllFresh (step m k) ks

run-Inv : (m : Manager) (ks : List Call) → Inv m → AllFresh m ks → Inv (run m ks)
unfolding run
run-Inv m [] i f = i
run-Inv m (k ∷ ks) i f = run-Inv (step m k) ks (step-Inv m k i f.0) f.1

-- After any calls in which no request has the call id of an armed timer, a promise that was
-- returned is settled at the latest when its own timer fires.
pub run-settles :
    (ks : List Call) (p : ℕ)
    → AllFresh new_manager ks
    → p < (run new_manager ks).next_promise
    → has p (fire_timer p (run new_manager ks)).settled ≡ true
run-settles ks p f lt =
    fire_timer-settles (run new_manager ks) p (run-Inv new_manager ks new_manager-Inv f) lt

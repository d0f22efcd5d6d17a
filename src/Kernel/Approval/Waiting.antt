-- ===== src/Kernel/Approval/Waiting.antt =====
-- The invariant that every promise is settled, waits with its timer, and what a request does to it.
use personas_agentes.Common.{
  ℕ, suc, ◌<◌, String, ◌≡◌, ◌≢◌, sym, ◌⊎◌, inl, inr, Bool, true, List, some, if◌then◌else◌, arith,
  get, has, put, delete, get-put, get-delete, has-put, string_eq, nat_eq, eq_iff, nat_beq,
  ℕ_discrete, ap, ◌∙◌,
}
use personas_agentes.Kernel.Approval.{
  Request, Manager, Params, Call, requests, pending, settle, new_manager, new_request,
}

-- The promise's request waits, and its timer is armed.
abbrev pub IsWaiting : ℕ → Manager → Type 0
IsWaiting p m =
    (c : String) × (r : Request) × (get c m.waiting ≡ some r)
    × (r.promise ≡ p)
    × (get p m.timers ≡ some c)

pub record Inv (m : Manager) : Type 0 where
  pub covered : (p : ℕ) → p < m.next_promise → (has p m.settled ≡ true) ⊎ IsWaiting p m
  pub issued : (p : ℕ) (c : String) → get p m.timers ≡ some c → p < m.next_promise
  pub one_timer : (p q : ℕ) (c : String) → get p m.timers ≡ some c → get q m.timers ≡ some c → p ≡ q
  pub armed :
      (c : String) (r : Request)
      → get c m.waiting ≡ some r
      → (r.status ≡ pending) × (get r.promise m.timers ≡ some c)

-- No armed timer carries the call id of the request.
abbrev pub IsFresh : Manager → Call → Type 0
IsFresh m (requests q) = (p : ℕ) → get p m.timers ≢ some q.call_id
IsFresh m _ = Unit

pub new_manager-Inv : Inv new_manager
new_manager-Inv = record {
  covered = λ p h. elim h [ ];
  issued = λ p c h. cc;
  one_timer = λ p q c h k. cc;
  armed = λ c r h. cc;
}

pub has-settle :
    (p q : ℕ) (value : Bool) (m : Manager)
    → has q (settle p value m).settled ≡ (if nat_beq p q then true else has q m.settled)
unfolding settle
has-settle p q value m = ground (arith, has-put p q value m.settled)

pub settle_record :
    (p : ℕ) (v : Bool) (m : Manager) (w : List (String × Request)) (t : List (ℕ × String))
    → settle p v (record m { waiting = w; timers = t })
      ≡ record m { waiting = w; timers = t; settled = (settle p v m).settled }
unfolding settle
settle_record p v m w t = ground arith

settle_next :
    (p : ℕ) (v : Bool) (n : ℕ) (m : Manager)
    → settle p v (record m { next_promise = n })
      ≡ record m { next_promise = n; settled = (settle p v m).settled }
unfolding settle
settle_next p v n m = ground arith

-- The request `r` of `c` leaves the manager, and its promise is settled; its timer may go too.
module _ (m : Manager) (c : String) (r : Request) (v : Bool) (t : List (ℕ × String)) (i : Inv m)
    (h : get c m.waiting ≡ some r) (same : (p : ℕ) → p ≢ r.promise → get p t ≡ get p m.timers)
    (sub : (p : ℕ) (d : String) → get p t ≡ some d → get p m.timers ≡ some d) where
  abbrev pub removed : Manager
  removed = record m {
    waiting = delete c m.waiting;
    timers = t;
    settled = (settle r.promise v m).settled;
  }

  removed-covered :
      (p : ℕ) → p < m.next_promise → (has p removed.settled ≡ true) ⊎ IsWaiting p removed
  removed-covered p lt = elim (i.covered p lt) [
    | inl done ↦ inl (ground (arith, has-settle r.promise p v m))
    | inr (d, x, ex, px, tx) ↦ elim (ℕ_discrete r.promise p) [
      | yes own ↦ inl (ground (arith, has-settle r.promise p v m))
      | no other ↦ inr (
        d,
        x,
        ground (arith, get-delete c d m.waiting, eq_iff c d),
        px,
        same p (λ e. other (sym e)) ∙ tx,
      )
    ]
  ]

  removed-armed :
      (d : String) (s : Request)
      → get d (delete c m.waiting) ≡ some s
      → (s.status ≡ pending) × (get s.promise t ≡ some d)
  removed-armed d s e = ground (
    arith,
    get-delete c d m.waiting,
    eq_iff c d,
    i.armed c r h,
    i.armed d s,
    same s.promise,
    ap (λ p. get p m.timers) {x = s.promise} {y = r.promise},
  )

  pub removed-Inv : Inv removed
  removed-Inv = record {
    covered = removed-covered;
    issued = λ p d e. i.issued p d (sub p d e);
    one_timer = λ p q d e k. i.one_timer p q d (sub p d e) (sub q d k);
    armed = removed-armed;
  }

pub automatic-Inv :
    (m : Manager)
    → Inv m
    → Inv (settle m.next_promise true (record m { next_promise = suc m.next_promise }))
automatic-Inv m i = rw (settle_next m.next_promise true (suc m.next_promise) m) (record {
  covered = λ p lt. ground (arith, has-settle m.next_promise p true m, i.covered p);
  issued = λ p c e. omega (arith, i.issued p c e);
  one_timer = i.one_timer;
  armed = i.armed;
})

pub requested-Inv :
    (m : Manager) (q : Params)
    → Inv m
    → ((p : ℕ) → get p m.timers ≢ some q.call_id)
    → Inv (record m {
      waiting = put q.call_id (new_request q m.next_promise) m.waiting;
      timers = put m.next_promise q.call_id m.timers;
      next_promise = suc m.next_promise;
    })
requested-Inv m q i fresh = record {
  covered = λ p lt. elim (ℕ_discrete p m.next_promise) [
    | yes new ↦ inr (
      q.call_id,
      new_request q m.next_promise,
      ground (
        arith,
        get-put q.call_id q.call_id (new_request q m.next_promise) m.waiting,
        eq_iff q.call_id q.call_id,
      ),
      sym new,
      ground (arith, get-put m.next_promise p q.call_id m.timers),
    )
    | no old ↦ elim (i.covered p (omega arith)) [
      | inl done ↦ inl done
      | inr (c, r, er, pr, tr) ↦ inr (
        c,
        r,
        ground (
          arith,
          get-put q.call_id c (new_request q m.next_promise) m.waiting,
          eq_iff q.call_id c,
          fresh p,
        ),
        pr,
        ground (arith, get-put m.next_promise p q.call_id m.timers),
      )
    ]
  ];
  issued = λ p c e. ground (arith, get-put m.next_promise p q.call_id m.timers, i.issued p c);
  one_timer = λ p p' c e e'. ground (
    arith,
    get-put m.next_promise p q.call_id m.timers,
    get-put m.next_promise p' q.call_id m.timers,
    i.one_timer p p' c,
    fresh p,
    fresh p',
  );
  armed = λ c r e. ground (
    arith,
    get-put q.call_id c (new_request q m.next_promise) m.waiting,
    eq_iff q.call_id c,
    get-put m.next_promise r.promise q.call_id m.timers,
    i.armed c r,
    i.issued r.promise c,
  );
}

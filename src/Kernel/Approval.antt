-- ===== src/Kernel/Approval.antt =====
-- src_local/psa/kernel/psa_approval_manager.ts: the operator's decisions on exclusive tools.
-- A promise is a number, in the order of creation; `settled` holds the promises that are resolved,
-- with their values (`resolve` on a settled promise does nothing). A timer is kept under the promise
-- that its closure resolves, and fires at most once; nothing cancels it. The step that a timer fires
-- may come at any time, so the 60 seconds are not modelled. `args`, `createdAt` and `resolvedAt`
-- are left out: no decision reads them.
pub mod Settling
pub mod Waiting
pub mod Liveness
pub mod Issued
pub mod Orphans
mod Examples
use personas_agentes.Common.{
  ℕ, suc, String, Bool, true, false, ◌||◌, List, [], ◌∷◌, Option, none, some, if◌then◌else◌, get,
  has, put, delete, string_eq, nat_eq,
}

pub data Status : Type 0 where
  pending approved rejected : Status

pub record Request : Type 0 where
  pub call_id : String
  pub session_id : String
  pub tool_name : String
  pub status : Status
  pub promise : ℕ

pub record Manager : Type 0 where
  pub waiting : List (String × Request)
  pub timers : List (ℕ × String)
  pub settled : List (ℕ × Bool)
  pub next_promise : ℕ

-- The parameters of a call, and the two environment variables that it reads.
pub record Params : Type 0 where
  pub call_id : String
  pub session_id : String
  pub tool_name : String
  pub auto_approve_if_test : Bool
  pub psa_auto_approve : Bool
  pub dsh_auto_approve : Bool

abbrev pub new_manager : Manager
new_manager = record { waiting = []; timers = []; settled = []; next_promise = 0 }

abbrev pub is_pending : Status → Bool
is_pending pending = true
is_pending _ = false

pub settle : ℕ → Bool → Manager → Manager
settle p value m = if has p m.settled then m else record m { settled = put p value m.settled }

abbrev pub auto_approves : Params → Bool
auto_approves q = q.auto_approve_if_test || q.psa_auto_approve || q.dsh_auto_approve

abbrev pub new_request : Params → ℕ → Request
new_request q p = record {
  call_id = q.call_id;
  session_id = q.session_id;
  tool_name = q.tool_name;
  status = pending;
  promise = p;
}

-- `requestApproval`: the new manager and the promise that is returned.
pub request_approval : Params → Manager → Manager × ℕ
request_approval q m =
    let p = m.next_promise in
    if auto_approves q then (settle p true (record m { next_promise = suc p }), p) else (
      record m {
        waiting = put q.call_id (new_request q p) m.waiting;
        timers = put p q.call_id m.timers;
        next_promise = suc p;
      },
      p,
    )

-- The body of the timer's callback, for the request's call id and its own promise.
pub expire : String → ℕ → Manager → Manager
expire c p m = elim (get c m.waiting) [
  | none ↦ m
  | some r ↦
      if is_pending r.status then settle p false (record m { waiting = delete c m.waiting }) else m
]

pub fire_timer : ℕ → Manager → Manager
fire_timer p m = elim (get p m.timers) [
  | none ↦ m
  | some c ↦ expire c p (record m { timers = delete p m.timers })
]

-- `resolveApproval`.
pub resolve_approval : String → Bool → Manager → Manager × Bool
resolve_approval c approves m = elim (get c m.waiting) [
  | none ↦ (m, false)
  | some r ↦
      if is_pending r.status
      then (settle r.promise approves (record m { waiting = delete c m.waiting }), true)
      else (m, false)
]

pub data Call : Type 0 where
  requests : Params → Call
  resolves : String → Bool → Call
  fires : ℕ → Call

pub step : Manager → Call → Manager
step m (requests q) = (request_approval q m).0
step m (resolves c approves) = (resolve_approval c approves m).0
step m (fires p) = fire_timer p m

pub run : Manager → List Call → Manager
run m [] = m
run m (c ∷ cs) = run (step m c) cs

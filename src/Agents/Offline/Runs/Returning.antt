-- ===== src/Agents/Offline/Runs/Returning.antt =====
-- A call of `ensureServerRunning` returns, and what it says when it does.
use personas_agentes.Common.{
  ℕ, zero, suc, ◌<◌, ◌≤◌, ◌≡◌, refl, ap, inl, inr, String, Bool, true, false, not, ◌&&◌, List, [],
  ◌∷◌, Option, none, some, arith, Bool-cases, Option-cases, length, if◌then◌else◌, eq_iff,
  and-Decides,
}
use personas_agentes.Agents.Offline.{
  Engine, Env, Health, ok, not_ok, thrown, Call, waits_for_socket, probes, loads, done, or_model,
  is_big, required_mb, is_memory_low, is_other_model, is_same_model, force_purge,
  check_memory_safety, spawn_server, start_server, choose, ensure_server_running, resume,
}

-- The call on its own, with the answers in their order.
pub drive : List (Health × Env) → Call × Engine → Call × Engine
unfolding resume
drive [] x = x
drive ((h, env) ∷ answers) (c, e) = drive answers (resume h env c e)

abbrev pub Ready : String → Engine → Type 0
Ready name e = (e.is_warm ≡ true) × (e.current_loaded_model ≡ some name)

abbrev Good : String → Call → Engine → Type 0
Good name (waits_for_socket target path) e = target ≡ name
Good name (probes target path) e = (target ≡ name) × Ready name e
Good name (loads target big n) e = (target ≡ name) × (0 < n)
Good name (done b) e = b ≡ true → Ready name e

-- How many answers a call waits for at most.
abbrev remaining : Call → ℕ
remaining (waits_for_socket target path) = 41
remaining (probes target path) = 41
remaining (loads target big n) = n
remaining (done b) = 0

abbrev Within : ℕ → String → Call × Engine → Type 0
Within k name x = Good name x.0 x.1 × (remaining x.0 ≤ k)

failed : (k : ℕ) (name : String) (e : Engine) → Within k name (done false, e)
failed k name e = (λ b. ground (arith, b), omega arith)

start-Within :
    (target name path : String) (env : Env) (e : Engine)
    → target ≡ name
    → Within 40 name (start_server target path env e)
unfolding start_server check_memory_safety spawn_server
start-Within target name path env e p =
    elim (Bool-cases (is_memory_low (required_mb (is_big path)) env)) [
      | inl low ↦ rw low (failed 40 name (force_purge e))
      | inr fits ↦ rw fits (elim (Bool-cases env.spawns) [
        | inl y ↦ rw y ((p, omega arith), omega arith)
        | inr n ↦ rw n (failed 40 name e)
      ])
    ]

weaken : (name : String) (x : Call × Engine) → Within 40 name x → Within 41 name x
weaken name x w = (w.0, omega (arith, w.1))

resume-Within :
    (k : ℕ) (name : String) (h : Health) (env : Env) (c : Call) (e : Engine)
    → Good name c e
    → remaining c ≤ suc k
    → Within k name (resume h env c e)
unfolding resume
resume-Within k name h env (waits_for_socket target path) e g r =
    let w = start-Within target name path env e g in (w.0, omega (arith, w.1, r))
resume-Within k name ok env (probes target path) e g r = (λ b. g.1, omega arith)
resume-Within k name not_ok env (probes target path) e g r =
    let w = start-Within target name path env e g.0 in (w.0, omega (arith, w.1, r))
resume-Within k name thrown env (probes target path) e g r =
    let w = start-Within target name path env (force_purge e) g.0 in (w.0, omega (arith, w.1, r))
resume-Within k name ok env (loads target big (suc n)) e g r =
    (λ b. (refl, ap some g.0), omega arith)
resume-Within k name not_ok env (loads target big (suc (suc n))) e g r =
    ((g.0, omega arith), omega (arith, r))
resume-Within k name thrown env (loads target big (suc (suc n))) e g r =
    ((g.0, omega arith), omega (arith, r))
resume-Within k name not_ok env (loads target big (suc zero)) e g r = failed k name e
resume-Within k name thrown env (loads target big (suc zero)) e g r = failed k name e
resume-Within k name h env (loads target big zero) e g r = ground (arith, g.1)
resume-Within k name ok env (done b) e g r = (g, omega arith)
resume-Within k name not_ok env (done b) e g r = (g, omega arith)
resume-Within k name thrown env (done b) e g r = (g, omega arith)

-- How a call has returned.
pub Returned : String → Call × Engine → Type 0
Returned name x = (b : Bool) × ((x.0 ≡ done b) × (b ≡ true → Ready name x.1))

ends : (name : String) (c : Call) (e : Engine) → Within 0 name (c, e) → Returned name (c, e)
unfolding Returned
ends name (waits_for_socket target path) e w = ground (arith, w.1)
ends name (probes target path) e w = ground (arith, w.1)
ends name (loads target big n) e w = ground (arith, w.0.1, w.1)
ends name (done b) e w = (b, (refl, w.0))

drive-Returned :
    (name : String) (answers : List (Health × Env)) (c : Call) (e : Engine)
    → Within (length answers) name (c, e)
    → Returned name (drive answers (c, e))
unfolding drive
drive-Returned name [] c e w = ends name c e w
drive-Returned name ((h, env) ∷ rest) c e w =
    let x = resume h env c e in
    drive-Returned name rest x.0 x.1 (resume-Within (length rest) name h env c e w.0 w.1)

branch-Within :
    (k : ℕ) (name : String) (b : Bool) (x y : Call × Engine)
    → (b ≡ true → Within k name x)
    → Within k name y
    → Within k name (if b then x else y)
branch-Within k name true x y hx hy = hx refl
branch-Within k name false x y hx hy = hy

is_same_model-some :
    (target : String) (o : Option String) → is_same_model target o ≡ true → o ≡ some target
is_same_model-some target none h = ground (arith, h)
is_same_model-some target (some m) h = ap some ((eq_iff m target).0 h)

same-Ready :
    (target : String) (e : Engine)
    → (e.is_warm && is_same_model target e.current_loaded_model) ≡ true
    → Ready target e
same-Ready target e h =
    let both =
      (and-Decides e.is_warm (is_same_model target e.current_loaded_model) (λ x. x, λ x. x)
          (λ x. x, λ x. x)).0
        h in
    (both.0, is_same_model-some target e.current_loaded_model both.1)

choose-Within :
    (target path : String) (env : Env) (e : Engine) → Within 41 target (choose target path env e)
unfolding choose
choose-Within target path env e =
    let start = start_server target path env e in
    let same =
      if e.is_warm && is_same_model target e.current_loaded_model
      then (probes target path, e)
      else start in
    let other =
      if e.is_warm && is_other_model target e.current_loaded_model
      then (waits_for_socket target path, force_purge e)
      else same in
    branch-Within 41 target (not e.llama_server_available) (done false, e) other
      (λ a. failed 41 target e)
      (branch-Within 41 target (e.is_warm && is_other_model target e.current_loaded_model)
        (waits_for_socket target path, force_purge e) same (λ o. (refl, omega arith))
        (branch-Within 41 target (e.is_warm && is_same_model target e.current_loaded_model)
          (probes target path, e) start (λ m. ((refl, same-Ready target e m), omega arith))
          (weaken target start (start-Within target target path env e refl))))

ensure-Within :
    (target : Option String) (env : Env) (e : Engine)
    → Within 41 (or_model target e) (ensure_server_running target env e)
unfolding ensure_server_running
ensure-Within target env e = elim (Option-cases (env.model_path (or_model target e))) [
  | inl n ↦ rw (n, ensure_server_running) (failed 41 (or_model target e) e)
  | inr (path, f) ↦ rw (f, ensure_server_running) (choose-Within (or_model target e) path env e)
]

widen : (name : String) (k : ℕ) (x : Call × Engine) → 41 ≤ k → Within 41 name x → Within k name x
widen name k x h w = (w.0, omega (arith, w.1, h))

-- After 41 answers, whatever they are, a call that runs on its own has returned, and where it says
-- that the server runs, the engine is warm with the model that was asked for.
pub ensure_server_running-Returned :
    (target : Option String) (env : Env) (e : Engine) (answers : List (Health × Env))
    → 41 ≤ length answers
    → Returned (or_model target e) (drive answers (ensure_server_running target env e))
ensure_server_running-Returned target env e answers h =
    let x = ensure_server_running target env e in
    drive-Returned (or_model target e) answers x.0 x.1
      (widen (or_model target e) (length answers) x h (ensure-Within target env e))

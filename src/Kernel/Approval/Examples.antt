-- ===== src/Kernel/Approval/Examples.antt =====
-- One request that is approved, one that expires, and two that collide.
use personas_agentes.Common.{
  ◌≡◌, refl, true, false, List, [], ◌∷◌, some, get, has, string_eq, nat_eq, arith,
}
use personas_agentes.Kernel.Approval.{
  Manager, Params, Call, requests, resolves, fires, new_manager, settle, request_approval, expire,
  fire_timer, resolve_approval, step, run,
}
use personas_agentes.Kernel.Approval.Settling.{Reason, step-Reason}
use personas_agentes.Kernel.Approval.Liveness.{run-settles}
use personas_agentes.Kernel.Approval.Orphans.{collide, collide-never_settles}

abbrev shell : Params
shell = record {
  call_id = "call_1";
  session_id = "s";
  tool_name = "shell.exec";
  auto_approve_if_test = false;
  psa_auto_approve = false;
  dsh_auto_approve = false;
}

calls_run : Manager
unfolding run step request_approval resolve_approval fire_timer expire settle
calls_run = run new_manager []

approved_value :
    get 0 (run new_manager (requests shell ∷ resolves "call_1" true ∷ fires 0 ∷ [])).settled
    ≡ some true
unfolding calls_run
approved_value = refl

step-Reason_example : Reason (step new_manager (requests shell)) 0 (resolves "call_1" true) true
unfolding calls_run
step-Reason_example =
    step-Reason (step new_manager (requests shell)) (resolves "call_1" true) 0 true refl refl

abbrev one_request : List Call
one_request = requests shell ∷ []

run-settles_example : has 0 (fire_timer 0 (run new_manager one_request)).settled ≡ true
unfolding calls_run
run-settles_example = run-settles one_request 0 ((λ p e. cc), tt) (omega arith)

-- The same call id in another session.
abbrev other_shell : Params
other_shell = record shell { session_id = "t"; tool_name = "fs.write" }

collide-never_settles_example :
    has 1 (run (collide shell other_shell new_manager) (resolves "call_1" true ∷ [])).settled
    ≡ false
unfolding calls_run
collide-never_settles_example =
    collide-never_settles shell other_shell [] (resolves "call_1" true ∷ []) refl refl refl

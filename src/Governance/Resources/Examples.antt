-- ===== src/Governance/Resources/Examples.antt =====
-- A machine of eight processors, idle and short of memory.
use personas_agentes.Common.{◌≤◌, ◌<◌, ◌≡◌, ◌↔◌, refl, true, none, arith}
use personas_agentes.Governance.Resources.{
  get_resource_profile, Metrics, is_system_overloaded, get_dynamic_concurrency,
}
use personas_agentes.Governance.Resources.Throttling.{
  IsHeavier, get_dynamic_concurrency-le, get_resource_profile-le,
}

abbrev idle : Metrics
idle = record { free_memory = 8589934592; load_avg = 20; cpu_cores = 8; cpu_usage = none }

abbrev short_of_memory : Metrics
short_of_memory = record { free_memory = 500000000; load_avg = 20; cpu_cores = 8; cpu_usage = none }

falls_back : get_dynamic_concurrency 8 short_of_memory ≡ 2
unfolding get_dynamic_concurrency is_system_overloaded
falls_back = refl

short_of_memory-IsHeavier : IsHeavier idle short_of_memory
short_of_memory-IsHeavier = record {
  memory = omega arith;
  load = omega arith;
  cores = refl;
  usage = λ h. h;
}

get_dynamic_concurrency-le_holds :
    get_dynamic_concurrency 8 short_of_memory ≤ get_dynamic_concurrency 8 idle
get_dynamic_concurrency-le_holds =
    (get_dynamic_concurrency-le 8 idle short_of_memory (omega arith) short_of_memory-IsHeavier).2

get_resource_profile-le_holds :
    let p = get_resource_profile 4 8 in
    (1 ≤ p.parallelism)
    × (p.parallelism ≤ (get_resource_profile 8 64).parallelism)
    × ((p.throttle ≡ true) ↔ (8 < 16))
get_resource_profile-le_holds =
    get_resource_profile-le 4 8 8 64 (omega arith) (omega arith) (omega arith)

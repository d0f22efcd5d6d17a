-- ===== src/Governance/Resources/Throttling.antt =====
-- Concurrency under load, and parallelism by size.
use personas_agentes.Common.{ℕ, ◌≤◌, ◌<◌, ◌≡◌, ◌↔◌, true, arith}
use personas_agentes.Governance.Resources.{
  get_resource_profile, Metrics, is_over_ninety, is_system_overloaded, get_dynamic_concurrency,
}

-- Where the second machine is the first under no less load: no more free memory, no lower load
-- average, and an overloaded processor where the first has one.
pub record IsHeavier (m m' : Metrics) : Type 0 where
  pub memory : m'.free_memory ≤ m.free_memory
  pub load : m.load_avg ≤ m'.load_avg
  pub cores : m.cpu_cores ≡ m'.cpu_cores
  pub usage : is_over_ninety m.cpu_usage ≡ true → is_over_ninety m'.cpu_usage ≡ true

overloaded-heavier :
    (m m' : Metrics)
    → IsHeavier m m'
    → is_system_overloaded m ≡ true
    → is_system_overloaded m' ≡ true
unfolding is_system_overloaded
overloaded-heavier m m' h o = ground (arith, h.memory, h.load, h.cores, h.usage)

-- From a base of at least one, the concurrency is from one to the base, and a machine under more load
-- never gets more of it.
pub get_dynamic_concurrency-le :
    (base : ℕ) (m m' : Metrics)
    → 1 ≤ base
    → IsHeavier m m'
    → (1 ≤ get_dynamic_concurrency base m)
      × (get_dynamic_concurrency base m ≤ base)
      × (get_dynamic_concurrency base m' ≤ get_dynamic_concurrency base m)
unfolding get_dynamic_concurrency
get_dynamic_concurrency-le base m m' b h =
    (ground arith, ground arith, ground (arith, overloaded-heavier m m' h, h.memory))

-- On a machine with a processor, more memory and more processors never lower the parallelism, which
-- is at least one, and it is throttled exactly below 16 GB.
pub get_resource_profile-le :
    (cores cores' ram_gb ram_gb' : ℕ)
    → 1 ≤ cores
    → cores ≤ cores'
    → ram_gb ≤ ram_gb'
    → let p = get_resource_profile cores ram_gb in
      (1 ≤ p.parallelism)
      × (p.parallelism ≤ (get_resource_profile cores' ram_gb').parallelism)
      × ((p.throttle ≡ true) ↔ (ram_gb < 16))
unfolding get_resource_profile
get_resource_profile-le cores cores' ram_gb ram_gb' c cs rs =
    (ground arith, ground arith, ground arith)

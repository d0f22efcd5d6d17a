-- ===== src/Governance/Resources.antt =====
-- src_local/core/governance/resource_engine.ts: ResourceEngine.
-- Memory is counted in bytes, the load average in hundredths. `cpu_usage` is the percentage of the
-- budget's latest snapshot, `none` where there is no budget. The texts of the reasons are left out.
pub mod Throttling
mod Examples
use personas_agentes.Common.{
  ℕ, ◌*◌, ◌/◌, ◌^◌, max, Bool, true, false, ◌||◌, ◌&&◌, Option, none, some, if◌then◌else◌, ltb, leb,
  arith,
}

pub data Profile : Type 0 where
  elite_mode god_mode sovereign standard constrained : Profile

pub record ResourceProfile : Type 0 where
  pub profile : Profile
  pub parallelism : ℕ
  pub throttle : Bool

pub get_resource_profile : (cores ram_gb : ℕ) → ResourceProfile
get_resource_profile cores ram_gb =
    if leb 64 ram_gb
    then record { profile = elite_mode; parallelism = cores * 8; throttle = false }
    else if leb 32 ram_gb
    then record { profile = god_mode; parallelism = cores * 4; throttle = false }
    else if leb 16 ram_gb
    then record { profile = sovereign; parallelism = cores * 2; throttle = false }
    else if leb 8 ram_gb
    then record { profile = standard; parallelism = cores; throttle = true }
    else record { profile = constrained; parallelism = max 1 (cores / 2); throttle = true }

pub record Metrics : Type 0 where
  pub free_memory : ℕ
  pub load_avg : ℕ
  pub cpu_cores : ℕ
  pub cpu_usage : Option ℕ

abbrev pub gb : ℕ
gb = 1073741824

abbrev pub is_over_ninety : Option ℕ → Bool
is_over_ninety none = false
is_over_ninety (some u) = ltb 90 u

pub is_system_overloaded : Metrics → Bool
is_system_overloaded m =
    ltb (m.free_memory * 10) (gb * 8)
    || (ltb (m.cpu_cores * 150) m.load_avg && ltb 0 m.load_avg)
    || is_over_ninety m.cpu_usage

pub get_dynamic_concurrency : ℕ → Metrics → ℕ
unfolding is_system_overloaded
get_dynamic_concurrency base m =
    if is_system_overloaded m
    then max 1 (base / 4)
    else if ltb m.free_memory (gb * 3)
    then max 1 (base / 2)
    else base

-- ===== src/Backend/Cpu.antt =====
-- calculateCPUPercent of internal/docker/monitor.go. The counters are 64-bit, and a difference of two
-- of them wraps around. The result is a fraction: the rounding of `float64` is left out.
use vps_dashboard.Common.{ℕ, suc, zero, ◌+◌, ◌-◌, ◌*◌, ◌%◌, ◌||◌, leb, List, length, if◌then◌else◌}
pub mod Counters

-- One of the two readings of a container.
pub record CpuStats : Type 0 where
  pub total_usage : ℕ
  pub system_usage : ℕ

pub record StatsResponse : Type 0 where
  pub cpu : CpuStats
  pub pre_cpu : CpuStats
  pub online_cpus : ℕ
  pub percpu_usage : List ℕ

pub record Percent : Type 0 where
  pub numerator : ℕ
  pub denominator : ℕ

-- The subtraction of `uint64`
abbrev pub minus64 : ℕ → ℕ → ℕ
minus64 a b = (a + 18446744073709551616 - b) % 18446744073709551616

abbrev pub or_else : ℕ → ℕ → ℕ
or_else zero b = b
or_else (suc a) b = suc a

abbrev pub online_of : StatsResponse → ℕ
online_of v = or_else (or_else v.online_cpus (length v.percpu_usage % 4294967296)) 1

unfoldable pub cpu_percent : StatsResponse → Percent
cpu_percent v =
    let cpu_delta = minus64 v.cpu.total_usage v.pre_cpu.total_usage in
    let system_delta = minus64 v.cpu.system_usage v.pre_cpu.system_usage in
    if leb system_delta 0 || leb cpu_delta 0
    then record { numerator = 0; denominator = 1 }
    else record { numerator = cpu_delta * online_of v * 100; denominator = system_delta }

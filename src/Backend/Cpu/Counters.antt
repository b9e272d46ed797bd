-- ===== src/Backend/Cpu/Counters.antt =====
-- Code: internal/docker/monitor.go.
-- The share of the processors while the counters of a container grow, and after they were reset.
use vps_dashboard.Common.{
  ℕ, ◌+◌, ◌-◌, ◌*◌, ◌≤◌, ◌<◌, ◌≡◌, refl, arith, Bool, true, false, ◌||◌, leb, if◌then◌else◌,
}
use native.Mathlib.Nat.{mul-le-mul_right}
use vps_dashboard.Backend.Cpu.{StatsResponse, Percent, minus64, online_of, cpu_percent}

minus64-eq_sub : (a b : ℕ) → b ≤ a → a < 18446744073709551616 → minus64 a b ≡ a - b
minus64-eq_sub a b h k = omega (arith, h, k)

minus64-wraps :
    (a b : ℕ) → a < b → b < 18446744073709551616 → minus64 a b ≡ a + 18446744073709551616 - b
minus64-wraps a b h k = omega (arith, h, k)

-- One counter has grown.
pub record HasGrown (before now : ℕ) : Type 0 where
  pub grown : before ≤ now
  pub fits : now < 18446744073709551616

-- Both counters have grown, the one of the container by no more than the one of the host.
pub record IsCounted (v : StatsResponse) : Type 0 where
  pub total : HasGrown v.pre_cpu.total_usage v.cpu.total_usage
  pub system : HasGrown v.pre_cpu.system_usage v.cpu.system_usage
  pub within :
      v.cpu.total_usage - v.pre_cpu.total_usage ≤ v.cpu.system_usage - v.pre_cpu.system_usage

bounded :
    (none_used : Bool) (cpu system n : ℕ)
    → cpu ≤ system
    → (none_used ≡ false → 0 < system)
    → let p : Percent =
        (if none_used
          then record { numerator = 0; denominator = 1 }
          else record { numerator = cpu * n * 100; denominator = system }) in
      (0 < p.denominator) × (p.numerator ≤ 100 * n * p.denominator)
bounded true cpu system n h pos = (omega arith, omega arith)
bounded false cpu system n h pos =
    let scaled : cpu * (n * 100) ≤ system * (n * 100) = mul-le-mul_right (n * 100) h in
    (pos refl, grind (arith, scaled))

-- If the counters have grown, the container's by no more than the host's, the denominator is positive
-- and the share is at most 100 percent for each processor.
pub cpu_percent-bounded :
    (v : StatsResponse)
    → IsCounted v
    → (0 < (cpu_percent v).denominator)
      × ((cpu_percent v).numerator ≤ 100 * online_of v * (cpu_percent v).denominator)
unfolding cpu_percent
cpu_percent-bounded v h =
    let cpu = minus64-eq_sub v.cpu.total_usage v.pre_cpu.total_usage h.total.grown h.total.fits in
    let system =
      minus64-eq_sub v.cpu.system_usage v.pre_cpu.system_usage h.system.grown h.system.fits in
    let used = minus64 v.cpu.total_usage v.pre_cpu.total_usage in
    let passed = minus64 v.cpu.system_usage v.pre_cpu.system_usage in
    bounded (leb passed 0 || leb used 0) (minus64 v.cpu.total_usage v.pre_cpu.total_usage)
      (minus64 v.cpu.system_usage v.pre_cpu.system_usage) (online_of v)
      (omega (arith, cpu, system, h.within)) (λ e. ground (arith, e))

-- If the counter of the container is smaller than before, as after a restart, and the host's has grown,
-- the difference wraps around: the share is that of nearly 2^64 nanoseconds, and not zero.
pub cpu_percent-reset :
    (v : StatsResponse)
    → HasGrown v.cpu.total_usage v.pre_cpu.total_usage
    → v.cpu.total_usage < v.pre_cpu.total_usage
    → HasGrown v.pre_cpu.system_usage v.cpu.system_usage
    → v.pre_cpu.system_usage < v.cpu.system_usage
    → cpu_percent v ≡ record {
      numerator =
          (v.cpu.total_usage + 18446744073709551616 - v.pre_cpu.total_usage) * online_of v * 100;
      denominator = v.cpu.system_usage - v.pre_cpu.system_usage;
    }
unfolding cpu_percent
cpu_percent-reset v total back system on =
    let cpu = minus64-wraps v.cpu.total_usage v.pre_cpu.total_usage back total.fits in
    let sys = minus64-eq_sub v.cpu.system_usage v.pre_cpu.system_usage system.grown system.fits in
    let some_cpu : leb (v.cpu.total_usage + 18446744073709551616 - v.pre_cpu.total_usage) 0
        ≡ false =
      ground (arith, total.fits) in
    let some_system : leb (v.cpu.system_usage - v.pre_cpu.system_usage) 0 ≡ false =
      ground (arith, on) in
    rw (cpu, sys, some_cpu, some_system) refl

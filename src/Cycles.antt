-- ===== src/Cycles.antt =====
-- The backends' configurations and the conversion of durations to timer cycles: `AmdConfig`,
-- `IntelConfig`, `HardwareConfig`, `duration_to_cycles`, `mwaitx_timeout_cycles`,
-- `umwait_timeout_cycles` and `umwait_deadline` of src/strategy.rs.
pub mod Bounds
use snoozer.Prelude.{ℕ, ◌/◌, max, ltb, if◌then◌else◌}
use snoozer.Words.{max_value, saturating_mul, saturating_add, try_from_or_max, clamp}
use snoozer.Errors.{HardwareBackend, amd_mwaitx, intel_umwait}
use snoozer.Machine.{Env, M, pure, ◌>>=◌, read_tsc_ordered}

abbrev pub nanos_per_second : ℕ
nanos_per_second = 1_000_000_000

-- `Duration::from_millis(1)`
abbrev pub mwaitx_safety_timeout : ℕ
mwaitx_safety_timeout = 1_000_000

abbrev pub umwait_safety_timeout : ℕ
umwait_safety_timeout = 1_000_000

abbrev pub no_c_state_hint : ℕ
no_c_state_hint = 0xf0

abbrev pub c1_state_hint : ℕ
c1_state_hint = 0

-- The duration is a number of nanoseconds.
unfoldable pub duration_to_cycles : ℕ → ℕ → ℕ
duration_to_cycles duration timer_hz =
    let cycles = saturating_mul 128 duration timer_hz / nanos_per_second in
    try_from_or_max 32 (clamp cycles 1 (max_value 32))

unfoldable pub duration_to_cycles_u64 : ℕ → ℕ → ℕ
duration_to_cycles_u64 duration timer_hz =
    let cycles = saturating_mul 128 duration timer_hz / nanos_per_second in
    try_from_or_max 64 (clamp cycles 1 (max_value 64))

pub record AmdConfig : Type 0 where
  pub timer_hz : ℕ
  pub safety_timeout_cycles : ℕ

pub record IntelConfig : Type 0 where
  pub timer_hz : ℕ
  pub safety_timeout_cycles : ℕ

-- `AmdConfig::new`
abbrev pub new_amd : ℕ → AmdConfig
new_amd timer_hz = record {
  timer_hz = timer_hz;
  safety_timeout_cycles = duration_to_cycles mwaitx_safety_timeout timer_hz;
}

-- `IntelConfig::new`
abbrev pub new_intel : ℕ → IntelConfig
new_intel timer_hz = record {
  timer_hz = timer_hz;
  safety_timeout_cycles = duration_to_cycles_u64 umwait_safety_timeout timer_hz;
}

pub data HardwareConfig : Type 0 where
  amd : AmdConfig → HardwareConfig
  intel : IntelConfig → HardwareConfig

-- `HardwareConfig::backend`
abbrev pub backend : HardwareConfig → HardwareBackend
backend (amd _) = amd_mwaitx
backend (intel _) = intel_umwait

unfoldable pub mwaitx_timeout_cycles : AmdConfig → ℕ → ℕ
mwaitx_timeout_cycles config remaining =
    if ltb remaining mwaitx_safety_timeout
    then duration_to_cycles remaining config.timer_hz
    else config.safety_timeout_cycles

unfoldable pub umwait_timeout_cycles : IntelConfig → ℕ → ℕ
umwait_timeout_cycles config remaining =
    if ltb remaining umwait_safety_timeout
    then duration_to_cycles_u64 remaining config.timer_hz
    else config.safety_timeout_cycles

unfoldable pub umwait_deadline : Env → ℕ → M ℕ
umwait_deadline env timeout_cycles = do
  now ← read_tsc_ordered env
  pure (saturating_add 64 now (max timeout_cycles 1))

-- ===== src/Preflight/Config.antt =====
-- `select_backend`, `require_shared_timer_capabilities`, `prepare_hardware_config` and
-- `prepare_and_probe_hardware_wait` of src/strategy.rs. What the operating system and the timer
-- calibration answer is a parameter, as the closures are in the source.
pub mod Asked
pub mod Exact
pub mod Detected
use snoozer.Prelude.{
  ℕ, ◌≡◌, ◌≢◌, ◌⊎◌, ◌↔◌, inl, inr, refl, Bool, true, false, not, ◌&&◌, Option, none, some,
  if◌then◌else◌, arith,
}
use snoozer.Machine.{World, M, pure, ◌>>=◌}
use snoozer.Outcome.{Upto, Upto-bind}
use snoozer.Errors.{
  Strategy, HardwareBackend, amd_mwaitx, intel_umwait, UnsupportedReason, unsupported_target,
  unsupported_cpu_vendor, missing_monitorx_mwaitx, missing_waitpkg, missing_invariant_tsc,
  missing_rdtscp, tsc_access_disabled, unstable_timer_calibration, HardwareWaitError,
  PreflightFailure, Result, ok, err,
}
use snoozer.Capabilities.{Capabilities}
use snoozer.Cycles.{HardwareConfig, amd, intel, new_amd, new_intel, backend}

-- `unsupported`
unfoldable pub unsupported : UnsupportedReason → HardwareWaitError
unsupported reason =
    HardwareWaitError.unsupported (record { strategy = Strategy.hardware_wait; reason = reason })

-- `bool` equality
abbrev same : Bool → Bool → Bool
same true b = b
same false b = not b

unfoldable pub select_backend : Capabilities → Result HardwareBackend UnsupportedReason
select_backend detected =
    if not detected.supported_target
    then err unsupported_target
    else if same detected.amd_vendor detected.intel_vendor
    then err unsupported_cpu_vendor
    else if detected.amd_vendor && not detected.monitorx_mwaitx
    then err missing_monitorx_mwaitx
    else if detected.amd_vendor
    then ok amd_mwaitx
    else if detected.intel_vendor && not detected.waitpkg
    then err missing_waitpkg
    else ok intel_umwait

unfoldable pub require_shared_timer_capabilities :
    Capabilities → Result (Unit {0}) HardwareWaitError
require_shared_timer_capabilities detected =
    if not detected.invariant_tsc
    then err (unsupported missing_invariant_tsc)
    else if not detected.rdtscp
    then err (unsupported missing_rdtscp)
    else ok tt

-- The answer of a calibration as a configuration: `.ok_or_else(..)?` and the constructor.
abbrev pub calibrated : (ℕ → HardwareConfig) → Option ℕ → Result HardwareConfig HardwareWaitError
calibrated config none = err (unsupported unstable_timer_calibration)
calibrated config (some timer_hz) = ok (config timer_hz)

abbrev pub amd_of : ℕ → HardwareConfig
amd_of timer_hz = amd (new_amd timer_hz)

abbrev pub intel_of : ℕ → HardwareConfig
intel_of timer_hz = intel (new_intel timer_hz)

module _ (userspace_tsc_is_enabled : M Bool)
    (calibrate_amd_timer_hz calibrate_intel_timer_hz : M (Option ℕ)) where
  -- the `match backend` of `prepare_hardware_config`
  abbrev calibrate : HardwareBackend → M (Result HardwareConfig HardwareWaitError)
  calibrate amd_mwaitx = do timer_hz ← calibrate_amd_timer_hz; pure (calibrated amd_of timer_hz)
  calibrate intel_umwait = do
    timer_hz ← calibrate_intel_timer_hz
    pure (calibrated intel_of timer_hz)

  -- `prepare_hardware_config` after the checks of the processor
  abbrev pub ask : HardwareBackend → M (Result HardwareConfig HardwareWaitError)
  ask selected = do
    enabled ← userspace_tsc_is_enabled
    if enabled then calibrate selected else pure (err (unsupported tsc_access_disabled))

  -- `prepare_hardware_config` after `select_backend`
  abbrev prepare_backend :
      Capabilities
      → Result HardwareBackend UnsupportedReason
      → M (Result HardwareConfig HardwareWaitError)
  prepare_backend detected (err reason) = pure (err (unsupported reason))
  prepare_backend detected (ok selected) = elim (require_shared_timer_capabilities detected) [
    | err error ↦ pure (err error)
    | ok _ ↦ ask selected
  ]

  unfoldable pub prepare_hardware_config :
      Capabilities → M (Result HardwareConfig HardwareWaitError)
  unfolding select_backend require_shared_timer_capabilities
  prepare_hardware_config detected = prepare_backend detected (select_backend detected)

-- ===== src/Preflight/Cell.antt =====
-- `HARDWARE_PREFLIGHT` of src/strategy.rs, the process-wide cell with the result of the preflight:
-- `initialize_once`, `run_hardware_preflight`, `HardwareWait::preflight`, and the constructors of the
-- hardware strategies, which only read the cell. `OnceLock` runs one initialiser at a time, so calls
-- are a sequence.
pub mod Once
pub mod Prepared
use snoozer.Prelude.{ℕ, Bool, Option, none, some}
use snoozer.Machine.{Env, M, pure, ◌>>=◌}
use snoozer.Errors.{
  HardwareWaitError, preflight_required, preflight_panicked, unsupported_cpu_vendor, Result, ok,
  err,
}
use snoozer.Capabilities.{Capabilities}
use snoozer.Cycles.{AmdConfig, HardwareConfig, amd, intel}
use snoozer.Preflight.Config.{unsupported, prepare_hardware_config}
use snoozer.Preflight.Probe.{
  Helper, PreflightReport, Unwind, returned, panicked, functional_preflight,
}

pub record PreparedHardwareWait : Type 0 where
  pub config : HardwareConfig
  pub report : PreflightReport

-- `Result::map`
abbrev pub map {ℓ} :
    {A B : Type ℓ} → (A → B) → Result A HardwareWaitError → Result B HardwareWaitError
map f (ok a) = ok (f a)
map f (err error) = err error

-- `catch_unwind(..).unwrap_or(Err(PreflightPanicked))`
abbrev pub caught {ℓ} :
    {T : Type ℓ} → Unwind (Result T HardwareWaitError) → Result T HardwareWaitError
caught (returned result) = result
caught panicked = err preflight_panicked

-- `OnceLock<Result<T, HardwareWaitError>>`
abbrev pub OnceLock {ℓ} : Type ℓ → Type ℓ
OnceLock T = Option (Result T HardwareWaitError)

-- The result, with the cell after the call.
unfoldable pub initialize_once :
    {T : Type 0}
    → OnceLock T
    → M (Unwind (Result T HardwareWaitError))
    → M (Result T HardwareWaitError × OnceLock T)
initialize_once (some cached) initialize = pure (cached, some cached)
initialize_once none initialize = do result ← initialize; pure (caught result, some (caught result))

abbrev pub prepared_with :
    HardwareConfig
    → Unwind (Result PreflightReport HardwareWaitError)
    → Unwind (Result PreparedHardwareWait HardwareWaitError)
prepared_with config panicked = panicked
prepared_with config (returned result) =
    returned (map (λ report. record { config = config; report = report }) result)

-- `let config = prepare()?;`, with what follows it
abbrev pub if_prepared :
    (HardwareConfig → M (Unwind (Result PreparedHardwareWait HardwareWaitError)))
    → Result HardwareConfig HardwareWaitError
    → M (Unwind (Result PreparedHardwareWait HardwareWaitError))
if_prepared rest (err error) = pure (returned (err error))
if_prepared rest (ok config) = rest config

unfoldable pub prepare_and_probe_hardware_wait :
    M (Result HardwareConfig HardwareWaitError)
    → (HardwareConfig → M (Unwind (Result PreflightReport HardwareWaitError)))
    → M (Unwind (Result PreparedHardwareWait HardwareWaitError))
prepare_and_probe_hardware_wait prepare probe = do
  config ← prepare
  if_prepared (λ config. do report ← probe config; pure (prepared_with config report)) config

-- The machine that the preflight asks: what `capabilities()` detected, and the closures.
pub record Platform : Type 0 where
  pub env : Env
  pub detected : Capabilities
  pub userspace_tsc_is_enabled : M Bool
  pub calibrate_amd_timer_hz : M (Option ℕ)
  pub calibrate_intel_timer_hz : M (Option ℕ)
  pub helpers : ℕ → Helper

unfoldable pub run_hardware_preflight :
    Platform → M (Unwind (Result PreparedHardwareWait HardwareWaitError))
unfolding prepare_and_probe_hardware_wait
run_hardware_preflight p =
    prepare_and_probe_hardware_wait
      (prepare_hardware_config p.userspace_tsc_is_enabled p.calibrate_amd_timer_hz
        p.calibrate_intel_timer_hz p.detected)
      (λ config. functional_preflight p.env config p.helpers)

-- `HardwareWait::preflight`
unfoldable pub preflight :
    M (Unwind (Result PreparedHardwareWait HardwareWaitError))
    → OnceLock PreparedHardwareWait
    → M (Result PreflightReport HardwareWaitError × OnceLock PreparedHardwareWait)
unfolding initialize_once
preflight run cell = do
  (result, cell') ← initialize_once cell run
  pure (map (λ prepared. prepared.report) result, cell')

-- `HardwareWait::new`
unfoldable pub new_hardware_wait :
    OnceLock PreparedHardwareWait → Result HardwareConfig HardwareWaitError
new_hardware_wait none = err preflight_required
new_hardware_wait (some (ok prepared)) = ok prepared.config
new_hardware_wait (some (err error)) = err error

-- `SpinThenHardwareWait::new`
unfoldable pub new_spin_then_hardware_wait :
    OnceLock PreparedHardwareWait → ℕ → Result (ℕ × HardwareConfig) HardwareWaitError
unfolding new_hardware_wait
new_spin_then_hardware_wait cell spin_iterations =
    map (λ hardware. (spin_iterations, hardware)) (new_hardware_wait cell)

-- the `?` and the `match` of `AmdMwaitxC1::new`
abbrev amd_only : Result HardwareConfig HardwareWaitError → Result AmdConfig HardwareWaitError
amd_only (ok (amd config)) = ok config
amd_only (ok (intel config)) = err (unsupported unsupported_cpu_vendor)
amd_only (err error) = err error

-- `AmdMwaitxC1::new`
unfoldable pub new_amd_mwaitx_c1 :
    OnceLock PreparedHardwareWait → Result AmdConfig HardwareWaitError
unfolding new_hardware_wait
new_amd_mwaitx_c1 cell = amd_only (new_hardware_wait cell)

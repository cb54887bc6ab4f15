-- ===== src/Preflight/Cell/Prepared.antt =====
-- What a successful preflight of this process says of the machine.
use snoozer.Prelude.{◌≡◌, ◌≤◌, true, some}
use snoozer.Machine.{World, pure, ◌>>=◌}
use snoozer.Outcome.{Returns-Upto, Upto, Upto-self, Upto-bind}
use snoozer.Errors.{HardwareWaitError, Result, ok, err}
use snoozer.Cycles.{HardwareConfig, backend}
use snoozer.Preflight.Config.{prepare_hardware_config}
use snoozer.Preflight.Config.Asked.{Supports, HasTimer, Calibrated}
use snoozer.Preflight.Config.Exact.{prepare_hardware_config_exact}
use snoozer.Preflight.Probe.{
  PreflightReport, Unwind, returned, panicked, functional_preflight, preflight_min_block,
  preflight_store_attempts,
}
use snoozer.Preflight.Probe.Evidence.{Concluded, functional_preflight_total}
use snoozer.Preflight.Cell.{
  PreparedHardwareWait, Platform, prepared_with, if_prepared, run_hardware_preflight,
}

module _ (p : Platform) (w : World) where
  -- The configuration is the one of a processor that supports it, made from its own calibration.
  abbrev Configured : HardwareConfig → World → Type 0
  Configured config v =
      Supports p.detected (backend config)
      × HasTimer p.detected
      × (u : World) × (p.userspace_tsc_is_enabled w ≡ some (true, u))
      × Calibrated p.userspace_tsc_is_enabled p.calibrate_amd_timer_hz p.calibrate_intel_timer_hz
          config u v

  -- and the report is evidence for it.
  abbrev pub Trusted : Unwind (Result PreparedHardwareWait HardwareWaitError) → World → Type 0
  Trusted (returned (ok prepared)) v =
      ((u : World) × Configured prepared.config u)
      × (prepared.report.backend ≡ backend prepared.config)
      × (prepared.report.verified_store_wakes ≡ 2)
      × (2 ≤ prepared.report.attempts)
      × (prepared.report.attempts ≤ preflight_store_attempts)
      × (preflight_min_block ≤ prepared.report.baseline_wait)
  Trusted _ v = Unit

  probed :
      (config : HardwareConfig) (u v : World)
      → Configured config u
      → (r : Unwind (Result PreflightReport HardwareWaitError))
      → Concluded p.env config p.helpers r v
      → Trusted (prepared_with config r) v
  probed config u v h panicked c = tt
  probed config u v h (returned (err error)) c = tt
  probed config u v h (returned (ok report)) c = ((u, h), c.0, c.1, c.2, c.3, c.4)

  after_prepare :
      (r : Result HardwareConfig HardwareWaitError) (u : World)
      → prepare_hardware_config p.userspace_tsc_is_enabled p.calibrate_amd_timer_hz
          p.calibrate_intel_timer_hz p.detected w
        ≡ some (r, u)
      → Upto Trusted (
          if_prepared
            (λ config. do
              report ← functional_preflight p.env config p.helpers
              pure (prepared_with config report))
            r
            u)
  after_prepare (err error) u e = tt
  after_prepare (ok config) u e =
      Upto-bind (Concluded p.env config p.helpers) Trusted _
        (functional_preflight p.env config p.helpers) u
        (Returns-Upto (Concluded p.env config p.helpers)
          (functional_preflight p.env config p.helpers u)
          (functional_preflight_total p.env config p.helpers u))
        λ r v c.
          probed config u v
            ((prepare_hardware_config_exact p.userspace_tsc_is_enabled p.calibrate_amd_timer_hz
                p.calibrate_intel_timer_hz p.detected config w u).0
              e)
            r c

  -- If the preflight of the process succeeds, then the processor supports the backend of the prepared
  -- configuration, has an invariant counter and RDTSCP, user space may read the counter, and the
  -- configuration was made from that backend's calibration; and its report is about that backend,
  -- with two verified store wakes in at most 16 attempts and a baseline wait of a microsecond or more.
  pub run_hardware_preflight_sound : Upto Trusted (run_hardware_preflight p w)
  unfolding run_hardware_preflight
  run_hardware_preflight_sound =
      Upto-bind
        (λ r u.
          prepare_hardware_config p.userspace_tsc_is_enabled p.calibrate_amd_timer_hz
            p.calibrate_intel_timer_hz p.detected w
          ≡ some (r, u))
        Trusted _
        (prepare_hardware_config p.userspace_tsc_is_enabled p.calibrate_amd_timer_hz
          p.calibrate_intel_timer_hz p.detected)
        w (Upto-self _) λ r u e. after_prepare r u e

-- ===== src/Preflight/Config/Asked.antt =====
-- What `prepare_hardware_config` asked the machine, and what was answered, when it gave a
-- configuration.
use snoozer.Prelude.{ℕ, ◌≡◌, ◌⊎◌, Bool, true, false, Option, none, some, arith, if◌then◌else◌}
use snoozer.Machine.{World, M, pure, ◌>>=◌}
use snoozer.Outcome.{bind-some}
use snoozer.Errors.{
  HardwareBackend, amd_mwaitx, intel_umwait, HardwareWaitError, tsc_access_disabled, Result, ok,
  err,
}
use snoozer.Capabilities.{Capabilities}
use snoozer.Cycles.{AmdConfig, IntelConfig, HardwareConfig, amd, intel, new_amd, new_intel}
use snoozer.Preflight.Config.{
  unsupported, prepare_hardware_config, amd_of, intel_of, ask, calibrated,
}

-- What the documentation asks of a processor for a backend: one known vendor and its instructions.
abbrev pub Supports : Capabilities → HardwareBackend → Type 0
Supports c amd_mwaitx =
    (c.supported_target ≡ true)
    × (c.amd_vendor ≡ true)
    × (c.intel_vendor ≡ false)
    × (c.monitorx_mwaitx ≡ true)
Supports c intel_umwait =
    (c.supported_target ≡ true)
    × (c.intel_vendor ≡ true)
    × (c.amd_vendor ≡ false)
    × (c.waitpkg ≡ true)

abbrev pub HasTimer : Capabilities → Type 0
HasTimer c = (c.invariant_tsc ≡ true) × (c.rdtscp ≡ true)

module _ (userspace_tsc_is_enabled : M Bool)
    (calibrate_amd_timer_hz calibrate_intel_timer_hz : M (Option ℕ)) where
  -- The calibration of the backend, and only it, gave the frequency of the configuration.
  abbrev pub Calibrated : HardwareConfig → World → World → Type 0
  Calibrated (amd c) u w =
      (hz : ℕ) × (calibrate_amd_timer_hz u ≡ some (some hz, w)) × (c ≡ new_amd hz)
  Calibrated (intel c) u w =
      (hz : ℕ) × (calibrate_intel_timer_hz u ≡ some (some hz, w)) × (c ≡ new_intel hz)

  abbrev pub Asked :
      Capabilities
      → HardwareBackend
      → Result HardwareConfig HardwareWaitError
      → World
      → World
      → Type 0
  Asked c b r w w' =
      Supports c b
      × HasTimer c
      × (ask userspace_tsc_is_enabled calibrate_amd_timer_hz calibrate_intel_timer_hz b w
          ≡ some (r, w'))

  pub asked :
      (c : Capabilities) (config : HardwareConfig) (w w' : World)
      → prepare_hardware_config userspace_tsc_is_enabled calibrate_amd_timer_hz
          calibrate_intel_timer_hz c w
        ≡ some (ok config, w')
      → Asked c amd_mwaitx (ok config) w w' ⊎ Asked c intel_umwait (ok config) w w'
  unfolding prepare_hardware_config
  asked c config w w' h = ground arith

  module _ (of : ℕ → HardwareConfig) (calibration : M (Option ℕ)) (config : HardwareConfig)
      (w' : World) where
    measured :
        (hz : Option ℕ) (u v : World)
        → calibration u ≡ some (hz, v)
        → pure (calibrated of hz) v ≡ some (ok config, w')
        → (hz : ℕ) × (calibration u ≡ some (some hz, w')) × (config ≡ of hz)
    measured none u v e h = ground arith
    measured (some hz) u v e h = (hz, ground arith, ground arith)

    enabled_first :
        (enabled : Bool) (w u : World)
        → userspace_tsc_is_enabled w ≡ some (enabled, u)
        → (if enabled
              then (do hz ← calibration; pure (calibrated of hz))
              else pure (err (unsupported tsc_access_disabled)))
            u
          ≡ some (ok config, w')
        → (u : World) × (userspace_tsc_is_enabled w ≡ some (true, u))
          × ((hz : ℕ) × (calibration u ≡ some (some hz, w')) × (config ≡ of hz))
    enabled_first false w u e h = ground arith
    enabled_first true w u e h =
        let (hz, v, e', h') =
          bind-some (λ hz. pure (calibrated of hz)) (ok config) w' calibration u h in
        (u, e, measured hz u v e' h')

    answered :
        (w : World)
        → (do
          enabled ← userspace_tsc_is_enabled
          if enabled
              then (do hz ← calibration; pure (calibrated of hz))
              else pure (err (unsupported tsc_access_disabled)))
            w
          ≡ some (ok config, w')
        → (u : World) × (userspace_tsc_is_enabled w ≡ some (true, u))
          × ((hz : ℕ) × (calibration u ≡ some (some hz, w')) × (config ≡ of hz))
    answered w h =
        let (enabled, u, e, h') =
          bind-some
            (λ enabled.
              if enabled
              then (do hz ← calibration; pure (calibrated of hz))
              else pure (err (unsupported tsc_access_disabled)))
            (ok config) w' userspace_tsc_is_enabled w h in
        enabled_first enabled w u e h'

  abbrev pub Queried : HardwareConfig → World → World → Type 0
  Queried config w w' =
      (u : World) × (userspace_tsc_is_enabled w ≡ some (true, u)) × Calibrated config u w'

  pub amd-Queried :
      (x : AmdConfig) (w w' : World)
      → ask userspace_tsc_is_enabled calibrate_amd_timer_hz calibrate_intel_timer_hz amd_mwaitx w
        ≡ some (ok (amd x), w')
      → Queried (amd x) w w'
  amd-Queried x w w' h =
      let (u, e, (hz, e', eq)) = answered amd_of calibrate_amd_timer_hz (amd x) w' w h in
      (u, e, (hz, e', ground arith))

  pub intel-Queried :
      (x : IntelConfig) (w w' : World)
      → ask userspace_tsc_is_enabled calibrate_amd_timer_hz calibrate_intel_timer_hz intel_umwait w
        ≡ some (ok (intel x), w')
      → Queried (intel x) w w'
  intel-Queried x w w' h =
      let (u, e, (hz, e', eq)) = answered intel_of calibrate_intel_timer_hz (intel x) w' w h in
      (u, e, (hz, e', ground arith))

  -- An Intel configuration is not prepared by the AMD calibration.
  pub not_amd :
      (x : IntelConfig) (w w' : World)
      → ¬ (
          ask userspace_tsc_is_enabled calibrate_amd_timer_hz calibrate_intel_timer_hz amd_mwaitx w
          ≡ some (ok (intel x), w'))
  not_amd x w w' h =
      let (u, e, (hz, e', eq)) = answered amd_of calibrate_amd_timer_hz (intel x) w' w h in
      ground arith

  pub not_intel :
      (x : AmdConfig) (w w' : World)
      → ¬ (
          ask userspace_tsc_is_enabled calibrate_amd_timer_hz calibrate_intel_timer_hz intel_umwait
            w
          ≡ some (ok (amd x), w'))
  not_intel x w w' h =
      let (u, e, (hz, e', eq)) = answered intel_of calibrate_intel_timer_hz (amd x) w' w h in
      ground arith

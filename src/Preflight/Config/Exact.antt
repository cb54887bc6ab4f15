-- ===== src/Preflight/Config/Exact.antt =====
-- When the preflight chooses a configuration, and what it asked the machine before that.
use snoozer.Prelude.{
  ℕ, ◌≡◌, ◌⊎◌, ◌↔◌, inl, inr, refl, Bool, true, false, Option, some, arith, Bool-cases,
}
use snoozer.Machine.{World, M}
use snoozer.Errors.{
  HardwareBackend, amd_mwaitx, intel_umwait, UnsupportedReason, missing_rdtscp,
  missing_invariant_tsc, Result, ok, err,
}
use snoozer.Capabilities.{Capabilities}
use snoozer.Cycles.{HardwareConfig, amd, intel, backend}
use snoozer.Preflight.Config.{unsupported, select_backend, prepare_hardware_config}
use snoozer.Preflight.Config.Asked.{
  Supports, HasTimer, Calibrated, asked, amd-Queried, intel-Queried, not_amd, not_intel,
}

-- A backend is selected exactly when the target is supported, the processor is of that vendor and
-- not of the other, and it has the vendor's wait instructions.
pub select_backend_exact :
    (c : Capabilities) (b : HardwareBackend) → (select_backend c ≡ ok b) ↔ Supports c b
unfolding select_backend
select_backend_exact c amd_mwaitx = ground arith
select_backend_exact c intel_umwait = ground arith

selected :
    (c : Capabilities)
    → ((reason : UnsupportedReason) × (select_backend c ≡ err reason))
      ⊎ ((b : HardwareBackend) × (select_backend c ≡ ok b))
selected c = by_case (select_backend c)
  where
    by_case :
        (r : Result HardwareBackend UnsupportedReason)
        → ((reason : UnsupportedReason) × (r ≡ err reason)) ⊎ ((b : HardwareBackend) × (r ≡ ok b))
    by_case (err reason) = inl (reason, refl)
    by_case (ok b) = inr (b, refl)

-- what is missing where a backend is supported and the counter is invariant
no_rdtscp :
    (c : Capabilities) (b : HardwareBackend)
    → Supports c b
    → ((b : HardwareBackend) → ¬ Supports c b) ⊎ (c.invariant_tsc ≡ false) ⊎ (c.rdtscp ≡ false)
    → c.invariant_tsc ≡ true
    → c.rdtscp ≡ false
no_rdtscp c b s (inl none_fits) has = absurd (none_fits b s)
no_rdtscp c b s (inr h) has = ground arith

module _ (userspace_tsc_is_enabled : M Bool)
    (calibrate_amd_timer_hz calibrate_intel_timer_hz : M (Option ℕ)) where
  -- A configuration is prepared exactly when the processor supports its backend, has an invariant
  -- counter and RDTSCP, user space may read the counter, and then the calibration of that backend
  -- gave its frequency; nothing else is asked, and in that order.
  pub prepare_hardware_config_exact :
      (c : Capabilities) (config : HardwareConfig) (w w' : World)
      → (prepare_hardware_config userspace_tsc_is_enabled calibrate_amd_timer_hz
            calibrate_intel_timer_hz c w
          ≡ some (ok config, w'))
        ↔ (Supports c (backend config)
            × HasTimer c
            × (u : World) × (userspace_tsc_is_enabled w ≡ some (true, u))
            × Calibrated userspace_tsc_is_enabled calibrate_amd_timer_hz calibrate_intel_timer_hz
                config u w')
  unfolding prepare_hardware_config
  prepare_hardware_config_exact c (amd x) w w' = (
    λ h.
        elim (asked userspace_tsc_is_enabled calibrate_amd_timer_hz calibrate_intel_timer_hz c
          (amd x) w w' h) [
            | inl (s, t, a) ↦
                let q =
                  amd-Queried userspace_tsc_is_enabled calibrate_amd_timer_hz
                    calibrate_intel_timer_hz x w w' a in
                (s, t, q.0, q.1, q.2)
            | inr (s, t, a) ↦ absurd (
                not_intel userspace_tsc_is_enabled calibrate_amd_timer_hz calibrate_intel_timer_hz x
                  w w' a)
          ],
    λ h. ground arith,
  )
  prepare_hardware_config_exact c (intel x) w w' = (
    λ h.
        elim (asked userspace_tsc_is_enabled calibrate_amd_timer_hz calibrate_intel_timer_hz c
          (intel x) w w' h) [
            | inl (s, t, a) ↦ absurd (
                not_amd userspace_tsc_is_enabled calibrate_amd_timer_hz calibrate_intel_timer_hz x w
                  w' a)
            | inr (s, t, a) ↦
                let q =
                  intel-Queried userspace_tsc_is_enabled calibrate_amd_timer_hz
                    calibrate_intel_timer_hz x w w' a in
                (s, t, q.0, q.1, q.2)
          ],
    λ h. ground arith,
  )

  -- A processor that supports no backend, or has no invariant counter or no RDTSCP, is refused with
  -- a reason before anything is asked userspace_tsc_is_enabled calibrate_amd_timer_hz calibrate_intel_timer_hz of the machine.
  pub prepare_hardware_config_refuses :
      (c : Capabilities) (w : World)
      → (((b : HardwareBackend) → ¬ Supports c b) ⊎ (c.invariant_tsc ≡ false) ⊎ (c.rdtscp ≡ false))
      → (reason : UnsupportedReason) × (prepare_hardware_config userspace_tsc_is_enabled
            calibrate_amd_timer_hz calibrate_intel_timer_hz c w
          ≡ some (err (unsupported reason), w))
  unfolding prepare_hardware_config
  prepare_hardware_config_refuses c w h = elim (selected c) [
    | inl (reason, e) ↦ (reason, ground arith)
    | inr (b, e) ↦ elim (Bool-cases c.invariant_tsc) [
      | inl has ↦
          (missing_rdtscp, ground (arith, no_rdtscp c b ((select_backend_exact c b).0 e) h has))
      | inr lacks ↦ (missing_invariant_tsc, ground arith)
    ]
  ]

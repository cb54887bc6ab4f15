-- ===== src/Tests/Timing.antt =====
-- The timer arithmetic at concrete frequencies.
use snoozer.Prelude.{◌-◌, ◌*◌, ◌≡◌, ◌≢◌, ◌≤◌, ◌↔◌, ◌⊎◌, refl, min, max, none, some, [], ◌∷◌, arith}
use snoozer.Words.{max_value}
use snoozer.Outcome.{Upto, Returns}
use snoozer.Cycles.{
  nanos_per_second, new_amd, new_intel, mwaitx_timeout_cycles, umwait_timeout_cycles,
}
use snoozer.Cycles.Bounds.{mwaitx_timeout_cycles_bounded, umwait_timeout_cycles_bounded}
use snoozer.Capabilities.Amd
use snoozer.Capabilities.Intel
use snoozer.Timer.{
  conservative_timer_hz, tsc_from_halves, split_tsc_deadline, tsc_frequency_from_observation,
  calibrate_amd_timer_hz, calibrate_intel_timer_hz,
}
use snoozer.Timer.Observation.{
  Usable, Measured, conservative_timer_hz_exact, split_tsc_deadline-tsc_from_halves,
  tsc_frequency_from_observation_exact,
}
use snoozer.Timer.Calibration.{Chosen, Runs, calibrate_timer_hz_sound, calibrate_timer_hz_total}
use snoozer.Tests.{amd_cpuid, steady_env, at_rest}

mwaitx_timeout_cycles_bounded_example :
    (1 ≤ mwaitx_timeout_cycles (new_amd 2_000_000_000) 5_000)
    × (mwaitx_timeout_cycles (new_amd 2_000_000_000) 5_000
        ≤ (new_amd 2_000_000_000).safety_timeout_cycles)
    × ((new_amd 2_000_000_000).safety_timeout_cycles ≤ max_value 32)
    × ((mwaitx_timeout_cycles (new_amd 2_000_000_000) 5_000 ≡ 1)
        ⊎ (mwaitx_timeout_cycles (new_amd 2_000_000_000) 5_000 * nanos_per_second
            ≤ 5_000 * 2_500_000_000))
mwaitx_timeout_cycles_bounded_example =
    mwaitx_timeout_cycles_bounded 2_000_000_000 2_500_000_000 5_000 (omega arith)

umwait_timeout_cycles_bounded_example :
    (1 ≤ umwait_timeout_cycles (new_intel 2_000_000_000) 5_000)
    × (umwait_timeout_cycles (new_intel 2_000_000_000) 5_000
        ≤ (new_intel 2_000_000_000).safety_timeout_cycles)
    × ((new_intel 2_000_000_000).safety_timeout_cycles ≤ max_value 64)
    × ((umwait_timeout_cycles (new_intel 2_000_000_000) 5_000 ≡ 1)
        ⊎ (umwait_timeout_cycles (new_intel 2_000_000_000) 5_000 * nanos_per_second
            ≤ 5_000 * 2_500_000_000))
umwait_timeout_cycles_bounded_example =
    umwait_timeout_cycles_bounded 2_000_000_000 2_500_000_000 5_000 (omega arith)

split_tsc_deadline-tsc_from_halves_example :
    (split_tsc_deadline (tsc_from_halves 7 9) ≡ (9, 7))
    × (tsc_from_halves (split_tsc_deadline 50_000_000_000).1 (split_tsc_deadline 50_000_000_000).0
        ≡ 50_000_000_000)
split_tsc_deadline-tsc_from_halves_example =
    split_tsc_deadline-tsc_from_halves 7 9 50_000_000_000 (omega arith) (omega arith) (omega arith)

tsc_frequency_from_observation_exact_example :
    ((tsc_frequency_from_observation 100 3 6_000_100 3 2_000_000 ≢ none)
      ↔ Usable 100 3 6_000_100 3 2_000_000)
    × Measured
        (6_000_100 - 100)
        2_000_000
        (tsc_frequency_from_observation 100 3 6_000_100 3 2_000_000)
tsc_frequency_from_observation_exact_example =
    tsc_frequency_from_observation_exact 100 3 6_000_100 3 2_000_000

chooses :
    conservative_timer_hz (3_000_000_000 ∷ 3_100_000_000 ∷ 2_900_000_000 ∷ []) ≡ some 2_320_000_000
unfolding conservative_timer_hz
chooses = refl

conservative_timer_hz_exact_example :
    (conservative_timer_hz (3_000 ∷ 3_100 ∷ 2_900 ∷ []) ≢ none) ↔ (
      (max 3_000 (max 3_100 2_900) * 80 ≤ min 3_000 (min 3_100 2_900) * 100)
      × (2 ≤ min 3_000 (min 3_100 2_900)))
conservative_timer_hz_exact_example = conservative_timer_hz_exact 3_000 3_100 2_900 (omega arith)

calibrate_timer_hz_sound_example :
    Upto
      (Chosen steady_env
        (λ _. 0)
        (Amd.timer_calibration_is_usable (Amd.detect_capabilities amd_cpuid)))
      (calibrate_amd_timer_hz steady_env (λ _. 0) amd_cpuid 3_000 (at_rest λ _. 0))
    × Upto
        (Chosen steady_env
          (λ _. 0)
          (Intel.timer_calibration_is_usable (Intel.detect_capabilities amd_cpuid)))
        (calibrate_intel_timer_hz steady_env (λ _. 0) amd_cpuid 3_000 (at_rest λ _. 0))
calibrate_timer_hz_sound_example =
    calibrate_timer_hz_sound steady_env (λ _. 0) amd_cpuid 3_000 (at_rest λ _. 0)

-- Two thousand steps of a microsecond are two milliseconds.
runs : Runs steady_env (λ _. 0) 2_000
runs s t h = omega (arith, h)

calibrate_timer_hz_total_example :
    Returns
      (λ _ _. Unit {0})
      (calibrate_amd_timer_hz steady_env (λ _. 0) amd_cpuid 3_000 (at_rest λ _. 0))
    × Returns
        (λ _ _. Unit {0})
        (calibrate_intel_timer_hz steady_env (λ _. 0) amd_cpuid 3_000 (at_rest λ _. 0))
calibrate_timer_hz_total_example =
    calibrate_timer_hz_total steady_env (λ _. 0) 2_000 3_000 runs (omega arith) amd_cpuid
      (at_rest λ _. 0)

-- ===== src/Tests/Preparing.antt =====
-- The preflight on a processor that supports MWAITX, and on one that supports nothing.
use snoozer.Prelude.{
  ℕ, ◌+◌, ◌-◌, ◌*◌, ◌<◌, ◌≡◌, ◌≢◌, ◌≤◌, ◌↔◌, refl, min, inl, Bool, true, Option, none, some, [],
  ◌∷◌, ltb, if◌then◌else◌, arith,
}
use snoozer.Machine.{Env, M, World, pure}
use snoozer.Outcome.{Upto, Returns}
use snoozer.Errors.{HardwareBackend, amd_mwaitx, intel_umwait, UnsupportedReason, ok, err}
use snoozer.Capabilities.{
  Capabilities, no_capabilities, has_bit, extended_cpuid_base, extended_features_leaf, waitpkg_leaf,
  monitorx_mwaitx_bit, waitpkg_bit,
}
use snoozer.Capabilities.Vendors.{detect_capabilities}
use snoozer.Cycles.{backend, duration_to_cycles}
use snoozer.Hardware.{hardware_wait, hardware_wait_untimed, mwaitx_raw_hardware}
use snoozer.Wait.{classify_after_wait}
use snoozer.Wait.Monitor.{phase, fault}
use snoozer.Preflight.Config.{unsupported, select_backend, prepare_hardware_config}
use snoozer.Preflight.Config.Asked.{Supports, HasTimer, Calibrated}
use snoozer.Preflight.Config.Exact.{prepare_hardware_config_exact, prepare_hardware_config_refuses}
use snoozer.Preflight.Config.Detected.{SaysAmd, SaysIntel, select_backend-detect_capabilities}
use snoozer.Preflight.Probe.{
  Helper, preflight_wait_once, preflight_trial, functional_preflight, panicked, returned,
  preflight_baselines, preflight_trials, conclude_preflight, classify_preflight_trial,
}
use snoozer.Preflight.Probe.Guarded.{
  Judged, LastLoaded, preflight_wait_once_guarded, preflight_trial_exact,
}
use snoozer.Preflight.Probe.Evidence.{Concluded, functional_preflight_total}
use snoozer.Preflight.Producer.{producer_delay, helper_thread}
use snoozer.Preflight.Producer.Timely.{RunsOn, Sent, helper_thread-Sent}
use snoozer.Preflight.Cell.{Platform, run_hardware_preflight}
use snoozer.Preflight.Cell.Once.{RanOnce, preflights, preflights_run_once}
use snoozer.Preflight.Cell.Prepared.{Trusted, run_hardware_preflight_sound}
use snoozer.Tests.{changing, amd_cpuid, steady_env, at_rest, ryzen, xeon, at_rest-quiet}

abbrev amd_features : Capabilities
amd_features = record no_capabilities {
  supported_target = true;
  amd_vendor = true;
  monitorx_mwaitx = true;
  invariant_tsc = true;
  rdtscp = true;
}

-- A helper that stores three steps after it is let go.
abbrev prompt : Helper
prompt = record {
  spawned = true;
  address = 128;
  target = λ _. 0;
  released = λ s t. if ltb t (s + 3) then 0 else 1;
  received = some 0;
}

abbrev enabled : M Bool
enabled = pure true

abbrev measured : M (Option ℕ)
measured = pure (some 2_400_000_000)

abbrev desktop : Platform
desktop = record {
  env = steady_env;
  detected = amd_features;
  userspace_tsc_is_enabled = enabled;
  calibrate_amd_timer_hz = measured;
  calibrate_intel_timer_hz = pure none;
  helpers = λ _. prompt;
}

abbrev start : World
start = at_rest λ _. 0

prepare_hardware_config_exact_example :
    (prepare_hardware_config enabled measured (pure none) amd_features start
      ≡ some (ok ryzen, start))
    ↔ (Supports amd_features (backend ryzen)
        × HasTimer amd_features
        × (u : World) × (enabled start ≡ some (true, u))
        × Calibrated enabled measured (pure none) ryzen u start)
prepare_hardware_config_exact_example =
    prepare_hardware_config_exact enabled measured (pure none) amd_features ryzen start start

-- Without any feature no backend is supported.
nothing_fits : (b : HardwareBackend) → ¬ Supports no_capabilities b
nothing_fits amd_mwaitx = ground arith
nothing_fits intel_umwait = ground arith

prepare_hardware_config_refuses_example :
    (reason : UnsupportedReason) × (prepare_hardware_config enabled measured
        (pure none)
        no_capabilities
        start
      ≡ some (err (unsupported reason), start))
prepare_hardware_config_refuses_example =
    prepare_hardware_config_refuses enabled measured (pure none) no_capabilities start
      (inl nothing_fits)

select_backend-detect_capabilities_example :
    ((select_backend (detect_capabilities amd_cpuid) ≡ ok amd_mwaitx) ↔ (
      SaysAmd (amd_cpuid 0)
      × (extended_features_leaf ≤ (amd_cpuid extended_cpuid_base).eax)
      × (has_bit (amd_cpuid extended_features_leaf).ecx monitorx_mwaitx_bit ≡ true)))
    × ((select_backend (detect_capabilities amd_cpuid) ≡ ok intel_umwait) ↔ (
        SaysIntel (amd_cpuid 0)
        × (waitpkg_leaf ≤ (amd_cpuid 0).eax)
        × (has_bit (amd_cpuid waitpkg_leaf).ecx waitpkg_bit ≡ true)))
select_backend-detect_capabilities_example = select_backend-detect_capabilities amd_cpuid

preflight_wait_once_guarded_example :
    Returns
      (λ observed w'.
        (observed ≡ w'.word (w'.time - 1))
        × LastLoaded observed w'
        × (0 < w'.time)
        × (phase 128 0 w'.trace ≢ fault))
      (preflight_wait_once steady_env prompt xeon start)
preflight_wait_once_guarded_example =
    preflight_wait_once_guarded steady_env prompt xeon start at_rest-quiet

preflight_trial_exact_example :
    Returns
      (Judged steady_env 1_000_000 prompt 0)
      (preflight_trial steady_env ryzen 1_000_000 prompt start)
preflight_trial_exact_example = preflight_trial_exact steady_env ryzen 1_000_000 prompt start

functional_preflight_total_example :
    Returns
      (Concluded steady_env xeon λ _. prompt)
      (functional_preflight steady_env xeon (λ _. prompt) start)
functional_preflight_total_example = functional_preflight_total steady_env xeon (λ _. prompt) start

-- The waits of the baseline last a millisecond for each step, those of the trials after them are short.
abbrev waking : Platform
waking = record desktop { env = record steady_env { clock = λ t. min t 35 * 1_000_000 + t } }

-- The outcome of a preflight, without the world.
abbrev outcome : {A : Type 0} → Option (A × World) → Option A
outcome none = none
outcome (some (a, w)) = some a

run_hardware_preflight_succeeds :
    outcome (run_hardware_preflight waking start)
    ≡ some (
        returned (
          ok (record {
            config = ryzen;
            report = record {
              backend = amd_mwaitx;
              attempts = 2;
              verified_store_wakes = 2;
              baseline_wait = 6_000_006;
            };
          })))
unfolding run_hardware_preflight prepare_hardware_config functional_preflight preflight_baselines
    preflight_trials preflight_trial preflight_wait_once hardware_wait_untimed hardware_wait
    mwaitx_raw_hardware classify_after_wait duration_to_cycles conclude_preflight
    classify_preflight_trial
run_hardware_preflight_succeeds = refl

run_hardware_preflight_sound_example :
    Upto (Trusted waking start) (run_hardware_preflight waking start)
run_hardware_preflight_sound_example = run_hardware_preflight_sound waking start

preflights_run_once_example :
    Upto
      (RanOnce (pure panicked) start)
      (preflights (pure panicked ∷ run_hardware_preflight desktop ∷ []) none start)
preflights_run_once_example =
    preflights_run_once (pure panicked) (run_hardware_preflight desktop ∷ []) start

-- A clock that passes the deadline of the helper in every step.
abbrev hasty_env : Env
hasty_env = record steady_env { clock = λ t. t * 20_000_000 }

hasty : RunsOn hasty_env 1
hasty s t h = omega (arith, h)

helper_thread-Sent_example :
    Returns
      (Sent hasty_env 1 hasty (producer_delay 160_000) (at_rest (changing 6 1)))
      (helper_thread hasty_env 2 (producer_delay 160_000) (at_rest (changing 6 1)))
helper_thread-Sent_example =
    helper_thread-Sent hasty_env 1 hasty 160_000 2 (at_rest (changing 6 1)) (omega arith)

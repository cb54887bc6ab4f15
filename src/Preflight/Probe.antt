-- ===== src/Preflight/Probe.antt =====
-- The functional probe of src/strategy.rs: `functional_preflight` with `preflight_wait_once`,
-- `classify_preflight_trial` and `conclude_preflight`. What a helper thread does to the trial's
-- target and what is received from it are parameters.
pub mod Guarded
pub mod Evidence
use snoozer.Prelude.{
  ℕ, zero, suc, ◌+◌, ◌-◌, ◌*◌, ◌/◌, ◌^◌, min, max, Bool, true, false, not, ◌&&◌, Option, none, some,
  List, [], ◌∷◌, ltb, leb, ◌==◌, if◌then◌else◌, sort, item,
}
use snoozer.Words.{max_value}
use snoozer.Machine.{
  Env, World, M, Action, step, handed_off, pure, ◌>>=◌, ◌>>◌, load_acquire, monitorx, mwaitx,
  umonitor, umwait_c01, instant_now,
}
use snoozer.Errors.{
  HardwareBackend, PreflightFailure, HardwareWaitError, preflight_failed, Result, ok, err,
}
use snoozer.Cycles.{HardwareConfig, amd, intel, backend, umwait_deadline, no_c_state_hint}
use snoozer.Hardware.{hardware_wait_untimed}

abbrev pub preflight_baseline_attempts : ℕ
preflight_baseline_attempts = 5

abbrev pub preflight_store_attempts : ℕ
preflight_store_attempts = 16

abbrev pub preflight_required_store_observations : ℕ
preflight_required_store_observations = 2

-- `Duration::from_micros(1)`
abbrev pub preflight_min_block : ℕ
preflight_min_block = 1_000

-- `Duration::MAX` in nanoseconds
abbrev pub duration_max : ℕ
duration_max = max_value 64 * 1_000_000_000 + 999_999_999

pub record PreflightReport : Type 0 where
  pub backend : HardwareBackend
  pub attempts : ℕ
  pub verified_store_wakes : ℕ
  pub baseline_wait : ℕ

pub record PreflightTrialEvidence : Type 0 where
  pub helper_overlapped : Bool
  pub verified_store_wake : Bool

-- One trial's helper, as the waiting thread meets it.
pub record Helper : Type 0 where
  pub spawned : Bool  -- `thread::spawn` did not panic
  pub address : ℕ  -- the address of the trial's target
  pub target : ℕ → ℕ  -- the target at each step, before the helper is let go
  pub released : ℕ → ℕ → ℕ  -- and at each step, after it is let go at a step
  pub received : Option ℕ  -- `recv_timeout(..).ok().flatten()`

-- What a computation that may panic gives to `catch_unwind`.
pub data Unwind {ℓ} (A : Type ℓ) : Type ℓ where
  returned : A → Unwind A
  panicked : Unwind A

abbrev overlapped : Option ℕ → ℕ → Bool
overlapped none wait_finished = false
overlapped (some published) wait_finished = leb published wait_finished

unfoldable pub classify_preflight_trial : Option ℕ → ℕ → ℕ → ℕ → ℕ → PreflightTrialEvidence
classify_preflight_trial published_at wait_finished observed elapsed wake_threshold =
    let helper_overlapped = overlapped published_at wait_finished in
    record {
      helper_overlapped = helper_overlapped;
      verified_store_wake = helper_overlapped && not (observed == 0) && ltb elapsed wake_threshold;
    }

unfoldable pub conclude_preflight :
    HardwareBackend → ℕ → ℕ → ℕ → ℕ → Result PreflightReport HardwareWaitError
conclude_preflight backend attempts verified_store_wakes helper_overlaps baseline_wait =
    if helper_overlaps == 0
    then err (preflight_failed backend PreflightFailure.inconclusive)
    else if ltb verified_store_wakes preflight_required_store_observations
    then err (preflight_failed backend PreflightFailure.store_wake_not_observed)
    else ok (record {
      backend = backend;
      attempts = attempts;
      verified_store_wakes = verified_store_wakes;
      baseline_wait = baseline_wait;
    })

-- `handoff.store(true, Ordering::Release)`
abbrev pub hand_off : Helper → Action
hand_off helper w = some (tt, record (step w handed_off) { word = helper.released w.time })

-- `if observed != 0 { return observed; }`
abbrev unless_stored : M ℕ → M ℕ
unless_stored rest = do observed ← load_acquire; if observed == 0 then rest else pure observed

unfoldable pub preflight_wait_once : Env → Helper → HardwareConfig → M ℕ
unfolding umwait_deadline
preflight_wait_once env helper (amd config) = unless_stored (do
  monitorx helper.address
  unless_stored (do
    hand_off helper
    unless_stored (do mwaitx config.safety_timeout_cycles no_c_state_hint; load_acquire)))
preflight_wait_once env helper (intel config) = unless_stored (do
  umonitor helper.address
  unless_stored (do
    hand_off helper
    unless_stored (do
      deadline ← umwait_deadline env config.safety_timeout_cycles
      umwait_c01 deadline
      load_acquire)))

pub record Tally : Type 0 where
  pub attempts : ℕ
  pub verified_store_wakes : ℕ
  pub helper_overlaps : ℕ

abbrev pub count : PreflightTrialEvidence → Tally → Tally
count evidence tally = record {
  attempts = suc tally.attempts;
  verified_store_wakes =
      if evidence.verified_store_wake
      then suc tally.verified_store_wakes
      else tally.verified_store_wakes;
  helper_overlaps =
      if evidence.helper_overlapped then suc tally.helper_overlaps else tally.helper_overlaps;
}

-- A fresh target of the given value is watched.
abbrev watch : (ℕ → ℕ) → Action
watch target w = some (tt, record w { word = target })

module _ (env : Env) (config : HardwareConfig) where
  -- one turn of the trial loop, up to the evidence
  unfoldable pub preflight_trial : ℕ → Helper → M PreflightTrialEvidence
  unfolding preflight_wait_once classify_preflight_trial
  preflight_trial wake_threshold helper = do
    watch helper.target
    started ← instant_now env
    observed ← preflight_wait_once env helper config
    wait_finished ← instant_now env
    pure (
        classify_preflight_trial helper.received wait_finished observed (wait_finished - started)
          wake_threshold)

  -- the trial loop, with the turns that are left
  unfoldable pub preflight_trials : (ℕ → Helper) → ℕ → ℕ → Tally → M (Unwind Tally)
  preflight_trials helpers wake_threshold zero tally = pure (returned tally)
  preflight_trials helpers wake_threshold (suc turns) tally =
      let rest = preflight_trials helpers wake_threshold turns in
      if (helpers tally.attempts).spawned
      then (do
        evidence ← preflight_trial wake_threshold (helpers tally.attempts)
        if evidence.verified_store_wake
              && leb preflight_required_store_observations
                  (count evidence tally).verified_store_wakes
            then pure (returned (count evidence tally))
            else rest (count evidence tally))
      else pure panicked

  -- the baseline loop: the durations of the waits on a target that nobody stores to
  unfoldable pub preflight_baselines : ℕ → M (List ℕ)
  preflight_baselines zero = pure []
  preflight_baselines (suc turns) =
      let rest = preflight_baselines turns in
      do
        started ← instant_now env
        _ ← hardware_wait_untimed env config 0
        finished ← instant_now env
        later ← rest
        pure ((finished - started) ∷ later)

  abbrev pub concluded : ℕ → Unwind Tally → Unwind (Result PreflightReport HardwareWaitError)
  concluded baseline_wait panicked = panicked
  concluded baseline_wait (returned tally) = returned (
      conclude_preflight (backend config) tally.attempts tally.verified_store_wakes
        tally.helper_overlaps baseline_wait)

  unfoldable pub functional_preflight :
      (ℕ → Helper) → M (Unwind (Result PreflightReport HardwareWaitError))
  functional_preflight helpers = do
    watch λ _. 0
    baselines ← preflight_baselines preflight_baseline_attempts
    let baseline_wait = item (sort baselines) (preflight_baseline_attempts / 2)
    if ltb baseline_wait preflight_min_block
        then pure
            (returned (err (preflight_failed (backend config) PreflightFailure.wait_did_not_block)))
        else (do
          tally ←
              preflight_trials helpers (min (baseline_wait * 3) duration_max / 4)
                preflight_store_attempts
                (record { attempts = 0; verified_store_wakes = 0; helper_overlaps = 0 })
          pure (concluded baseline_wait tally))

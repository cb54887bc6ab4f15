-- ===== src/Preflight/Probe/Evidence.antt =====
-- What the functional probe concludes, and that it always concludes.
use snoozer.Prelude.{
  ℕ, zero, suc, ◌+◌, ◌≡◌, ◌≤◌, ◌<◌, ◌⊎◌, refl, ap, true, false, List, arith, ◌&&◌, leb,
  if◌then◌else◌, length, min, ◌*◌, ◌/◌, item, sort, ltb,
}
use snoozer.Machine.{Env, World, M, tick, pure, ◌>>=◌}
use snoozer.Outcome.{Returns, Returns-map, Returns-bind, if-both}
use snoozer.Hardware.{
  hardware_wait_untimed, hardware_wait, mwaitx_raw_hardware, umwait_raw_hardware,
  mwaitx_untimed_protocol, umwait_untimed_protocol,
}
use snoozer.Wait.{classify_after_wait}
use snoozer.Errors.{HardwareBackend, HardwareWaitError, preflight_failed, Result, ok, err}
use snoozer.Cycles.{amd, intel, HardwareConfig, backend}
use snoozer.Preflight.Probe.{
  Helper, Unwind, returned, panicked, PreflightReport, PreflightTrialEvidence, Tally, count,
  preflight_trial, preflight_trials, preflight_baselines, functional_preflight, conclude_preflight,
  concluded, duration_max, preflight_min_block, preflight_baseline_attempts,
  preflight_required_store_observations, preflight_store_attempts,
}
use snoozer.Preflight.Probe.Guarded.{Judged, preflight_trial_exact}

module _ (env : Env) (config : HardwareConfig) (helpers : ℕ → Helper) (threshold : ℕ) where
  -- the tally of a loop with some turns left
  abbrev Counted : ℕ → Tally → Type 0
  Counted turns t =
      (t.verified_store_wakes ≤ t.helper_overlaps)
      × (t.helper_overlaps ≤ t.attempts)
      × (t.attempts + turns ≡ 16)
      × (t.verified_store_wakes < 2)

  -- The loop stopped at the second verified wake, or after all turns; a panic is a failed spawn.
  abbrev pub Finished : Unwind Tally → World → Type 0
  Finished panicked w = (i : ℕ) × ((helpers i).spawned ≡ false)
  Finished (returned t) w =
      (t.verified_store_wakes ≤ t.helper_overlaps)
      × (t.helper_overlaps ≤ t.attempts)
      × (t.attempts ≤ 16)
      × ((t.verified_store_wakes ≡ 2) ⊎ ((t.verified_store_wakes < 2) × (t.attempts ≡ 16)))

  -- A verified wake is an overlap.
  trial_total :
      (helper : Helper) (w : World)
      → Returns
          (λ evidence _. evidence.verified_store_wake ≡ true → evidence.helper_overlapped ≡ true)
          (preflight_trial env config threshold helper w)
  trial_total helper w =
      Returns-map (Judged env threshold helper w.time)
        (λ evidence _. evidence.verified_store_wake ≡ true → evidence.helper_overlapped ≡ true)
        (λ evidence u h v. (h.0).1 (((h.1).0 v).0)) (preflight_trial env config threshold helper w)
        (preflight_trial_exact env config threshold helper w)

  -- the loop after a trial
  abbrev after_trial : ℕ → Tally → PreflightTrialEvidence → M (Unwind Tally)
  after_trial turns t evidence =
      if evidence.verified_store_wake
        && leb preflight_required_store_observations (count evidence t).verified_store_wakes
      then pure (returned (count evidence t))
      else preflight_trials env config helpers threshold turns (count evidence t)

  module _ (turns : ℕ) (t : Tally) (h : Counted (suc turns) t) where
    -- The loop after a trial, when it finishes from every tally with fewer turns left.
    next :
        ((t' : Tally) (u : World)
          → Counted turns t'
          → Returns Finished (preflight_trials env config helpers threshold turns t' u))
        → (evidence : PreflightTrialEvidence) (u : World)
        → (evidence.verified_store_wake ≡ true → evidence.helper_overlapped ≡ true)
        → Returns Finished (after_trial turns t evidence u)
    next again evidence u v = ground (arith, again (count evidence t) u)

    turn :
        (w : World)
        → ((t' : Tally) (u : World)
            → Counted turns t'
            → Returns Finished (preflight_trials env config helpers threshold turns t' u))
        → Returns Finished (preflight_trials env config helpers threshold (suc turns) t w)
    unfolding preflight_trials
    turn w again =
        if-both (Returns Finished) (helpers t.attempts).spawned
          (do
            evidence ← preflight_trial env config threshold (helpers t.attempts)
            after_trial turns t evidence)
          (pure panicked) w
          (λ _.
            Returns-bind
              (λ evidence _.
                evidence.verified_store_wake ≡ true → evidence.helper_overlapped ≡ true)
              Finished (after_trial turns t)
              (preflight_trial env config threshold (helpers t.attempts)) w
              (trial_total (helpers t.attempts) w) (next again))
          λ e. (t.attempts, e)

  trials_finish :
      (turns : ℕ) (t : Tally) (w : World)
      → Counted turns t
      → Returns Finished (preflight_trials env config helpers threshold turns t w)
  unfolding preflight_trials
  trials_finish zero t w h = ground arith
  trials_finish (suc turns) t w h = turn turns t h w (trials_finish turns)

  -- The trial loop always ends: by a spawn that panicked; at its second verified store wake; or after
  -- 16 trials with fewer. A verified wake is counted as an overlap too, and an overlap as an attempt.
  pub preflight_trials_total :
      (w : World)
      → Returns Finished (
          preflight_trials env config helpers threshold preflight_store_attempts
            (record { attempts = 0; verified_store_wakes = 0; helper_overlaps = 0 })
            w)
  preflight_trials_total w =
      trials_finish 16 (record { attempts = 0; verified_store_wakes = 0; helper_overlaps = 0 }) w
        (ground arith)

-- The error says that the preflight of the backend failed.
abbrev IsFailureOf : HardwareBackend → HardwareWaitError → Type 0
IsFailureOf b (preflight_failed b' reason) = b' ≡ b
IsFailureOf b _ = ⊥

untimed_total :
    (env : Env) (config : HardwareConfig) (w : World)
    → Returns (λ _ _. Unit {0}) (hardware_wait_untimed env config 0 w)
unfolding hardware_wait_untimed hardware_wait mwaitx_raw_hardware umwait_raw_hardware
    mwaitx_untimed_protocol umwait_untimed_protocol classify_after_wait
untimed_total env (amd c) w = ground arith
untimed_total env (intel c) w = ground arith

module _ (env : Env) (config : HardwareConfig) where
  baselines_total :
      (n : ℕ) (w : World)
      → Returns (λ baselines _. length baselines ≡ n) (preflight_baselines env config n w)
  unfolding preflight_baselines
  baselines_total zero w = refl
  baselines_total (suc n) w =
      Returns-bind (λ _ _. Unit) _ _ (hardware_wait_untimed env config 0) (tick env w)
        (untimed_total env config (tick env w))
        λ _ u _.
          Returns-bind (λ later _. length later ≡ n) _ _ (preflight_baselines env config n)
            (tick env u) (baselines_total n (tick env u)) λ later v h. ap suc h

  module _ (helpers : ℕ → Helper) where
    abbrev pub Concluded : Unwind (Result PreflightReport HardwareWaitError) → World → Type 0
    Concluded panicked w = (i : ℕ) × ((helpers i).spawned ≡ false)
    Concluded (returned (err error)) w = IsFailureOf (backend config) error
    Concluded (returned (ok report)) w =
        (report.backend ≡ backend config)
        × (report.verified_store_wakes ≡ 2)
        × (2 ≤ report.attempts)
        × (report.attempts ≤ preflight_store_attempts)
        × (preflight_min_block ≤ report.baseline_wait)

    concluded_tally :
        (baseline : ℕ) (t : Tally) (u : World)
        → preflight_min_block ≤ baseline
        → Finished env config helpers 0 (returned t) u
        → Concluded (concluded env config baseline (returned t)) u
    unfolding conclude_preflight
    concluded_tally baseline t u h f = ground arith

    abbrev threshold : List ℕ → ℕ
    threshold baselines = min (item (sort baselines) 2 * 3) duration_max / 4

    conclusion :
        (baselines : List ℕ)
        → preflight_min_block ≤ item (sort baselines) 2
        → (t : Unwind Tally) (u : World) → Finished env config helpers (threshold baselines) t u
        → Concluded (concluded env config (item (sort baselines) 2) t) u
    conclusion baselines h panicked u f = f
    conclusion baselines h (returned t) u f = concluded_tally (item (sort baselines) 2) t u h f

    -- The probe always comes to a conclusion. A report names the backend that was asked for, has
    -- exactly the two required verified store wakes within 2 to 16 attempts, and a baseline wait of
    -- at least a microsecond; an error is a failed preflight of that backend; and a panic comes
    -- from a helper that could not be spawned.
    pub functional_preflight_total :
        (w : World) → Returns Concluded (functional_preflight env config helpers w)
    unfolding functional_preflight
    functional_preflight_total w =
        Returns-bind (λ baselines _. length baselines ≡ 5) Concluded _
          (preflight_baselines env config preflight_baseline_attempts) (record w { word = λ _. 0 })
          (baselines_total 5 (record w { word = λ _. 0 }))
          λ baselines u _.
            if-both (Returns Concluded) (ltb (item (sort baselines) 2) preflight_min_block) _ _ u
              (λ short. refl)
              λ long.
                Returns-bind (Finished env config helpers (threshold baselines)) Concluded _
                  (preflight_trials env config helpers (threshold baselines)
                    preflight_store_attempts
                    (record { attempts = 0; verified_store_wakes = 0; helper_overlaps = 0 }))
                  u (preflight_trials_total env config helpers (threshold baselines) u)
                  (conclusion baselines (ground arith))

-- ===== src/Timer/Calibration.antt =====
-- The calibration as a whole: three observations out of at most nine attempts, and the frequency
-- that is at most four fifths of each of them.
use snoozer.Prelude.{
  ℕ, zero, suc, ◌+◌, ◌-◌, ◌*◌, ◌≡◌, ◌≤◌, ◌<◌, ◌⊎◌, refl, subst, Bool, true, false, Option, none,
  some, List, [], ◌∷◌, length, All, arith,
}
use snoozer.Machine.{Env, World, tick, spun, step, counted}
use snoozer.Outcome.{Upto, Returns, Returns-bind, Upto-bind}
use snoozer.Capabilities.{Cpuid}
use snoozer.Capabilities.Amd
use snoozer.Capabilities.Intel
use snoozer.Timer.{
  collect_tsc_frequencies, conservative_timer_hz, tsc_frequency_from_observation,
  timer_calibration_interval, spin_interval, sample_tsc_frequency_once, calibrate_amd_timer_hz,
  calibrate_intel_timer_hz, calibrate, and_then,
}
use snoozer.Timer.Observation.{
  Measured, conservative_timer_hz_safe, tsc_frequency_from_observation_exact,
}
use snoozer.Timer.Collection.{Sampled, Collected, collected, collect-Returns}

module _ (env : Env) (auxiliary : ℕ → ℕ) where
  -- A sample is one, or at most the ticks between two readings of the counter on one processor,
  -- taken within the time it is divided by.
  abbrev Observed : ℕ → Type 0
  Observed hz =
      (started first last finished : ℕ) × (started < first)
      × (first < last)
      × (last < finished)
      × (auxiliary first ≡ auxiliary last)
      × (1 ≤ hz)
      × ((hz ≡ 1)
          ⊎ (hz * (env.clock finished - env.clock started)
              ≤ (env.counter last - env.counter first) * 1_000_000_000))

  spin_interval-later :
      (fuel started : ℕ) (w : World)
      → Upto (λ _ u. w.time < u.time) (spin_interval env auxiliary fuel started w)
  unfolding spin_interval
  spin_interval-later zero started w = tt
  spin_interval-later (suc fuel) started w =
      ground (arith, spin_interval-later fuel started (step (tick env w) spun))

  -- A clock that has moved on by the interval whenever `n` steps were made.
  abbrev pub Runs : ℕ → Type 0
  Runs n = (s t : ℕ) → s + n ≤ t → timer_calibration_interval ≤ env.clock t - env.clock s

  spin_interval-Returns :
      (n s : ℕ)
      → Runs n
      → (fuel : ℕ) (w : World) → s + n < w.time + suc fuel
      → Returns (λ _ _. Unit {0}) (spin_interval env auxiliary (suc fuel) (env.clock s) w)
  unfolding spin_interval
  spin_interval-Returns n s runs zero w h = ground (arith, runs s w.time)
  spin_interval-Returns n s runs (suc fuel) w h =
      ground (arith, spin_interval-Returns n s runs fuel (step (tick env w) spun))

  sample_tsc_frequency_once-Returns :
      (n fuel : ℕ)
      → Runs n
      → n < fuel
      → (w : World) → Returns (λ _ _. Unit {0}) (sample_tsc_frequency_once env auxiliary fuel w)
  unfolding sample_tsc_frequency_once
  sample_tsc_frequency_once-Returns n zero runs h w = absurd (omega arith)
  sample_tsc_frequency_once-Returns n (suc fuel) runs h w = ground (
    arith,
    spin_interval-Returns n w.time runs fuel
        (step (tick env w) (counted (env.counter (suc w.time)))),
  )

  observed :
      (first last started finished : ℕ) (v : World)
      → started < first
      → first < last
      → last < finished
      → (answer : Option ℕ)
      → tsc_frequency_from_observation
          (env.counter first)
          (auxiliary first)
          (env.counter last)
          (auxiliary last)
          (env.clock finished - env.clock started)
        ≡ answer
      → Sampled Observed answer v
  observed a b s f v h i j none e = tt
  observed a b s f v h i j (some hz) e =
      let (exact, measured) =
        tsc_frequency_from_observation_exact (env.counter a) (auxiliary a) (env.counter b)
          (auxiliary b) (env.clock f - env.clock s) in
      let m =
        subst (Measured (env.counter b - env.counter a) (env.clock f - env.clock s)) e measured in
      (s, a, b, f, h, i, j, (exact.0 (ground arith)).0, m.0, m.2)

  sample_tsc_frequency_once-Observed :
      (fuel : ℕ) (w : World)
      → Upto (Sampled Observed) (sample_tsc_frequency_once env auxiliary fuel w)
  unfolding sample_tsc_frequency_once
  sample_tsc_frequency_once-Observed fuel w =
      Upto-bind (λ _ u. suc (suc w.time) < u.time) (Sampled Observed) _
        (spin_interval env auxiliary fuel (env.clock w.time))
        (step (tick env w) (counted (env.counter (suc w.time))))
        (spin_interval-later fuel (env.clock w.time)
          (step (tick env w) (counted (env.counter (suc w.time)))))
        λ _ u h.
          observed (suc w.time) u.time w.time (suc u.time)
            (tick env (step u (counted (env.counter u.time)))) (omega arith) (omega arith)
            (omega arith)
            (tsc_frequency_from_observation (env.counter (suc w.time)) (auxiliary (suc w.time))
              (env.counter u.time) (auxiliary u.time) (env.clock (suc u.time) - env.clock w.time))
            refl

  -- Four fifths of three observed samples, and nothing for an unsuitable processor.
  abbrev pub Chosen : Bool → Option ℕ → World → Type 0
  Chosen usable none w = Unit
  Chosen usable (some hz) w =
      (usable ≡ true)
      × (1 ≤ hz)
      × ((xs : List ℕ) × (length xs ≡ 3) × All Observed xs × All (λ x. hz * 100 ≤ x * 80) xs)

  three :
      (xs : List ℕ) (w : World)
      → Collected Observed (some xs) w
      → (hz : ℕ) → conservative_timer_hz xs ≡ some hz
      → Chosen true (some hz) w
  three (a ∷ b ∷ c ∷ []) w (l, all) hz e =
      let (pos, ha, hb, hc) = conservative_timer_hz_safe a b c hz e in
      (refl, pos, (a ∷ b ∷ c ∷ [], l, all, (ha, (hb, (hc, tt)))))
  three [] w (l, all) hz e = absurd (omega (arith, l))
  three (a ∷ []) w (l, all) hz e = absurd (omega (arith, l))
  three (a ∷ b ∷ []) w (l, all) hz e = absurd (omega (arith, l))
  three (a ∷ b ∷ c ∷ d ∷ xs) w (l, all) hz e = absurd (omega (arith, l))

  chosen :
      (samples : Option (List ℕ)) (w : World)
      → Collected Observed samples w
      → (answer : Option ℕ) → and_then conservative_timer_hz samples ≡ answer
      → Chosen true answer w
  chosen samples w c none e = tt
  chosen none w c (some hz) e = absurd (ground arith)
  chosen (some xs) w c (some hz) e = three xs w c hz e

  calibrate_sound :
      (fuel : ℕ) (usable : Bool) (w : World)
      → Upto (Chosen usable) (calibrate env auxiliary fuel usable w)
  calibrate_sound fuel false w = tt
  calibrate_sound fuel true w =
      Upto-bind (Collected Observed) (Chosen true) _
        (collect_tsc_frequencies (sample_tsc_frequency_once env auxiliary fuel)) w
        (collected Observed (sample_tsc_frequency_once env auxiliary fuel)
          (sample_tsc_frequency_once-Observed fuel) w)
        λ samples u c. chosen samples u c (and_then conservative_timer_hz samples) refl

  calibrate-Returns :
      (n fuel : ℕ)
      → Runs n
      → n < fuel
      → (usable : Bool) (w : World)
      → Returns (λ _ _. Unit {0}) (calibrate env auxiliary fuel usable w)
  calibrate-Returns n fuel runs h false w = tt
  calibrate-Returns n fuel runs h true w =
      Returns-bind (λ _ _. Unit) (λ _ _. Unit) _
        (collect_tsc_frequencies (sample_tsc_frequency_once env auxiliary fuel)) w
        (collect-Returns (λ _. Unit) (sample_tsc_frequency_once env auxiliary fuel)
          (sample_tsc_frequency_once-Returns n fuel runs h) w)
        λ _ _ _. tt

  -- A calibrated frequency of either vendor exists only for a processor whose CPUID facts allow it. It
  -- is positive and at most four fifths of each of three samples, each of which is 1 or at most the
  -- ticks between two readings of the counter on one processor, over the time that contained them.
  pub calibrate_timer_hz_sound :
      (cpuid : Cpuid) (fuel : ℕ) (w : World)
      → Upto
          (Chosen (Amd.timer_calibration_is_usable (Amd.detect_capabilities cpuid)))
          (calibrate_amd_timer_hz env auxiliary cpuid fuel w)
        × Upto
            (Chosen (Intel.timer_calibration_is_usable (Intel.detect_capabilities cpuid)))
            (calibrate_intel_timer_hz env auxiliary cpuid fuel w)
  unfolding calibrate_amd_timer_hz calibrate_intel_timer_hz
  calibrate_timer_hz_sound cpuid fuel w = (
    calibrate_sound fuel (Amd.timer_calibration_is_usable (Amd.detect_capabilities cpuid)) w,
    calibrate_sound fuel (Intel.timer_calibration_is_usable (Intel.detect_capabilities cpuid)) w,
  )

  -- Both calibrations end, with or without a frequency, when the clock moves on by the interval of
  -- two milliseconds in every `n` steps and the loop has fuel for more than `n` turns.
  pub calibrate_timer_hz_total :
      (n fuel : ℕ)
      → Runs n
      → n < fuel
      → (cpuid : Cpuid) (w : World)
      → Returns (λ _ _. Unit {0}) (calibrate_amd_timer_hz env auxiliary cpuid fuel w)
        × Returns (λ _ _. Unit {0}) (calibrate_intel_timer_hz env auxiliary cpuid fuel w)
  unfolding calibrate_amd_timer_hz calibrate_intel_timer_hz
  calibrate_timer_hz_total n fuel runs h cpuid w = (
    calibrate-Returns n fuel runs h
        (Amd.timer_calibration_is_usable (Amd.detect_capabilities cpuid)) w,
    calibrate-Returns n fuel runs h
        (Intel.timer_calibration_is_usable (Intel.detect_capabilities cpuid)) w,
  )

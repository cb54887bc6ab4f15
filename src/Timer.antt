-- ===== src/Timer.antt =====
-- The timer calibration of src/arch/x86_64/{amd,intel}.rs. Both vendor modules have the same
-- functions; the counter's auxiliary value at each step is a parameter.
pub mod Observation
mod Collection
pub mod Calibration
use snoozer.Prelude.{
  ℕ, zero, suc, ◌+◌, ◌-◌, ◌*◌, ◌/◌, ◌%◌, ◌^◌, max, Bool, not, ◌||◌, Option, none, some, List, [],
  ◌∷◌, ltb, leb, ◌==◌, if◌then◌else◌, sort, item,
}
use snoozer.Words.{saturating_mul, try_from_or_max}
use snoozer.Machine.{
  Env, World, M, pure, ◌>>=◌, ◌>>◌, running, Action, step, counted, spin_loop, instant_now,
}
use snoozer.Capabilities.{Capabilities, Cpuid, then_some}
use snoozer.Capabilities.Amd
use snoozer.Capabilities.Intel

-- `Duration::from_millis(2)`
abbrev pub timer_calibration_interval : ℕ
timer_calibration_interval = 2_000_000

abbrev pub timer_calibration_samples : ℕ
timer_calibration_samples = 3

abbrev pub timer_calibration_attempts : ℕ
timer_calibration_attempts = 9

abbrev max_calibration_spread_percent : ℕ
max_calibration_spread_percent = 20

abbrev conservative_frequency_percent : ℕ
conservative_frequency_percent = 80

unfoldable pub frequency_hz : ℕ → ℕ → ℕ
frequency_hz ticks elapsed_nanos =
    let frequency = saturating_mul 128 ticks 1_000_000_000 / max elapsed_nanos 1 in
    max (try_from_or_max 64 frequency) 1

unfoldable pub tsc_frequency_from_observation : ℕ → ℕ → ℕ → ℕ → ℕ → Option ℕ
unfolding frequency_hz
tsc_frequency_from_observation first first_aux last last_aux elapsed_nanos =
    if not (first_aux == last_aux) || leb last first || elapsed_nanos == 0
    then none
    else some (frequency_hz (last - first) elapsed_nanos)

unfoldable pub conservative_timer_hz : List ℕ → Option ℕ
conservative_timer_hz samples =
    let minimum = item (sort samples) 0 in
    let maximum = item (sort samples) (timer_calibration_samples - 1) in
    if ltb (saturating_mul 64 maximum max_calibration_spread_percent)
      (saturating_mul 64 (maximum - minimum) 100)
    then none
    else let lower_bound = saturating_mul 64 minimum conservative_frequency_percent / 100 in
      then_some (ltb 0 lower_bound) lower_bound

unfoldable pub tsc_from_halves : ℕ → ℕ → ℕ
tsc_from_halves high low = high * 2 ^ 32 + low

unfoldable pub split_tsc_deadline : ℕ → ℕ × ℕ
split_tsc_deadline deadline = (deadline % 2 ^ 32, deadline / 2 ^ 32 % 2 ^ 32)

-- `samples[i] = sample`
abbrev pub set_item : List ℕ → ℕ → ℕ → List ℕ
set_item [] i sample = []
set_item (x ∷ xs) zero sample = sample ∷ xs
set_item (x ∷ xs) (suc i) sample = x ∷ set_item xs i sample

-- the `if let` in the loop of `collect_tsc_frequencies`, with the next turn of the loop
abbrev pub keep : (List ℕ → ℕ → M (Option (List ℕ))) → List ℕ → ℕ → Option ℕ → M (Option (List ℕ))
keep rest samples collected none = rest samples collected
keep rest samples collected (some sample) =
    if suc collected == timer_calibration_samples
    then pure (some (set_item samples collected sample))
    else rest (set_item samples collected sample) (suc collected)

-- The loop of `collect_tsc_frequencies`, with the attempts that are left.
unfoldable pub collect_attempts : M (Option ℕ) → ℕ → List ℕ → ℕ → M (Option (List ℕ))
collect_attempts sample_once zero samples collected = pure none
collect_attempts sample_once (suc attempts) samples collected =
    let rest = collect_attempts sample_once attempts in
    do answer ← sample_once; keep rest samples collected answer

unfoldable pub collect_tsc_frequencies : M (Option ℕ) → M (Option (List ℕ))
collect_tsc_frequencies sample_once =
    collect_attempts sample_once timer_calibration_attempts (0 ∷ 0 ∷ 0 ∷ []) 0

-- `Option::and_then`
abbrev pub and_then : (List ℕ → Option ℕ) → Option (List ℕ) → Option ℕ
and_then f none = none
and_then f (some samples) = f samples

module _ (env : Env) (auxiliary : ℕ → ℕ) where
  -- `read_tsc_ordered` with the auxiliary value
  abbrev pub read_tsc_aux : M (ℕ × ℕ)
  read_tsc_aux w =
      some ((env.counter w.time, auxiliary w.time), step w (counted (env.counter w.time)))

  -- the `while` loop of `sample_tsc_frequency_once`, one unit of fuel for each turn
  unfoldable pub spin_interval : ℕ → ℕ → Action
  spin_interval zero started = running
  spin_interval (suc fuel) started =
      let again = spin_interval fuel started in
      do
        now ← instant_now env
        if ltb (now - started) timer_calibration_interval then (do spin_loop; again) else pure tt

  unfoldable pub sample_tsc_frequency_once : ℕ → M (Option ℕ)
  sample_tsc_frequency_once fuel = do
    started ← instant_now env
    (first, first_aux) ← read_tsc_aux
    spin_interval fuel started
    (last, last_aux) ← read_tsc_aux
    finished ← instant_now env
    pure (tsc_frequency_from_observation first first_aux last last_aux (finished - started))

  abbrev pub calibrate : ℕ → Bool → M (Option ℕ)
  calibrate fuel usable =
      if usable
      then (do
        samples ← collect_tsc_frequencies (sample_tsc_frequency_once fuel)
        pure (and_then conservative_timer_hz samples))
      else pure none

  -- `calibrate_timer_hz` of the AMD module
  unfoldable pub calibrate_amd_timer_hz : Cpuid → ℕ → M (Option ℕ)
  unfolding Amd.detect_capabilities
  calibrate_amd_timer_hz cpuid fuel =
      calibrate fuel (Amd.timer_calibration_is_usable (Amd.detect_capabilities cpuid))

  -- `calibrate_timer_hz` of the Intel module
  unfoldable pub calibrate_intel_timer_hz : Cpuid → ℕ → M (Option ℕ)
  unfolding Intel.detect_capabilities
  calibrate_intel_timer_hz cpuid fuel =
      calibrate fuel (Intel.timer_calibration_is_usable (Intel.detect_capabilities cpuid))

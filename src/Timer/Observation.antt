-- ===== src/Timer/Observation.antt =====
-- Bounds on one observation of the counter and on the frequency chosen from three of them.
use snoozer.Prelude.{
  ℕ, ◌-◌, ◌*◌, ◌/◌, ◌^◌, ◌≡◌, ◌≢◌, ◌≤◌, ◌<◌, ◌↔◌, ◌⊎◌, max, min, Option, none, some, [], ◌∷◌, arith,
}
use native.Mathlib.Nat.{div-mul-le_self}
use snoozer.Words.{max_value}
use snoozer.Timer.{
  frequency_hz, tsc_frequency_from_observation, conservative_timer_hz, tsc_from_halves,
  split_tsc_deadline,
}

-- Reading the counter and writing a deadline agree on the two halves of a 64-bit value.
pub split_tsc_deadline-tsc_from_halves :
    (high low deadline : ℕ)
    → high < 2 ^ 32
    → low < 2 ^ 32
    → deadline < 2 ^ 64
    → (split_tsc_deadline (tsc_from_halves high low) ≡ (low, high))
      × (tsc_from_halves (split_tsc_deadline deadline).1 (split_tsc_deadline deadline).0 ≡ deadline)
unfolding tsc_from_halves split_tsc_deadline
split_tsc_deadline-tsc_from_halves high low deadline h l d = ground arith

-- What makes an observation usable: one processor, a counter that went on, and time that passed.
abbrev pub Usable : ℕ → ℕ → ℕ → ℕ → ℕ → Type 0
Usable first first_aux last last_aux elapsed =
    (first_aux ≡ last_aux) × (first < last) × (1 ≤ elapsed)

abbrev pub Measured : ℕ → ℕ → Option ℕ → Type 0
Measured ticks elapsed none = Unit
Measured ticks elapsed (some hz) =
    (1 ≤ hz) × (hz ≤ max_value 64) × ((hz ≡ 1) ⊎ (hz * elapsed ≤ ticks * 1_000_000_000))

mul-le_mono : (a b c : ℕ) → a ≤ b → a * c ≤ b * c
mul-le_mono a b c h = grind arith

-- the scaled quotient, with any smaller number for the quotient
below_quotient : (m n n' e : ℕ) → m ≤ n' / e → n' ≤ n → m * e ≤ n
below_quotient m n n' e h k = omega (arith, mul-le_mono m (n' / e) e h, div-mul-le_self n' e)

frequency_hz-Measured :
    (ticks elapsed : ℕ) → 1 ≤ elapsed → Measured ticks elapsed (some (frequency_hz ticks elapsed))
unfolding frequency_hz
frequency_hz-Measured t e h = ground (
  arith,
  below_quotient (frequency_hz t e) (t * 1_000_000_000) (min (t * 1_000_000_000) (max_value 128)) e,
)

-- An observation gives a frequency exactly when both readings come from one processor, the counter
-- went forward and time passed. The frequency then is between 1 and the largest 64-bit value, and
-- above 1 never more than the ticks of the elapsed time.
pub tsc_frequency_from_observation_exact :
    (first first_aux last last_aux elapsed : ℕ)
    → ((tsc_frequency_from_observation first first_aux last last_aux elapsed ≢ none)
        ↔ Usable first first_aux last last_aux elapsed)
      × Measured
          (last - first)
          elapsed
          (tsc_frequency_from_observation first first_aux last last_aux elapsed)
unfolding tsc_frequency_from_observation
tsc_frequency_from_observation_exact a b c d e = ground (arith, frequency_hz-Measured (c - a) e)

-- A frequency chosen from three samples is positive and at most four fifths of each of them.
pub conservative_timer_hz_safe :
    (a b c hz : ℕ)
    → conservative_timer_hz (a ∷ b ∷ c ∷ []) ≡ some hz
    → (1 ≤ hz) × (hz * 100 ≤ a * 80) × (hz * 100 ≤ b * 80) × (hz * 100 ≤ c * 80)
unfolding conservative_timer_hz
conservative_timer_hz_safe a b c hz h = ground arith

-- With samples that the program can tell apart exactly, below 2 ^ 57, a frequency is chosen exactly
-- when the largest sample is at most five fourths of the smallest, which is at least 2.
pub conservative_timer_hz_exact :
    (a b c : ℕ)
    → max a (max b c) < 2 ^ 57
    → (conservative_timer_hz (a ∷ b ∷ c ∷ []) ≢ none)
      ↔ ((max a (max b c) * 80 ≤ min a (min b c) * 100) × (2 ≤ min a (min b c)))
unfolding conservative_timer_hz
conservative_timer_hz_exact a b c h = ground arith

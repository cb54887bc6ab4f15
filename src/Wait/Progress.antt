-- ===== src/Wait/Progress.antt =====
-- The raw waits end, and end with a verdict once there is one.
use snoozer.Prelude.{ℕ, zero, suc, ◌-◌, ◌≤◌, ◌<◌, ◌≡◌, ◌≢◌, ◌⊎◌, Option, none, some, arith}
use snoozer.Machine.{Env, World, spun, step, saw, tick}
use snoozer.Outcome.{Returns}
use snoozer.Wait.Evidence.{Late}
use snoozer.Wait.{Deadline, WaitTimeoutResult, spin_rounds, spin_prefix, busy_spin_raw}

-- From step `t₀` on, a load of the word sees another value than `e`, or the clock is too late in
-- the step after it.
abbrev pub Settles : Env → (ℕ → ℕ) → ℕ → Option Deadline → ℕ → Type 0
Settles env word e d t₀ = (t : ℕ) → t₀ ≤ t → (word t ≢ e) ⊎ Late d (env.clock (suc t))

abbrev pub Conclusive : WaitTimeoutResult ℕ → Type 0
Conclusive WaitTimeoutResult.unclassified = ⊥
Conclusive _ = Unit

-- Time passes, the thread has not stored, and a wait that starts at `t₀` or later has a verdict.
abbrev pub Progress : ℕ → World → WaitTimeoutResult ℕ → World → Type 0
Progress t₀ w r w' = (w.time < w'.time) × (w'.word ≡ w.word) × (t₀ ≤ w.time → Conclusive r)

-- The same of the prefix, which may end without a result before `t₀`.
abbrev pub EarlyProgress : ℕ → World → Option (WaitTimeoutResult ℕ) → World → Type 0
EarlyProgress t₀ w none w' = (w.time < w'.time) × (w'.word ≡ w.word) × (w.time < t₀)
EarlyProgress t₀ w (some r) w' = Progress t₀ w r w'

abbrev Early : Option (WaitTimeoutResult ℕ) → Type 0
Early none = Unit
Early (some r) = Conclusive r

module _ (env : Env) (e t₀ : ℕ) where
  -- The rounds add steps and return only verdicts.
  spin_rounds-later :
      (d : Option Deadline) (n : ℕ) (w : World)
      → Returns
          (λ r w'. (w.time ≤ w'.time) × (w'.word ≡ w.word) × Early r)
          (spin_rounds env e d n w)
  unfolding spin_rounds
  spin_rounds-later d zero w = ground arith
  spin_rounds-later none (suc n) w = ground (arith, spin_rounds-later none n (saw (step w spun)))
  spin_rounds-later (some d) (suc n) w =
      ground (arith, spin_rounds-later (some d) n (tick env (saw (step w spun))))

  pub spin_prefix-Progress :
      (d : Option Deadline) (n : ℕ) (w : World)
      → Settles env w.word e d t₀
      → Returns (EarlyProgress t₀ w) (spin_prefix env e n d w)
  unfolding spin_prefix
  spin_prefix-Progress none n w h = ground (arith, h w.time, spin_rounds-later none n (saw w))
  spin_prefix-Progress (some d) n w h =
      ground (arith, h w.time, spin_rounds-later (some d) n (tick env (saw w)))

  -- Fuel for the steps until `t₀` is enough.
  pub busy_spin_raw-Progress :
      (d : Option Deadline) (fuel : ℕ) (w : World)
      → Settles env w.word e d t₀
      → t₀ - w.time < fuel
      → Returns (Progress t₀ w) (busy_spin_raw env fuel e d w)
  unfolding busy_spin_raw
  busy_spin_raw-Progress d zero w h enough = absurd (omega arith)
  busy_spin_raw-Progress none (suc fuel) w h enough =
      ground (arith, h w.time, busy_spin_raw-Progress none fuel (step (saw w) spun) h)
  busy_spin_raw-Progress (some d) (suc fuel) w h enough =
      ground
        (arith, h w.time, busy_spin_raw-Progress (some d) fuel (step (tick env (saw w)) spun) h)

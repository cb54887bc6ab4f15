-- ===== src/Wait/Polling.antt =====
-- The polling strategies justify their results.
use snoozer.Prelude.{ℕ, zero, suc, Option, none, some, arith}
use snoozer.Machine.{Env, World, spun, step, saw, tick}
use snoozer.Outcome.{Upto, Returns}
use snoozer.Wait.Evidence.{Witnessed}
use snoozer.Wait.{
  Deadline, WaitTimeoutResult, classify_after_wait, spin_rounds, spin_prefix, busy_spin_raw,
}

module _ (env : Env) (e : ℕ) where
  pub classify_after_wait-Witnessed :
      (d : Option Deadline) (w : World)
      → Returns (Witnessed env e d) (classify_after_wait env e d w)
  unfolding classify_after_wait
  classify_after_wait-Witnessed none w = ground arith
  classify_after_wait-Witnessed (some d) w = ground arith

  -- What an early result of the prefix is worth; `none` leaves nothing to justify.
  abbrev pub Early : Option Deadline → Option (WaitTimeoutResult ℕ) → World → Type 0
  Early d none w = Unit
  Early d (some r) w = Witnessed env e d r w

  spin_rounds-Early :
      (d : Option Deadline) (n : ℕ) (w : World) → Returns (Early d) (spin_rounds env e d n w)
  unfolding spin_rounds
  spin_rounds-Early d zero w = tt
  spin_rounds-Early none (suc n) w = ground (arith, spin_rounds-Early none n (saw (step w spun)))
  spin_rounds-Early (some d) (suc n) w =
      ground (arith, spin_rounds-Early (some d) n (tick env (saw (step w spun))))

  pub spin_prefix-Early :
      (d : Option Deadline) (n : ℕ) (w : World) → Returns (Early d) (spin_prefix env e n d w)
  unfolding spin_prefix
  spin_prefix-Early none n w = ground (arith, spin_rounds-Early none n (saw w))
  spin_prefix-Early (some d) n w = ground (arith, spin_rounds-Early (some d) n (tick env (saw w)))

  pub busy_spin_raw-Witnessed :
      (d : Option Deadline) (fuel : ℕ) (w : World)
      → Upto (Witnessed env e d) (busy_spin_raw env fuel e d w)
  unfolding busy_spin_raw
  busy_spin_raw-Witnessed d zero w = tt
  busy_spin_raw-Witnessed none (suc fuel) w =
      ground (arith, busy_spin_raw-Witnessed none fuel (step (saw w) spun))
  busy_spin_raw-Witnessed (some d) (suc fuel) w =
      ground (arith, busy_spin_raw-Witnessed (some d) fuel (step (tick env (saw w)) spun))

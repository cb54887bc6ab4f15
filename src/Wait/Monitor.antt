-- ===== src/Wait/Monitor.antt =====
-- The lost-wake protocol of docs/architecture.md as a monitor that reads the log of the thread:
-- a hardware wait is allowed only when the watched address was armed and a later Acquire load,
-- newer than any other arming or wait, saw the expected value.
use snoozer.Prelude.{
  ℕ, zero, suc, ◌≢◌, Option, none, some, List, [], ◌∷◌, arith, ◌==◌, if◌then◌else◌,
}
use snoozer.Machine.{
  Env, World, Event, loaded, armed, mwaited, umwaited, handed_off, spun, step, saw, tick,
}
use snoozer.Outcome.{Upto, Returns}
use snoozer.Wait.Evidence.{Witnessed}
use snoozer.Wait.{
  Deadline, WaitTimeoutResult, classify_after_wait, spin_rounds, spin_prefix, busy_spin_raw,
}

pub data Phase : Type 0 where
  quiet : Phase  -- nothing is armed that a wait may use
  watching : Phase  -- armed, and not yet rechecked
  ready : Phase  -- armed and rechecked
  fault : Phase  -- a wait was executed that was not ready

-- a load of the value `v`
abbrev recheck : ℕ → ℕ → Phase → Phase
recheck e v quiet = quiet
recheck e v fault = fault
recheck e v _ = if v == e then ready else quiet

abbrev arm : ℕ → ℕ → Phase → Phase
arm address at fault = fault
arm address at _ = if at == address then watching else quiet

abbrev sleep : Phase → Phase
sleep ready = quiet
sleep _ = fault

-- The preflight lets its helper store only once the wait is ready, and must recheck again.
abbrev let_go : Phase → Phase
let_go ready = watching
let_go _ = fault

abbrev pub advance : ℕ → ℕ → Event → Phase → Phase
advance address e (loaded v) p = recheck e v p
advance address e (armed at) p = arm address at p
advance address e (mwaited cycles hint) p = sleep p
advance address e (umwaited deadline) p = sleep p
advance address e handed_off p = let_go p
advance address e _ p = p

abbrev pub phase : ℕ → ℕ → List Event → Phase
phase address e [] = quiet
phase address e (event ∷ older) = advance address e event (phase address e older)

module _ (env : Env) (e : ℕ) where
  -- No hardware wait in the log of `w` broke the protocol for the expected value `e`.
  abbrev pub IsGuarded : World → Type 0
  IsGuarded w = phase env.address e w.trace ≢ fault

  -- The result is justified by the log, a change is what the word was at the step before, and the
  -- protocol was kept.
  abbrev pub Sound : Option Deadline → WaitTimeoutResult ℕ → World → Type 0
  Sound d r w = Witnessed env e d r w × IsGuarded w

  pub classify_after_wait-IsGuarded :
      (d : Option Deadline) (w : World)
      → IsGuarded w
      → Returns (λ _ w'. IsGuarded w') (classify_after_wait env e d w)
  unfolding classify_after_wait
  classify_after_wait-IsGuarded none w h = ground arith
  classify_after_wait-IsGuarded (some d) w h = ground arith

  spin_rounds-IsGuarded :
      (d : Option Deadline) (n : ℕ) (w : World)
      → IsGuarded w
      → Returns (λ _ w'. IsGuarded w') (spin_rounds env e d n w)
  unfolding spin_rounds
  spin_rounds-IsGuarded d zero w h = h
  spin_rounds-IsGuarded none (suc n) w h =
      ground (arith, spin_rounds-IsGuarded none n (saw (step w spun)))
  spin_rounds-IsGuarded (some d) (suc n) w h =
      ground (arith, spin_rounds-IsGuarded (some d) n (tick env (saw (step w spun))))

  pub spin_prefix-IsGuarded :
      (d : Option Deadline) (n : ℕ) (w : World)
      → IsGuarded w
      → Returns (λ _ w'. IsGuarded w') (spin_prefix env e n d w)
  unfolding spin_prefix
  spin_prefix-IsGuarded none n w h = ground (arith, spin_rounds-IsGuarded none n (saw w))
  spin_prefix-IsGuarded (some d) n w h =
      ground (arith, spin_rounds-IsGuarded (some d) n (tick env (saw w)))

  pub busy_spin_raw-IsGuarded :
      (d : Option Deadline) (fuel : ℕ) (w : World)
      → IsGuarded w
      → Upto (λ _ w'. IsGuarded w') (busy_spin_raw env fuel e d w)
  unfolding busy_spin_raw
  busy_spin_raw-IsGuarded d zero w h = tt
  busy_spin_raw-IsGuarded none (suc fuel) w h =
      ground (arith, busy_spin_raw-IsGuarded none fuel (step (saw w) spun))
  busy_spin_raw-IsGuarded (some d) (suc fuel) w h =
      ground (arith, busy_spin_raw-IsGuarded (some d) fuel (step (tick env (saw w)) spun))

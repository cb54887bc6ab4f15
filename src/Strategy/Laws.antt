-- ===== src/Strategy/Laws.antt =====
-- What a strategy promises to the public waits.
use snoozer.Prelude.{ℕ, ◌-◌, ◌<◌, ◌≡◌, Option, none}
use snoozer.Machine.{Env, World}
use snoozer.Outcome.{Upto, Returns}
use snoozer.Wait.{Deadline}
use snoozer.Wait.Monitor.{IsGuarded, Sound}
use snoozer.Wait.Blocking.{Steady}
use snoozer.Wait.Progress.{Settles, Progress}
use snoozer.Strategy.{StrategyImpl}

pub record IsLawful (env : Env) (s : StrategyImpl) : Type 0 where
  -- The untimed raw wait, overridden or not, is the raw wait with no deadline.
  pub untimed : (fuel e : ℕ) (w : World) → s.wait_raw_untimed fuel e w ≡ s.wait_raw fuel e none w
  -- What a raw wait returns is justified, and the protocol of the monitor is kept.
  pub sound :
      (fuel e : ℕ) (d : Option Deadline) (w : World)
      → IsGuarded env e w
      → Upto (Sound env e d) (s.wait_raw fuel e d w)
  -- One raw wait takes time, stores nothing, and blocks or yields at most once.
  pub steady :
      (fuel e : ℕ) (d : Option Deadline) (w : World) → Upto (Steady 1 w) (s.wait_raw fuel e d w)
  -- With fuel for the steps until the word or the clock decides, a raw wait returns.
  pub progress :
      (fuel e t₀ : ℕ) (d : Option Deadline) (w : World)
      → Settles env w.word e d t₀
      → t₀ - w.time < fuel
      → Returns (Progress t₀ w) (s.wait_raw fuel e d w)

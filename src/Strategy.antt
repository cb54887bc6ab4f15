-- ===== src/Strategy.antt =====
-- `StrategyImpl` and `WaitStrategy` of src/strategy.rs: the interface of a strategy, its five
-- implementations, and the four public waits that `impl_wait_strategy!` defines over it. A loop
-- takes fuel, one unit for each of its turns.
pub mod Laws
mod Prefixed
pub mod Lawful
pub mod Filtered
pub mod Timed
use snoozer.Prelude.{ℕ, zero, suc, Option, none, some}
use snoozer.Machine.{Env, M, pure, ◌>>=◌, running}
use snoozer.Errors.{Strategy}
use snoozer.Wait.{
  Deadline, WaitResult, WaitTimeoutResult, WaitUntilTimeoutResult, drop_timeout, new_deadline,
  busy_spin_raw, spin_then_yield_raw,
}
use snoozer.Cycles.{AmdConfig, HardwareConfig, c1_state_hint}
use snoozer.Hardware.{
  hardware_wait, hardware_wait_untimed, spin_then_hardware_raw, spin_then_hardware_raw_untimed,
  mwaitx_raw_hardware, amd_mwaitx_c1_raw,
}

-- The first argument of a raw wait is its fuel, which only `BusySpin` uses.
pub record StrategyImpl : Type 0 where
  pub strategy : Strategy
  pub wait_raw_untimed : ℕ → ℕ → M (WaitTimeoutResult ℕ)
  pub wait_raw : ℕ → ℕ → Option Deadline → M (WaitTimeoutResult ℕ)

-- `wait_raw_untimed` where a strategy does not override it
abbrev pub default_untimed :
    (ℕ → ℕ → Option Deadline → M (WaitTimeoutResult ℕ)) → ℕ → ℕ → M (WaitTimeoutResult ℕ)
default_untimed wait_raw fuel expected = wait_raw fuel expected none

module _ (env : Env) where
  abbrev pub busy_spin : StrategyImpl
  busy_spin = record {
    strategy = Strategy.busy_spin;
    wait_raw_untimed = default_untimed (busy_spin_raw env);
    wait_raw = busy_spin_raw env;
  }

  abbrev pub spin_then_yield : ℕ → StrategyImpl
  spin_then_yield spin_iterations = record {
    strategy = Strategy.spin_then_yield;
    wait_raw_untimed = default_untimed (λ _. spin_then_yield_raw env spin_iterations);
    wait_raw = λ _. spin_then_yield_raw env spin_iterations;
  }

  -- `HardwareWait`
  abbrev pub hardware : HardwareConfig → StrategyImpl
  hardware config = record {
    strategy = Strategy.hardware_wait;
    wait_raw_untimed = λ _. hardware_wait_untimed env config;
    wait_raw = λ _. hardware_wait env config;
  }

  abbrev pub spin_then_hardware : ℕ → HardwareConfig → StrategyImpl
  spin_then_hardware spin_iterations config = record {
    strategy = Strategy.spin_then_hardware_wait;
    wait_raw_untimed = λ _. spin_then_hardware_raw_untimed env spin_iterations config;
    wait_raw = λ _. spin_then_hardware_raw env spin_iterations config;
  }

  abbrev pub amd_mwaitx_c1 : AmdConfig → StrategyImpl
  amd_mwaitx_c1 config = record {
    strategy = Strategy.hardware_wait;
    wait_raw_untimed = λ _. mwaitx_raw_hardware env config c1_state_hint;
    wait_raw = λ _. amd_mwaitx_c1_raw env config;
  }

-- the body of the loop of `wait_until_different`, with what comes after it
abbrev pub if_changed : M ℕ → WaitTimeoutResult ℕ → M ℕ
if_changed again (WaitTimeoutResult.changed value) = pure value
if_changed again _ = again

-- the `match` of `wait_until_different_timeout`, with the next turn of its loop
abbrev pub if_conclusive :
    M (WaitUntilTimeoutResult ℕ) → WaitTimeoutResult ℕ → M (WaitUntilTimeoutResult ℕ)
if_conclusive again (WaitTimeoutResult.changed value) = pure (WaitUntilTimeoutResult.changed value)
if_conclusive again WaitTimeoutResult.timed_out = pure WaitUntilTimeoutResult.timed_out
if_conclusive again WaitTimeoutResult.unclassified = again

module _ (env : Env) (s : StrategyImpl) where
  unfoldable pub wait_if_equal : ℕ → ℕ → M (WaitResult ℕ)
  wait_if_equal fuel expected = do
    result ← s.wait_raw_untimed fuel expected
    pure (drop_timeout result)

  -- `turns` bounds the turns of the loop, `fuel` each raw wait.
  unfoldable pub wait_until_different : ℕ → ℕ → ℕ → M ℕ
  wait_until_different zero fuel expected = running
  wait_until_different (suc turns) fuel expected =
      let again = wait_until_different turns fuel expected in
      do result ← s.wait_raw_untimed fuel expected; if_changed again result

  unfoldable pub wait_if_equal_timeout : ℕ → ℕ → ℕ → M (WaitTimeoutResult ℕ)
  wait_if_equal_timeout fuel expected timeout = do
    deadline ← new_deadline env timeout
    s.wait_raw fuel expected (some deadline)

  -- the loop of `wait_until_different_timeout`
  unfoldable pub wait_until_deadline : ℕ → ℕ → ℕ → Deadline → M (WaitUntilTimeoutResult ℕ)
  wait_until_deadline zero fuel expected deadline = running
  wait_until_deadline (suc turns) fuel expected deadline =
      let again = wait_until_deadline turns fuel expected deadline in
      do result ← s.wait_raw fuel expected (some deadline); if_conclusive again result

  unfoldable pub wait_until_different_timeout : ℕ → ℕ → ℕ → ℕ → M (WaitUntilTimeoutResult ℕ)
  wait_until_different_timeout turns fuel expected timeout = do
    deadline ← new_deadline env timeout
    wait_until_deadline turns fuel expected deadline

-- ===== src/Parker.antt =====
-- The notification token and the park operations of src/parker.rs. The word of the machine is the
-- token; the producers' side is the rest of the environment.
pub mod Token
pub mod Parts
pub mod Park
pub mod ParkTimeout
use snoozer.Prelude.{ℕ, Bool, true, false, ◌==◌, if◌then◌else◌}
use snoozer.Machine.{
  Env, M, Action, pure, ◌>>=◌, ◌>>◌, debug_assert, load_relaxed, compare_exchange,
}
use snoozer.Wait.{WaitTimeoutResult, WaitUntilTimeoutResult}
use snoozer.Strategy.{
  StrategyImpl, wait_if_equal, wait_until_different, wait_if_equal_timeout,
  wait_until_different_timeout,
}

abbrev pub empty_token : ℕ
empty_token = 0

abbrev pub notified_token : ℕ
notified_token = 1

pub data ParkResult : Type 0 where
  notified unclassified : ParkResult

pub data ParkTimeoutResult : Type 0 where
  notified unclassified timed_out : ParkTimeoutResult

pub data NotificationTimeoutResult : Type 0 where
  notified timed_out : NotificationTimeoutResult

-- `if self.take_notification() { return value; }`
abbrev pub return_if {ℓ} : {A : Type ℓ} → A → M A → Bool → M A
return_if value rest true = pure value
return_if value rest false = rest

-- the `match wait_result` of `park_timeout`
abbrev pub untaken : WaitTimeoutResult ℕ → ParkTimeoutResult
untaken WaitTimeoutResult.timed_out = ParkTimeoutResult.timed_out
untaken _ = ParkTimeoutResult.unclassified

module _ (env : Env) where
  unfoldable pub take_notification : M Bool
  take_notification = do
    observed ← load_relaxed
    if observed == notified_token
        then compare_exchange env notified_token empty_token
        else pure false

  -- `let consumed = self.take_notification(); debug_assert!(consumed);`
  unfoldable pub take_asserted : Action
  take_asserted = do consumed ← take_notification; debug_assert consumed

  module _ (s : StrategyImpl) where
    abbrev pub park_unready : ℕ → M ParkResult
    park_unready fuel = do
      _wait_result ← wait_if_equal env s fuel empty_token
      taken ← take_notification
      return_if ParkResult.notified (pure ParkResult.unclassified) taken

    unfoldable pub park : ℕ → M ParkResult
    park fuel = do
      ready ← take_notification
      return_if ParkResult.notified (park_unready fuel) ready

    abbrev pub park_until_unready : ℕ → ℕ → Action
    park_until_unready turns fuel = do
      _observed ← wait_until_different env s turns fuel empty_token
      take_asserted

    unfoldable pub park_until_notified : ℕ → ℕ → Action
    park_until_notified turns fuel = do
      ready ← take_notification
      return_if tt (park_until_unready turns fuel) ready

    abbrev pub park_timeout_unready : ℕ → ℕ → M ParkTimeoutResult
    park_timeout_unready fuel timeout = do
      wait_result ← wait_if_equal_timeout env s fuel empty_token timeout
      taken ← take_notification
      return_if ParkTimeoutResult.notified (pure (untaken wait_result)) taken

    unfoldable pub park_timeout : ℕ → ℕ → M ParkTimeoutResult
    park_timeout fuel timeout = do
      ready ← take_notification
      return_if ParkTimeoutResult.notified (park_timeout_unready fuel timeout) ready

    -- the `match` of `park_until_notified_timeout`
    abbrev pub after_filtered : WaitUntilTimeoutResult ℕ → M NotificationTimeoutResult
    after_filtered (WaitUntilTimeoutResult.changed _observed) = do
      take_asserted
      pure NotificationTimeoutResult.notified
    after_filtered WaitUntilTimeoutResult.timed_out = do
      taken ← take_notification
      return_if NotificationTimeoutResult.notified (pure NotificationTimeoutResult.timed_out) taken

    abbrev pub park_until_timeout_unready : ℕ → ℕ → ℕ → M NotificationTimeoutResult
    park_until_timeout_unready turns fuel timeout = do
      result ← wait_until_different_timeout env s turns fuel empty_token timeout
      after_filtered result

    unfoldable pub park_until_notified_timeout : ℕ → ℕ → ℕ → M NotificationTimeoutResult
    park_until_notified_timeout turns fuel timeout = do
      ready ← take_notification
      return_if NotificationTimeoutResult.notified (park_until_timeout_unready turns fuel timeout)
          ready

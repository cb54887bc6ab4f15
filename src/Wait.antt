-- ===== src/Wait.antt =====
-- The wait results, `Deadline`, and the helpers that every strategy of src/strategy.rs shares:
-- `spin_prefix`, `classify_after_wait`, and the raw waits of `BusySpin` and `SpinThenYield`.
pub mod Evidence
pub mod Polling
pub mod Monitor
pub mod Blocking
pub mod Progress
use snoozer.Prelude.{
  ℕ, zero, suc, ◌-◌, Bool, false, Option, none, some, ◌==◌, leb, if◌then◌else◌, is_none,
}
use snoozer.Machine.{
  Env, M, pure, ◌>>=◌, ◌>>◌, running, spin_loop, yield_now, load_acquire, instant_now,
}

pub data WaitResult {ℓ} (T : Type ℓ) : Type ℓ where
  changed : T → WaitResult T
  unclassified : WaitResult T

pub data WaitTimeoutResult {ℓ} (T : Type ℓ) : Type ℓ where
  changed : T → WaitTimeoutResult T
  unclassified : WaitTimeoutResult T
  timed_out : WaitTimeoutResult T

pub data WaitUntilTimeoutResult {ℓ} (T : Type ℓ) : Type ℓ where
  changed : T → WaitUntilTimeoutResult T
  timed_out : WaitUntilTimeoutResult T

-- Instants and durations are in nanoseconds.
pub record Deadline : Type 0 where
  pub started : ℕ
  pub timeout : ℕ

-- `Duration` subtraction as `Deadline::remaining` makes it: `elapsed` stops at zero.
abbrev pub remaining_at : Deadline → ℕ → Option ℕ
remaining_at d now =
    let elapsed = now - d.started in
    if leb d.timeout elapsed then none else some (d.timeout - elapsed)

-- The two halves of `impl_wait_strategy!` that only rename results.
unfoldable pub drop_timeout : WaitTimeoutResult ℕ → WaitResult ℕ
drop_timeout (WaitTimeoutResult.changed v) = WaitResult.changed v
drop_timeout _ = WaitResult.unclassified

-- `if let Some(result) = spin_prefix(..) { return result; }`
abbrev pub or_else :
    Option (WaitTimeoutResult ℕ) → M (WaitTimeoutResult ℕ) → M (WaitTimeoutResult ℕ)
or_else none rest = rest
or_else (some result) rest = pure result

module _ (env : Env) where
  -- `Deadline::new`
  unfoldable pub new_deadline : ℕ → M Deadline
  new_deadline timeout = do
    now ← instant_now env
    pure (record { started = now; timeout = timeout })

  unfoldable pub remaining : Deadline → M (Option ℕ)
  remaining d = do now ← instant_now env; pure (remaining_at d now)

  -- `deadline.is_some_and(|value| value.remaining().is_none())`
  unfoldable pub is_expired : Option Deadline → M Bool
  unfolding remaining
  is_expired none = pure false
  is_expired (some d) = do left ← remaining d; pure (is_none left)

  unfoldable pub classify_after_wait : ℕ → Option Deadline → M (WaitTimeoutResult ℕ)
  unfolding is_expired
  classify_after_wait expected deadline = do
    observed ← load_acquire
    if observed == expected
        then (do
          late ← is_expired deadline
          pure (if late then WaitTimeoutResult.timed_out else WaitTimeoutResult.unclassified))
        else pure (WaitTimeoutResult.changed observed)

  -- the `for` loop of `spin_prefix`
  unfoldable pub spin_rounds : ℕ → Option Deadline → ℕ → M (Option (WaitTimeoutResult ℕ))
  unfolding is_expired
  spin_rounds expected deadline zero = pure none
  spin_rounds expected deadline (suc iterations) =
      let rest = spin_rounds expected deadline iterations in
      do
        spin_loop
        observed ← load_acquire
        if observed == expected
            then (do
              late ← is_expired deadline
              if late then pure (some WaitTimeoutResult.timed_out) else rest)
            else pure (some (WaitTimeoutResult.changed observed))

  unfoldable pub spin_prefix : ℕ → ℕ → Option Deadline → M (Option (WaitTimeoutResult ℕ))
  unfolding is_expired
  spin_prefix expected spin_iterations deadline = do
    initially_observed ← load_acquire
    if initially_observed == expected
        then (do
          late ← is_expired deadline
          if late
              then pure (some WaitTimeoutResult.timed_out)
              else spin_rounds expected deadline spin_iterations)
        else pure (some (WaitTimeoutResult.changed initially_observed))

  -- `BusySpin::wait_raw`, on fuel: one unit for each turn of the loop.
  unfoldable pub busy_spin_raw : ℕ → ℕ → Option Deadline → M (WaitTimeoutResult ℕ)
  unfolding is_expired
  busy_spin_raw zero expected deadline = running
  busy_spin_raw (suc fuel) expected deadline =
      let rest = busy_spin_raw fuel expected deadline in
      do
        observed ← load_acquire
        if observed == expected
            then (do
              late ← is_expired deadline
              if late then pure WaitTimeoutResult.timed_out else (do spin_loop; rest))
            else pure (WaitTimeoutResult.changed observed)

  -- `SpinThenYield::wait_raw`
  unfoldable pub spin_then_yield_raw : ℕ → ℕ → Option Deadline → M (WaitTimeoutResult ℕ)
  spin_then_yield_raw spin_iterations expected deadline = do
    early ← spin_prefix expected spin_iterations deadline
    or_else early (do yield_now; classify_after_wait expected deadline)

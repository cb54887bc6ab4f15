-- ===== src/Hardware.antt =====
-- The hardware wait strategies of src/strategy.rs: the AMD and Intel protocols, `hardware_wait`,
-- and the raw waits of `HardwareWait`, `SpinThenHardwareWait` and `AmdMwaitxC1`. The source calls
-- `deadline.remaining()` by itself in the timed protocols.
pub mod Protocol
pub mod Blocking
pub mod Duration
use snoozer.Prelude.{ℕ, Bool, Option, none, some, ◌==◌, if◌then◌else◌}
use snoozer.Machine.{
  Env, M, Action, pure, ◌>>=◌, ◌>>◌, load_acquire, monitorx, mwaitx, umonitor, umwait_c01,
}
use snoozer.Wait.{Deadline, WaitTimeoutResult, remaining, classify_after_wait, spin_prefix, or_else}
use snoozer.Cycles.{
  AmdConfig, IntelConfig, HardwareConfig, amd, intel, no_c_state_hint, c1_state_hint,
  mwaitx_timeout_cycles, umwait_timeout_cycles, umwait_deadline,
}

abbrev Raw : Type 0
Raw = WaitTimeoutResult ℕ

module _ (env : Env) where
  -- `let observed = atomic.__load_acquire(); if observed != expected { return Changed(observed); }`
  abbrev check_then : ℕ → M Raw → M Raw
  check_then expected rest = do
    observed ← load_acquire
    if observed == expected then rest else pure (WaitTimeoutResult.changed observed)

  -- `let Some(remaining) = deadline.remaining() else { return TimedOut; }`
  abbrev in_time : Option ℕ → (ℕ → M Raw) → M Raw
  in_time none rest = pure WaitTimeoutResult.timed_out
  in_time (some left) rest = rest left

  unfoldable pub mwaitx_untimed_protocol :
      AmdConfig → ℕ → ℕ → (ℕ → Action) → (ℕ → ℕ → Action) → M Raw
  mwaitx_untimed_protocol config c_state_hint expected arm wait = check_then expected (do
    arm env.address
    check_then expected
        (do wait config.safety_timeout_cycles c_state_hint; classify_after_wait env expected none))

  unfoldable pub mwaitx_timed_protocol :
      AmdConfig → ℕ → ℕ → Deadline → (ℕ → Action) → (ℕ → ℕ → Action) → M Raw
  unfolding remaining
  mwaitx_timed_protocol config c_state_hint expected deadline arm wait = check_then expected (do
    early ← remaining env deadline
    in_time early λ _. do
      arm env.address
      check_then expected (do
        late ← remaining env deadline
        in_time late λ left. do
          wait (mwaitx_timeout_cycles config left) c_state_hint
          classify_after_wait env expected (some deadline)))

  unfoldable pub umwait_untimed_protocol :
      IntelConfig → ℕ → (ℕ → Action) → (ℕ → M ℕ) → (ℕ → Action) → M Raw
  umwait_untimed_protocol config expected arm absolute_deadline wait = check_then expected (do
    arm env.address
    check_then expected (do
      until ← absolute_deadline config.safety_timeout_cycles
      wait until
      classify_after_wait env expected none))

  unfoldable pub umwait_timed_protocol :
      IntelConfig → ℕ → Deadline → (ℕ → Action) → (ℕ → M ℕ) → (ℕ → Action) → M Raw
  unfolding remaining
  umwait_timed_protocol config expected deadline arm absolute_deadline wait =
      check_then expected (do
        early ← remaining env deadline
        in_time early λ _. do
          arm env.address
          check_then expected (do
            late ← remaining env deadline
            in_time late λ left. do
              until ← absolute_deadline (umwait_timeout_cycles config left)
              wait until
              classify_after_wait env expected (some deadline)))

  unfoldable pub mwaitx_raw_hardware : AmdConfig → ℕ → ℕ → M Raw
  unfolding mwaitx_untimed_protocol
  mwaitx_raw_hardware config c_state_hint expected =
      mwaitx_untimed_protocol config c_state_hint expected monitorx mwaitx

  unfoldable pub mwaitx_raw_timeout_hardware : AmdConfig → ℕ → ℕ → Deadline → M Raw
  unfolding mwaitx_timed_protocol
  mwaitx_raw_timeout_hardware config c_state_hint expected deadline =
      mwaitx_timed_protocol config c_state_hint expected deadline monitorx mwaitx

  unfoldable pub umwait_raw_hardware : IntelConfig → ℕ → M Raw
  unfolding umwait_untimed_protocol umwait_deadline
  umwait_raw_hardware config expected =
      umwait_untimed_protocol config expected umonitor (umwait_deadline env) umwait_c01

  unfoldable pub umwait_raw_timeout_hardware : IntelConfig → ℕ → Deadline → M Raw
  unfolding umwait_timed_protocol umwait_deadline
  umwait_raw_timeout_hardware config expected deadline =
      umwait_timed_protocol config expected deadline umonitor (umwait_deadline env) umwait_c01

  unfoldable pub hardware_wait : HardwareConfig → ℕ → Option Deadline → M Raw
  hardware_wait (amd config) expected (some deadline) =
      mwaitx_raw_timeout_hardware config no_c_state_hint expected deadline
  hardware_wait (amd config) expected none = mwaitx_raw_hardware config no_c_state_hint expected
  hardware_wait (intel config) expected (some deadline) =
      umwait_raw_timeout_hardware config expected deadline
  hardware_wait (intel config) expected none = umwait_raw_hardware config expected

  unfoldable pub hardware_wait_untimed : HardwareConfig → ℕ → M Raw
  hardware_wait_untimed config expected = hardware_wait config expected none

  -- `SpinThenHardwareWait::wait_raw`; its untimed form is the case with no deadline.
  unfoldable pub spin_then_hardware_raw : ℕ → HardwareConfig → ℕ → Option Deadline → M Raw
  spin_then_hardware_raw spin_iterations config expected deadline = do
    early ← spin_prefix env expected spin_iterations deadline
    or_else early (hardware_wait config expected deadline)

  -- `SpinThenHardwareWait::wait_raw_untimed`
  unfoldable pub spin_then_hardware_raw_untimed : ℕ → HardwareConfig → ℕ → M Raw
  spin_then_hardware_raw_untimed spin_iterations config expected = do
    early ← spin_prefix env expected spin_iterations none
    or_else early (hardware_wait_untimed config expected)

  -- `AmdMwaitxC1::wait_raw`
  unfoldable pub amd_mwaitx_c1_raw : AmdConfig → ℕ → Option Deadline → M Raw
  amd_mwaitx_c1_raw config expected (some deadline) =
      mwaitx_raw_timeout_hardware config c1_state_hint expected deadline
  amd_mwaitx_c1_raw config expected none = mwaitx_raw_hardware config c1_state_hint expected

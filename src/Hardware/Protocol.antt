-- ===== src/Hardware/Protocol.antt =====
-- Every hardware wait keeps the arm, recheck and wait protocol, justifies its result, and ends.
use snoozer.Prelude.{ℕ, Option, none, some, arith}
use snoozer.Machine.{Env, World}
use snoozer.Outcome.{Returns}
use snoozer.Wait.{Deadline, classify_after_wait}
use snoozer.Wait.Monitor.{IsGuarded, Sound}
use snoozer.Wait.Progress.{Settles, Progress}
use snoozer.Cycles.{AmdConfig, IntelConfig, HardwareConfig, amd, intel}
use snoozer.Hardware.{
  mwaitx_raw_hardware, mwaitx_raw_timeout_hardware, umwait_raw_hardware,
  umwait_raw_timeout_hardware, hardware_wait,
}

module _ (env : Env) (e : ℕ) where
  pub mwaitx_untimed-Sound :
      (c : AmdConfig) (hint : ℕ) (w : World)
      → IsGuarded env e w
      → Returns (Sound env e none) (mwaitx_raw_hardware env c hint e w)
  unfolding mwaitx_raw_hardware classify_after_wait
  mwaitx_untimed-Sound c hint w h = ground arith

  pub mwaitx_timed-Sound :
      (c : AmdConfig) (hint : ℕ) (d : Deadline) (w : World)
      → IsGuarded env e w
      → Returns (Sound env e (some d)) (mwaitx_raw_timeout_hardware env c hint e d w)
  unfolding mwaitx_raw_timeout_hardware classify_after_wait
  mwaitx_timed-Sound c hint d w h = ground arith

  umwait_untimed-Sound :
      (c : IntelConfig) (w : World)
      → IsGuarded env e w
      → Returns (Sound env e none) (umwait_raw_hardware env c e w)
  unfolding umwait_raw_hardware classify_after_wait
  umwait_untimed-Sound c w h = ground arith

  umwait_timed-Sound :
      (c : IntelConfig) (d : Deadline) (w : World)
      → IsGuarded env e w
      → Returns (Sound env e (some d)) (umwait_raw_timeout_hardware env c e d w)
  unfolding umwait_raw_timeout_hardware classify_after_wait
  umwait_timed-Sound c d w h = ground arith

  -- If the log kept the protocol of the monitor, a hardware wait returns; what it returns is
  -- justified by its log; and no MWAITX or UMWAIT was executed without the monitor armed and the
  -- word rechecked after that.
  pub hardware_wait-Sound :
      (c : HardwareConfig) (d : Option Deadline) (w : World)
      → IsGuarded env e w
      → Returns (Sound env e d) (hardware_wait env c e d w)
  unfolding hardware_wait
  hardware_wait-Sound (amd c) none w h = mwaitx_untimed-Sound c _ w h
  hardware_wait-Sound (amd c) (some d) w h = mwaitx_timed-Sound c _ d w h
  hardware_wait-Sound (intel c) none w h = umwait_untimed-Sound c w h
  hardware_wait-Sound (intel c) (some d) w h = umwait_timed-Sound c d w h

module _ (env : Env) (e t₀ : ℕ) where
  pub mwaitx_untimed-Progress :
      (c : AmdConfig) (hint : ℕ) (w : World)
      → Settles env w.word e none t₀
      → Returns (Progress t₀ w) (mwaitx_raw_hardware env c hint e w)
  unfolding mwaitx_raw_hardware classify_after_wait
  mwaitx_untimed-Progress c hint w h = ground (arith, h w.time)

  pub mwaitx_timed-Progress :
      (c : AmdConfig) (hint : ℕ) (d : Deadline) (w : World)
      → Settles env w.word e (some d) t₀
      → Returns (Progress t₀ w) (mwaitx_raw_timeout_hardware env c hint e d w)
  unfolding mwaitx_raw_timeout_hardware classify_after_wait
  mwaitx_timed-Progress c hint d w h = ground (arith, h w.time)

  umwait_untimed-Progress :
      (c : IntelConfig) (w : World)
      → Settles env w.word e none t₀
      → Returns (Progress t₀ w) (umwait_raw_hardware env c e w)
  unfolding umwait_raw_hardware classify_after_wait
  umwait_untimed-Progress c w h = ground (arith, h w.time)

  umwait_timed-Progress :
      (c : IntelConfig) (d : Deadline) (w : World)
      → Settles env w.word e (some d) t₀
      → Returns (Progress t₀ w) (umwait_raw_timeout_hardware env c e d w)
  unfolding umwait_raw_timeout_hardware classify_after_wait
  umwait_timed-Progress c d w h = ground (arith, h w.time)

  -- If from step `t₀` on the word differs from the expected value or the clock is past the
  -- deadline, a hardware wait returns, makes time pass and stores nothing, and one that starts at
  -- `t₀` or later returns a change or a timeout.
  pub hardware_wait-Progress :
      (c : HardwareConfig) (d : Option Deadline) (w : World)
      → Settles env w.word e d t₀
      → Returns (Progress t₀ w) (hardware_wait env c e d w)
  unfolding hardware_wait
  hardware_wait-Progress (amd c) none w h = mwaitx_untimed-Progress c _ w h
  hardware_wait-Progress (amd c) (some d) w h = mwaitx_timed-Progress c _ d w h
  hardware_wait-Progress (intel c) none w h = umwait_untimed-Progress c w h
  hardware_wait-Progress (intel c) (some d) w h = umwait_timed-Progress c d w h

-- ===== src/Hardware/Blocking.antt =====
-- A hardware wait takes some time, stores nothing and executes at most one wait instruction.
use snoozer.Prelude.{ℕ, Option, none, some, arith}
use snoozer.Machine.{Env, World}
use snoozer.Outcome.{Returns}
use snoozer.Wait.{Deadline, classify_after_wait}
use snoozer.Wait.Blocking.{Steady}
use snoozer.Cycles.{AmdConfig, IntelConfig, HardwareConfig, amd, intel}
use snoozer.Hardware.{
  mwaitx_raw_hardware, mwaitx_raw_timeout_hardware, umwait_raw_hardware,
  umwait_raw_timeout_hardware, hardware_wait,
}

module _ (env : Env) (e : ℕ) where
  pub mwaitx_untimed-Steady :
      (c : AmdConfig) (hint : ℕ) (w : World)
      → Returns (Steady 1 w) (mwaitx_raw_hardware env c hint e w)
  unfolding mwaitx_raw_hardware classify_after_wait
  mwaitx_untimed-Steady c hint w = ground arith

  pub mwaitx_timed-Steady :
      (c : AmdConfig) (hint : ℕ) (d : Deadline) (w : World)
      → Returns (Steady 1 w) (mwaitx_raw_timeout_hardware env c hint e d w)
  unfolding mwaitx_raw_timeout_hardware classify_after_wait
  mwaitx_timed-Steady c hint d w = ground arith

  umwait_untimed-Steady :
      (c : IntelConfig) (w : World) → Returns (Steady 1 w) (umwait_raw_hardware env c e w)
  unfolding umwait_raw_hardware classify_after_wait
  umwait_untimed-Steady c w = ground arith

  umwait_timed-Steady :
      (c : IntelConfig) (d : Deadline) (w : World)
      → Returns (Steady 1 w) (umwait_raw_timeout_hardware env c e d w)
  unfolding umwait_raw_timeout_hardware classify_after_wait
  umwait_timed-Steady c d w = ground arith

  pub hardware_wait-Steady :
      (c : HardwareConfig) (d : Option Deadline) (w : World)
      → Returns (Steady 1 w) (hardware_wait env c e d w)
  unfolding hardware_wait
  hardware_wait-Steady (amd c) none w = mwaitx_untimed-Steady c _ w
  hardware_wait-Steady (amd c) (some d) w = mwaitx_timed-Steady c _ d w
  hardware_wait-Steady (intel c) none w = umwait_untimed-Steady c w
  hardware_wait-Steady (intel c) (some d) w = umwait_timed-Steady c d w

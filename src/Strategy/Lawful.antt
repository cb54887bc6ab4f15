-- ===== src/Strategy/Lawful.antt =====
-- Each strategy of the crate keeps the laws.
use snoozer.Prelude.{ℕ, refl, Option, none, some, arith}
use snoozer.Machine.{Env, World, M, yield_now, yielded, step, ◌>>◌}
use snoozer.Outcome.{Returns, Returns-map, Returns-both, Returns-Upto, Upto-both, Upto-map}
use snoozer.Strategy.Prefixed.{prefixed-Sound, prefixed-Progress, prefixed-Steady}
use snoozer.Wait.Blocking.{Steady, classify_after_wait-Steady, busy_spin_raw-Steady}
use snoozer.Hardware.Blocking.{hardware_wait-Steady, mwaitx_untimed-Steady, mwaitx_timed-Steady}
use snoozer.Wait.{
  Deadline, WaitTimeoutResult, classify_after_wait, busy_spin_raw, spin_then_yield_raw,
}
use snoozer.Wait.Polling.{classify_after_wait-Witnessed, busy_spin_raw-Witnessed}
use snoozer.Wait.Monitor.{IsGuarded, Sound, classify_after_wait-IsGuarded, busy_spin_raw-IsGuarded}
use snoozer.Wait.Progress.{Settles, Progress, busy_spin_raw-Progress}
use snoozer.Cycles.{AmdConfig, HardwareConfig}
use snoozer.Hardware.{
  hardware_wait, hardware_wait_untimed, spin_then_hardware_raw, spin_then_hardware_raw_untimed,
  amd_mwaitx_c1_raw,
}
use snoozer.Hardware.Protocol.{
  hardware_wait-Sound, hardware_wait-Progress, mwaitx_untimed-Sound, mwaitx_timed-Sound,
  mwaitx_untimed-Progress, mwaitx_timed-Progress,
}
use snoozer.Strategy.{busy_spin, spin_then_yield, hardware, spin_then_hardware, amd_mwaitx_c1}
use snoozer.Strategy.Laws.{IsLawful}

module _ (env : Env) where
  pub busy_spin-IsLawful : IsLawful env (busy_spin env)
  busy_spin-IsLawful = record {
    untimed = λ fuel e w. refl;
    sound = λ fuel e d w h.
        Upto-both _ _ (busy_spin_raw env fuel e d w) (busy_spin_raw-Witnessed env e d fuel w)
          (busy_spin_raw-IsGuarded env e d fuel w h);
    steady = λ fuel e d w.
        Upto-map _ _ (λ r u q. (q.0, q.1, omega arith, q.3, q.4)) (busy_spin_raw env fuel e d w)
          (busy_spin_raw-Steady env e d fuel w);
    progress = λ fuel e t₀ d w h enough. busy_spin_raw-Progress env e t₀ d fuel w h enough;
  }

  -- `thread::yield_now(); classify_after_wait(..)`
  abbrev yielding : ℕ → Option Deadline → M (WaitTimeoutResult ℕ)
  yielding e d = yield_now >> classify_after_wait env e d

  yielding-Sound :
      (e : ℕ) (d : Option Deadline) (u : World)
      → IsGuarded env e u
      → Returns (Sound env e d) (yielding e d u)
  yielding-Sound e d u h =
      Returns-both _ _ (classify_after_wait env e d (step u yielded))
        (classify_after_wait-Witnessed env e d (step u yielded))
        (classify_after_wait-IsGuarded env e d (step u yielded) h)

  yielding-Steady :
      (e : ℕ) (d : Option Deadline) (u : World) → Returns (Steady 1 u) (yielding e d u)
  yielding-Steady e d u =
      Returns-map _ (Steady 1 u) (λ r u' q. (omega arith, q.1, omega arith, q.3, q.4))
        (classify_after_wait env e d (step u yielded))
        (classify_after_wait-Steady env e d (step u yielded))

  pub spin_then_yield-IsLawful : (n : ℕ) → IsLawful env (spin_then_yield env n)
  unfolding spin_then_yield_raw
  spin_then_yield-IsLawful n = record {
    untimed = λ fuel e w. refl;
    sound = λ fuel e d w h.
        Returns-Upto _ (spin_then_yield_raw env n e d w)
          (prefixed-Sound env e n d (yielding e d) (yielding-Sound e d) w h);
    steady = λ fuel e d w.
        Returns-Upto _ (spin_then_yield_raw env n e d w)
          (prefixed-Steady env e n d (yielding e d) (yielding-Steady e d) w);
    progress = λ fuel e t₀ d w h enough.
        prefixed-Progress env e n d (yielding e d) (yielding-Steady e d) t₀ w h;
  }

  pub hardware-IsLawful : (c : HardwareConfig) → IsLawful env (hardware env c)
  unfolding hardware_wait_untimed
  hardware-IsLawful c = record {
    untimed = λ fuel e w. refl;
    sound = λ fuel e d w h.
        Returns-Upto _ (hardware_wait env c e d w) (hardware_wait-Sound env e c d w h);
    steady =
        λ fuel e d w. Returns-Upto _ (hardware_wait env c e d w) (hardware_wait-Steady env e c d w);
    progress = λ fuel e t₀ d w h enough. hardware_wait-Progress env e t₀ c d w h;
  }

  pub spin_then_hardware-IsLawful :
      (n : ℕ) (c : HardwareConfig) → IsLawful env (spin_then_hardware env n c)
  unfolding spin_then_hardware_raw spin_then_hardware_raw_untimed hardware_wait_untimed
  spin_then_hardware-IsLawful n c = record {
    untimed = λ fuel e w. refl;
    sound = λ fuel e d w h.
        Returns-Upto _ (spin_then_hardware_raw env n c e d w)
          (prefixed-Sound env e n d (hardware_wait env c e d) (hardware_wait-Sound env e c d) w h);
    steady = λ fuel e d w.
        Returns-Upto _ (spin_then_hardware_raw env n c e d w)
          (prefixed-Steady env e n d (hardware_wait env c e d) (hardware_wait-Steady env e c d) w);
    progress = λ fuel e t₀ d w h enough.
        prefixed-Progress env e n d (hardware_wait env c e d) (hardware_wait-Steady env e c d) t₀ w
          h;
  }

  module _ (c : AmdConfig) (e : ℕ) where
    amd_mwaitx_c1-Sound :
        (d : Option Deadline) (w : World)
        → IsGuarded env e w
        → Returns (Sound env e d) (amd_mwaitx_c1_raw env c e d w)
    unfolding amd_mwaitx_c1_raw
    amd_mwaitx_c1-Sound none w h = mwaitx_untimed-Sound env e c _ w h
    amd_mwaitx_c1-Sound (some d) w h = mwaitx_timed-Sound env e c _ d w h

    amd_mwaitx_c1-Steady :
        (d : Option Deadline) (w : World) → Returns (Steady 1 w) (amd_mwaitx_c1_raw env c e d w)
    unfolding amd_mwaitx_c1_raw
    amd_mwaitx_c1-Steady none w = mwaitx_untimed-Steady env e c _ w
    amd_mwaitx_c1-Steady (some d) w = mwaitx_timed-Steady env e c _ d w

    amd_mwaitx_c1-Progress :
        (t₀ : ℕ) (d : Option Deadline) (w : World)
        → Settles env w.word e d t₀
        → Returns (Progress t₀ w) (amd_mwaitx_c1_raw env c e d w)
    unfolding amd_mwaitx_c1_raw
    amd_mwaitx_c1-Progress t₀ none w h = mwaitx_untimed-Progress env e t₀ c _ w h
    amd_mwaitx_c1-Progress t₀ (some d) w h = mwaitx_timed-Progress env e t₀ c _ d w h

  pub amd_mwaitx_c1-IsLawful : (c : AmdConfig) → IsLawful env (amd_mwaitx_c1 env c)
  amd_mwaitx_c1-IsLawful c = record {
    untimed = λ fuel e w. unfold amd_mwaitx_c1_raw in refl;
    sound = λ fuel e d w h.
        Returns-Upto _ (amd_mwaitx_c1_raw env c e d w) (amd_mwaitx_c1-Sound c e d w h);
    steady =
        λ fuel e d w. Returns-Upto _ (amd_mwaitx_c1_raw env c e d w) (amd_mwaitx_c1-Steady c e d w);
    progress = λ fuel e t₀ d w h enough. amd_mwaitx_c1-Progress c e t₀ d w h;
  }

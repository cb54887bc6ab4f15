-- ===== src/Tests/Waits.antt =====
-- The waits of the strategies, at words that change and at a clock that runs out.
use snoozer.Prelude.{◌+◌, ◌≤◌, inr, none, some, arith}
use snoozer.Outcome.{Upto, Returns}
use snoozer.Wait.{Deadline}
use snoozer.Wait.Monitor.{Sound}
use snoozer.Wait.Blocking.{Steady, blocks}
use snoozer.Wait.Progress.{Settles, Progress}
use snoozer.Cycles.{amd, intel, new_amd, new_intel}
use snoozer.Hardware.{hardware_wait}
use snoozer.Hardware.Protocol.{hardware_wait-Sound, hardware_wait-Progress}
use snoozer.Hardware.Duration.{Bounded, hardware_wait-IsBounded}
use snoozer.Strategy.{
  busy_spin, hardware, spin_then_hardware, wait_if_equal, wait_until_different,
  wait_if_equal_timeout, wait_until_different_timeout,
}
use snoozer.Strategy.Lawful.{busy_spin-IsLawful, hardware-IsLawful, spin_then_hardware-IsLawful}
use snoozer.Strategy.Filtered.{
  Observed, RawObserved, wait_until_different_total, wait_if_equal_sound,
}
use snoozer.Strategy.Timed.{
  Verdict, deadline_at, wait_until_different_timeout_total, wait_until_different_timeout_sound,
  wait_if_equal_timeout-Sound,
}
use snoozer.Tests.{steady_env, changing, at_rest, ryzen, xeon, at_rest-quiet, changing-Settles}

abbrev soon : Deadline
soon = record { started = 0; timeout = 20_000 }

hardware_wait-Sound_example :
    Returns
      (Sound steady_env 0 (some soon))
      (hardware_wait steady_env ryzen 0 (some soon) (at_rest (changing 6 7)))
hardware_wait-Sound_example =
    hardware_wait-Sound steady_env 0 ryzen (some soon) (at_rest (changing 6 7)) at_rest-quiet

hardware_wait-Progress_example :
    Returns
      (Progress 6 (at_rest (changing 6 7)))
      (hardware_wait steady_env xeon 0 none (at_rest (changing 6 7)))
hardware_wait-Progress_example =
    hardware_wait-Progress steady_env 0 6 xeon none (at_rest (changing 6 7))
      (changing-Settles 7 (ground arith) none)

hardware_wait-IsBounded_example :
    Returns
      (λ _ w'. Bounded 2_400_000_000 w'.trace)
      (hardware_wait steady_env (amd (new_amd 2_400_000_000)) 0 (some soon) (at_rest λ _. 0))
    × Returns
        (λ _ w'. Bounded 2_400_000_000 w'.trace)
        (hardware_wait steady_env (intel (new_intel 2_400_000_000)) 0 (some soon) (at_rest λ _. 0))
hardware_wait-IsBounded_example =
    hardware_wait-IsBounded steady_env 2_400_000_000 0 (some soon) (at_rest λ _. 0) tt

wait_until_different_total_example :
    Returns
      (Observed steady_env 0 (at_rest (changing 6 7)))
      (wait_until_different steady_env (hardware steady_env ryzen) 7 7 0 (at_rest (changing 6 7)))
wait_until_different_total_example =
    wait_until_different_total steady_env (hardware steady_env ryzen)
      (hardware-IsLawful steady_env ryzen) 7 7 0 6 (at_rest (changing 6 7))
      (changing-Settles 7 (ground arith) none) at_rest-quiet (omega arith) (omega arith)

wait_if_equal_sound_example :
    Upto
      (λ r u. RawObserved steady_env 0 (at_rest (changing 6 7)) r u × (blocks u.trace ≤ 1 + 0))
      (wait_if_equal steady_env (spin_then_hardware steady_env 1 xeon) 0 0 (at_rest (changing 6 7)))
wait_if_equal_sound_example =
    wait_if_equal_sound steady_env (spin_then_hardware steady_env 1 xeon)
      (spin_then_hardware-IsLawful steady_env 1 xeon) 0 0 (at_rest (changing 6 7)) at_rest-quiet

-- The clock is past five microseconds from step 6 on.
running_out : Settles steady_env (λ _. 0) 0 (some (deadline_at steady_env (at_rest λ _. 0) 5_000)) 6
running_out t h = inr (omega (arith, h))

wait_until_different_timeout_total_example :
    Returns
      (Verdict steady_env 0 (deadline_at steady_env (at_rest λ _. 0) 5_000) (at_rest λ _. 0))
      (wait_until_different_timeout steady_env (busy_spin steady_env) 7 7 0 5_000 (at_rest λ _. 0))
wait_until_different_timeout_total_example =
    wait_until_different_timeout_total steady_env (busy_spin steady_env)
      (busy_spin-IsLawful steady_env) 7 7 0 5_000 6 (at_rest λ _. 0) running_out at_rest-quiet
      (omega arith) (omega arith)

wait_until_different_timeout_sound_example :
    Upto
      (Verdict steady_env 0
        (deadline_at steady_env (at_rest (changing 6 7)) 5_000)
        (at_rest (changing 6 7)))
      (wait_until_different_timeout steady_env
        (hardware steady_env xeon)
        9
        0
        0
        5_000
        (at_rest (changing 6 7)))
wait_until_different_timeout_sound_example =
    wait_until_different_timeout_sound steady_env (hardware steady_env xeon)
      (hardware-IsLawful steady_env xeon) 9 0 0 5_000 (at_rest (changing 6 7)) at_rest-quiet

wait_if_equal_timeout-Sound_example :
    Upto
      (λ r u.
        Sound steady_env 0 (some (deadline_at steady_env (at_rest λ _. 0) 5_000)) r u
        × Steady 1 (at_rest λ _. 0) r u)
      (wait_if_equal_timeout steady_env (hardware steady_env ryzen) 0 0 5_000 (at_rest λ _. 0))
wait_if_equal_timeout-Sound_example =
    wait_if_equal_timeout-Sound steady_env (hardware steady_env ryzen)
      (hardware-IsLawful steady_env ryzen) 0 0 5_000 (at_rest λ _. 0) at_rest-quiet

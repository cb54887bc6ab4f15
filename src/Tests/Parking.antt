-- ===== src/Tests/Parking.antt =====
-- The parks, at tokens that are set before, during and after the wait.
use snoozer.Prelude.{true, some, arith}
use snoozer.Outcome.{Upto, Returns}
use snoozer.Strategy.{hardware, spin_then_yield}
use snoozer.Strategy.Lawful.{hardware-IsLawful, spin_then_yield-IsLawful}
use snoozer.Parker.{park, park_until_notified, park_timeout, park_until_notified_timeout}
use snoozer.Parker.Token.{IsToken}
use snoozer.Parker.Parts.{Parked}
use snoozer.Parker.Park.{park_took, park_sound, park_until_notified_total}
use snoozer.Parker.ParkTimeout.{
  ParkedInTime, NotifiedInTime, park_deadline, park_timeout_sound,
  park_until_notified_timeout_total,
}
use snoozer.Tests.{steady_env, changing, at_rest, ryzen, xeon, at_rest-quiet, changing-Settles}

-- a token that is set at step 6
set_later : IsToken (changing 6 1)
set_later = record { binary = λ t. ground arith; kept = λ t h. ground arith }

park_sound_example :
    Upto
      (Parked steady_env park_took (at_rest (changing 6 1)))
      (park steady_env (hardware steady_env ryzen) 0 (at_rest (changing 6 1)))
park_sound_example =
    park_sound steady_env (hardware steady_env ryzen) (hardware-IsLawful steady_env ryzen) 0
      (at_rest (changing 6 1)) set_later at_rest-quiet

park_until_notified_total_example :
    Returns
      (Parked steady_env (λ _. true) (at_rest (changing 6 1)))
      (park_until_notified steady_env (hardware steady_env xeon) 7 7 (at_rest (changing 6 1)))
park_until_notified_total_example =
    park_until_notified_total steady_env (hardware steady_env xeon)
      (hardware-IsLawful steady_env xeon) 7 7 6 (at_rest (changing 6 1)) set_later at_rest-quiet
      (ground arith) (omega arith) (omega arith)

park_timeout_sound_example :
    Upto
      (ParkedInTime steady_env (at_rest (changing 6 1)) 2_000)
      (park_timeout steady_env (hardware steady_env ryzen) 0 2_000 (at_rest (changing 6 1)))
park_timeout_sound_example =
    park_timeout_sound steady_env (hardware steady_env ryzen) (hardware-IsLawful steady_env ryzen) 0
      2_000 (at_rest (changing 6 1)) set_later at_rest-quiet

park_until_notified_timeout_total_example :
    Returns (NotifiedInTime steady_env (at_rest (changing 6 1)) 20_000) (
      park_until_notified_timeout steady_env
        (spin_then_yield steady_env 2)
        7
        7
        20_000
        (at_rest (changing 6 1)))
park_until_notified_timeout_total_example =
    park_until_notified_timeout_total steady_env (spin_then_yield steady_env 2)
      (spin_then_yield-IsLawful steady_env 2) 7 7 20_000 6 (at_rest (changing 6 1)) set_later
      at_rest-quiet
      (changing-Settles 1 (ground arith)
        (some (park_deadline steady_env (at_rest (changing 6 1)) 20_000)))
      (omega arith) (omega arith)

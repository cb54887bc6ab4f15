-- ===== src/Hardware/Duration.antt =====
-- No hardware wait is unbounded: the operands of every MWAITX and UMWAIT in the log.
use snoozer.Prelude.{
  ℕ, suc, ◌+◌, ◌-◌, ◌*◌, ◌≡◌, ◌≤◌, ◌⊎◌, refl, min, Option, none, some, List, [], ◌∷◌, arith,
}
use snoozer.Words.{max_value}
use snoozer.Machine.{Env, World, Event, counted, mwaited, umwaited}
use snoozer.Outcome.{Returns}
use snoozer.Wait.{Deadline, classify_after_wait}
use snoozer.Cycles.{
  HardwareConfig, amd, intel, new_amd, new_intel, no_c_state_hint, nanos_per_second,
  mwaitx_timeout_cycles, umwait_timeout_cycles,
}
use snoozer.Cycles.Bounds.{mwaitx_timeout_cycles_bounded, umwait_timeout_cycles_bounded}
use snoozer.Hardware.{
  hardware_wait, mwaitx_raw_hardware, mwaitx_raw_timeout_hardware, umwait_raw_hardware,
  umwait_raw_timeout_hardware,
}

-- A counter of this frequency has counted so many cycles within a millisecond, or it is one cycle.
abbrev pub WithinMilli : ℕ → ℕ → Type 0
WithinMilli hz cycles = (cycles ≤ 1) ⊎ (cycles * nanos_per_second ≤ 1_000_000 * hz)

-- A MWAITX has a nonzero 32-bit timeout within a millisecond and the hint that enters no C-state. The
-- step before an UMWAIT read the counter, and its deadline, of 64 bits, lies after that reading,
-- unless the counter is at the end of its range, and within a millisecond of it.
abbrev pub IsBounded : ℕ → Event → List Event → Type 0
IsBounded hz (mwaited cycles hint) older =
    (1 ≤ cycles) × (cycles ≤ max_value 32) × (hint ≡ no_c_state_hint) × WithinMilli hz cycles
IsBounded hz (umwaited deadline) (counted now ∷ older) =
    (deadline ≤ max_value 64)
    × (min (now + 1) (max_value 64) ≤ deadline)
    × WithinMilli hz (deadline - now)
IsBounded hz (umwaited deadline) _ = ⊥
IsBounded hz _ _ = Unit

abbrev pub Bounded : ℕ → List Event → Type 0
Bounded hz [] = Unit
Bounded hz (event ∷ older) = IsBounded hz event older × Bounded hz older

-- The safety timeouts are the cycles of a millisecond.
mwaitx_timeout_cycles-safety :
    (hz : ℕ) → mwaitx_timeout_cycles (new_amd hz) 1_000_000 ≡ (new_amd hz).safety_timeout_cycles
unfolding mwaitx_timeout_cycles
mwaitx_timeout_cycles-safety hz = refl

umwait_timeout_cycles-safety :
    (hz : ℕ) → umwait_timeout_cycles (new_intel hz) 1_000_000 ≡ (new_intel hz).safety_timeout_cycles
unfolding umwait_timeout_cycles
umwait_timeout_cycles-safety hz = refl

mwaitx_timeout_cycles-WithinMilli :
    (hz remaining : ℕ)
    → WithinMilli hz (new_amd hz).safety_timeout_cycles
      × WithinMilli hz (mwaitx_timeout_cycles (new_amd hz) remaining)
mwaitx_timeout_cycles-WithinMilli hz remaining = ground (
  arith,
  mwaitx_timeout_cycles_bounded hz hz remaining,
  mwaitx_timeout_cycles_bounded hz hz 1_000_000,
  mwaitx_timeout_cycles-safety hz,
)

umwait_timeout_cycles-WithinMilli :
    (hz remaining : ℕ)
    → WithinMilli hz (new_intel hz).safety_timeout_cycles
      × WithinMilli hz (umwait_timeout_cycles (new_intel hz) remaining)
umwait_timeout_cycles-WithinMilli hz remaining = ground (
  arith,
  umwait_timeout_cycles_bounded hz hz remaining,
  umwait_timeout_cycles_bounded hz hz 1_000_000,
  umwait_timeout_cycles-safety hz,
)

module _ (env : Env) (hz e : ℕ) where
  abbrev Keeps : HardwareConfig → Type 0
  Keeps config =
      (d : Option Deadline) (w : World)
      → Bounded hz w.trace
      → Returns (λ _ w'. Bounded hz w'.trace) (hardware_wait env config e d w)

  amd-bounded : Keeps (amd (new_amd hz))
  unfolding hardware_wait mwaitx_raw_hardware mwaitx_raw_timeout_hardware classify_after_wait
  amd-bounded none w h = ground (
    arith,
    mwaitx_timeout_cycles_bounded hz hz 1_000_000,
    mwaitx_timeout_cycles-WithinMilli hz 1_000_000,
  )
  amd-bounded (some d) w h = ground (
    arith,
    mwaitx_timeout_cycles_bounded hz hz
        (d.timeout - (env.clock (suc (suc (suc (suc w.time)))) - d.started)),
    mwaitx_timeout_cycles-WithinMilli hz
        (d.timeout - (env.clock (suc (suc (suc (suc w.time)))) - d.started)),
  )

  intel-bounded : Keeps (intel (new_intel hz))
  unfolding hardware_wait umwait_raw_hardware umwait_raw_timeout_hardware classify_after_wait
  intel-bounded none w h = ground (arith, umwait_timeout_cycles-WithinMilli hz 1_000_000)
  intel-bounded (some d) w h = ground (
    arith,
    umwait_timeout_cycles-WithinMilli hz
        (d.timeout - (env.clock (suc (suc (suc (suc w.time)))) - d.started)),
  )

-- With a configuration made for any frequency, whatever the word and the clock do, a raw wait of the
-- production strategy returns, and every hardware wait that it adds to the log is given at most the
-- cycles that a counter of that frequency counts in a millisecond, or one cycle: each MWAITX has a
-- timeout of so many cycles, at least one and at most 2 ^ 32 - 1, and the hint that disables C-states;
-- the step before each UMWAIT read the counter, and its deadline, of 64 bits, is at most so many cycles
-- later than that reading, and at least one later unless the counter is at the end of its range. If this
-- holds of the log before the wait, it holds of the log after it.
pub hardware_wait-IsBounded :
    (env : Env) (hz e : ℕ) (d : Option Deadline) (w : World)
    → Bounded hz w.trace
    → Returns (λ _ w'. Bounded hz w'.trace) (hardware_wait env (amd (new_amd hz)) e d w)
      × Returns (λ _ w'. Bounded hz w'.trace) (hardware_wait env (intel (new_intel hz)) e d w)
hardware_wait-IsBounded env hz e d w h = (amd-bounded env hz e d w h, intel-bounded env hz e d w h)

-- ===== src/Cycles/Bounds.antt =====
-- Every hardware wait is bounded: the cycle counts that the backends pass to the instructions.
use snoozer.Prelude.{ℕ, ◌*◌, ◌≤◌, ◌<◌, ◌+◌, ◌∷◌, ◌≡◌, max, ◌⊎◌, inl, inr, Bool-cases, ltb, arith}
use snoozer.Words.{max_value}
use snoozer.Machine.{Env, World, counted}
use snoozer.Outcome.{Returns}
use snoozer.Cycles.{
  nanos_per_second, duration_to_cycles, duration_to_cycles_u64, new_amd, new_intel,
  mwaitx_timeout_cycles, umwait_timeout_cycles, umwait_deadline,
}

mul_mono : (a b c : ℕ) → a ≤ b → a * c ≤ b * c
mul_mono a b c h = grind arith

mono_mul : (a b c : ℕ) → a ≤ b → c * a ≤ c * b
mono_mul a b c h = grind arith

duration_to_cycles_range :
    (duration timer_hz : ℕ)
    → (1 ≤ duration_to_cycles duration timer_hz)
      × (duration_to_cycles duration timer_hz ≤ max_value 32)
unfolding duration_to_cycles
duration_to_cycles_range d hz = ground arith

duration_to_cycles_mono :
    (a b timer_hz : ℕ) → a ≤ b → duration_to_cycles a timer_hz ≤ duration_to_cycles b timer_hz
unfolding duration_to_cycles
duration_to_cycles_mono a b hz h = ground (arith, mul_mono a b hz h)

duration_to_cycles_safe :
    (duration timer_hz true_hz : ℕ)
    → timer_hz ≤ true_hz
    → (duration_to_cycles duration timer_hz ≡ 1)
      ⊎ (duration_to_cycles duration timer_hz * nanos_per_second ≤ duration * true_hz)
unfolding duration_to_cycles
duration_to_cycles_safe d hz f h = ground (arith, mono_mul hz f d h)

duration_to_cycles_u64_range :
    (duration timer_hz : ℕ)
    → (1 ≤ duration_to_cycles_u64 duration timer_hz)
      × (duration_to_cycles_u64 duration timer_hz ≤ max_value 64)
unfolding duration_to_cycles_u64
duration_to_cycles_u64_range d hz = ground arith

duration_to_cycles_u64_mono :
    (a b timer_hz : ℕ)
    → a ≤ b
    → duration_to_cycles_u64 a timer_hz ≤ duration_to_cycles_u64 b timer_hz
unfolding duration_to_cycles_u64
duration_to_cycles_u64_mono a b hz h = ground (arith, mul_mono a b hz h)

duration_to_cycles_u64_safe :
    (duration timer_hz true_hz : ℕ)
    → timer_hz ≤ true_hz
    → (duration_to_cycles_u64 duration timer_hz ≡ 1)
      ⊎ (duration_to_cycles_u64 duration timer_hz * nanos_per_second ≤ duration * true_hz)
unfolding duration_to_cycles_u64
duration_to_cycles_u64_safe d hz f h = ground (arith, mono_mul hz f d h)

-- With a configuration made for `timer_hz`, the timeout of an AMD wait is at least one cycle and at
-- most the safety timeout, which fits the 32-bit operand; and unless it is the minimum of one
-- cycle, a processor whose counter runs at `true_hz`, at least `timer_hz`, has counted it before
-- the remaining time is over.
pub mwaitx_timeout_cycles_bounded :
    (timer_hz true_hz remaining : ℕ)
    → timer_hz ≤ true_hz
    → (1 ≤ mwaitx_timeout_cycles (new_amd timer_hz) remaining)
      × (mwaitx_timeout_cycles (new_amd timer_hz) remaining
          ≤ (new_amd timer_hz).safety_timeout_cycles)
      × ((new_amd timer_hz).safety_timeout_cycles ≤ max_value 32)
      × ((mwaitx_timeout_cycles (new_amd timer_hz) remaining ≡ 1)
          ⊎ (mwaitx_timeout_cycles (new_amd timer_hz) remaining * nanos_per_second
              ≤ remaining * true_hz))
unfolding mwaitx_timeout_cycles
mwaitx_timeout_cycles_bounded hz f r h = elim (Bool-cases (ltb r 1_000_000)) [
  | inl short ↦ ground (
    arith,
    duration_to_cycles_range r hz,
    duration_to_cycles_range 1_000_000 hz,
    duration_to_cycles_safe r hz f h,
    duration_to_cycles_mono r 1_000_000 hz,
  )
  | inr long ↦ ground (
    arith,
    duration_to_cycles_range 1_000_000 hz,
    duration_to_cycles_safe 1_000_000 hz f h,
    mul_mono 1_000_000 r f,
  )
]

-- With a configuration made for `timer_hz`, the timeout of an Intel wait is at least one cycle and
-- at most the safety timeout, which fits 64 bits; and unless it is the minimum of one cycle, a
-- processor whose counter runs at `true_hz`, at least `timer_hz`, has counted it before the
-- remaining time is over.
pub umwait_timeout_cycles_bounded :
    (timer_hz true_hz remaining : ℕ)
    → timer_hz ≤ true_hz
    → (1 ≤ umwait_timeout_cycles (new_intel timer_hz) remaining)
      × (umwait_timeout_cycles (new_intel timer_hz) remaining
          ≤ (new_intel timer_hz).safety_timeout_cycles)
      × ((new_intel timer_hz).safety_timeout_cycles ≤ max_value 64)
      × ((umwait_timeout_cycles (new_intel timer_hz) remaining ≡ 1)
          ⊎ (umwait_timeout_cycles (new_intel timer_hz) remaining * nanos_per_second
              ≤ remaining * true_hz))
unfolding umwait_timeout_cycles
umwait_timeout_cycles_bounded hz f r h = elim (Bool-cases (ltb r 1_000_000)) [
  | inl short ↦ ground (
    arith,
    duration_to_cycles_u64_range r hz,
    duration_to_cycles_u64_range 1_000_000 hz,
    duration_to_cycles_u64_safe r hz f h,
    duration_to_cycles_u64_mono r 1_000_000 hz,
  )
  | inr long ↦ ground (
    arith,
    duration_to_cycles_u64_range 1_000_000 hz,
    duration_to_cycles_u64_safe 1_000_000 hz f h,
    mul_mono 1_000_000 r f,
  )
]

-- `umwait_deadline` always gives a deadline of 64 bits that lies after the counter it read, by the
-- asked cycles and at least one, unless the counter is at its largest value; it reads the counter
-- once and nothing else.
pub umwait_deadline_later :
    (env : Env) (timeout_cycles : ℕ) (w : World)
    → env.counter w.time < max_value 64
    → Returns
        (λ deadline w'.
          (env.counter w.time < deadline)
          × (deadline ≤ max_value 64)
          × (deadline ≤ env.counter w.time + max timeout_cycles 1)
          × (w'.trace ≡ (counted (env.counter w.time) ∷ w.trace)))
        (umwait_deadline env timeout_cycles w)
unfolding umwait_deadline
umwait_deadline_later env cycles w h = ground arith

-- ===== src/Wait/Blocking.antt =====
-- How often the log says that the thread blocked or yielded.
use snoozer.Prelude.{
  ℕ, zero, suc, ◌+◌, ◌≤◌, ◌<◌, ◌≡◌, refl, ◌∙◌, false, Option, none, some, List, [], ◌∷◌, arith,
}
use snoozer.Machine.{
  Env, World, Event, exchanged, asserted, mwaited, umwaited, yielded, spun, step, saw, tick,
}
use snoozer.Outcome.{Upto, Returns}
use snoozer.Wait.{Deadline, classify_after_wait, spin_rounds, spin_prefix, busy_spin_raw}

abbrev pub blocking : Event → ℕ
blocking (mwaited _ _) = 1
blocking (umwaited _) = 1
blocking yielded = 1
blocking _ = 0

abbrev pub blocks : List Event → ℕ
blocks [] = 0
blocks (event ∷ older) = blocking event + blocks older

-- how many tokens the thread took
abbrev pub takes : List Event → ℕ
takes [] = 0
takes (exchanged _ _ ∷ older) = 1 + takes older
takes (_ ∷ older) = takes older

-- how many assertions failed
abbrev pub failures : List Event → ℕ
failures [] = 0
failures (asserted false ∷ older) = 1 + failures older
failures (_ ∷ older) = failures older

-- Time passed since `w`, the thread stored nothing and failed no assertion, and it blocked or
-- yielded at most `n` times.
abbrev pub Steady : {A : Type 0} → ℕ → World → A → World → Type 0
Steady n w _ w' =
    (w.time < w'.time)
    × (w'.word ≡ w.word)
    × (blocks w'.trace ≤ n + blocks w.trace)
    × (takes w'.trace ≡ takes w.trace)
    × (failures w'.trace ≡ failures w.trace)

-- Since `w₀` the thread stored nothing and failed no assertion.
abbrev pub Kept : World → World → Type 0
Kept w₀ w =
    (w₀.time ≤ w.time)
    × (w.word ≡ w₀.word)
    × (takes w.trace ≡ takes w₀.trace)
    × (failures w.trace ≡ failures w₀.trace)

pub Kept-refl : (w : World) → Kept w w
Kept-refl w = (omega arith, refl, refl, refl)

pub Kept-Steady :
    {A : Type 0} (n : ℕ) (w₀ w u : World) (a : A) → Kept w₀ w → Steady n w a u → Kept w₀ u
Kept-Steady n w₀ w u a k h = (omega arith, h.1 ∙ k.1, h.3 ∙ k.2, h.4 ∙ k.3)

abbrev Idle : {A : Type 0} → World → A → World → Type 0
Idle w _ w' =
    (w.time ≤ w'.time)
    × (w'.word ≡ w.word)
    × (blocks w'.trace ≤ blocks w.trace)
    × (takes w'.trace ≡ takes w.trace)
    × (failures w'.trace ≡ failures w.trace)

module _ (env : Env) (e : ℕ) where
  pub classify_after_wait-Steady :
      (d : Option Deadline) (w : World) → Returns (Steady 0 w) (classify_after_wait env e d w)
  unfolding classify_after_wait
  classify_after_wait-Steady none w = ground arith
  classify_after_wait-Steady (some d) w = ground arith

  spin_rounds-Idle :
      (d : Option Deadline) (n : ℕ) (w : World) → Returns (Idle w) (spin_rounds env e d n w)
  unfolding spin_rounds
  spin_rounds-Idle d zero w = ground arith
  spin_rounds-Idle none (suc n) w = ground (arith, spin_rounds-Idle none n (saw (step w spun)))
  spin_rounds-Idle (some d) (suc n) w =
      ground (arith, spin_rounds-Idle (some d) n (tick env (saw (step w spun))))

  pub spin_prefix-Steady :
      (d : Option Deadline) (n : ℕ) (w : World) → Returns (Steady 0 w) (spin_prefix env e n d w)
  unfolding spin_prefix
  spin_prefix-Steady none n w = ground (arith, spin_rounds-Idle none n (saw w))
  spin_prefix-Steady (some d) n w = ground (arith, spin_rounds-Idle (some d) n (tick env (saw w)))

  pub busy_spin_raw-Steady :
      (d : Option Deadline) (fuel : ℕ) (w : World)
      → Upto (Steady 0 w) (busy_spin_raw env fuel e d w)
  unfolding busy_spin_raw
  busy_spin_raw-Steady d zero w = tt
  busy_spin_raw-Steady none (suc fuel) w =
      ground (arith, busy_spin_raw-Steady none fuel (step (saw w) spun))
  busy_spin_raw-Steady (some d) (suc fuel) w =
      ground (arith, busy_spin_raw-Steady (some d) fuel (step (tick env (saw w)) spun))

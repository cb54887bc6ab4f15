-- ===== src/Preflight/Producer.antt =====
-- The helper thread of `functional_preflight` in src/strategy.rs. The word of its machine is the
-- handoff flag, which is 0 until the waiting thread lets it go. Loops take fuel, one unit a turn.
pub mod Timely
use snoozer.Prelude.{
  ℕ, zero, suc, ◌+◌, ◌-◌, ◌/◌, min, max, Bool, true, false, Option, none, some, ltb, leb, ◌==◌,
  if◌then◌else◌,
}
use snoozer.Machine.{
  Env, M, Action, act, published, pure, ◌>>=◌, ◌>>◌, running, load_acquire, spin_loop, instant_now,
}

-- `Duration::from_millis(20)`
abbrev pub preflight_helper_deadline : ℕ
preflight_helper_deadline = 20_000_000

abbrev pub producer_delay : ℕ → ℕ
producer_delay baseline_wait = min (max (baseline_wait / 16) 1_000) 20_000

module _ (env : Env) where
  -- the loop on `handoff`: whether the helper was let go before its deadline
  unfoldable pub await_handoff : ℕ → ℕ → M Bool
  await_handoff zero deadline = running
  await_handoff (suc fuel) deadline =
      let again = await_handoff fuel deadline in
      do
        handoff ← load_acquire
        if handoff == 0
            then (do
              now ← instant_now env
              if leb deadline now then pure false else (do spin_loop; again))
            else pure true

  -- the loop on `delay_started`
  unfoldable pub spin_delay : ℕ → ℕ → ℕ → Action
  spin_delay zero delay delay_started = running
  spin_delay (suc fuel) delay delay_started =
      let again = spin_delay fuel delay delay_started in
      do
        now ← instant_now env
        if ltb (now - delay_started) delay then (do spin_loop; again) else pure tt

  -- `producer_target.0.store(1, Ordering::Release)`
  abbrev pub store_target : Action
  store_target = act published

  abbrev pub produce : ℕ → ℕ → Bool → M (Option ℕ)
  produce fuel delay false = pure none
  produce fuel delay true = do
    delay_started ← instant_now env
    spin_delay fuel delay delay_started
    store_target
    published_at ← instant_now env
    pure (some published_at)

  -- The result is what the thread sends.
  unfoldable pub helper_thread : ℕ → ℕ → M (Option ℕ)
  helper_thread fuel delay = do
    started ← instant_now env
    let_go ← await_handoff fuel (started + preflight_helper_deadline)
    produce fuel delay let_go

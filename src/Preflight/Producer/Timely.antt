-- ===== src/Preflight/Producer/Timely.antt =====
-- The helper stores only after it was let go and its delay has passed, and it always ends.
use snoozer.Prelude.{
  ℕ, zero, suc, ◌+◌, ◌-◌, ◌≡◌, ◌≢◌, ◌≤◌, ◌<◌, Bool, true, false, Option, none, some, List, [], ◌∷◌,
  arith,
}
use snoozer.Machine.{Env, World, Event, published, spun, step, saw, tick}
use snoozer.Outcome.{Returns, Returns-bind}
use snoozer.Preflight.Producer.{
  preflight_helper_deadline, producer_delay, await_handoff, spin_delay, produce, helper_thread,
}

-- how often the helper stored
abbrev pub stores : List Event → ℕ
stores [] = 0
stores (published ∷ older) = 1 + stores older
stores (_ ∷ older) = stores older

module _ (env : Env) where
  -- The clock has moved on by the helper's deadline whenever `n` steps were made.
  abbrev pub RunsOn : ℕ → Type 0
  RunsOn n = (s t : ℕ) → s + n ≤ t → preflight_helper_deadline ≤ env.clock t - env.clock s

  -- The last load saw the flag set; or it was unset, and then time was up.
  abbrev Ended : ℕ → Bool → World → Type 0
  Ended deadline true u = u.word (u.time - 1) ≢ 0
  Ended deadline false u = (u.word (u.time - 2) ≡ 0) × (deadline ≤ env.clock (u.time - 1))

  -- Time passed, and neither flag nor target was written.
  abbrev Idle : {A : Type 0} → World → A → World → Type 0
  Idle w _ u = (w.time < u.time) × (u.word ≡ w.word) × (stores u.trace ≡ stores w.trace)

  module _ (n : ℕ) (runs : RunsOn n) where
    await_handoff-Returns :
        (s fuel : ℕ) (w : World)
        → s + n < w.time + suc fuel
        → Returns
            (λ let_go u. Idle w let_go u × Ended (env.clock s + preflight_helper_deadline) let_go u)
            (await_handoff env (suc fuel) (env.clock s + preflight_helper_deadline) w)
    unfolding await_handoff
    await_handoff-Returns s zero w h = ground (arith, runs s (suc w.time))
    await_handoff-Returns s (suc fuel) w h =
        ground (arith, await_handoff-Returns s fuel (step (tick env (saw w)) spun))

    spin_delay-Returns :
        (delay s fuel : ℕ) (w : World)
        → delay ≤ preflight_helper_deadline
        → s + n < w.time + suc fuel
        → Returns
            (λ r u. Idle w r u × (delay ≤ env.clock (u.time - 1) - env.clock s))
            (spin_delay env (suc fuel) delay (env.clock s) w)
    unfolding spin_delay
    spin_delay-Returns delay s zero w le h = ground (arith, runs s w.time)
    spin_delay-Returns delay s (suc fuel) w le h =
        ground (arith, spin_delay-Returns delay s fuel (step (tick env w) spun))

    -- Nothing was stored and nothing is sent that says so, since the flag was unset at the deadline;
    -- or the one store came after the flag was seen set and the delay had passed, and what is sent is
    -- the time after it.
    abbrev pub Sent : ℕ → World → Option ℕ → World → Type 0
    Sent delay w none u =
        (stores u.trace ≡ stores w.trace)
        × (w.word (u.time - 2) ≡ 0)
        × (env.clock w.time + preflight_helper_deadline ≤ env.clock (u.time - 1))
    Sent delay w (some published_at) u =
        (stores u.trace ≡ 1 + stores w.trace)
        × (published_at ≡ env.clock (u.time - 1))
        × ((h : ℕ) × (w.word h ≢ 0)
            × (h < u.time - 3)
            × (delay ≤ env.clock (u.time - 3) - env.clock (suc h)))

    -- the end of the thread, once the loop on the flag has ended in `u`
    produced :
        (delay fuel : ℕ)
        → delay ≤ preflight_helper_deadline
        → n < fuel
        → (w : World) (let_go : Bool) (u : World)
        → Idle (tick env w) let_go u × Ended (env.clock w.time + preflight_helper_deadline) let_go u
        → Returns (Sent delay w) (produce env fuel delay let_go u)
    produced delay fuel le lt w false u h = ground arith
    produced delay zero le lt w true u h = absurd (omega arith)
    produced delay (suc fuel) le lt w true u h =
        Returns-bind
          (λ r v. Idle (tick env u) r v × (delay ≤ env.clock (v.time - 1) - env.clock u.time))
          (Sent delay w) _ (spin_delay env (suc fuel) delay (env.clock u.time)) (tick env u)
          (spin_delay-Returns delay u.time fuel (tick env u) le (omega (arith, lt)))
          λ _ v k.
            (ground arith, ground arith, (u.time - 1, ground arith, ground arith, ground arith))

    -- With fuel for the steps in which the clock passes the helper's deadline, the helper of a preflight
    -- with the baseline wait ends. If it sends nothing, it stored nothing: its last load saw the flag
    -- unset, and its deadline had passed. If it sends a time, it stored to the target exactly once,
    -- after it had seen the flag set and at least its delay later, and the time is that of the step
    -- after the store.
    pub helper_thread-Sent :
        (baseline_wait fuel : ℕ) (w : World)
        → n < fuel
        → Returns
            (Sent (producer_delay baseline_wait) w)
            (helper_thread env fuel (producer_delay baseline_wait) w)
    unfolding helper_thread
    helper_thread-Sent baseline zero w lt = absurd (omega arith)
    helper_thread-Sent baseline (suc fuel) w lt =
        Returns-bind
          (λ let_go u.
            Idle (tick env w) let_go u
            × Ended (env.clock w.time + preflight_helper_deadline) let_go u)
          (Sent (producer_delay baseline) w) _
          (await_handoff env (suc fuel) (env.clock w.time + preflight_helper_deadline)) (tick env w)
          (await_handoff-Returns w.time fuel (tick env w) (omega (arith, lt)))
          (produced (producer_delay baseline) (suc fuel) (omega arith) lt w)

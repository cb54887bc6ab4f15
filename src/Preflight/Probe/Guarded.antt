-- ===== src/Preflight/Probe/Guarded.antt =====
-- `preflight_wait_once` keeps the lost-wake protocol, and what one trial's evidence means.
use snoozer.Prelude.{
  ℕ, suc, ◌-◌, ◌≡◌, ◌≢◌, ◌≤◌, ◌<◌, ◌↔◌, refl, true, Option, none, some, [], ◌∷◌, arith,
}
use snoozer.Machine.{Env, World, loaded, tick, instant_now, pure, ◌>>=◌}
use snoozer.Outcome.{Returns, Returns-map, Returns-bind}
use snoozer.Cycles.{HardwareConfig, amd, intel}
use snoozer.Wait.Monitor.{phase, fault}
use snoozer.Preflight.Probe.{
  Helper, PreflightTrialEvidence, preflight_wait_once, preflight_trial, classify_preflight_trial,
}

-- The newest entry of the log is an Acquire load of this value.
abbrev pub LastLoaded : ℕ → World → Type 0
LastLoaded v w = elim w.trace [ [] ↦ ⊥ | event ∷ older ↦ event ≡ loaded v ]

-- The wait of a trial returns, with a value that an Acquire load of the trial's target read in the
-- last step. If the log kept the protocol before, it keeps it: the thread waits in hardware only
-- after arming the monitor, a recheck, letting the helper go, and a recheck after that, and it
-- lets the helper go only after arming and a recheck.
pub preflight_wait_once_guarded :
    (env : Env) (helper : Helper) (config : HardwareConfig) (w : World)
    → phase helper.address 0 w.trace ≢ fault
    → Returns
        (λ observed w'.
          (observed ≡ w'.word (w'.time - 1))
          × LastLoaded observed w'
          × (w.time < w'.time)
          × (phase helper.address 0 w'.trace ≢ fault))
        (preflight_wait_once env helper config w)
unfolding preflight_wait_once
preflight_wait_once_guarded env helper (amd c) w h = ground arith
preflight_wait_once_guarded env helper (intel c) w h = ground arith

-- The helper's answer was received, and it had published by the instant.
abbrev pub Published : Option ℕ → ℕ → Type 0
Published none finished = ⊥
Published (some published) finished = published ≤ finished

-- The last load of the trial saw the helper's store, before the threshold had passed.
abbrev pub Woken : Env → ℕ → ℕ → World → Type 0
Woken env threshold started w =
    (w.word (w.time - 2) ≢ 0) × (env.clock (w.time - 1) - env.clock started < threshold)

preflight_wait_once_reads :
    (env : Env) (helper : Helper) (config : HardwareConfig) (w : World)
    → Returns
        (λ observed w'. (observed ≡ w'.word (w'.time - 1)) × (w.time < w'.time))
        (preflight_wait_once env helper config w)
unfolding preflight_wait_once
preflight_wait_once_reads env helper (amd c) w = ground arith
preflight_wait_once_reads env helper (intel c) w = ground arith

module _ (env : Env) (threshold : ℕ) (helper : Helper) where
  abbrev pub Judged : ℕ → PreflightTrialEvidence → World → Type 0
  Judged started evidence w =
      ((evidence.helper_overlapped ≡ true) ↔ Published helper.received (env.clock (w.time - 1)))
      × ((evidence.verified_store_wake ≡ true)
          ↔ (Published helper.received (env.clock (w.time - 1)) × Woken env threshold started w))

  -- the end of a trial, after its wait
  judged :
      (started observed : ℕ) (u : World) (received : Option ℕ)
      → helper.received ≡ received
      → (observed ≡ u.word (u.time - 1)) × (started < u.time)
      → Judged started
          (classify_preflight_trial received
            (env.clock u.time)
            observed
            (env.clock u.time - env.clock started)
            threshold)
          (tick env u)
  unfolding classify_preflight_trial
  judged started observed u none e h = ground arith
  judged started observed u (some published) e h = ground arith

-- A trial always returns. It counts an overlap exactly when the helper had published by the end of
-- the wait, and a verified store wake exactly when also the last load of the target saw a store and
-- the wait was shorter than the threshold.
pub preflight_trial_exact :
    (env : Env) (config : HardwareConfig) (threshold : ℕ) (helper : Helper) (w : World)
    → Returns
        (λ evidence w'.
          ((evidence.helper_overlapped ≡ true)
            ↔ Published helper.received (env.clock (w'.time - 1)))
          × ((evidence.verified_store_wake ≡ true) ↔ (
              Published helper.received (env.clock (w'.time - 1)) × Woken env threshold w.time w')))
        (preflight_trial env config threshold helper w)
unfolding preflight_trial
preflight_trial_exact env config threshold helper w =
    Returns-bind (λ observed u. (observed ≡ u.word (u.time - 1)) × (w.time < u.time))
      (Judged env threshold helper w.time)
      (λ observed. do
        wait_finished ← instant_now env
        pure (
            classify_preflight_trial helper.received wait_finished observed
              (wait_finished - env.clock w.time) threshold))
      (preflight_wait_once env helper config) (tick env (record w { word = helper.target }))
      (Returns-map (λ observed u. (observed ≡ u.word (u.time - 1)) × (suc w.time < u.time))
        (λ observed u. (observed ≡ u.word (u.time - 1)) × (w.time < u.time))
        (λ observed u h. (h.0, omega (arith, h.1)))
        (preflight_wait_once env helper config (tick env (record w { word = helper.target })))
        (preflight_wait_once_reads env helper config
          (tick env (record w { word = helper.target }))))
      λ observed u h. judged env threshold helper w.time observed u helper.received refl h

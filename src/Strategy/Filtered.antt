-- ===== src/Strategy/Filtered.antt =====
-- The untimed public waits over a lawful strategy: what they return, and that they return.
use snoozer.Prelude.{
  ℕ, zero, suc, ◌-◌, ◌≤◌, ◌<◌, ◌≡◌, ◌+◌, ◌≢◌, sym, subst, none, some, List, [], ◌∷◌, arith,
}
use snoozer.Machine.{Env, World, Event}
use snoozer.Outcome.{Upto, Returns, Upto-bind, Upto-both, Returns-bind, Returns-meet}
use snoozer.Wait.{WaitResult, WaitTimeoutResult, drop_timeout}
use snoozer.Wait.Evidence.{Evidence}
use snoozer.Wait.Monitor.{IsGuarded, Sound}
use snoozer.Wait.Blocking.{Steady, Kept, Kept-refl, Kept-Steady, blocks}
use snoozer.Wait.Progress.{Settles, Progress}
use snoozer.Strategy.{StrategyImpl, if_changed, wait_if_equal, wait_until_different}
use snoozer.Strategy.Laws.{IsLawful}

-- Without a deadline nothing times out.
never-timed_out :
    (e : ℕ) (trace : List Event) → Evidence e none WaitTimeoutResult.timed_out trace → ⊥
never-timed_out e [] h = h
never-timed_out e (event ∷ older) h = ground arith

changed-ne :
    (e v : ℕ) (trace : List Event) → Evidence e none (WaitTimeoutResult.changed v) trace → v ≢ e
changed-ne e v [] h = absurd h
changed-ne e v (event ∷ older) h = ground arith

-- `value` is not the expected value, it is what the word was at the step before, and the thread
-- kept the monitor's protocol and stored nothing.
pub record Observed (env : Env) (e : ℕ) (w₀ : World) (value : ℕ) (w : World) : Type 0 where
  pub differs : value ≢ e
  pub current : w.word (w.time - 1) ≡ value
  pub kept : Kept w₀ w
  pub later : w₀.time < w.time
  pub guarded : IsGuarded env e w

module _ (env : Env) (s : StrategyImpl) (law : IsLawful env s) (fuel e : ℕ) (w₀ : World) where
  -- what one raw wait of the loop gives
  abbrev Turn : World → WaitTimeoutResult ℕ → World → Type 0
  Turn w r u = Sound env e none r u × Steady 1 w r u

  turn : (w : World) → IsGuarded env e w → Upto (Turn w) (s.wait_raw_untimed fuel e w)
  turn w h = rw law.untimed (
      Upto-both _ _ (s.wait_raw fuel e none w) (law.sound fuel e none w h)
        (law.steady fuel e none w))

  observed :
      (w : World)
      → Kept w₀ w
      → (v : ℕ) (u : World) → Turn w (WaitTimeoutResult.changed v) u
      → Observed env e w₀ v u
  observed w kept v u h = record {
    differs = changed-ne e v u.trace h.0.0.0;
    current = h.0.0.1;
    kept = Kept-Steady 1 w₀ w u tt kept h.1;
    later = omega arith;
    guarded = h.0.1;
  }

  -- Whatever the environment does and however the fuel is chosen, a value that the filtered wait
  -- returns was observed.
  module _ (turns : ℕ)
      (again : (u : World)
        → Kept w₀ u
        → IsGuarded env e u
        → Upto (Observed env e w₀) (wait_until_different env s turns fuel e u))
      (w : World) (kept : Kept w₀ w) where
    if_changed-Observed :
        (r : WaitTimeoutResult ℕ) (u : World)
        → Turn w r u
        → Upto (Observed env e w₀) (if_changed (wait_until_different env s turns fuel e) r u)
    if_changed-Observed (WaitTimeoutResult.changed v) u h = observed w kept v u h
    if_changed-Observed WaitTimeoutResult.unclassified u h =
        again u (Kept-Steady 1 w₀ w u tt kept h.1) h.0.1
    if_changed-Observed WaitTimeoutResult.timed_out u h =
        again u (Kept-Steady 1 w₀ w u tt kept h.1) h.0.1

  wait_until_different-Observed :
      (turns : ℕ) (w : World)
      → Kept w₀ w
      → IsGuarded env e w
      → Upto (Observed env e w₀) (wait_until_different env s turns fuel e w)
  unfolding wait_until_different
  wait_until_different-Observed zero w kept h = tt
  wait_until_different-Observed (suc turns) w kept h =
      Upto-bind (Turn w) (Observed env e w₀) (if_changed (wait_until_different env s turns fuel e))
        (s.wait_raw_untimed fuel e) w (turn w h)
        (if_changed-Observed turns (wait_until_different-Observed turns) w kept)

  module _ (t₀ : ℕ) (settles : Settles env w₀.word e none t₀) where
    abbrev LastTurn : World → WaitTimeoutResult ℕ → World → Type 0
    LastTurn w r u = Progress t₀ w r u × Turn w r u

    last_turn :
        (w : World)
        → Kept w₀ w
        → IsGuarded env e w
        → t₀ - w.time < fuel
        → Returns (LastTurn w) (s.wait_raw_untimed fuel e w)
    last_turn w kept h enough =
        Returns-meet _ _ (s.wait_raw_untimed fuel e w)
          (rw law.untimed (
            law.progress fuel e t₀ none w
              (subst (λ f. Settles env f e none t₀) (sym kept.1) settles) enough))
          (turn w h)

    module _ (turns : ℕ)
        (again : (u : World)
          → Kept w₀ u
          → IsGuarded env e u
          → t₀ - u.time < turns
          → t₀ - u.time < fuel
          → Returns (Observed env e w₀) (wait_until_different env s turns fuel e u))
        (w : World) (kept : Kept w₀ w) (more : t₀ - w.time < suc turns)
        (enough : t₀ - w.time < fuel) where
      if_changed-Returns :
          (r : WaitTimeoutResult ℕ) (u : World)
          → LastTurn w r u
          → Returns (Observed env e w₀) (if_changed (wait_until_different env s turns fuel e) r u)
      if_changed-Returns (WaitTimeoutResult.changed v) u h = observed w kept v u h.1
      if_changed-Returns WaitTimeoutResult.timed_out u h =
          absurd (never-timed_out e u.trace h.1.0.0.0)
      if_changed-Returns WaitTimeoutResult.unclassified u h =
          again u (Kept-Steady 1 w₀ w u tt kept h.1.1) h.1.0.1 (ground (arith, h.0.2)) (omega arith)

    wait_until_different-Returns :
        (turns : ℕ) (w : World)
        → Kept w₀ w
        → IsGuarded env e w
        → t₀ - w.time < turns
        → t₀ - w.time < fuel
        → Returns (Observed env e w₀) (wait_until_different env s turns fuel e w)
    unfolding wait_until_different
    wait_until_different-Returns zero w kept h m n = absurd (omega arith)
    wait_until_different-Returns (suc turns) w kept h m n =
        Returns-bind (LastTurn w) (Observed env e w₀)
          (if_changed (wait_until_different env s turns fuel e)) (s.wait_raw_untimed fuel e) w
          (last_turn w kept h n)
          (if_changed-Returns turns (wait_until_different-Returns turns) w kept m n)

-- For every lawful strategy and a log that kept the protocol of the monitor: if from step `t₀` on
-- the word differs from the expected value, the filtered wait returns with turns and fuel for the
-- steps until then, and the value that it returns was observed: it is not the expected value, the
-- word had it at the step before, no hardware wait was executed that was not armed and rechecked,
-- and the thread stored nothing.
pub wait_until_different_total :
    (env : Env) (s : StrategyImpl) (law : IsLawful env s) (turns fuel e t₀ : ℕ) (w : World)
    → Settles env w.word e none t₀
    → IsGuarded env e w
    → t₀ - w.time < turns
    → t₀ - w.time < fuel
    → Returns (Observed env e w) (wait_until_different env s turns fuel e w)
wait_until_different_total env s law turns fuel e t₀ w settles h m n =
    wait_until_different-Returns env s law fuel e w t₀ settles turns w (Kept-refl w) h m n

-- Whatever the environment does and however turns and fuel are chosen, if the log kept the
-- protocol of the monitor, a value that the filtered wait of a lawful strategy returns was
-- observed: it is not the expected value, the word had it at the step before, the protocol is
-- kept, and the thread stored nothing.
pub wait_until_different_sound :
    (env : Env) (s : StrategyImpl) (law : IsLawful env s) (turns fuel e : ℕ) (w : World)
    → IsGuarded env e w
    → Upto (Observed env e w) (wait_until_different env s turns fuel e w)
wait_until_different_sound env s law turns fuel e w h =
    wait_until_different-Observed env s law fuel e w turns w (Kept-refl w) h

-- What `wait_if_equal` may return: a value that was observed, or, where the last thing that the thread
-- did was an Acquire load of the expected value, that nothing is known.
abbrev pub RawObserved : Env → ℕ → World → WaitResult ℕ → World → Type 0
RawObserved env e w₀ (WaitResult.changed v) w = Observed env e w₀ v w
RawObserved env e w₀ WaitResult.unclassified w =
    Evidence e none WaitTimeoutResult.unclassified w.trace
    × Kept w₀ w
    × (w₀.time < w.time)
    × IsGuarded env e w

drop_timeout-RawObserved :
    (env : Env) (s : StrategyImpl) (law : IsLawful env s) (fuel e : ℕ) (w : World)
    (r : WaitTimeoutResult ℕ) (u : World)
    → Turn env s law fuel e w w r u
    → RawObserved env e w (drop_timeout r) u × (blocks u.trace ≤ 1 + blocks w.trace)
unfolding drop_timeout
drop_timeout-RawObserved env s law fuel e w (WaitTimeoutResult.changed v) u h =
    (observed env s law fuel e w w (Kept-refl w) v u h, h.1.2)
drop_timeout-RawObserved env s law fuel e w WaitTimeoutResult.unclassified u h =
    ((h.0.0.0, Kept-Steady 1 w w u tt (Kept-refl w) h.1, h.1.0, h.0.1), h.1.2)
drop_timeout-RawObserved env s law fuel e w WaitTimeoutResult.timed_out u h =
    absurd (never-timed_out e u.trace h.0.0.0)

-- If the log kept the protocol of the monitor, a raw wait of a lawful strategy that returns has
-- blocked or yielded at most once. A change that it reports was observed, and where it reports none,
-- the last thing that the thread did was an Acquire load of the expected value; it stored nothing and
-- kept the protocol in either case.
pub wait_if_equal_sound :
    (env : Env) (s : StrategyImpl) (law : IsLawful env s) (fuel e : ℕ) (w : World)
    → IsGuarded env e w
    → Upto
        (λ r u. RawObserved env e w r u × (blocks u.trace ≤ 1 + blocks w.trace))
        (wait_if_equal env s fuel e w)
unfolding wait_if_equal
wait_if_equal_sound env s law fuel e w h =
    Upto-bind (Turn env s law fuel e w w) _ (λ r u. some (drop_timeout r, u))
      (s.wait_raw_untimed fuel e) w (turn env s law fuel e w w h)
      (drop_timeout-RawObserved env s law fuel e w)

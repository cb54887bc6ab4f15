-- ===== src/Strategy/Timed.antt =====
-- The timed public waits over a lawful strategy: what they return, and that they return.
use snoozer.Prelude.{ℕ, zero, suc, ◌-◌, ◌<◌, refl, sym, subst, some, arith}
use snoozer.Machine.{Env, World, tick}
use snoozer.Outcome.{Upto, Returns, Upto-map, Upto-bind, Upto-both, Returns-bind, Returns-meet}
use snoozer.Wait.{Deadline, WaitTimeoutResult, WaitUntilTimeoutResult, new_deadline}
use snoozer.Wait.Monitor.{IsGuarded, Sound}
use snoozer.Wait.Blocking.{Steady, Kept, Kept-Steady}
use snoozer.Wait.Progress.{Settles, Progress}
use snoozer.Strategy.{
  StrategyImpl, if_conclusive, wait_if_equal_timeout, wait_until_deadline,
  wait_until_different_timeout,
}
use snoozer.Strategy.Laws.{IsLawful}

-- A filtered result as the raw result that it passes on.
abbrev pub raw_result : WaitUntilTimeoutResult ℕ → WaitTimeoutResult ℕ
raw_result (WaitUntilTimeoutResult.changed v) = WaitTimeoutResult.changed v
raw_result WaitUntilTimeoutResult.timed_out = WaitTimeoutResult.timed_out

-- the deadline that a timed wait makes when it starts
abbrev pub deadline_at : Env → World → ℕ → Deadline
deadline_at env w timeout = record { started = env.clock w.time; timeout = timeout }

-- The verdict is justified by what the thread saw last, and the thread stored nothing.
abbrev pub Verdict : Env → ℕ → Deadline → World → WaitUntilTimeoutResult ℕ → World → Type 0
Verdict env e d w₀ r w = Sound env e (some d) (raw_result r) w × Kept w₀ w × (w₀.time < w.time)

module _ (env : Env) (s : StrategyImpl) (law : IsLawful env s) (fuel e : ℕ) (d : Deadline)
    (w₀ : World) where
  abbrev Turn : World → WaitTimeoutResult ℕ → World → Type 0
  Turn w r u = Sound env e (some d) r u × Steady 1 w r u

  turn : (w : World) → IsGuarded env e w → Upto (Turn w) (s.wait_raw fuel e (some d) w)
  turn w h =
      Upto-both _ _ (s.wait_raw fuel e (some d) w) (law.sound fuel e (some d) w h)
        (law.steady fuel e (some d) w)

  module _ (turns : ℕ)
      (again : (u : World)
        → Kept w₀ u
        → IsGuarded env e u
        → Upto (Verdict env e d w₀) (wait_until_deadline env s turns fuel e d u))
      (w : World) (kept : Kept w₀ w) where
    if_conclusive-Verdict :
        (r : WaitTimeoutResult ℕ) (u : World)
        → Turn w r u
        → Upto (Verdict env e d w₀) (if_conclusive (wait_until_deadline env s turns fuel e d) r u)
    if_conclusive-Verdict (WaitTimeoutResult.changed v) u h =
        (h.0, Kept-Steady 1 w₀ w u tt kept h.1, omega arith)
    if_conclusive-Verdict WaitTimeoutResult.timed_out u h =
        (h.0, Kept-Steady 1 w₀ w u tt kept h.1, omega arith)
    if_conclusive-Verdict WaitTimeoutResult.unclassified u h =
        again u (Kept-Steady 1 w₀ w u tt kept h.1) h.0.1

  wait_until_deadline-Verdict :
      (turns : ℕ) (w : World)
      → Kept w₀ w
      → IsGuarded env e w
      → Upto (Verdict env e d w₀) (wait_until_deadline env s turns fuel e d w)
  unfolding wait_until_deadline
  wait_until_deadline-Verdict zero w kept h = tt
  wait_until_deadline-Verdict (suc turns) w kept h =
      Upto-bind (Turn w) (Verdict env e d w₀)
        (if_conclusive (wait_until_deadline env s turns fuel e d)) (s.wait_raw fuel e (some d)) w
        (turn w h) (if_conclusive-Verdict turns (wait_until_deadline-Verdict turns) w kept)

  module _ (t₀ : ℕ) (settles : Settles env w₀.word e (some d) t₀) where
    abbrev LastTurn : World → WaitTimeoutResult ℕ → World → Type 0
    LastTurn w r u = Progress t₀ w r u × Turn w r u

    last_turn :
        (w : World)
        → Kept w₀ w
        → IsGuarded env e w
        → t₀ - w.time < fuel
        → Returns (LastTurn w) (s.wait_raw fuel e (some d) w)
    last_turn w kept h enough =
        Returns-meet _ _ (s.wait_raw fuel e (some d) w)
          (law.progress fuel e t₀ (some d) w
            (subst (λ f. Settles env f e (some d) t₀) (sym kept.1) settles) enough)
          (turn w h)

    module _ (turns : ℕ)
        (again : (u : World)
          → Kept w₀ u
          → IsGuarded env e u
          → t₀ - u.time < turns
          → t₀ - u.time < fuel
          → Returns (Verdict env e d w₀) (wait_until_deadline env s turns fuel e d u))
        (w : World) (kept : Kept w₀ w) (more : t₀ - w.time < suc turns)
        (enough : t₀ - w.time < fuel) where
      if_conclusive-Returns :
          (r : WaitTimeoutResult ℕ) (u : World)
          → LastTurn w r u
          → Returns
              (Verdict env e d w₀)
              (if_conclusive (wait_until_deadline env s turns fuel e d) r u)
      if_conclusive-Returns (WaitTimeoutResult.changed v) u h =
          (h.1.0, Kept-Steady 1 w₀ w u tt kept h.1.1, omega arith)
      if_conclusive-Returns WaitTimeoutResult.timed_out u h =
          (h.1.0, Kept-Steady 1 w₀ w u tt kept h.1.1, omega arith)
      if_conclusive-Returns WaitTimeoutResult.unclassified u h =
          again u (Kept-Steady 1 w₀ w u tt kept h.1.1) h.1.0.1 (ground (arith, h.0.2)) (omega arith)

    wait_until_deadline-Returns :
        (turns : ℕ) (w : World)
        → Kept w₀ w
        → IsGuarded env e w
        → t₀ - w.time < turns
        → t₀ - w.time < fuel
        → Returns (Verdict env e d w₀) (wait_until_deadline env s turns fuel e d w)
    unfolding wait_until_deadline
    wait_until_deadline-Returns zero w kept h m n = absurd (omega arith)
    wait_until_deadline-Returns (suc turns) w kept h m n =
        Returns-bind (LastTurn w) (Verdict env e d w₀)
          (if_conclusive (wait_until_deadline env s turns fuel e d)) (s.wait_raw fuel e (some d)) w
          (last_turn w kept h n)
          (if_conclusive-Returns turns (wait_until_deadline-Returns turns) w kept m n)

module _ (env : Env) (s : StrategyImpl) (law : IsLawful env s) where
  ticked-Kept : (w : World) → Kept w (tick env w)
  ticked-Kept w = (omega arith, refl, refl, refl)

  -- For every lawful strategy and a log that kept the protocol of the monitor: a timed filtered
  -- wait returns once the word has changed for good or the clock stays past its deadline, with
  -- turns and fuel for the steps until then. It reports a change only of a value that was just
  -- observed, and a timeout only if it saw the expected value and then a clock at or past the
  -- deadline; the thread stores nothing and keeps the protocol.
  pub wait_until_different_timeout_total :
      (turns fuel e timeout t₀ : ℕ) (w : World)
      → Settles env w.word e (some (deadline_at env w timeout)) t₀
      → IsGuarded env e w
      → t₀ - w.time < turns
      → t₀ - w.time < fuel
      → Returns
          (Verdict env e (deadline_at env w timeout) w)
          (wait_until_different_timeout env s turns fuel e timeout w)
  unfolding wait_until_different_timeout new_deadline
  wait_until_different_timeout_total turns fuel e timeout t₀ w settles h m n =
      wait_until_deadline-Returns env s law fuel e (deadline_at env w timeout) w t₀ settles turns
        (tick env w) (ticked-Kept w) h (omega arith) (omega arith)

  -- Whatever the environment does and however turns and fuel are chosen, if the log kept the
  -- protocol of the monitor, the verdict that a timed filtered wait of a lawful strategy returns
  -- is justified: a change by a value just observed, a timeout by a load of the expected value and
  -- then a clock at or past the deadline.
  pub wait_until_different_timeout_sound :
      (turns fuel e timeout : ℕ) (w : World)
      → IsGuarded env e w
      → Upto
          (Verdict env e (deadline_at env w timeout) w)
          (wait_until_different_timeout env s turns fuel e timeout w)
  unfolding wait_until_different_timeout new_deadline
  wait_until_different_timeout_sound turns fuel e timeout w h =
      wait_until_deadline-Verdict env s law fuel e (deadline_at env w timeout) w turns (tick env w)
        (ticked-Kept w) h

  -- If the log kept the protocol of the monitor, a timed raw wait of a lawful strategy that
  -- returns has blocked or yielded at most once, stored nothing, and justifies each of its three
  -- results against the deadline that it made at its start.
  pub wait_if_equal_timeout-Sound :
      (fuel e timeout : ℕ) (w : World)
      → IsGuarded env e w
      → Upto
          (λ r u. Sound env e (some (deadline_at env w timeout)) r u × Steady 1 w r u)
          (wait_if_equal_timeout env s fuel e timeout w)
  unfolding wait_if_equal_timeout new_deadline
  wait_if_equal_timeout-Sound fuel e timeout w h =
      Upto-map _ _ (λ r u q. (q.0, (omega arith, q.1.1, omega arith, q.1.3, q.1.4)))
        (s.wait_raw fuel e (some (deadline_at env w timeout)) (tick env w))
        (turn env s law fuel e (deadline_at env w timeout) w (tick env w) h)
